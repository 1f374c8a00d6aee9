-- ===== src/Tests/Maps.antt =====
-- The theorems on the server's maps at the server of the tests.
use rosev_ircsystem.Common.{
  ◌≡◌, refl, ◌≢◌, true, false, not, ◌&&◌, some, [], ◌∷◌, ◌++◌, ◌==◌, if◌then◌else◌, arith,
}
use rosev_ircsystem.Text.{split, tolower, Text, lit, lowercased, text_eq, cons_head}
use rosev_ircsystem.Assoc.{nat_key, text_key, lookup, has_key}
use rosev_ircsystem.State.{Server, voice, Channel, Virtual}
use rosev_ircsystem.Message.{parse_message, drop_prefix, words}
use rosev_ircsystem.Send.Core.{IsQuiet}
use rosev_ircsystem.Server.Membership.{Inv, is_member}
use rosev_ircsystem.Server.Membership.Ready.{IsLive}
use rosev_ircsystem.Server.Connection.{disconnect_network_client}
use rosev_ircsystem.Server.Connection.Agreement.{disconnect_network_client-gone}
use rosev_ircsystem.Send.{is_user_registered}
use rosev_ircsystem.Server.Rooms.{
  channel_names, channel_key, skip_hash, has_to_identify, receive_message_join,
}
use rosev_ircsystem.Server.Rooms.Induction.{admits}
use rosev_ircsystem.Server.Rooms.Access.{
  IsOutside, receive_message_join-IsOutside, receive_message_join-admitted,
}
use rosev_ircsystem.Server.Users.{receive_message_nick}
use rosev_ircsystem.Server.Users.Agreement.{receive_message_nick-IsLive}
use rosev_ircsystem.Server.Talk.{send_to_channel}
use rosev_ircsystem.Server.Talk.Agreement.{IsTame}
use rosev_ircsystem.Server.Talk.Delivery.{
  sent_to, IsSilent, send_to_channel-delivered, send_to_channel-voiceless,
}
use rosev_ircsystem.NickServ as NickServ
use rosev_ircsystem.NickServ.Access.{IsPassword, identify-IsPassword, receive_command_ghost-wrong}
use rosev_ircsystem.VoteBot.Quiet.{IsReserved}
use rosev_ircsystem.Bots.{bots, no_bots}
use rosev_ircsystem.Bots.Tame.{bots-IsTame, bots-IsReserved}
use rosev_ircsystem.NetworkClient.{receive_message}
use rosev_ircsystem.NetworkClient.Agreement.{IsNamed, receive_message-Inv}
use rosev_ircsystem.Tests.{env, server, lobby, core-Inv, bob-IsLive, staff}

abbrev virt : Virtual
virt = bots 3 env

virt-IsTame : IsTame virt
virt-IsTame = bots-IsTame 3 env

virt-IsQuiet : IsQuiet virt
virt-IsQuiet = virt-IsTame.quiet

-- "JOIN s,l"
abbrev pub join_message : Text
join_message = 74 ∷ 79 ∷ 73 ∷ 78 ∷ 32 ∷ 115 ∷ 44 ∷ 108 ∷ []

pub join_message-IsNamed : IsNamed join_message
unfolding IsNamed parse_message drop_prefix words cons_head lit
join_message-IsNamed = λ rest e. ground (arith, e)

receive_message-Inv_example : Inv (receive_message env virt 1 join_message server).core
receive_message-Inv_example =
    receive_message-Inv env virt virt-IsTame 1 join_message server join_message-IsNamed refl
      core-Inv

receive_message_nick-IsLive_example :
    IsLive 1 (receive_message_nick env virt 1 ((67 ∷ []) ∷ []) server).core
receive_message_nick-IsLive_example =
    receive_message_nick-IsLive env virt virt-IsQuiet 1 ((67 ∷ []) ∷ []) server
      (λ rest e. ground (arith, e)) bob-IsLive

bob-IsOutside : IsOutside 1 (115 ∷ []) server.core
unfolding is_member lookup text_eq admits has_key
bob-IsOutside = record { outside = refl; closed = λ channel e. ground (arith, e) }

receive_message_join-IsOutside_example :
    IsOutside 1 (115 ∷ []) (receive_message_join env virt 1 ((115 ∷ []) ∷ []) server).core
receive_message_join-IsOutside_example =
    receive_message_join-IsOutside env virt virt-IsQuiet 1 (115 ∷ []) ((115 ∷ []) ∷ []) server
      bob-IsOutside

no_bots-IsSilent : (m : Text) → IsSilent no_bots m
no_bots-IsSilent m = record {
  quiet = record { core_kept = λ s c n. refl };
  network_kept = λ s c. refl;
}

send_to_channel-delivered_example :
    sent_to 2 (send_to_channel env no_bots 1 (108 ∷ []) (104 ∷ []) server) ≡ (
      if has_key 2 lobby.clients && not (2 == 1)
      then sent_to 2 server
        ++ ((lit ":"
              ++ ((66 ∷ []) ++ (lit " PRIVMSG #" ++ ((76 ∷ []) ++ (lit " :" ++ (104 ∷ []))))))
            ++ 13 ∷ 10 ∷ [])
          ∷ []
      else sent_to 2 server)
unfolding lookup text_eq
send_to_channel-delivered_example =
    send_to_channel-delivered env no_bots 1 2 (108 ∷ []) lobby (104 ∷ []) server
      (no_bots-IsSilent _) refl (refl, (refl, tt)) refl refl

bob-mute :
    (channel : Channel)
    → lookup (115 ∷ []) server.channels ≡ some channel
    → lookup 1 channel.clients ≢ some voice
unfolding lookup text_eq
bob-mute channel e f = ground (arith, e, f)

send_to_channel-voiceless_example :
    (send_to_channel env virt 1 (115 ∷ []) (104 ∷ []) server).network 2 ≡ server.network 2
send_to_channel-voiceless_example =
    send_to_channel-voiceless env virt 1 2 (115 ∷ []) (104 ∷ []) server bob-mute (λ e. ground arith)

identify-IsPassword_example :
    (IsPassword env (97 ∷ []) (120 ∷ [])
      → ((NickServ.identify env virt 3 2 (120 ∷ []) server).clients 2).user_state.is_identified
        ≡ true)
    × (¬ IsPassword env (97 ∷ []) (120 ∷ [])
        → (NickServ.identify env virt 3 2 (120 ∷ []) server).core ≡ server.core)
identify-IsPassword_example = identify-IsPassword env virt virt-IsQuiet 3 2 (120 ∷ []) server

wrong-IsPassword : ¬ IsPassword env (lowercased (65 ∷ [])) (121 ∷ [])
unfolding IsPassword lowercased lookup text_eq
wrong-IsPassword e = ground (arith, e)

receive_command_ghost-wrong_example :
    (NickServ.receive_command_ghost env virt 3 1 ((65 ∷ []) ∷ (121 ∷ []) ∷ []) server).core
    ≡ server.core
receive_command_ghost-wrong_example =
    receive_command_ghost-wrong env virt virt-IsQuiet 3 1 (65 ∷ []) (121 ∷ []) server
      wrong-IsPassword

bots-IsTame_example : IsTame (bots 3 env)
bots-IsTame_example = bots-IsTame 3 env

bots-IsReserved_example : IsReserved (bots 3 env)
bots-IsReserved_example = bots-IsReserved 3 env

abbrev without_bob : Server
without_bob = disconnect_network_client env virt 1 (81 ∷ []) server

disconnect_network_client-gone_example :
    ((without_bob.clients 1).shutdown_completed ≡ true)
    × (has_key 1 without_bob.network_clients ≡ false)
    × ((key : Text) → is_member without_bob.core key 1 ≡ false)
    × ((n : Text) → lookup n without_bob.nicknames ≢ some 1)
disconnect_network_client-gone_example =
    disconnect_network_client-gone env virt virt-IsQuiet 1 (81 ∷ []) server core-Inv

receive_message_join-admitted_example :
    is_member (receive_message_join env virt 3 ((35 ∷ 115 ∷ []) ∷ []) server).core (115 ∷ []) 3
    ≡ true
unfolding channel_names channel_key skip_hash split cons_head lowercased tolower lookup text_eq
    admits has_key is_user_registered has_to_identify lit
receive_message_join-admitted_example =
    receive_message_join-admitted env virt virt-IsQuiet 3 (35 ∷ 115 ∷ []) (115 ∷ []) staff server
      (λ e. ground (arith, e)) refl refl refl refl refl
