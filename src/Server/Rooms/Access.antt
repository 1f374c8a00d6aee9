-- ===== src/Server/Rooms/Access.antt =====
-- Who can become a member of a channel by JOIN.
use rosev_ircsystem.Common.{
  ℕ, ◌≡◌, ◌≢◌, ◌∙◌, inl, inr, true, false, not, ◌&&◌, ◌||◌, some, List, [], ◌∷◌, arith, Bool-cases,
}
use rosev_ircsystem.Text.{Text, lit, text_eq, text_eq_iff}
use rosev_ircsystem.Assoc.{has_key, nat_key, text_key, lookup, insert, erase, lookup-assign}
use rosev_ircsystem.State.{ClientStatus, Channel, Core, Server, Environment, Virtual}
use rosev_ircsystem.Send.Core.{IsQuiet}
use rosev_ircsystem.Server.Membership.{leave, enter, is_member, is_member-leave, is_member-enter}
use rosev_ircsystem.Server.Rooms.{
  receive_message_join, join_channel, join_channels, has_to_identify, channel_names,
}
use rosev_ircsystem.Send.{is_network_client, is_registered}
use rosev_ircsystem.Server.Rooms.Induction.{admits, receive_message_join_kept, core-enter_channel}

-- A client outside a channel that does not admit it.
pub record IsOutside (c : ℕ) (key : Text) (k : Core) : Type 0 where
  pub outside : is_member k key c ≡ false
  pub closed :
      (channel : Channel) → lookup key k.channels ≡ some channel → admits k c channel ≡ false

leave-IsOutside :
    (c : ℕ) (key j : Text) (channel : Channel) (k : Core)
    → lookup j k.channels ≡ some channel
    → IsOutside c key k
    → IsOutside c key (leave c j channel k)
leave-IsOutside c key j channel k e o = record {
  outside = rw (is_member-leave c c j key channel k e) (ground (arith, o.outside));
  closed = λ channel' h. closed_of channel' h;
}
  where
    closed_of :
        (channel' : Channel)
        → lookup key (leave c j channel k).channels ≡ some channel'
        → admits (leave c j channel k) c channel' ≡ false
    closed_of channel' h =
        unfold leave admits in
        ground (
          arith,
          lookup-assign j key (record channel { clients = erase c channel.clients }) channel
              k.channels e,
          text_eq_iff j key,
          o.closed channel,
          o.closed channel',
        )

enter-IsOutside :
    (c : ℕ) (key j : Text) (st : ClientStatus) (channel : Channel) (k : Core)
    → lookup j k.channels ≡ some channel
    → admits k c channel ≡ true
    → IsOutside c key k
    → IsOutside c key (enter c j st channel k)
enter-IsOutside c key j st channel k e a o = record {
  outside =
      rw (is_member-enter c c j key st channel k e)
        (ground (arith, o.outside, o.closed channel, text_eq_iff j key));
  closed = λ channel' h. closed_of channel' h;
}
  where
    closed_of :
        (channel' : Channel)
        → lookup key (enter c j st channel k).channels ≡ some channel'
        → admits (enter c j st channel k) c channel' ≡ false
    closed_of channel' h =
        unfold enter admits in
        ground (
          arith,
          lookup-assign j key (record channel { clients = insert c st channel.clients }) channel
              k.channels e,
          text_eq_iff j key,
          o.closed channel,
          o.closed channel',
        )

-- No JOIN, of however many channels, JOIN 0 included, makes a client a member of a channel that
-- does not admit it, that is, a network client that is not among the channel's allowed users,
-- where the channel has no observers; and the channel goes on not to admit it. Virtual clients
-- that are sent an IRC message are to change none of the maps.
pub receive_message_join-IsOutside :
    (env : Environment) (virt : Virtual) (quiet : IsQuiet virt) (c : ℕ) (key : Text)
    (parameters : List Text) (s : Server)
    → IsOutside c key s.core
    → IsOutside c key (receive_message_join env virt c parameters s).core
receive_message_join-IsOutside env virt quiet c key =
    receive_message_join_kept env virt quiet c (IsOutside c key) (leave-IsOutside c key)
      (enter-IsOutside c key)

is_member-there :
    (key : Text) (c : ℕ) (channel : Channel) (k : Core)
    → lookup key k.channels ≡ some channel
    → is_member k key c ≡ has_key c channel.clients
unfolding is_member
is_member-there key c channel k e = ground (arith, e)

module _ (env : Environment) (virt : Virtual) (quiet : IsQuiet virt) where
  not_refused :
      (c : ℕ) (channel : Channel) (s : Server)
      → admits s.core c channel ≡ true
      → (not (
            not (is_network_client c s)
            || has_key (s.clients c).nickname_lowercased channel.allowed_users)
          && not channel.allow_observers)
        ≡ false
  unfolding admits
  not_refused c channel s a = ground (arith, a)

  join_channel-admitted :
      (c : ℕ) (key : Text) (channel : Channel) (s : Server)
      → lookup key s.channels ≡ some channel
      → admits s.core c channel ≡ true
      → is_member (join_channel env virt c key s).core key c ≡ true
  unfolding join_channel
  join_channel-admitted c key channel s e a = elim (Bool-cases (has_key c channel.clients)) [
    | inl h ↦
        rw (join_channel, e, not_refused c channel s a, h)
          (is_member-there key c channel s.core e ∙ h)
    | inr h ↦
        rw (join_channel, e, not_refused c channel s a, h)
          (rw
            (
              core-enter_channel env virt quiet c key channel _ s,
              is_member-enter c c key key _ channel s.core e,
            )
            (ground (arith, text_eq_iff key key)))
  ]

  -- A registered client that need not identify and that a channel admits is a member of the channel
  -- after JOIN with this one channel. Virtual clients that are sent an IRC message are to change none
  -- of the maps.
  pub receive_message_join-admitted :
      (c : ℕ) (channels key : Text) (channel : Channel) (s : Server)
      → channels ≢ lit "0"
      → channel_names channels ≡ key ∷ []
      → lookup key s.channels ≡ some channel
      → is_registered c s ≡ true
      → has_to_identify env c s ≡ false
      → admits s.core c channel ≡ true
      → is_member (receive_message_join env virt c (channels ∷ []) s).core key c ≡ true
  unfolding receive_message_join join_channels
  receive_message_join-admitted c channels key channel s z n e r h a =
      rw (receive_message_join, r, not_zero, h, n) (join_channel-admitted c key channel s e a)
    where
      not_zero : text_eq channels (lit "0") ≡ false
      not_zero = ground (arith, text_eq_iff channels (lit "0"), z)
