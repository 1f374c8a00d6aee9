-- ===== src/VoteBot/Steady.antt =====
-- What a VoteBot says leaves the VoteBots as they are: only PART and QUIT make one act.
use rosev_ircsystem.Common.{
  ℕ, ◌≡◌, ap, ◌∙◌, inl, inr, Bool, true, false, ◌||◌, Option, none, some, List, [], ◌∷◌, ◌++◌, ◌==◌,
  if_elim, update, All, Option-cases,
}
use rosev_ircsystem.Text.{Text, lit, text_eq}
use rosev_ircsystem.Assoc.{nat_key, text_key, lookup}
use rosev_ircsystem.State.{
  ClientStatus, no_status, voice, Channel, Core, VoteBot, VoteParameters, Server, Environment,
  Virtual, with_network, with_vote_bot,
}
use rosev_ircsystem.Relay.{Relay, from_server, malformed, from_client, parse_relay}
use rosev_ircsystem.Reply.{Reply}
use rosev_ircsystem.Send.{
  is_network_client, is_network_kind, is_registered, send_irc_message, send_numeric_reply,
  send_private_message,
}
use rosev_ircsystem.Send.Core.{IsQuiet, core-send_irc_message}
use rosev_ircsystem.Server.Talk.{
  send_others, send_to_members, send_to_channel, receive_message_privmsg, send_to,
}
use rosev_ircsystem.VoteBot as Bot
use rosev_ircsystem.VoteBot.{
  cleared, tell, tell_all, reset, send_lines, tell_voters, publish, channel_name, result_lines,
}

unfoldable pub is_departure : Relay → Bool
is_departure from_server = false
is_departure malformed = false
is_departure (from_client user command parameters) =
    text_eq command (lit "PART") || text_eq command (lit "QUIT")

-- A virtual client that is sent anything but a departure changes no VoteBot.
pub record IsSteady (virt : Virtual) : Type 0 where
  pub quiet : IsQuiet virt
  pub votes_kept :
      (s : Server) (c : ℕ) (m : Text)
      → is_departure (parse_relay m) ≡ false
      → (virt.irc_message s c m).vote_bots ≡ s.vote_bots

-- No message that a client with this prefix sends to a channel reads like a departure.
unfoldable pub IsPlain : Text → Type 0
IsPlain prefix =
    (m : Text) → is_departure (parse_relay (lit ":" ++ (prefix ++ (lit " PRIVMSG #" ++ m)))) ≡ false

-- The maps and the VoteBots are these.
abbrev pub Still : Core → (ℕ → VoteBot) → Server → Type 0
Still k v s = (s.core ≡ k) × (s.vote_bots ≡ v)

module _ (env : Environment) (virt : Virtual) (steady : IsSteady virt) (k : Core)
    (v : ℕ → VoteBot) where
  send_irc_message-Still :
      (d : ℕ) (m : Text) (s : Server)
      → is_departure (parse_relay m) ≡ false
      → Still k v s
      → Still k v (send_irc_message env virt d m s)
  unfolding send_irc_message with_network
  send_irc_message-Still d m s n (e, f) = (
    core-send_irc_message env virt steady.quiet d m s ∙ e,
    if_elim (λ (t : Server). t.vote_bots ≡ v) (is_network_client d s) f
        (steady.votes_kept s d m n ∙ f),
  )

  send_others-Still :
      (c : ℕ) (members : List (ℕ × ClientStatus)) (m : Text) (s : Server)
      → is_departure (parse_relay m) ≡ false
      → Still k v s
      → Still k v (send_others env virt c members m s)
  unfolding send_others
  send_others-Still c [] m s n h = h
  send_others-Still c ((d, _) ∷ members) m s n h =
      send_others-Still c members m _ n
        (if_elim (Still k v) (d == c) h (send_irc_message-Still d m s n h))

  module _ (self : ℕ) (virtual : is_network_kind (k.clients self).kind ≡ false)
      (plain : IsPlain (k.clients self).prefix) where
    -- The bot drops the replies that it is sent.
    reply-Still :
        (r : Reply) (args : List Text) (s : Server)
        → Still k v s
        → Still k v (send_numeric_reply env virt self r args s)
    unfolding send_numeric_reply
    reply-Still r args s (e, f) =
        rw (ap (λ j. is_network_kind (j.clients self).kind) e ∙ virtual, send_numeric_reply) (e, f)

    send_to_members-Still :
        (key : Text) (channel : Channel) (m : Text) (o : Option ClientStatus) (s : Server)
        → Still k v s
        → Still k v (send_to_members env virt self key channel m o s)
    unfolding send_to_members IsPlain
    send_to_members-Still key channel m none s h = reply-Still _ _ s h
    send_to_members-Still key channel m (some no_status) s h = reply-Still _ _ s h
    send_to_members-Still key channel m (some voice) s h =
        send_others-Still self channel.clients _ s
          (ap
              (λ j. is_departure (
                parse_relay (
                  lit ":"
                  ++ ((j.clients self).prefix
                      ++ (lit " PRIVMSG #" ++ (channel.name ++ (lit " :" ++ m)))))))
              h.0
            ∙ plain (channel.name ++ (lit " :" ++ m)))
          h

    send_to_channel-Still :
        (key m : Text) (s : Server)
        → Still k v s
        → Still k v (send_to_channel env virt self key m s)
    unfolding send_to_channel
    send_to_channel-Still key m s h = elim (Option-cases (lookup key s.channels)) [
      | inl e ↦ rw (send_to_channel, e) (reply-Still _ _ s h)
      | inr (channel, e) ↦
          rw (send_to_channel, e)
            (send_to_members-Still key channel m (lookup self channel.clients) s h)
    ]

    pub say-Still :
        (m : Text) (s : Server) → Still k v s → Still k v (Bot.send_to_channel env virt self m s)
    unfolding Bot.send_to_channel receive_message_privmsg send_to lit
    say-Still m s h = if_elim (Still k v) (is_registered self s) (send_to_channel-Still _ m s h) h

    send_lines-Still :
        (ms : List Text) (s : Server) → Still k v s → Still k v (send_lines env virt self ms s)
    unfolding send_lines
    send_lines-Still [] s h = h
    send_lines-Still (m ∷ ms) s h = send_lines-Still ms _ (say-Still m s h)

    pub tell-Still :
        (c : ℕ) (m : Text) (s : Server)
        → is_network_kind (k.clients c).kind ≡ true
        → Still k v s
        → Still k v (tell env virt self c m s)
    unfolding tell send_private_message send_irc_message with_network
    tell-Still c m s n (e, f) =
        rw
          (
            ap (λ j. is_network_kind (j.clients c).kind) e ∙ n,
            tell,
            send_private_message,
            send_irc_message,
          )
          (e, f)

    -- The voters are network clients.
    abbrev pub AreElectors : List (ℕ × VoteParameters) → Type 0
    AreElectors = All λ (w : ℕ × VoteParameters). is_network_kind (k.clients w.0).kind ≡ true

    tell_voters-Still :
        (votes : List (ℕ × VoteParameters)) (m : Text) (s : Server)
        → AreElectors votes
        → Still k v s
        → Still k v (tell_voters env virt self votes m s)
    unfolding tell_voters
    tell_voters-Still [] m s n h = h
    tell_voters-Still ((c, _) ∷ votes) m s n h =
        tell_voters-Still votes m _ n.1 (tell-Still c m s n.0 h)

    -- Publishing the results clears the bot, and changes no other one.
    pub publish-cleared :
        (results : List ℕ) (s : Server)
        → AreElectors (v self).votes
        → Still k v s
        → Still k (update v self (cleared (v self))) (publish env virt self (some results) s)
    unfolding publish reset with_vote_bot
    publish-cleared results s n h =
        let told = tell_voters-Still (s.vote_bots self).votes _ s (rw (h.1) n) h in
        let lines = send_lines-Still _ _ told in
        let total = say-Still _ _ lines in
        (total.0, ap (λ w. update w self (cleared (w self))) total.1)
