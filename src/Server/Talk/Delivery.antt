-- ===== src/Server/Talk/Delivery.antt =====
-- Who is sent a message to a channel.
use rosev_ircsystem.Common.{
  ℕ, ◌≡◌, refl, ap, ◌∙◌, ◌≢◌, inl, inr, true, not, ◌&&◌, Option, none, some, List, [], ◌∷◌, ◌++◌,
  arith, ◌==◌, if◌then◌else◌, if_elim, Bool-cases, Option-cases,
}
use rosev_ircsystem.Text.{Text, lit}
use rosev_ircsystem.Assoc.{nat_key, text_key, lookup, has_key, Distinct}
use rosev_ircsystem.State.{
  ClientStatus, no_status, voice, Channel, Server, Environment, Virtual, with_network,
}
use rosev_ircsystem.Outbox.{transcript, transcript-push_message}
use rosev_ircsystem.Reply.{Reply, reply_message, has_surplus, numeric_reply}
use rosev_ircsystem.Send.{is_network_client, send_irc_message, send_numeric_reply, send_filled}
use rosev_ircsystem.Send.Core.{IsQuiet, core-send_irc_message}
use rosev_ircsystem.Server.Talk.{send_others, send_to_members, send_to_channel}

-- What a client is sent in the end.
pub sent_to : ℕ → Server → List Text
unfolding transcript
sent_to d s = transcript (s.network d)

-- A virtual client that is sent the message sends nothing.
pub record IsSilent (virt : Virtual) (message : Text) : Type 0 where
  pub quiet : IsQuiet virt
  pub network_kept : (s : Server) (c : ℕ) → (virt.irc_message s c message).network ≡ s.network

module _ (env : Environment) (virt : Virtual) (message : Text)
    (silent : IsSilent virt message) where
  sent_to-send_irc_message :
      (d e : ℕ) (s : Server)
      → is_network_client d s ≡ true
      → sent_to d (send_irc_message env virt e message s)
        ≡ (if e == d then sent_to d s ++ (message ++ 13 ∷ 10 ∷ []) ∷ [] else sent_to d s)
  unfolding send_irc_message sent_to with_network
  sent_to-send_irc_message d e s h = ground (
    arith,
    transcript-push_message message (s.network d),
    ap (λ f. f d) (silent.network_kept s e),
  )

  -- Each member but the sender is sent the message once, and nobody else is sent anything.
  sent_to-send_others :
      (c d : ℕ) (members : List (ℕ × ClientStatus)) (s : Server)
      → Distinct members
      → is_network_client d s ≡ true
      → sent_to d (send_others env virt c members message s) ≡ (
          if has_key d members && not (d == c)
          then sent_to d s ++ (message ++ 13 ∷ 10 ∷ []) ∷ []
          else sent_to d s)
  unfolding send_others has_key lookup
  sent_to-send_others c d [] s u h = refl
  sent_to-send_others c d ((e, _) ∷ members) s (u, us) h = elim (Bool-cases (e == c)) [
    | inl q ↦ rw (q) (sent_to-send_others c d members s us h ∙ ground arith)
    | inr q ↦ rw (q) (
        sent_to-send_others c d members (send_irc_message env virt e message s) us
          (rw (core-send_irc_message env virt silent.quiet e message s) h)
        ∙ ground (arith, sent_to-send_irc_message d e s h))
  ]

-- A message of a client with voice to a channel is sent, with the client's prefix, exactly once to
-- each network client on the channel but the sender, and to no other network client. The channel
-- lists each member once, and virtual clients that are sent the message change no map and send
-- nothing.
pub send_to_channel-delivered :
    (env : Environment) (virt : Virtual) (c d : ℕ) (key : Text) (channel : Channel) (message : Text)
    (s : Server)
    → IsSilent virt (
        lit ":"
        ++ ((s.clients c).prefix ++ (lit " PRIVMSG #" ++ (channel.name ++ (lit " :" ++ message)))))
    → lookup key s.channels ≡ some channel
    → Distinct channel.clients
    → lookup c channel.clients ≡ some voice
    → is_network_client d s ≡ true
    → sent_to d (send_to_channel env virt c key message s) ≡ (
        if has_key d channel.clients && not (d == c)
        then sent_to d s
          ++ ((lit ":"
                ++ ((s.clients c).prefix
                    ++ (lit " PRIVMSG #" ++ (channel.name ++ (lit " :" ++ message)))))
              ++ 13 ∷ 10 ∷ [])
            ∷ []
        else sent_to d s)
unfolding send_to_channel send_to_members
send_to_channel-delivered env virt c d key channel message s silent e u v h =
    rw (send_to_channel, e, v) (sent_to-send_others env virt _ silent c d channel.clients s u h)

network-send_filled :
    (env : Environment) (virt : Virtual) (c d : ℕ) (m : Option Text) (s : Server)
    → is_network_client c s ≡ true
    → c ≢ d
    → (send_filled env virt c m s).network d ≡ s.network d
unfolding send_filled send_irc_message with_network
network-send_filled env virt c d none s h n = refl
network-send_filled env virt c d (some m) s h n = ground arith

network-send_numeric_reply :
    (env : Environment) (virt : Virtual) (c d : ℕ) (r : Reply) (args : List Text) (s : Server)
    → c ≢ d
    → (send_numeric_reply env virt c r args s).network d ≡ s.network d
unfolding send_numeric_reply
network-send_numeric_reply env virt c d r args s n = elim (Bool-cases (is_network_client c s)) [
  | inl e ↦ rw (e) (
      if_elim (λ (t : Server). t.network d ≡ s.network d) (has_surplus (reply_message env r) args)
        (network-send_filled env virt c d (numeric_reply env (s.clients c) r args) s e n)
        (network-send_filled env virt c d (numeric_reply env (s.clients c) r args) s e n))
  | inr e ↦ rw e
]

-- A message to a channel, of a client without voice on it or that is not on it, changes the
-- network state of no other client: no other client is sent anything.
pub send_to_channel-voiceless :
    (env : Environment) (virt : Virtual) (c d : ℕ) (key message : Text) (s : Server)
    → ((channel : Channel)
        → lookup key s.channels ≡ some channel
        → lookup c channel.clients ≢ some voice)
    → c ≢ d
    → (send_to_channel env virt c key message s).network d ≡ s.network d
unfolding send_to_channel send_to_members
send_to_channel-voiceless env virt c d key message s mute n =
    elim (Option-cases (lookup key s.channels)) [
      | inl e ↦ rw (send_to_channel, e) (network-send_numeric_reply env virt c d _ _ s n)
      | inr (channel, e) ↦
          rw (send_to_channel, e) (mute_members channel (lookup c channel.clients) (mute channel e))
    ]
  where
    mute_members :
        (channel : Channel) (o : Option ClientStatus)
        → o ≢ some voice
        → (send_to_members env virt c key channel message o s).network d ≡ s.network d
    mute_members channel none f = network-send_numeric_reply env virt c d _ _ s n
    mute_members channel (some no_status) f = network-send_numeric_reply env virt c d _ _ s n
    mute_members channel (some voice) f = absurd (f refl)
