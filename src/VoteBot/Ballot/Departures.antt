-- ===== src/VoteBot/Ballot/Departures.antt =====
-- What CVoteBot::SendIRCMessage sees of voters who leave keeps what holds of the votes.
use rosev_ircsystem.Common.{ℕ, ◌≡◌, refl, inl, inr, true, ◌||◌, some, if_elim, update, Option-cases}
use rosev_ircsystem.Text.{Text, lit, text_eq}
use rosev_ircsystem.Assoc.{nat_key, text_key, lookup}
use rosev_ircsystem.State.{VoteParameters, Server, Environment, Virtual, with_vote_bot}
use rosev_ircsystem.Send.{is_network_kind}
use rosev_ircsystem.VoteBot.Steady.{IsSteady}
use rosev_ircsystem.VoteBot.Ballot.{left, erase-All, left-IsCounted}
use rosev_ircsystem.VoteBot.Votes.{remove_vote, voter_left, watch_relay, send_irc_message}
use rosev_ircsystem.Relay.{Relay, from_server, malformed, from_client, parse_relay}
use rosev_ircsystem.VoteBot.Ballot.Preserved.{IsSpeaker, IsFair, checked-IsFair}

module _ (env : Environment) (virt : Virtual) (steady : IsSteady virt) (self : ℕ) where
  remove_vote-IsFair :
      (c : ℕ) (p : VoteParameters) (s : Server)
      → IsSpeaker s.core self
      → lookup c (s.vote_bots self).votes ≡ some p
      → IsFair s.core (s.vote_bots self)
      → IsFair s.core ((remove_vote env virt self c p s).vote_bots self)
  unfolding remove_vote with_vote_bot
  remove_vote-IsFair c p s speaker e v =
      checked-IsFair env virt steady self (left (s.vote_bots self) c p) s
        (record s { vote_bots = update s.vote_bots self (left (s.vote_bots self) c p) }) speaker
        (erase-All (λ w. is_network_kind (s.clients w.0).kind ≡ true) c (s.vote_bots self).votes
          v.electors)
        (left-IsCounted (s.vote_bots self) c p v.ballot e) (refl, refl)

  voter_left-IsFair :
      (user : Text) (s : Server)
      → IsSpeaker s.core self
      → IsFair s.core (s.vote_bots self)
      → IsFair s.core ((voter_left env virt self user s).vote_bots self)
  unfolding voter_left
  voter_left-IsFair user s speaker v = elim (Option-cases (lookup user s.nicknames)) [
    | inl h ↦ rw (voter_left, h) v
    | inr (c, h) ↦ elim (Option-cases (lookup c (s.vote_bots self).votes)) [
      | inl f ↦ rw (voter_left, h, f) v
      | inr (p, f) ↦ rw (voter_left, h, f) (remove_vote-IsFair c p s speaker f v)
    ]
  ]

  watch_relay-IsFair :
      (r : Relay) (s : Server)
      → IsSpeaker s.core self
      → IsFair s.core (s.vote_bots self)
      → IsFair s.core ((watch_relay env virt self r s).vote_bots self)
  unfolding watch_relay
  watch_relay-IsFair from_server s speaker v = v
  watch_relay-IsFair malformed s speaker v = v
  watch_relay-IsFair (from_client user command parameters) s speaker v =
      if_elim (λ (t : Server). IsFair s.core (t.vote_bots self))
        (text_eq command (lit "PART") || text_eq command (lit "QUIT"))
        (voter_left-IsFair user s speaker v) v

  -- A message that a VoteBot sees on its channel, PART and QUIT of voters included, keeps the
  -- votes in order: the vote count is the number of clients that have voted, each vote is for one
  -- of the options, each client has one vote, the voters are network clients, and unless there are
  -- no voters, one of them has not voted. The bot is a virtual client whose messages to a channel
  -- do not read like PART or QUIT, and virtual clients that are sent any other message change no
  -- VoteBot.
  pub send_irc_message-IsFair :
      (m : Text) (s : Server)
      → IsSpeaker s.core self
      → IsFair s.core (s.vote_bots self)
      → IsFair s.core ((send_irc_message env virt self m s).vote_bots self)
  unfolding send_irc_message
  send_irc_message-IsFair m s speaker v =
      if_elim (λ (t : Server). IsFair s.core (t.vote_bots self)) (s.vote_bots self).vote_started
        (watch_relay-IsFair (parse_relay m) s speaker v) v
