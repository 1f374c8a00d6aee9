-- ===== src/VoteBot/Quiet.antt =====
-- VoteBot changes neither channels nor nicknames nor clients. Each lemma says so of one of its
-- functions, from a state with the maps k to one with the same maps.
pub mod Answers
use rosev_ircsystem.Common.{
  ℕ, ◌≡◌, refl, sym, ◌∙◌, inl, inr, Bool, true, false, not, ◌&&◌, ◌||◌, Option, none, some, List,
  [], ◌∷◌, ◌++◌, ◌==◌, leb, ltb, length, is_empty, if◌then◌else◌, if_elim, Bool-cases, Option-cases,
}
use rosev_ircsystem.Text.{Text, lit, lowercased, text_eq, decimal}
use rosev_ircsystem.Assoc.{nat_key, text_key, lookup, has_key}
use rosev_ircsystem.State.{
  ClientStatus, Core, VoteBot, VoteParameters, Server, Environment, Virtual, with_vote_bot,
}
use rosev_ircsystem.Send.{is_network_client, is_network_kind, is_registered, send_private_message}
use rosev_ircsystem.Send.Core.{IsQuiet, core-send_irc_message}
use rosev_ircsystem.Relay.{Relay, from_server, malformed, from_client, parse_relay}
use rosev_ircsystem.Server.Talk.{receive_message_privmsg, send_to}
use rosev_ircsystem.Server.Talk.Agreement.{core-send_to_channel}
use rosev_ircsystem.VoteBot.Tally.{tally}
use rosev_ircsystem.VoteBot.{
  cleared, tell, tell_all, reset, send_to_channel, send_lines, tell_voters, publish, check_votes,
  is_vote_prepared, channel_name, is_number, result_lines,
}
use rosev_ircsystem.VoteBot.Votes.{
  cast_vote, receive_number, receive_vote, vote_deadline, remove_vote, voter_left, watch_relay,
  send_irc_message,
}

-- A private message from a virtual client to a virtual client changes nothing of the three maps.
pub record IsReserved (virt : Virtual) : Type 0 where
  pub quiet : IsQuiet virt
  pub private_message_kept :
      (s : Server) (d c : ℕ) (message : Text)
      → is_network_client c s ≡ false
      → (virt.private_message s d c message).core ≡ s.core

pub core-with_vote_bot :
    (f : VoteBot → VoteBot) (b : ℕ) (s : Server) → (with_vote_bot f b s).core ≡ s.core
unfolding with_vote_bot
core-with_vote_bot f b s = refl

module _ (env : Environment) (virt : Virtual) (reserved : IsReserved virt) (self : ℕ) (k : Core)
    (virtual : is_network_kind (k.clients self).kind ≡ false) where
  pub tell_kept : (c : ℕ) (m : Text) (s : Server) → s.core ≡ k → (tell env virt self c m s).core ≡ k
  unfolding tell send_private_message
  tell_kept c m s e = elim (Bool-cases (is_network_client c s)) [
    | inl h ↦ rw (h) (core-send_irc_message env virt reserved.quiet c _ s ∙ e)
    | inr h ↦ rw (h) (reserved.private_message_kept s c self m (rw (e) virtual) ∙ e)
  ]

  pub tell_all_kept :
      (c : ℕ) (ms : List Text) (s : Server) → s.core ≡ k → (tell_all env virt self c ms s).core ≡ k
  unfolding tell_all
  tell_all_kept c [] s e = e
  tell_all_kept c (m ∷ ms) s e = tell_all_kept c ms _ (tell_kept c m s e)

  pub reset_kept : (s : Server) → s.core ≡ k → (reset env virt self s).core ≡ k
  unfolding reset
  reset_kept s e = core-with_vote_bot cleared self s ∙ e

  pub send_to_channel_kept :
      (m : Text) (s : Server) → s.core ≡ k → (send_to_channel env virt self m s).core ≡ k
  unfolding send_to_channel receive_message_privmsg send_to lit
  send_to_channel_kept m s e =
      if_elim (λ (t : Server). t.core ≡ k) (is_registered self s)
        (core-send_to_channel env virt reserved.quiet self _ m s ∙ e) e

  send_lines_kept :
      (ms : List Text) (s : Server) → s.core ≡ k → (send_lines env virt self ms s).core ≡ k
  unfolding send_lines
  send_lines_kept [] s e = e
  send_lines_kept (m ∷ ms) s e = send_lines_kept ms _ (send_to_channel_kept m s e)

  tell_voters_kept :
      (votes : List (ℕ × VoteParameters)) (m : Text) (s : Server)
      → s.core ≡ k
      → (tell_voters env virt self votes m s).core ≡ k
  unfolding tell_voters
  tell_voters_kept [] m s e = e
  tell_voters_kept ((c, _) ∷ votes) m s e = tell_voters_kept votes m _ (tell_kept c m s e)

  publish_kept :
      (results : Option (List ℕ)) (s : Server)
      → s.core ≡ k
      → (publish env virt self results s).core ≡ k
  unfolding publish
  publish_kept none s e = e
  publish_kept (some results) s e =
      reset_kept _ (send_to_channel_kept _ _ (send_lines_kept _ _ (tell_voters_kept _ _ s e)))

  pub check_votes_kept : (s : Server) → s.core ≡ k → (check_votes env virt self s).core ≡ k
  unfolding check_votes
  check_votes_kept s e =
      if_elim (λ (t : Server). t.core ≡ k)
        ((s.vote_bots self).vote_count == length (s.vote_bots self).votes) (publish_kept _ s e) e

  pub is_vote_prepared_kept :
      (c : ℕ) (s : Server) → s.core ≡ k → (is_vote_prepared env virt self c s).1.core ≡ k
  unfolding is_vote_prepared
  is_vote_prepared_kept c s e =
      if_elim (λ (t : Bool × Server). t.1.core ≡ k) (is_empty (s.vote_bots self).question)
        (tell_kept c _ s e)
        (if_elim (λ (t : Bool × Server). t.1.core ≡ k) (ltb (length (s.vote_bots self).options) 3)
          (tell_kept c _ s e) e)

  cast_vote_kept :
      (c : ℕ) (p : VoteParameters) (n : ℕ) (s : Server)
      → s.core ≡ k
      → (cast_vote env virt self c p n s).core ≡ k
  unfolding cast_vote
  cast_vote_kept c p n s e = check_votes_kept _ (
      if_elim (λ (t : Server). t.core ≡ k) p.has_voted
        (tell_kept c _ _ (core-with_vote_bot _ self s ∙ e))
        (tell_kept c _ _ (core-with_vote_bot _ self s ∙ e)))

  receive_number_kept :
      (c : ℕ) (p : VoteParameters) (number : ℕ) (s : Server)
      → s.core ≡ k
      → (receive_number env virt self c p number s).core ≡ k
  unfolding receive_number
  receive_number_kept c p number s e =
      if_elim (λ (t : Server). t.core ≡ k) (leb (length (s.vote_bots self).options) number)
        (tell_kept c _ s e) (cast_vote_kept c p number s e)

  pub receive_vote_kept :
      (c : ℕ) (m : Text) (s : Server) → s.core ≡ k → (receive_vote env virt self c m s).core ≡ k
  unfolding receive_vote
  receive_vote_kept c m s e = elim (Option-cases (lookup c (s.vote_bots self).votes)) [
    | inl h ↦ rw (receive_vote, h) (tell_kept c _ s e)
    | inr (p, h) ↦
        rw (receive_vote, h)
          (if_elim (λ (t : Server). t.core ≡ k) (not (is_number m)) (tell_kept c _ s e)
            (receive_number_kept c p _ _ (if_elim (λ (t : Server). t.core ≡ k) (is_empty m) e e)))
  ]

  remove_vote_kept :
      (c : ℕ) (p : VoteParameters) (s : Server)
      → s.core ≡ k
      → (remove_vote env virt self c p s).core ≡ k
  unfolding remove_vote
  remove_vote_kept c p s e = check_votes_kept _ (core-with_vote_bot _ self s ∙ e)

  voter_left_kept :
      (user : Text) (s : Server) → s.core ≡ k → (voter_left env virt self user s).core ≡ k
  unfolding voter_left
  voter_left_kept user s e = elim (Option-cases (lookup user s.nicknames)) [
    | inl h ↦ rw (voter_left, h) e
    | inr (c, h) ↦ elim (Option-cases (lookup c (s.vote_bots self).votes)) [
      | inl f ↦ rw (voter_left, h, f) e
      | inr (p, f) ↦ rw (voter_left, h, f) (remove_vote_kept c p s e)
    ]
  ]

  watch_relay_kept :
      (r : Relay) (s : Server) → s.core ≡ k → (watch_relay env virt self r s).core ≡ k
  unfolding watch_relay
  watch_relay_kept from_server s e = e
  watch_relay_kept malformed s e = e
  watch_relay_kept (from_client user command parameters) s e =
      if_elim (λ (t : Server). t.core ≡ k)
        (text_eq command (lit "PART") || text_eq command (lit "QUIT")) (voter_left_kept user s e) e

  pub send_irc_message_kept :
      (m : Text) (s : Server) → s.core ≡ k → (send_irc_message env virt self m s).core ≡ k
  unfolding send_irc_message
  send_irc_message_kept m s e =
      if_elim (λ (t : Server). t.core ≡ k) (s.vote_bots self).vote_started
        (watch_relay_kept (parse_relay m) s e) e

  pub vote_deadline_kept : (s : Server) → s.core ≡ k → (vote_deadline env virt self s).core ≡ k
  unfolding vote_deadline
  vote_deadline_kept s e = check_votes_kept _ (core-with_vote_bot _ self s ∙ e)
