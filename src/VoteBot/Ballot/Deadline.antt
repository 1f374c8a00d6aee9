-- ===== src/VoteBot/Ballot/Deadline.antt =====
-- CVoteBot::_VoteDeadline ends the vote.
use rosev_ircsystem.Common.{
  ℕ, ◌≡◌, refl, sym, subst, ap, ◌∙◌, true, arith, ◌==◌, length, update, update_same,
}
use rosev_ircsystem.Assoc.{nat_key, text_key}
use rosev_ircsystem.State.{Core, VoteBot, Server, Environment, Virtual, with_vote_bot}
use rosev_ircsystem.VoteBot.{cleared, check_votes}
use rosev_ircsystem.VoteBot.Tally.Counted.{InRange}
use rosev_ircsystem.VoteBot.Steady.{IsSteady, Still}
use rosev_ircsystem.VoteBot.Votes.{vote_deadline}
use rosev_ircsystem.VoteBot.Ballot.Preserved.{IsSpeaker, Electors, publish-tally}

module _ (env : Environment) (virt : Virtual) (steady : IsSteady virt) (self : ℕ) where
  check_votes-cleared :
      (k : Core) (v : ℕ → VoteBot) (s : Server)
      → IsSpeaker k self
      → Electors k (v self)
      → InRange (length (v self).options) (v self).votes
      → (v self).vote_count ≡ length (v self).votes
      → Still k v s
      → (check_votes env virt self s).vote_bots self ≡ cleared (v self)
  unfolding check_votes
  check_votes-cleared k v s speaker n range e h =
      rw
        (
          subst (λ (w : ℕ → VoteBot). ((w self).vote_count == length (w self).votes) ≡ true)
              (sym h.1) (ground (arith, e)),
          check_votes,
        )
        (publish-tally env virt steady self k v s speaker n range h)

  -- All votes count as given.
  abbrev closed : VoteBot → VoteBot
  closed b = record b { vote_count = length b.votes }

  -- The deadline of a vote ends it, whoever has not voted: the bot is as after _Reset. The votes
  -- are for options that there are, and the voters are network clients. The bot is a virtual
  -- client whose messages to a channel do not read like PART or QUIT, and virtual clients that are
  -- sent any other message change no VoteBot.
  pub vote_deadline-cleared :
      (s : Server)
      → IsSpeaker s.core self
      → Electors s.core (s.vote_bots self)
      → InRange (length (s.vote_bots self).options) (s.vote_bots self).votes
      → (vote_deadline env virt self s).vote_bots self ≡ cleared (s.vote_bots self)
  unfolding vote_deadline with_vote_bot cleared
  vote_deadline-cleared s speaker electors range =
      check_votes-cleared s.core (update s.vote_bots self (closed (s.vote_bots self)))
        (record s { vote_bots = update s.vote_bots self (closed (s.vote_bots self)) }) speaker
        (subst (Electors s.core) (sym (update_same s.vote_bots self (closed (s.vote_bots self))))
          electors)
        (subst (λ (b : VoteBot). InRange (length b.options) b.votes)
          (sym (update_same s.vote_bots self (closed (s.vote_bots self)))) range)
        (subst (λ (b : VoteBot). b.vote_count ≡ length b.votes)
          (sym (update_same s.vote_bots self (closed (s.vote_bots self)))) refl)
        (refl, refl)
      ∙ ap cleared (update_same s.vote_bots self (closed (s.vote_bots self)))
