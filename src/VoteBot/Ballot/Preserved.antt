-- ===== src/VoteBot/Ballot/Preserved.antt =====
-- CVoteBot::_CheckVotes and _ReceiveVote keep what holds of the votes.
use rosev_ircsystem.Common.{
  ℕ, ◌<◌, ◌≡◌, refl, sym, subst, ap, ◌∙◌, inl, inr, true, false, not, some, arith, ◌==◌, if_elim,
  if_cases, leb, length, update, [], ◌∷◌, is_empty, if◌then◌else◌, update_same, All, Bool-cases,
  Option-cases, ==_iff,
}
use rosev_ircsystem.Text.{Text}
use rosev_ircsystem.Assoc.{nat_key, text_key, lookup}
use rosev_ircsystem.State.{
  Core, VoteBot, VoteParameters, Server, Environment, Virtual, with_vote_bot,
}
use rosev_ircsystem.Send.{is_network_kind, undefined_behaviour}
use rosev_ircsystem.VoteBot.{cleared, tell, publish, check_votes, is_number}
use rosev_ircsystem.VoteBot.Tally.{tally}
use rosev_ircsystem.VoteBot.Tally.Counted.{InRange, tally-result}
use rosev_ircsystem.VoteBot.Steady.{IsSteady, IsPlain, Still, tell-Still, publish-cleared}
use rosev_ircsystem.VoteBot.Ballot.{
  changed, cast, IsBallot, IsCounted, cleared-IsBallot, voted-length, assign-All, changed-IsCounted,
  cast-IsCounted,
}
use rosev_ircsystem.VoteBot.Votes.{change_vote, first_vote, cast_vote, receive_number, receive_vote}

-- A virtual client that the others can tell from PART and QUIT.
pub record IsSpeaker (k : Core) (self : ℕ) : Type 0 where
  pub virtual : is_network_kind (k.clients self).kind ≡ false
  pub plain : IsPlain (k.clients self).prefix

-- The voters are network clients.
abbrev pub Electors : Core → VoteBot → Type 0
Electors k b = All (λ (w : ℕ × VoteParameters). is_network_kind (k.clients w.0).kind ≡ true) b.votes

-- The votes are in order, and the voters are network clients.
pub record IsFair (k : Core) (b : VoteBot) : Type 0 where
  pub ballot : IsBallot b
  pub electors : Electors k b

pub cleared-IsFair : (k : Core) (b : VoteBot) → IsFair k (cleared b)
unfolding cleared
cleared-IsFair k b = record { ballot = cleared-IsBallot b; electors = tt }

module _ (env : Environment) (virt : Virtual) (steady : IsSteady virt) (self : ℕ) where
  pub publish-tally :
      (k : Core) (v : ℕ → VoteBot) (s : Server)
      → IsSpeaker k self
      → Electors k (v self)
      → InRange (length (v self).options) (v self).votes
      → Still k v s
      → (publish env virt self
            (tally (length (s.vote_bots self).options) (s.vote_bots self).votes)
            s).vote_bots
          self
        ≡ cleared (v self)
  publish-tally k v s speaker n range h =
      let (results, e, _, _) = tally-result (length (v self).options) (v self).votes range in
      subst
        (λ (w : ℕ → VoteBot).
          (publish env virt self (tally (length (w self).options) (w self).votes) s).vote_bots self
          ≡ cleared (v self))
        (sym h.1)
        (rw (e) (
          ap (λ w. w self)
            (publish-cleared env virt steady k v self speaker.virtual speaker.plain results s n h).1
          ∙ update_same v self (cleared (v self))))

  check_votes-IsFair :
      (k : Core) (v : ℕ → VoteBot) (s : Server)
      → IsSpeaker k self
      → Electors k (v self)
      → IsCounted (v self)
      → Still k v s
      → IsFair k ((check_votes env virt self s).vote_bots self)
  unfolding check_votes
  check_votes-IsFair k v s speaker n counted h =
      elim (Bool-cases ((s.vote_bots self).vote_count == length (s.vote_bots self).votes)) [
        | inl e ↦
            rw (e, check_votes)
              (subst (IsFair k) (sym (publish-tally k v s speaker n counted.in_range h))
                (cleared-IsFair k (v self)))
        | inr e ↦
            rw (e, check_votes)
              (subst (λ w. IsFair k (w self)) (sym h.1)
                (record {
                  electors = n;
                  ballot = record {
                    counted = counted.counted;
                    in_range = counted.in_range;
                    distinct = counted.distinct;
                    pending = λ _. ground (
                      arith,
                      subst (λ w. ((w self).vote_count == length (w self).votes) ≡ false) h.1 e,
                      counted.counted,
                      voted-length (v self).votes,
                    );
                  };
                }))
      ]

  -- After a change of the votes, behind what the bot tells the voter.
  pub checked-IsFair :
      (b : VoteBot) (s t : Server)
      → IsSpeaker s.core self
      → Electors s.core b
      → IsCounted b
      → Still s.core (update s.vote_bots self b) t
      → IsFair s.core ((check_votes env virt self t).vote_bots self)
  checked-IsFair b s t speaker n counted h =
      check_votes-IsFair s.core (update s.vote_bots self b) t speaker
        (subst (Electors s.core) (sym (update_same s.vote_bots self b)) n)
        (subst IsCounted (sym (update_same s.vote_bots self b)) counted) h

  change_vote-Still :
      (c n : ℕ) (p : VoteParameters) (s : Server)
      → IsSpeaker s.core self
      → is_network_kind (s.clients c).kind ≡ true
      → Still s.core
          (update s.vote_bots self (changed (s.vote_bots self) c n p))
          (change_vote env virt self c p n s)
  unfolding change_vote with_vote_bot
  change_vote-Still c n p s speaker network =
      tell-Still env virt steady s.core _ self speaker.virtual speaker.plain c _
        (record s { vote_bots = update s.vote_bots self (changed (s.vote_bots self) c n p) })
        network (refl, refl)

  first_vote-Still :
      (c n : ℕ) (s : Server)
      → IsSpeaker s.core self
      → is_network_kind (s.clients c).kind ≡ true
      → Still s.core
          (update s.vote_bots self (cast (s.vote_bots self) c n))
          (first_vote env virt self c n s)
  unfolding first_vote with_vote_bot
  first_vote-Still c n s speaker network =
      tell-Still env virt steady s.core _ self speaker.virtual speaker.plain c _
        (record s { vote_bots = update s.vote_bots self (cast (s.vote_bots self) c n) }) network
        (refl, refl)

  cast_vote-IsFair :
      (c n : ℕ) (p : VoteParameters) (s : Server)
      → IsSpeaker s.core self
      → is_network_kind (s.clients c).kind ≡ true
      → lookup c (s.vote_bots self).votes ≡ some p
      → n < length (s.vote_bots self).options
      → IsFair s.core (s.vote_bots self)
      → IsFair s.core ((cast_vote env virt self c p n s).vote_bots self)
  unfolding cast_vote
  cast_vote-IsFair c n p s speaker network e l v =
      if_cases (λ (t : Server). IsFair s.core ((check_votes env virt self t).vote_bots self))
        p.has_voted (change_vote env virt self c p n s) (first_vote env virt self c n s)
        (λ h.
          checked-IsFair (changed (s.vote_bots self) c n p) s (change_vote env virt self c p n s)
            speaker
            (assign-All (λ w. is_network_kind (s.clients w.0).kind ≡ true) c
              (record p { option = n }) (s.vote_bots self).votes network_same v.electors)
            (changed-IsCounted (s.vote_bots self) c n p v.ballot e h l)
            (change_vote-Still c n p s speaker network))
        (λ h.
          checked-IsFair (cast (s.vote_bots self) c n) s (first_vote env virt self c n s) speaker
            (assign-All (λ w. is_network_kind (s.clients w.0).kind ≡ true) c
              (record { has_voted = true; option = n }) (s.vote_bots self).votes network_same
              v.electors)
            (cast-IsCounted (s.vote_bots self) c n p v.ballot e h l)
            (first_vote-Still c n s speaker network))
    where
      network_same : (d : ℕ) → (d == c) ≡ true → is_network_kind (s.clients d).kind ≡ true
      network_same d q =
          subst (λ i. is_network_kind (s.clients i).kind ≡ true) (sym ((==_iff d c).0 q)) network

  -- What the bot tells a network client changes no vote.
  pub told-IsFair :
      (c : ℕ) (m : Text) (s : Server)
      → IsSpeaker s.core self
      → is_network_kind (s.clients c).kind ≡ true
      → IsFair s.core (s.vote_bots self)
      → IsFair s.core ((tell env virt self c m s).vote_bots self)
  told-IsFair c m s speaker network v =
      subst (λ w. IsFair s.core (w self))
        (sym
          (tell-Still env virt steady s.core s.vote_bots self speaker.virtual speaker.plain c m s
            network (refl, refl)).1)
        v

  receive_number-IsFair :
      (c n : ℕ) (p : VoteParameters) (s : Server)
      → IsSpeaker s.core self
      → is_network_kind (s.clients c).kind ≡ true
      → lookup c (s.vote_bots self).votes ≡ some p
      → IsFair s.core (s.vote_bots self)
      → IsFair s.core ((receive_number env virt self c p n s).vote_bots self)
  unfolding receive_number
  receive_number-IsFair c n p s speaker network h v =
      if_cases (λ (t : Server). IsFair s.core (t.vote_bots self))
        (leb (length (s.vote_bots self).options) n) _ _ (λ _. told-IsFair c _ s speaker network v)
        (λ l. cast_vote-IsFair c n p s speaker network h (ground (arith, l)) v)

  -- The same where Number has not been initialized.
  unread-IsFair :
      (c n : ℕ) (m : Text) (p : VoteParameters) (s : Server)
      → IsSpeaker s.core self
      → is_network_kind (s.clients c).kind ≡ true
      → lookup c (s.vote_bots self).votes ≡ some p
      → IsFair s.core (s.vote_bots self)
      → IsFair s.core (
          (receive_number env virt self c p n
              (if is_empty m then undefined_behaviour s else s)).vote_bots
            self)
  unread-IsFair c n [] p s = receive_number-IsFair c n p (undefined_behaviour s)
  unread-IsFair c n (x ∷ m) p s = receive_number-IsFair c n p s

  -- A private message of a network client while a vote is running keeps the votes in order. The
  -- bot is a virtual client whose messages to a channel do not read like PART or QUIT, and virtual
  -- clients that are sent any other message change no VoteBot.
  pub receive_vote-IsFair :
      (c : ℕ) (m : Text) (s : Server)
      → IsSpeaker s.core self
      → is_network_kind (s.clients c).kind ≡ true
      → IsFair s.core (s.vote_bots self)
      → IsFair s.core ((receive_vote env virt self c m s).vote_bots self)
  unfolding receive_vote
  receive_vote-IsFair c m s speaker network v =
      elim (Option-cases (lookup c (s.vote_bots self).votes)) [
        | inl h ↦ rw (receive_vote, h) (told-IsFair c _ s speaker network v)
        | inr (p, h) ↦
            rw (receive_vote, h)
              (if_elim (λ (t : Server). IsFair s.core (t.vote_bots self)) (not (is_number m))
                (told-IsFair c _ s speaker network v) (unread-IsFair c _ m p s speaker network h v))
      ]
