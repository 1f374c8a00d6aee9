-- ===== src/VoteBot/Ballot/Orderly.antt =====
-- What a VoteBot says, and changes of its other fields, keep what holds of the votes.
use rosev_ircsystem.Common.{
  ℕ, ◌≤◌, ◌≡◌, refl, sym, subst, ap, ◌∙◌, true, Option, List, [], ◌∷◌, arith, length, update_same,
  All,
}
use rosev_ircsystem.Text.{Text}
use rosev_ircsystem.Assoc.{nat_key, text_key, Distinct}
use rosev_ircsystem.State.{
  Core, VoteBot, VoteParameters, Server, Environment, Virtual, with_vote_bot, with_network,
}
use rosev_ircsystem.Send.{is_network_kind, send_notice, send_notices, send_irc_message}
use rosev_ircsystem.VoteBot.{cleared, tell, tell_all, reset, send_to_channel}
use rosev_ircsystem.VoteBot.Tally.Counted.{InRange}
use rosev_ircsystem.VoteBot.Steady.{IsSteady, Still, tell-Still, say-Still}
use rosev_ircsystem.VoteBot.Quiet.{IsReserved}
use rosev_ircsystem.VoteBot.Ballot.{voted}
use rosev_ircsystem.VoteBot.Ballot.Preserved.{IsSpeaker, IsFair, cleared-IsFair}

InRange-weaken :
    (n m : ℕ) (votes : List (ℕ × VoteParameters)) → n ≤ m → InRange n votes → InRange m votes
InRange-weaken n m [] l h = tt
InRange-weaken n m ((c, p) ∷ votes) l h = (omega (arith, h.0), InRange-weaken n m votes l h.1)

pub other-IsFair :
    (k : Core) (b b' : VoteBot)
    → length b.options ≤ length b'.options
    → b'.vote_count ≡ b.vote_count
    → b'.votes ≡ b.votes
    → IsFair k b
    → IsFair k b'
other-IsFair k b b' l e f v = record {
  ballot = record {
    counted = e ∙ v.ballot.counted ∙ sym (ap voted f);
    in_range =
        subst (InRange (length b'.options)) (sym f)
          (InRange-weaken (length b.options) (length b'.options) b.votes l v.ballot.in_range);
    distinct = subst Distinct (sym f) v.ballot.distinct;
    pending = λ n. ground (arith, e, ap length f, v.ballot.pending (λ z. n (f ∙ z)));
  };
  electors =
      subst (All (λ (w : ℕ × VoteParameters). is_network_kind (k.clients w.0).kind ≡ true)) (sym f)
        v.electors;
}

module _ (env : Environment) (virt : Virtual) (steady : IsSteady virt) (reserved : IsReserved virt)
    (self : ℕ) (k : Core) (speaker : IsSpeaker k self) where
  -- The maps are still these, and the votes are in order.
  pub record IsOrderly (t : Server) : Type 0 where
    pub same : t.core ≡ k
    pub fair : IsFair k (t.vote_bots self)

  pub kept-IsOrderly : (t u : Server) → IsOrderly t → Still k t.vote_bots u → IsOrderly u
  kept-IsOrderly t u r h = record {
    same = h.0;
    fair = subst (λ w. IsFair k (w self)) (sym h.1) r.fair;
  }

  pub tell-IsOrderly :
      (c : ℕ) (m : Text) (t : Server)
      → is_network_kind (k.clients c).kind ≡ true
      → IsOrderly t
      → IsOrderly (tell env virt self c m t)
  tell-IsOrderly c m t n r = kept-IsOrderly t _ r (
      tell-Still env virt steady k t.vote_bots self speaker.virtual speaker.plain c m t n
        (r.same, refl))

  pub say-IsOrderly :
      (m : Text) (t : Server) → IsOrderly t → IsOrderly (send_to_channel env virt self m t)
  say-IsOrderly m t r = kept-IsOrderly t _ r (
      say-Still env virt steady k t.vote_bots self speaker.virtual speaker.plain m t (r.same, refl))

  pub change-IsOrderly :
      (f : VoteBot → VoteBot) (t : Server)
      → t.core ≡ k
      → IsFair k (f (t.vote_bots self))
      → IsOrderly (with_vote_bot f self t)
  unfolding with_vote_bot
  change-IsOrderly f t e v = record {
    same = e;
    fair = subst (IsFair k) (sym (update_same t.vote_bots self (f (t.vote_bots self)))) v;
  }

  -- A change of neither the votes nor their count, where no option goes away.
  pub other-IsOrderly :
      (f : VoteBot → VoteBot) (t : Server)
      → ((b : VoteBot) → length b.options ≤ length (f b).options)
      → ((b : VoteBot) → (f b).vote_count ≡ b.vote_count)
      → ((b : VoteBot) → (f b).votes ≡ b.votes)
      → IsOrderly t
      → IsOrderly (with_vote_bot f self t)
  other-IsOrderly f t longer count votes r = change-IsOrderly f t r.same (
      other-IsFair k (t.vote_bots self) (f (t.vote_bots self)) (longer _) (count _) (votes _)
        r.fair)

  pub reset-IsOrderly : (t : Server) → IsOrderly t → IsOrderly (reset env virt self t)
  unfolding reset
  reset-IsOrderly t r = change-IsOrderly cleared t r.same (cleared-IsFair k (t.vote_bots self))

  pub tell_all-IsOrderly :
      (c : ℕ) (ms : List Text) (t : Server)
      → is_network_kind (k.clients c).kind ≡ true
      → IsOrderly t
      → IsOrderly (tell_all env virt self c ms t)
  unfolding tell_all
  tell_all-IsOrderly c [] t n r = r
  tell_all-IsOrderly c (m ∷ ms) t n r = tell_all-IsOrderly c ms _ n (tell-IsOrderly c m t n r)

  notice-IsOrderly :
      (c : ℕ) (o : Option ℕ) (m : Text) (t : Server)
      → is_network_kind (k.clients c).kind ≡ true
      → IsOrderly t
      → IsOrderly (send_notice env virt c o m t)
  unfolding send_notice send_irc_message with_network
  notice-IsOrderly c o m t n r =
      rw (ap (λ j. is_network_kind (j.clients c).kind) r.same ∙ n, send_notice, send_irc_message)
        (record { same = r.same; fair = r.fair })

  pub notices-IsOrderly :
      (c : ℕ) (o : Option ℕ) (ms : List Text) (t : Server)
      → is_network_kind (k.clients c).kind ≡ true
      → IsOrderly t
      → IsOrderly (send_notices env virt c o ms t)
  unfolding send_notices
  notices-IsOrderly c o [] t n r = r
  notices-IsOrderly c o (m ∷ ms) t n r = notices-IsOrderly c o ms _ n (notice-IsOrderly c o m t n r)
