-- ===== src/Server/Membership/Ready.antt =====
-- A client in the middle of a handler: the maps agree and it has not been shut down.
use rosev_ircsystem.Common.{ℕ, ◌≡◌, ◌≢◌, sym, subst, false, []}
use rosev_ircsystem.State.{Core}
use rosev_ircsystem.Server.Membership.{Inv}

pub record IsLive (c : ℕ) (k : Core) : Type 0 where
  pub inv : Inv k
  pub alive : (k.clients c).shutdown_completed ≡ false

-- It has a nickname, too.
pub record IsReady (c : ℕ) (k : Core) : Type 0 where
  pub live : IsLive c k
  pub open live use *
  pub entitled : (k.clients c).nickname ≢ []

pub IsLive-same : {c : ℕ} {k k' : Core} → k' ≡ k → IsLive c k → IsLive c k'
IsLive-same {c} e r = subst (IsLive c) (sym e) r

pub IsReady-same : {c : ℕ} {k k' : Core} → k' ≡ k → IsReady c k → IsReady c k'
IsReady-same {c} e r = subst (IsReady c) (sym e) r
