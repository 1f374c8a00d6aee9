-- ===== src/Startup/VirtualClients/Agreement.antt =====
-- The maps of the server while the virtual clients are added.
use rosev_ircsystem.Common.{
  update_same, ℕ, ◌≡◌, refl, sym, subst, ◌≢◌, false, none, some, List, [], ◌∷◌, arith, All, update,
}
use rosev_ircsystem.Text.{Text, lowercased, text_eq_iff}
use rosev_ircsystem.Assoc.{nat_key, text_key, lookup, insert, lookup-insert}
use rosev_ircsystem.State.{
  ClientStatus, ClientKind, network, nick_serv, log_bot, vote_bot, Channel, Client, Core, Server,
  Environment, Virtual, with_client, with_nicknames,
}
use rosev_ircsystem.Send.Core.{IsQuiet}
use rosev_ircsystem.Server.Membership.{Inv, leave, enter}
use rosev_ircsystem.Server.Membership.Ready.{IsReady}
use rosev_ircsystem.Server.Membership.Unused.{nameless-IsUnused, enlist-Inv}
use rosev_ircsystem.Server.Rooms.{receive_message_join}
use rosev_ircsystem.Server.Rooms.Induction.{receive_message_join_kept}
use rosev_ircsystem.Server.Rooms.Agreement.{leave-IsReady, enter-IsReady}
use rosev_ircsystem.LogBot.{join_logged}
use rosev_ircsystem.Bots.{virtual_client, post_init, add_virtual_client}
use rosev_ircsystem.Startup.VirtualClients.{enroll}

-- A virtual client to be added: its address and nickname.
abbrev pub Planned : Type 0
Planned = ℕ × Text

-- It has been added to no map, and its nickname is free.
pub record IsPending (k : Core) (planned : Planned) : Type 0 where
  pub nameless : (k.clients planned.0).nickname ≡ []
  pub alive : (k.clients planned.0).shutdown_completed ≡ false
  pub free : lookup (lowercased planned.1) k.nicknames ≡ none
  pub named : planned.1 ≢ []

-- Two of them have different addresses, and nicknames that differ also apart from the case of letters.
abbrev pub IsApart : Planned → Planned → Type 0
IsApart (a, n) (b, m) = (a ≢ b) × (lowercased n ≢ lowercased m)

abbrev pub AreApart : List Planned → Type 0
AreApart [] = Unit
AreApart (x ∷ xs) = All (IsApart x) xs × AreApart xs

-- A change of the object of `c` alone, beside channels and a free nickname, leaves the others
-- pending.
IsPending-kept :
    (k k' : Core) (x : Planned) (xs : List Planned)
    → ((d : ℕ) → x.0 ≢ d → k'.clients d ≡ k.clients d)
    → ((n : Text) → lowercased x.1 ≢ n → lookup n k'.nicknames ≡ lookup n k.nicknames)
    → All (IsApart x) xs
    → All (IsPending k) xs
    → All (IsPending k') xs
IsPending-kept k k' x [] same nicknames apart pending = tt
IsPending-kept k k' x (y ∷ xs) same nicknames apart pending = (
  record {
    nameless = rw (same y.0 apart.0.0) pending.0.nameless;
    alive = rw (same y.0 apart.0.0) pending.0.alive;
    free = rw (nicknames (lowercased y.1) apart.0.1) pending.0.free;
    named = pending.0.named;
  },
  IsPending-kept k k' x xs same nicknames apart.1 pending.1,
)

-- The virtual client `x` has been added, and `xs` are still to come.
pub record IsAdded (x : Planned) (xs : List Planned) (k : Core) : Type 0 where
  pub ready : IsReady x.0 k
  pub pending : All (IsPending k) xs

module _ (x : Planned) (xs : List Planned) (apart : All (IsApart x) xs) where
  leave-IsAdded :
      (key : Text) (channel : Channel) (k : Core)
      → lookup key k.channels ≡ some channel
      → IsAdded x xs k
      → IsAdded x xs (leave x.0 key channel k)
  leave-IsAdded key channel k e r = record {
    ready = leave-IsReady x.0 key channel k e r.ready;
    pending =
        IsPending-kept k (leave x.0 key channel k) x xs (λ d n. unfold leave in ground (arith, n))
          (λ n _. unfold leave in refl) apart r.pending;
  }

  enter-IsAdded :
      (key : Text) (st : ClientStatus) (channel : Channel) (k : Core)
      → lookup key k.channels ≡ some channel
      → IsAdded x xs k
      → IsAdded x xs (enter x.0 key st channel k)
  enter-IsAdded key st channel k e r = record {
    ready = enter-IsReady x.0 key st channel k e r.ready;
    pending =
        IsPending-kept k (enter x.0 key st channel k) x xs
          (λ d n. unfold enter in ground (arith, n)) (λ n _. unfold enter in refl) apart r.pending;
  }

  -- The maps with the new object; `client` is read back from the heap.
  abbrev enlisted : ClientKind → Client → Core → Core
  enlisted kind client k = record k {
    clients = update k.clients x.0 (virtual_client kind x.1);
    nicknames = insert client.nickname_lowercased x.0 k.nicknames;
  }

  enlisted-IsAdded :
      (kind : ClientKind) (k : Core)
      → Inv k
      → All (IsPending k) (x ∷ xs)
      → IsAdded x xs (enlisted kind (virtual_client kind x.1) k)
  unfolding virtual_client
  enlisted-IsAdded kind k v (p, ps) = record {
    ready = record {
      live = record {
        inv =
            enlist-Inv k x.0 (virtual_client kind x.1)
              (nameless-IsUnused x.0 k v p.nameless p.alive) refl refl refl p.named p.free v;
        alive = ground arith;
      };
      entitled = ground (arith, p.named);
    };
    pending =
        IsPending-kept k _ x xs (λ d n. ground (arith, n))
          (λ n e. ground (
            arith,
            e,
            text_eq_iff (lowercased x.1) n,
            lookup-insert (lowercased x.1) n x.0 k.nicknames p.free,
          ))
          apart ps;
  }

  module _ (env : Environment) (virt : Virtual) (quiet : IsQuiet virt) where
    join-IsAdded :
        (parameters : List Text) (s : Server)
        → IsAdded x xs s.core
        → IsAdded x xs (receive_message_join env virt x.0 parameters s).core
    join-IsAdded =
        receive_message_join_kept env virt quiet x.0 (IsAdded x xs) leave-IsAdded
          (λ key st channel k h _ q. enter-IsAdded key st channel k h q)

    join_logged-IsAdded :
        (streams : List (Text × List Text)) (s : Server)
        → IsAdded x xs s.core
        → IsAdded x xs (join_logged env x.0 virt streams s).core
    unfolding join_logged
    join_logged-IsAdded [] s r = r
    join_logged-IsAdded ((key, _) ∷ streams) s r =
        join_logged-IsAdded streams (receive_message_join env virt x.0 (key ∷ []) s)
          (join-IsAdded (key ∷ []) s r)

    post_init-IsAdded :
        (kind : ClientKind) (s : Server)
        → IsAdded x xs s.core
        → IsAdded x xs (post_init env virt kind x.0 s).core
    unfolding post_init
    post_init-IsAdded network s r = r
    post_init-IsAdded nick_serv s r = r
    post_init-IsAdded log_bot s r = join_logged-IsAdded (s.log_bots x.0).channel_streams s r
    post_init-IsAdded vote_bot s r = join-IsAdded _ s r

    pub enroll-IsAdded :
        (kind : ClientKind) (s : Server)
        → Inv s.core
        → All (IsPending s.core) (x ∷ xs)
        → IsAdded x xs (enroll env virt kind x.0 x.1 s).core
    unfolding enroll add_virtual_client with_client with_nicknames
    enroll-IsAdded kind s v p = post_init-IsAdded _ _ (
        subst (λ client. IsAdded x xs (enlisted kind client s.core))
          (sym (update_same s.clients x.0 (virtual_client kind x.1)))
          (enlisted-IsAdded kind s.core v p))
