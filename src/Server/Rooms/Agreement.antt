-- ===== src/Server/Rooms/Agreement.antt =====
-- JOIN, PART, NAMES and TOPIC keep the server's maps in agreement.
use rosev_ircsystem.Common.{ℕ, ◌≡◌, inl, inr, true, false, some, List, [], ◌∷◌, arith, Bool-cases}
use rosev_ircsystem.Text.{Text}
use rosev_ircsystem.Assoc.{nat_key, text_key, lookup}
use rosev_ircsystem.State.{ClientStatus, Channel, Core, Server, Environment, Virtual}
use rosev_ircsystem.Send.{is_registered, is_user_registered}
use rosev_ircsystem.Send.Core.{IsQuiet}
use rosev_ircsystem.Server.Membership.{leave, enter}
use rosev_ircsystem.Server.Membership.Ready.{IsLive, IsReady}
use rosev_ircsystem.Server.Membership.Preserved.{leave-Inv, enter-Inv}
use rosev_ircsystem.Server.Rooms.{receive_message_part, receive_message_join}
use rosev_ircsystem.Server.Rooms.Induction.{receive_message_part_kept, receive_message_join_kept}

pub leave-IsReady :
    (c : ℕ) (key : Text) (channel : Channel) (k : Core)
    → lookup key k.channels ≡ some channel
    → IsReady c k
    → IsReady c (leave c key channel k)
leave-IsReady c key channel k e r = record {
  live = record {
    inv = leave-Inv c key channel k e r.inv;
    alive = unfold leave in ground (arith, r.alive);
  };
  entitled = unfold leave in ground (arith, r.entitled);
}

pub enter-IsReady :
    (c : ℕ) (key : Text) (st : ClientStatus) (channel : Channel) (k : Core)
    → lookup key k.channels ≡ some channel
    → IsReady c k
    → IsReady c (enter c key st channel k)
enter-IsReady c key st channel k e r = record {
  live = record {
    inv = enter-Inv c key st channel k e r.alive r.entitled r.inv;
    alive = unfold enter in ground (arith, r.alive);
  };
  entitled = unfold enter in ground (arith, r.entitled);
}

-- A registered client has a nickname.
pub registered-IsReady :
    (c : ℕ) (s : Server) → is_registered c s ≡ true → IsLive c s.core → IsReady c s.core
unfolding is_user_registered
registered-IsReady c s e r = record { live = r; entitled = r.inv.titled c (ground arith) }

module _ (env : Environment) (virt : Virtual) (quiet : IsQuiet virt) where
  part_unregistered :
      (c : ℕ) (parameters : List Text) (s : Server)
      → is_registered c s ≡ false
      → receive_message_part env virt c parameters s ≡ s
  unfolding receive_message_part
  part_unregistered c [] s e = rw e
  part_unregistered c (name ∷ _) s e = rw e

  join_unregistered :
      (c : ℕ) (parameters : List Text) (s : Server)
      → is_registered c s ≡ false
      → receive_message_join env virt c parameters s ≡ s
  unfolding receive_message_join
  join_unregistered c [] s e = rw e
  join_unregistered c (name ∷ _) s e = rw e

  -- PART keeps the maps in agreement and leaves the client connected, whatever its parameters, as
  -- long as virtual clients that are sent an IRC message change none of the maps.
  pub receive_message_part-IsLive :
      (c : ℕ) (parameters : List Text) (s : Server)
      → IsLive c s.core
      → IsLive c (receive_message_part env virt c parameters s).core
  receive_message_part-IsLive c parameters s r = elim (Bool-cases (is_registered c s)) [
    | inl e ↦
        (receive_message_part_kept env virt quiet c (IsReady c) (leave-IsReady c) parameters s
          (registered-IsReady c s e r)).live
    | inr e ↦ rw (part_unregistered c parameters s e) r
  ]

  -- JOIN keeps the maps in agreement and leaves the client connected, whatever its parameters, as
  -- long as virtual clients that are sent an IRC message change none of the maps.
  pub receive_message_join-IsLive :
      (c : ℕ) (parameters : List Text) (s : Server)
      → IsLive c s.core
      → IsLive c (receive_message_join env virt c parameters s).core
  receive_message_join-IsLive c parameters s r = elim (Bool-cases (is_registered c s)) [
    | inl e ↦
        (receive_message_join_kept env virt quiet c (IsReady c) (leave-IsReady c)
          (λ key st channel k h _ q. enter-IsReady c key st channel k h q) parameters s
          (registered-IsReady c s e r)).live
    | inr e ↦ rw (join_unregistered c parameters s e) r
  ]
