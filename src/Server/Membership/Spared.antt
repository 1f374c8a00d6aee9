-- ===== src/Server/Membership/Spared.antt =====
-- What the end of a client's connection leaves as it is: what the maps have for another client.
use rosev_ircsystem.Common.{
  ℕ, ◌≡◌, refl, ap, ◌∙◌, ◌≢◌, inl, inr, true, false, some, arith, Bool-cases,
}
use rosev_ircsystem.Text.{Text, text_eq_iff}
use rosev_ircsystem.Assoc.{nat_key, text_key, lookup, has_key, has_key-erase, lookup-erase}
use rosev_ircsystem.State.{Core}
use rosev_ircsystem.Server.Membership.{
  is_member, is_member-drop_channels, close, drop_channels, Inv,
}
use rosev_ircsystem.Server.Membership.Preserved.{
  clients-drop_channels, nicknames-drop_channels, network_clients-drop_channels,
}

pub unlisted :
    (c : ℕ) (k : Core)
    → Inv k
    → (k.clients c).shutdown_completed ≡ true
    → has_key c k.network_clients ≡ false
unlisted c k v e = elim (Bool-cases (has_key c k.network_clients)) [
  | inl h ↦ ground (arith, e, v.listed c h)
  | inr h ↦ h
]

-- What the maps k' have for a client that the maps k have for it.
abbrev pub Spares : ℕ → Core → Core → Type 0
Spares d k k' =
    (k'.clients d ≡ k.clients d)
    × ((key : Text) → is_member k' key d ≡ is_member k key d)
    × (has_key d k'.network_clients ≡ has_key d k.network_clients)
    × ((n : Text) → lookup n k.nicknames ≡ some d → lookup n k'.nicknames ≡ some d)

is_member-close :
    (c d : ℕ) (key : Text) (k : Core) → is_member (close c k) key d ≡ is_member k key d
unfolding close is_member
is_member-close c d key k = refl

pub close-drop_channels-Spares :
    (c d : ℕ) (k : Core)
    → c ≢ d
    → (k.clients c).shutdown_completed ≡ false
    → Inv k
    → Spares d k (close c (drop_channels c (k.clients c).joined_channels k))
close-drop_channels-Spares c d k n alive v =
    let joined = (k.clients c).joined_channels in
    let clients = ap (λ f. f d) (clients-drop_channels c joined k) in
    let client = ap (λ f. f c) (clients-drop_channels c joined k) in
    let lower = (k.clients c).nickname_lowercased in
    (
      unfold close in ground (arith, n, clients),
      λ key.
          is_member-close c d key _ ∙ is_member-drop_channels c d joined key k ∙ ground (arith, n),
      unfold close in
          ground (
            arith,
            n,
            network_clients-drop_channels c joined k,
            has_key-erase c d k.network_clients,
          ),
      λ m h.
          unfold close in
          ground (
            arith,
            n,
            h,
            client,
            nicknames-drop_channels c joined k,
            lookup-erase lower m k.nicknames,
            text_eq_iff lower m,
            v.named c alive,
          ),
    )
