-- ===== src/Server/Connection/Agreement.antt =====
-- DisconnectNetworkClient keeps the server's maps in agreement.
use rosev_ircsystem.Common.{
  ℕ, ◌≡◌, refl, sym, ap, subst, ◌∙◌, ◌≢◌, inl, inr, true, false, some, List, [], ◌∷◌, arith,
  if◌then◌else◌, if_elim, Bool-cases, Option-cases, is_empty, update,
}
use rosev_ircsystem.Text.{Text, text_eq_iff}
use rosev_ircsystem.Assoc.{nat_key, text_key, lookup, has_key, Set, erase}
use rosev_ircsystem.State.{
  ClientStatus, Client, Core, Server, Environment, Virtual, with_client, with_channel_map,
  with_nicknames, with_network, with_network_clients,
}
use rosev_ircsystem.Send.{◌▸◌, set_channel, remove_client, shutdown, is_initialized}
use rosev_ircsystem.Send.Core.{IsQuiet, core-send_irc_message}
use rosev_ircsystem.Server.Membership.{is_member, close, drop_channel, drop_channels, Inv}
use rosev_ircsystem.Server.Membership.Preserved.{close-drop_channels-Inv, clients-drop_channels}
use rosev_ircsystem.Server.Membership.Ready.{IsLive}
use rosev_ircsystem.Server.Membership.Spared.{unlisted}
use rosev_ircsystem.Server.Connection.{
  remove_from_channel, quit_members, quit_channel, quit_channels, forget_nickname, send_error,
  disconnect_network_client,
}

core-remove_from_channel :
    (c : ℕ) (key : Text) (s : Server)
    → (remove_from_channel c key s).core ≡ drop_channel c key s.core
unfolding remove_from_channel drop_channel set_channel with_channel_map remove_client
core-remove_from_channel c key s = elim (Option-cases (lookup key s.channels)) [
  | inl e ↦ rw (e, remove_from_channel, drop_channel)
  | inr (channel, e) ↦ rw (e, remove_from_channel, drop_channel)
]

-- No channel is dropped for a client without a nickname: it has joined none.
drop_channels-nameless :
    (c : ℕ) (joined : Set Text) (k : Core)
    → Inv k
    → (k.clients c).joined_channels ≡ joined
    → (k.clients c).nickname ≡ []
    → k ≡ drop_channels c joined k
drop_channels-nameless c [] k v e f = unfold drop_channels in refl
drop_channels-nameless c ((key, u) ∷ joined) k v e f = absurd (v.lodged key c (rw e first) f)
  where
    first : has_key key ((key, u) ∷ joined) ≡ true
    first = unfold has_key lookup in ground (arith, text_eq_iff key key)

-- The nickname of a client leaves the map, and then the client does.
forget : Client → Core → Core
forget client k = record k {
  nicknames =
      (if is_empty client.nickname
        then k.nicknames
        else erase client.nickname_lowercased k.nicknames);
}

depart : ℕ → Core → Core
depart c k = record k {
  clients =
      update k.clients c (record (k.clients c) { shutdown_completed = true; socket_open = false });
  network_clients = erase c k.network_clients;
}

core-depart :
    (c : ℕ) (s : Server) → (s ▸ shutdown c ▸ with_network_clients (erase c)).core ≡ depart c s.core
unfolding depart shutdown with_network with_client with_network_clients
core-depart c s = refl

depart-forget : (c : ℕ) (k : Core) → depart c (forget (k.clients c) k) ≡ close c k
unfolding depart forget close
depart-forget c k = refl

nickname_empty : (n : Text) → is_empty n ≡ true → n ≡ []
nickname_empty [] e = refl
nickname_empty (x ∷ n) e = cc

module _ (env : Environment) (virt : Virtual) (quiet : IsQuiet virt) where
  core-quit_members :
      (response : Text) (members : List (ℕ × ClientStatus)) (r : Set ℕ × Server)
      → (quit_members env virt response members r).1.core ≡ r.1.core
  unfolding quit_members
  core-quit_members response [] r = refl
  core-quit_members response ((d, _) ∷ members) (handled, s) =
      core-quit_members response members _
      ∙ if_elim (λ (t : Set ℕ × Server). t.1.core ≡ s.core) (has_key d handled) refl
          (core-send_irc_message env virt quiet d response s)

  core-quit_channel :
      (c : ℕ) (response key : Text) (r : Set ℕ × Server)
      → (quit_channel env virt c response key r).1.core ≡ drop_channel c key r.1.core
  unfolding quit_channel
  core-quit_channel c response key (handled, s) = elim (Option-cases (lookup key s.channels)) [
    | inl e ↦ rw (e, quit_channel) (unfold drop_channel in rw (e, drop_channel))
    | inr (channel, e) ↦
        rw (e, quit_channel)
          (core-remove_from_channel c key _
            ∙ ap (drop_channel c key) (core-quit_members response channel.clients (handled, s)))
  ]

  core-quit_channels :
      (c : ℕ) (response : Text) (joined : Set Text) (r : Set ℕ × Server)
      → (quit_channels env virt c response joined r).1.core ≡ drop_channels c joined r.1.core
  unfolding quit_channels drop_channels
  core-quit_channels c response [] r = refl
  core-quit_channels c response ((key, _) ∷ joined) r =
      core-quit_channels c response joined _
      ∙ ap (drop_channels c joined) (core-quit_channel c response key r)

  core-send_error :
      (c : ℕ) (reason : Text) (s : Server) → (send_error env virt c reason s).core ≡ s.core
  unfolding send_error
  core-send_error c reason s =
      if_elim (λ (t : Server). t.core ≡ s.core) (is_initialized (s.network c))
        (core-send_irc_message env virt quiet c _ s) refl

  core-forget_nickname :
      (c : ℕ) (reason : Text) (s : Server)
      → Inv s.core
      → (forget_nickname env virt c reason s).core
        ≡ forget (s.clients c) (drop_channels c (s.clients c).joined_channels s.core)
  unfolding forget_nickname forget with_nicknames
  core-forget_nickname c reason s v = elim (Bool-cases (is_empty (s.clients c).nickname)) [
    | inl e ↦
        rw e (
          drop_channels-nameless c (s.clients c).joined_channels s.core v refl (nickname_empty _ e))
    | inr e ↦ rw e (
        ap
          (λ (k : Core). record k {
            nicknames = erase (s.clients c).nickname_lowercased k.nicknames;
          })
          (core-quit_channels c _ (s.clients c).joined_channels ([], s)))
  ]

  -- A disconnected client is dropped from its channels, from the nicknames and from the clients.
  core-disconnect_network_client :
      (c : ℕ) (reason : Text) (s : Server)
      → IsLive c s.core
      → (disconnect_network_client env virt c reason s).core
        ≡ close c (drop_channels c (s.clients c).joined_channels s.core)
  unfolding disconnect_network_client
  core-disconnect_network_client c reason s r =
      let dropped = drop_channels c (s.clients c).joined_channels s.core in
      rw (r.alive) (
        core-depart c _
        ∙ ap (depart c) (
            core-send_error c reason _
            ∙ core-forget_nickname c reason s r.inv
            ∙ ap (λ (f : ℕ → Client). forget (f c) dropped)
                (sym (clients-drop_channels c (s.clients c).joined_channels s.core)))
        ∙ depart-forget c dropped)

  -- The maps go on to agree.
  pub disconnect_network_client-Inv :
      (c : ℕ) (reason : Text) (s : Server)
      → Inv s.core
      → Inv (disconnect_network_client env virt c reason s).core
  disconnect_network_client-Inv c reason s v = elim (Bool-cases (s.clients c).shutdown_completed) [
    | inl e ↦ unfold disconnect_network_client in rw e v
    | inr e ↦
        subst Inv (sym (core-disconnect_network_client c reason s (record { inv = v; alive = e })))
          (close-drop_channels-Inv c s.core e v)
  ]

  shutdown_completed-disconnect_network_client :
      (c : ℕ) (reason : Text) (s : Server)
      → Inv s.core
      → ((disconnect_network_client env virt c reason s).clients c).shutdown_completed ≡ true
  shutdown_completed-disconnect_network_client c reason s v =
      elim (Bool-cases (s.clients c).shutdown_completed) [
        | inl e ↦ unfold disconnect_network_client in rw (e) e
        | inr e ↦
            ap (λ (k : Core). (k.clients c).shutdown_completed)
              (core-disconnect_network_client c reason s (record { inv = v; alive = e }))
            ∙ closed (drop_channels c (s.clients c).joined_channels s.core)
      ]
    where
      closed : (k : Core) → ((close c k).clients c).shutdown_completed ≡ true
      closed k = unfold close in ground arith

  -- From maps that agree, DisconnectNetworkClient leaves the client shut down, none of the
  -- connections that the server keeps, a member of no channel, and with no nickname that leads to
  -- it, as long as virtual clients that are sent an IRC message change none of the maps.
  pub disconnect_network_client-gone :
      (c : ℕ) (reason : Text) (s : Server)
      → Inv s.core
      → (((disconnect_network_client env virt c reason s).clients c).shutdown_completed ≡ true)
        × (has_key c (disconnect_network_client env virt c reason s).network_clients ≡ false)
        × ((key : Text)
            → is_member (disconnect_network_client env virt c reason s).core key c ≡ false)
        × ((n : Text) → lookup n (disconnect_network_client env virt c reason s).nicknames ≢ some c)
  disconnect_network_client-gone c reason s v =
      let v' = disconnect_network_client-Inv c reason s v in
      let e = shutdown_completed-disconnect_network_client c reason s v in
      (
        e,
        unlisted c (disconnect_network_client env virt c reason s).core v' e,
        λ key. v'.gone key c e,
        λ n h. ground (arith, v'.owner n c h, e),
      )
