-- ===== src/NetworkClient/Reads.antt =====
-- CNetworkClient::_HandleNewData, over all messages of a read.
use rosev_ircsystem.Common.{ℕ, ◌≡◌, refl, sym, subst, true, false, Option, none, some, All}
use rosev_ircsystem.Text.{Text, lit}
use rosev_ircsystem.State.{Server, Environment, Virtual, with_network}
use rosev_ircsystem.Framing.Messages.{messages_of, scan_kept}
use rosev_ircsystem.Send.Core.{core-with_network}
use rosev_ircsystem.Server.Membership.{Inv}
use rosev_ircsystem.Server.Membership.Ready.{IsLive}
use rosev_ircsystem.Server.Connection.Agreement.{disconnect_network_client-Inv}
use rosev_ircsystem.Server.Talk.Agreement.{IsTame}
use rosev_ircsystem.NetworkClient.{
  receive_message, is_socket_open, message_too_long, keep_remainder, handle_new_data,
}
use rosev_ircsystem.NetworkClient.Agreement.{IsNamed, receive_message-Inv}

module _ (env : Environment) (virt : Virtual) where
  core-keep_remainder :
      (c : ℕ) (s : Server) (o : Option Text) → (keep_remainder env virt c (s, o)).core ≡ s.core
  unfolding keep_remainder
  core-keep_remainder c s none = refl
  core-keep_remainder c s (some m) =
      core-with_network (λ n. record n { input = m; receiving = true }) c s

  -- A read of a client whose socket is open keeps the maps in agreement, over all messages that it
  -- completes, if none of these is NICK with an empty nickname, and as long as the virtual clients
  -- keep them in agreement.
  pub handle_new_data-Inv :
      (c : ℕ) (bytes : Text) (s : Server)
      → IsTame virt
      → All IsNamed (messages_of false (s.network c).input bytes)
      → (s.clients c).socket_open ≡ true
      → Inv s.core
      → Inv (handle_new_data env virt c bytes s).core
  unfolding handle_new_data message_too_long
  handle_new_data-Inv c bytes s tame named opened v = subst Inv (sym (core-keep_remainder c _ _)) (
      scan_kept (receive_message env virt c) (is_socket_open env virt c)
        (message_too_long env virt c) IsNamed (λ t. IsLive c t.core) (λ t. Inv t.core)
        (λ m t n r. receive_message-Inv env virt tame c m t n r.alive r.inv)
        (λ t o w. record { inv = w; alive = w.linked c o })
        (λ t r.
          disconnect_network_client-Inv env virt tame.quiet c (lit "Message too long") t r.inv)
        (λ t r. r.inv) false (s.network c).input bytes
        (with_network (λ n. record n { receiving = false }) c s) named
        (subst (IsLive c) (sym (core-with_network (λ n. record n { receiving = false }) c s))
          (record { inv = v; alive = v.linked c opened })))
