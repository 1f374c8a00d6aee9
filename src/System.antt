-- ===== src/System.antt =====
-- The events of the server's io_service, as steps: connections (CIRCServer.cpp), reads, timers,
-- writes and handshakes (CNetworkClient.cpp, CSSLNetworkClient.cpp).
use rosev_ircsystem.Common.{
  ℕ, ◌≡◌, refl, sym, subst, ◌≢◌, Bool, true, false, Option, none, some, [], arith, All,
}
use rosev_ircsystem.Text.{Text}
use rosev_ircsystem.Assoc.{nat_key, text_key}
use rosev_ircsystem.State.{
  vote_bot, Deadline, Server, Environment, with_network, with_network_clients,
}
use rosev_ircsystem.Send.{restart_timer}
use rosev_ircsystem.Outbox.{sent_buffer}
use rosev_ircsystem.Send.Core.{core-with_network}
use rosev_ircsystem.Server.Membership.{Inv}
use rosev_ircsystem.Server.Membership.Unused.{IsUnused, connect-Inv}
use rosev_ircsystem.Server.Connection.{handle_new_connection, init_network_client}
use rosev_ircsystem.Server.Connection.Agreement.{disconnect_network_client-Inv}
use rosev_ircsystem.Bots.{bots}
use rosev_ircsystem.Bots.Tame.{bots-IsTame, bots-IsReserved}
use rosev_ircsystem.NetworkClient.{
  handle_new_data, handle_new_data_error, handle_send, handle_deadline, handle_handshake,
}
use rosev_ircsystem.NetworkClient.Agreement.{IsNamed, handle_deadline-Inv}
use rosev_ircsystem.NetworkClient.Reads.{handle_new_data-Inv}
use rosev_ircsystem.Framing.Messages.{messages_of}
use rosev_ircsystem.VoteBot.Votes.{vote_deadline}
use rosev_ircsystem.VoteBot.Quiet.{vote_deadline_kept}

-- One event. The number says how deep the calls of the virtual clients nest. A new client object
-- stands at an address that no channel and no nickname has, and no event has shut down the one
-- that waits for the connection. A read completes for a client whose socket is open, and none of
-- the messages that it completes is NICK with an empty nickname: a read that boost::asio has
-- queued before the socket is closed, and such a NICK of a client with a nickname, are left out,
-- since the code takes them into maps that do not agree.
pub data Step (depth : ℕ) (env : Environment) : Server → Server → Type 0 where
  connection :
      (s : Server) (uses_ssl : Bool) (fresh : ℕ)
      → IsUnused fresh s.core
      → (s.clients s.next_network_client).shutdown_completed ≡ false
      → Step depth env s (handle_new_connection uses_ssl fresh s)
  read :
      (s : Server) (c : ℕ) (bytes : Text)
      → (s.clients c).socket_open ≡ true
      → All IsNamed (messages_of false (s.network c).input bytes)
      → Step depth env s (handle_new_data env (bots depth env) c bytes s)
  vote_over :
      (s : Server) (b : ℕ)
      → (s.clients b).kind ≡ vote_bot
      → Step depth env s (vote_deadline env (bots depth env) b s)
  read_error :
      (s : Server) (c : ℕ) (text : Text)
      → Step depth env s (handle_new_data_error env (bots depth env) c text s)
  deadline :
      (s : Server) (c : ℕ) (d : Deadline)
      → Step depth env s (handle_deadline env (bots depth env) c d s)
  written :
      (s : Server) (c : ℕ) (error : Option Text)
      → Step depth env s (handle_send env (bots depth env) c error s)
  handshake :
      (s : Server) (c : ℕ) (failed : Bool)
      → Step depth env s (handle_handshake env (bots depth env) c failed s)

pub data Reach (depth : ℕ) (env : Environment) (s : Server) : Server → Type 0 where
  here : Reach depth env s s
  next : {t u : Server} → Reach depth env s t → Step depth env t u → Reach depth env s u

handle_new_connection-Inv :
    (uses_ssl : Bool) (fresh : ℕ) (s : Server)
    → IsUnused fresh s.core
    → (s.clients s.next_network_client).shutdown_completed ≡ false
    → Inv s.core
    → Inv (handle_new_connection uses_ssl fresh s).core
unfolding handle_new_connection init_network_client restart_timer with_network with_network_clients
handle_new_connection-Inv uses_ssl fresh s unused waiting v =
    connect-Inv s.core (handle_new_connection uses_ssl fresh s).core fresh (λ c. refl) refl refl
      refl waiting unused v

handle_send-Inv :
    (depth : ℕ) (env : Environment) (c : ℕ) (error : Option Text) (s : Server)
    → Inv s.core
    → Inv (handle_send env (bots depth env) c error s).core
unfolding handle_send
handle_send-Inv depth env c none s v = rw (core-with_network sent_buffer c s) v
handle_send-Inv depth env c (some m) s v =
    disconnect_network_client-Inv env (bots depth env) (bots-IsTame depth env).quiet c m s v

handle_handshake-Inv :
    (depth : ℕ) (env : Environment) (c : ℕ) (failed : Bool) (s : Server)
    → Inv s.core
    → Inv (handle_handshake env (bots depth env) c failed s).core
unfolding handle_handshake
handle_handshake-Inv depth env c true s v =
    disconnect_network_client-Inv env (bots depth env) (bots-IsTame depth env).quiet c [] s v
handle_handshake-Inv depth env c false s v =
    subst Inv
      (sym (core-with_network (λ n. record n { handshake_happened = true; receiving = true }) c s))
      v

handle_new_data_error-Inv :
    (depth : ℕ) (env : Environment) (c : ℕ) (text : Text) (s : Server)
    → Inv s.core
    → Inv (handle_new_data_error env (bots depth env) c text s).core
unfolding handle_new_data_error
handle_new_data_error-Inv depth env c text s v =
    disconnect_network_client-Inv env (bots depth env) (bots-IsTame depth env).quiet c text _
      (subst Inv (sym (core-with_network (λ n. record n { receiving = false }) c s)) v)

Step-Inv :
    {depth : ℕ} {env : Environment} {s t : Server} → Step depth env s t → Inv s.core → Inv t.core
Step-Inv (connection s uses_ssl fresh unused waiting) v =
    handle_new_connection-Inv uses_ssl fresh s unused waiting v
Step-Inv {depth} {env} (read s c bytes opened named) v =
    handle_new_data-Inv env (bots depth env) c bytes s (bots-IsTame depth env) named opened v
Step-Inv {depth} {env} (vote_over s b e) v =
    subst Inv
      (sym (
        vote_deadline_kept env (bots depth env) (bots-IsReserved depth env) b s.core (rw (e) refl) s
          refl))
      v
Step-Inv {depth} {env} (read_error s c text) v = handle_new_data_error-Inv depth env c text s v
Step-Inv {depth} {env} (deadline s c d) v =
    handle_deadline-Inv env (bots depth env) (bots-IsTame depth env) c d s v
Step-Inv {depth} {env} (written s c error) v = handle_send-Inv depth env c error s v
Step-Inv {depth} {env} (handshake s c failed) v = handle_handshake-Inv depth env c failed s v

-- From maps that agree, every sequence of connections, reads, timers, ends of votes, writes, read
-- errors and handshakes leads to maps that agree, whatever NickServ, LogBot and the VoteBots do in
-- between. A read is of a client whose socket is open, and completes no NICK message with an empty
-- nickname; a new client object stands at an address that no channel and no nickname has, and the
-- one that waits for the connection has not been shut down.
pub Reach-Inv :
    {depth : ℕ} {env : Environment} {s t : Server} → Inv s.core → Reach depth env s t → Inv t.core
Reach-Inv v here = v
Reach-Inv v (next r step) = Step-Inv step (Reach-Inv v r)

-- In each state that connections, reads, timers, ends of votes, writes, read errors and handshakes
-- lead to from maps that agree, two different clients that are connected and have nicknames have
-- different ones, also apart from the case of letters. A read is of a client whose socket is open,
-- and completes no NICK message with an empty nickname; a new client object stands at an address
-- that no channel and no nickname has, and the one that waits for the connection has not been shut
-- down.
pub Reach-unique :
    {depth : ℕ} {env : Environment} {s t : Server}
    → Inv s.core
    → Reach depth env s t
    → (c d : ℕ) → c ≢ d
    → (t.clients c).shutdown_completed ≡ false
    → (t.clients d).shutdown_completed ≡ false
    → (t.clients c).nickname ≢ []
    → (t.clients d).nickname ≢ []
    → (t.clients c).nickname_lowercased ≢ (t.clients d).nickname_lowercased
Reach-unique {t = t} v r c d n a b f g e = n (same_owner (Reach-Inv v r))
  where
    same_owner : Inv t.core → c ≡ d
    same_owner w = ground (arith, w.named c a f, w.named d b g, e)
