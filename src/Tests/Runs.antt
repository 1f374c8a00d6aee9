-- ===== src/Tests/Runs.antt =====
-- Runs of the server of the tests: Bob sends JOIN, and Alice's timer runs out; a client connects;
-- and a read of Bob that is not yet a message.
use rosev_ircsystem.Common.{refl, ◌<◌, length, ◌≢◌, false, [], ◌∷◌, ◌++◌, All, arith}
use rosev_ircsystem.Text.{text_eq}
use rosev_ircsystem.Assoc.{nat_key, text_key, lookup, has_key}
use rosev_ircsystem.State.{nick_deadline, Server, with_network, with_network_clients}
use rosev_ircsystem.Server.Membership.{Inv, is_member}
use rosev_ircsystem.Server.Membership.Unused.{IsUnused}
use rosev_ircsystem.Send.{restart_timer}
use rosev_ircsystem.Server.Connection.{handle_new_connection, init_network_client}
use rosev_ircsystem.Bots.{bots}
use rosev_ircsystem.NetworkClient.{
  handle_deadline, handle_new_data, receive_message, is_socket_open, message_too_long,
}
use rosev_ircsystem.NetworkClient.Agreement.{IsNamed}
use rosev_ircsystem.NetworkClient.Reads.{handle_new_data-Inv}
use rosev_ircsystem.Bots.Tame.{bots-IsTame}
use rosev_ircsystem.Text.{Text}
use rosev_ircsystem.Framing.{line_ending_length, scan, finish, irc_message_length}
use rosev_ircsystem.Framing.Messages.{messages_of, scan-short}
use rosev_ircsystem.System.{Reach, connection, read, deadline, here, next, Reach-Inv, Reach-unique}
use rosev_ircsystem.Tests.{env, server, core-Inv}
use rosev_ircsystem.Tests.Maps.{join_message, join_message-IsNamed}

five-IsUnused : IsUnused 5 server.core
unfolding is_member lookup has_key text_eq
five-IsUnused = record { no_member = λ key. ground arith; no_nickname = λ n e. ground (arith, e) }

abbrev connected : Server
connected = handle_new_connection false 5 server

-- The bytes of a message, with the end of its line.
abbrev join_bytes : Text
join_bytes = join_message ++ 13 ∷ 10 ∷ []

join_bytes-IsNamed : All IsNamed (messages_of false (server.network 1).input join_bytes)
unfolding messages_of line_ending_length
join_bytes-IsNamed = (join_message-IsNamed, tt)

abbrev after_read : Server
after_read = handle_new_data env (bots 3 env) 1 join_bytes server

run : Reach 3 env server (handle_deadline env (bots 3 env) 2 nick_deadline after_read)
run =
    next (next here (read server 1 join_bytes refl join_bytes-IsNamed))
      (deadline after_read 2 nick_deadline)

Reach-Inv_example : Inv (handle_deadline env (bots 3 env) 2 nick_deadline after_read).core
Reach-Inv_example = Reach-Inv core-Inv run

connection_run : Reach 3 env server (handle_new_connection false 5 server)
connection_run = next here (connection server false 5 five-IsUnused refl)

Reach-unique_example :
    ((handle_new_connection false 5 server).clients 1).nickname_lowercased
    ≢ ((handle_new_connection false 5 server).clients 2).nickname_lowercased
unfolding handle_new_connection init_network_client restart_timer with_network with_network_clients
Reach-unique_example =
    Reach-unique core-Inv connection_run 1 2 (omega arith) refl refl (λ e. ground (arith, e))
      (λ e. ground (arith, e))

handle_new_data-Inv_example : Inv after_read.core
handle_new_data-Inv_example =
    handle_new_data-Inv env (bots 3 env) 1 join_bytes server (bots-IsTame 3 env) join_bytes-IsNamed
      refl core-Inv

-- The text of the message alone is kept for the next read.
scan-short_example : length join_message < irc_message_length
unfolding scan finish line_ending_length
scan-short_example =
    scan-short (receive_message env (bots 3 env) 1) (is_socket_open env (bots 3 env) 1)
      (message_too_long env (bots 3 env) 1) false [] join_message join_message server refl
