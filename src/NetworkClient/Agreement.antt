-- ===== src/NetworkClient/Agreement.antt =====
-- CNetworkClient::_ReceiveMessage and the handlers of a connection's events keep the server's maps in
-- agreement.
use rosev_ircsystem.Common.{
  ◌∙◌, refl, ℕ, ◌≡◌, subst, ap, ◌≢◌, inl, inr, false, Option, none, some, List, [], ◌∷◌, ◌++◌,
  Bool-cases, Option-cases, All,
}
use rosev_ircsystem.Text.{Text, lit, text_eq, text_eq_iff}
use rosev_ircsystem.Assoc.{text_key, lookup}
use rosev_ircsystem.State.{
  Core, Server, Environment, Virtual, Deadline, nick_deadline, identify_deadline, ping_deadline,
  pong_deadline,
}
use rosev_ircsystem.Message.{parse_message}
use rosev_ircsystem.Send.{send_irc_message}
use rosev_ircsystem.Send.Core.{core-send_irc_message, core-restart_timer}
use rosev_ircsystem.Server.Membership.{Inv}
use rosev_ircsystem.Server.Membership.Ready.{IsLive, IsLive-same}
use rosev_ircsystem.Server.Connection.Agreement.{disconnect_network_client-Inv}
use rosev_ircsystem.Server.Connection.Welcome.{core-receive_message_motd}
use rosev_ircsystem.Server.Rooms.Induction.{core-receive_message_topic, core-receive_message_names}
use rosev_ircsystem.Server.Rooms.Agreement.{
  receive_message_part-IsLive, receive_message_join-IsLive,
}
use rosev_ircsystem.Server.Users.Agreement.{
  receive_message_nick-IsLive, receive_message_user-IsLive, receive_message_quit-Inv,
}
use rosev_ircsystem.Server.Users.Quiet.{
  core-receive_message_ping, core-receive_message_pong, core-receive_message_info,
  core-receive_message_version,
}
use rosev_ircsystem.Server.Talk.Agreement.{
  IsTame, receive_message_privmsg-Inv, receive_message_ns-Inv,
}
use rosev_ircsystem.NetworkClient.{
  Handler, network_client_command_handlers, run_handler, receive_message, handle_deadline,
}

-- The handler of a command, for a connected client, unless it is NICK with an empty nickname.
KeepsInv : Text → Handler → Type 0
KeepsInv name handler =
    (c : ℕ) (parameters : List Text) (s : Server)
    → (name ≡ lit "NICK" → (rest : List Text) → parameters ≢ [] ∷ rest)
    → IsLive c s.core
    → Inv (handler c parameters s).core

-- One item after another.
infixr 3 ◌&◌
◌&◌ : {A B : Type 0} → A → B → A × B
a & b = (a, b)

elim_or : {A : Type 0} → A → Option A → A
elim_or a none = a
elim_or a (some b) = b

same_handler :
    {name command : Text} {f handler : Handler}
    → name ≡ command
    → some f ≡ some handler
    → KeepsInv name f
    → KeepsInv command handler
unfolding elim_or
same_handler {name} {command} {f} {handler} q e h =
    subst (λ n. KeepsInv n handler) q (subst (KeepsInv name) (ap (elim_or f) e) h)

found-KeepsInv :
    (command : Text) (handlers : List (Text × Handler)) (handler : Handler)
    → All (λ h. KeepsInv h.0 h.1) handlers
    → lookup command handlers ≡ some handler
    → KeepsInv command handler
unfolding lookup
found-KeepsInv command [] handler h e = cc
found-KeepsInv command ((name, f) ∷ handlers) handler h e =
    elim (Bool-cases (text_eq name command)) [
      | inl q ↦ same_handler ((text_eq_iff name command).0 q) (rw q at e) h.0
      | inr q ↦ found-KeepsInv command handlers handler h.1 (rw q at e)
    ]

-- The message is not NICK with an empty nickname.
unfoldable pub IsNamed : Text → Type 0
IsNamed message = (rest : List Text) → parse_message message ≢ some (lit "NICK", [] ∷ rest)

module _ (env : Environment) (virt : Virtual) (tame : IsTame virt) where
  same : {c : ℕ} {k k' : Core} → k' ≡ k → IsLive c k → Inv k'
  same e r = (IsLive-same e r).inv

  handlers-KeepInv : All (λ h. KeepsInv h.0 h.1) (network_client_command_handlers env virt)
  unfolding network_client_command_handlers KeepsInv ◌&◌
  handlers-KeepInv =
      (λ c p s f r. same (core-receive_message_info env virt tame.quiet c p s) r)
      & (λ c p s f r. (receive_message_join-IsLive env virt tame.quiet c p s r).inv)
      & (λ c p s f r. same (core-receive_message_motd env virt tame.quiet c p s) r)
      & (λ c p s f r. same (core-receive_message_names env virt tame.quiet c p s) r)
      & (λ c p s f r. (receive_message_nick-IsLive env virt tame.quiet c p s (f refl) r).inv)
      & (λ c p s f r. receive_message_ns-Inv env virt tame c p s r.inv)
      & (λ c p s f r. receive_message_ns-Inv env virt tame c p s r.inv)
      & (λ c p s f r. (receive_message_part-IsLive env virt tame.quiet c p s r).inv)
      & (λ c p s f r. same (core-receive_message_ping env virt tame.quiet c p s) r)
      & (λ c p s f r. same (core-receive_message_pong env virt tame.quiet c p s) r)
      & (λ c p s f r. receive_message_privmsg-Inv env virt tame c p s r.inv)
      & (λ c p s f r. receive_message_quit-Inv env virt tame.quiet c p s r.inv)
      & (λ c p s f r. same (core-receive_message_topic env virt tame.quiet c p s) r)
      & (λ c p s f r. (receive_message_user-IsLive env virt tame.quiet c p s r).inv)
      & (λ c p s f r. same (core-receive_message_version env virt tame.quiet c p s) r)
      & tt

  -- _ReceiveMessage keeps the maps in agreement, whatever the command, for a client that has not
  -- been shut down and a message that is not NICK with an empty nickname, as long as the virtual
  -- clients keep them in agreement.
  pub receive_message-Inv :
      (c : ℕ) (message : Text) (s : Server)
      → IsNamed message
      → (s.clients c).shutdown_completed ≡ false
      → Inv s.core
      → Inv (receive_message env virt c message s).core
  unfolding receive_message run_handler KeepsInv IsNamed
  receive_message-Inv c message s named alive v = elim (Option-cases (parse_message message)) [
    | inl e ↦
        rw (e) (disconnect_network_client-Inv env virt tame.quiet c (lit "Invalid message") s v)
    | inr ((command, parameters), e) ↦ rw (e) (run command parameters e)
  ]
    where
      run :
          (command : Text) (parameters : List Text)
          → parse_message message ≡ some (command, parameters)
          → Inv (run_handler env virt c (some (command, parameters)) s).core
      run command parameters p =
          elim (Option-cases (lookup command (network_client_command_handlers env virt))) [
            | inl e ↦ rw (run_handler, e) v
            | inr (handler, e) ↦
                rw (run_handler, e)
                  (found-KeepsInv command (network_client_command_handlers env virt) handler
                    handlers-KeepInv e c parameters s (λ q rest f. named rest (p ∙ cc (q, f)))
                    (record { inv = v; alive = alive }))
          ]

  -- Each of the four deadlines keeps the maps in agreement, as long as the virtual clients do.
  pub handle_deadline-Inv :
      (c : ℕ) (deadline : Deadline) (s : Server)
      → Inv s.core
      → Inv (handle_deadline env virt c deadline s).core
  unfolding handle_deadline
  handle_deadline-Inv c nick_deadline s v =
      disconnect_network_client-Inv env virt tame.quiet c _ s v
  handle_deadline-Inv c identify_deadline s v =
      disconnect_network_client-Inv env virt tame.quiet c _ s v
  handle_deadline-Inv c ping_deadline s v =
      rw
        (
          core-restart_timer pong_deadline 60 c
              (send_irc_message env virt c (lit "PING " ++ env.name) s),
          core-send_irc_message env virt tame.quiet c (lit "PING " ++ env.name) s,
        )
        v
  handle_deadline-Inv c pong_deadline s v =
      disconnect_network_client-Inv env virt tame.quiet c _ s v
