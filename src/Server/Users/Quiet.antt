-- ===== src/Server/Users/Quiet.antt =====
-- PING, PONG, INFO and VERSION change none of the server's maps.
use rosev_ircsystem.Common.{ℕ, ◌≡◌, refl, ◌∙◌, List, [], ◌∷◌, if_elim}
use rosev_ircsystem.Text.{Text}
use rosev_ircsystem.Assoc.{nat_key, text_key}
use rosev_ircsystem.State.{Server, Environment, Virtual}
use rosev_ircsystem.Send.{is_registered, to_network_client, is_network_client}
use rosev_ircsystem.Send.Core.{
  IsQuiet, core-send_numeric_reply, core-send_irc_message, core-restart_ping_timer,
}
use rosev_ircsystem.Server.Users.{
  receive_message_ping, receive_message_pong, receive_message_info, receive_message_version,
}

module _ (env : Environment) (virt : Virtual) (quiet : IsQuiet virt) where
  pub core-receive_message_ping :
      (c : ℕ) (parameters : List Text) (s : Server)
      → (receive_message_ping env virt c parameters s).core ≡ s.core
  unfolding receive_message_ping to_network_client
  core-receive_message_ping c [] s =
      if_elim (λ (t : Server). t.core ≡ s.core) (is_network_client c s)
        (if_elim (λ (t : Server). t.core ≡ s.core) (is_registered c s)
          (core-send_numeric_reply env virt quiet c _ _ s) refl)
        refl
  core-receive_message_ping c (p ∷ _) s =
      if_elim (λ (t : Server). t.core ≡ s.core) (is_network_client c s)
        (if_elim (λ (t : Server). t.core ≡ s.core) (is_registered c s)
          (core-send_irc_message env virt quiet c _ s) refl)
        refl

  pub core-receive_message_pong :
      (c : ℕ) (parameters : List Text) (s : Server)
      → (receive_message_pong env virt c parameters s).core ≡ s.core
  unfolding receive_message_pong to_network_client
  core-receive_message_pong c parameters s =
      if_elim (λ (t : Server). t.core ≡ s.core) (is_network_client c s)
        (if_elim (λ (t : Server). t.core ≡ s.core) (is_registered c s) (core-restart_ping_timer c s)
          refl)
        refl

  pub core-receive_message_info :
      (c : ℕ) (parameters : List Text) (s : Server)
      → (receive_message_info env virt c parameters s).core ≡ s.core
  unfolding receive_message_info
  core-receive_message_info c parameters s =
      core-send_numeric_reply env virt quiet c _ _ _
      ∙ core-send_numeric_reply env virt quiet c _ _ _
      ∙ core-send_numeric_reply env virt quiet c _ _ _
      ∙ core-send_numeric_reply env virt quiet c _ _ _
      ∙ core-send_numeric_reply env virt quiet c _ _ _
      ∙ core-send_numeric_reply env virt quiet c _ _ _
      ∙ core-send_numeric_reply env virt quiet c _ _ _

  pub core-receive_message_version :
      (c : ℕ) (parameters : List Text) (s : Server)
      → (receive_message_version env virt c parameters s).core ≡ s.core
  unfolding receive_message_version
  core-receive_message_version c parameters s = core-send_numeric_reply env virt quiet c _ _ s
