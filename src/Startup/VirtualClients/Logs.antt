-- ===== src/Startup/VirtualClients/Logs.antt =====
-- The log files that CLogBot::Init creates.
use rosev_ircsystem.Common.{
  ◌≡◌, refl, subst, ◌∙◌, ◌⊎◌, inl, inr, true, not, Option, List, [], ◌∷◌, ◌++◌, if_elim, Bool-cases,
  Option-cases, is_empty,
}
use rosev_ircsystem.Text.{Text, lit, text_eq, text_eq_iff, lowercased}
use rosev_ircsystem.Assoc.{text_key, has_key, insert}
use rosev_ircsystem.State.{Channel, LogBot, Server, Environment, Virtual}
use rosev_ircsystem.Startup.Result.{Result, ok, Result-cases}
use rosev_ircsystem.Startup.Host.{Host, LogBotOptions, Files, create}
use rosev_ircsystem.Startup.Config.{Configuration, default}
use rosev_ircsystem.Startup.VirtualClients.{
  log_file, add_streams, configured_log_bot, enabled_log_bot, init_log_bot, add_nick_serv,
  add_log_bot, add_virtual_clients,
}

-- The name of a log file: a LogBot.ini that was parsed gives the path.
pub record IsLogFile (host : Host) (name : Text) : Type 0 where
  pub file : Text
  pub options : LogBotOptions
  pub channel : Text
  pub parsed : host.parse_log_bot_file file ≡ ok options
  pub spelled : name ≡ log_file host (default [] options.logpath) channel

-- The files are the same but for log files that have been created.
abbrev pub Logs : Host → Files → Files → Type 0
Logs host files files' =
    (name : Text) → (files' name ≡ files name) ⊎ ((files' name ≡ true) × IsLogFile host name)

module _ (host : Host) where
  Logs-refl : (files : Files) → Logs host files files
  Logs-refl files name = inl refl

  create-Logs :
      (file : Text) (files files' : Files)
      → IsLogFile host file
      → Logs host (create file files) files'
      → Logs host files files'
  unfolding create
  create-Logs file files files' log grown name = elim (grown name) [
    | inr there ↦ inr there
    | inl same ↦ elim (Bool-cases (text_eq file name)) [
      | inl e ↦ inr (same ∙ rw (e) refl, subst (IsLogFile host) ((text_eq_iff file name).0 e) log)
      | inr e ↦ inl (same ∙ rw (e) refl)
    ]
  ]

  module _ (ini : Text) (options : LogBotOptions)
      (parsed : host.parse_log_bot_file ini ≡ ok options) where
    add_streams-Logs :
        (channels : List (Text × Channel)) (names : List Text) (streams : List (Text × List Text))
        (files : Files)
        → Logs host files
            (add_streams host (default [] options.logpath) channels names streams files).1
    unfolding add_streams
    add_streams-Logs channels [] streams files = Logs-refl files
    add_streams-Logs channels (name ∷ names) streams files =
        let file = log_file host (default [] options.logpath) name in
        if_elim (λ (r : Result (List (Text × List Text)) × Files). Logs host files r.1)
          (not (has_key (lowercased name) channels)) (Logs-refl files)
          (if_elim (λ (r : Result (List (Text × List Text)) × Files). Logs host files r.1)
            (not (host.can_write file)) (Logs-refl files)
            (create-Logs file files _
              (record {
                file = ini;
                options = options;
                channel = name;
                parsed = parsed;
                spelled = refl;
              })
              (add_streams-Logs channels names (insert (lowercased name) [] streams)
                (create file files))))

    configured_log_bot-Logs :
        (channels : List (Text × Channel)) (files : Files)
        → Logs host files (configured_log_bot host channels options files).1
    unfolding configured_log_bot
    configured_log_bot-Logs channels files =
        if_elim (λ (r : Result (Option LogBot) × Files). Logs host files r.1)
          (is_empty (default [] options.channels)) (Logs-refl files)
          (if_elim (λ (r : Result (Option LogBot) × Files). Logs host files r.1)
            (is_empty (default [] options.logpath)) (Logs-refl files)
            (add_streams-Logs channels (default [] options.channels) [] files))

  enabled_log_bot-Logs :
      (file : Text) (channels : List (Text × Channel)) (files : Files)
      → Logs host files (enabled_log_bot host file channels files).1
  unfolding enabled_log_bot
  enabled_log_bot-Logs file channels files = elim (Result-cases (host.parse_log_bot_file file)) [
    | inl (options, e) ↦
        rw (e, enabled_log_bot) (configured_log_bot-Logs file options e channels files)
    | inr (x, e) ↦ rw (e, enabled_log_bot) (Logs-refl files)
  ]

  init_log_bot-Logs :
      (configuration : Configuration) (channels : List (Text × Channel)) (files : Files)
      → Logs host files (init_log_bot host configuration channels files).1
  unfolding init_log_bot
  init_log_bot-Logs configuration channels files =
      elim (Option-cases (host.contents (configuration.config_path ++ lit "/LogBot.ini"))) [
        | inl e ↦ rw (e, init_log_bot) (Logs-refl files)
        | inr (text, e) ↦
            rw (e, init_log_bot)
              (enabled_log_bot-Logs (configuration.config_path ++ lit "/LogBot.ini") channels files)
      ]

  -- Whether or not the virtual clients can be added.
  pub add_virtual_clients-Logs :
      (configuration : Configuration) (env : Environment) (virt : Virtual) (s : Server)
      (files : Files)
      → Logs host files (add_virtual_clients host configuration env virt s files).1
  unfolding add_virtual_clients add_log_bot
  add_virtual_clients-Logs configuration env virt s files =
      init_log_bot-Logs configuration (add_nick_serv host configuration env virt s).channels files
