-- ===== src/Startup/VirtualClients.antt =====
-- The Init functions of the virtual clients: CNickServ.cpp, CLogBot.cpp, CVoteBot.cpp and
-- CVoteBotManager.cpp, and the calls of CIRCServer::AddVirtualClient. An object whose Init returns
-- false is reached by nothing, and stands in no map.
pub mod Agreement
pub mod Added
pub mod Logs
use rosev_ircsystem.Common.{
  ℕ, ◌+◌, Bool, true, false, not, Option, none, some, List, [], ◌∷◌, ◌++◌, ◌==◌, is_empty,
  if◌then◌else◌,
}
use rosev_ircsystem.Text.{Text, lit, lowercased}
use rosev_ircsystem.Assoc.{text_key, insert, has_key, Set}
use rosev_ircsystem.State.{
  ClientKind, nick_serv, log_bot, vote_bot, Channel, VoteBot, LogBot, Server, Environment, Virtual,
  with_client, with_vote_bot, with_log_bot,
}
use rosev_ircsystem.Send.{◌▸◌}
use rosev_ircsystem.Bots.{virtual_client, add_virtual_client}
use rosev_ircsystem.Startup.Result.{
  file_name, channel_name, error, Result, ok, err, ◌>>=◌, ◌>>◌, throw_if,
}
use rosev_ircsystem.Startup.Host.{Entry, LogBotOptions, VoteBotOptions, Host, Files, create}
use rosev_ircsystem.Startup.Config.{Configuration, default}

-- The name of the log file of a channel.
unfoldable pub log_file : Host → Text → Text → Text
log_file host path name = path ++ (lit "/" ++ (host.log_file_stamp ++ (name ++ lit ".log")))

-- The loop over the channel names of LogBot.ini, with m_ChannelStreamMap and the files, to which
-- the constructor of std::ofstream adds the log file.
unfoldable pub add_streams :
    Host
    → Text
    → List (Text × Channel)
    → List Text
    → List (Text × List Text)
    → Files
    → Result (List (Text × List Text)) × Files
unfolding log_file
add_streams host path channels [] streams files = (ok streams, files)
add_streams host path channels (name ∷ names) streams files =
    let file = log_file host path name in
    let rest =
      add_streams host path channels names (insert (lowercased name) [] streams)
        (create file files) in
    if not (has_key (lowercased name) channels)
    then (
      err (
          error (lit "LogBot configuration contains an invalid channel name!")
            (channel_name name ∷ [])),
      files,
    )
    else if not (host.can_write file)
    then (err (error (lit "Could not open the log file for writing!") (file_name file ∷ [])), files)
    else rest

-- CLogBot::Init, behind the parsing of LogBot.ini.
unfoldable pub configured_log_bot :
    Host → List (Text × Channel) → LogBotOptions → Files → Result (Option LogBot) × Files
unfolding add_streams
configured_log_bot host channels options files =
    let names = default [] options.channels in
    let path = default [] options.logpath in
    if is_empty names
    then (err (error (lit "You have to set the channel names for LogBot!") []), files)
    else if is_empty path
    then (err (error (lit "You have to set the log path for LogBot!") []), files)
    else (let added = add_streams host path channels names [] files in
        (added.0 >>= λ streams. ok (some (record { channel_streams = streams })), added.1))

unfoldable pub enabled_log_bot :
    Host → Text → List (Text × Channel) → Files → Result (Option LogBot) × Files
unfolding configured_log_bot
enabled_log_bot host file channels files = elim (host.parse_log_bot_file file) [
  | err e ↦ (err e, files)
  | ok options ↦ configured_log_bot host channels options files
]

-- CLogBot::Init; `none` where it returns false.
unfoldable pub init_log_bot :
    Host → Configuration → List (Text × Channel) → Files → Result (Option LogBot) × Files
unfolding enabled_log_bot
init_log_bot host configuration channels files =
    let file = configuration.config_path ++ lit "/LogBot.ini" in
    elim (host.contents file) [
      | none ↦ (ok none, files)
      | some _ ↦ enabled_log_bot host file channels files
    ]

-- The set of the lowercased names.
unfoldable pub admin_set : Set Text → List Text → Set Text
admin_set admins [] = admins
admin_set admins (name ∷ names) = admin_set (insert (lowercased name) tt admins) names

-- The values of a VoteBot configuration, after the constructor.
unfoldable pub configured_vote_bot : VoteBotOptions → VoteBot
unfolding admin_set
configured_vote_bot options = record {
  abstention_translation = default (lit "Abstention") options.abstention_translation;
  admin_users = admin_set [] (default [] options.admins);
  channel = lowercased (default [] options.channel);
  current_admin_nickname = [];
  exclude_command_sent = false;
  excluded_nicknames = [];
  options = [];
  question = [];
  time_limit_in_minutes = default 0 options.timelimit;
  timer = none;
  vote_count = 0;
  votes = [];
  vote_started = false;
}

unfoldable pub enabled_vote_bot : Host → Text → List (Text × Channel) → Result (Option VoteBot)
unfolding configured_vote_bot
enabled_vote_bot host file channels = do
  options ← host.parse_vote_bot_file file
  let name = default [] options.channel
  throw_if (is_empty (default (lit "Abstention") options.abstention_translation))
      (error (lit "The abstention_translation value may not be empty!") (file_name file ∷ []))
  throw_if (is_empty (default [] options.admins)) (
      error (lit "You have to set at least one administrator for this VoteBot!")
        (file_name file ∷ []))
  throw_if (is_empty name)
      (error (lit "You have to set the channel name for this VoteBot!") (file_name file ∷ []))
  throw_if (default 0 options.timelimit == 0)
      (error (lit "You have to set a time limit for this VoteBot!") (file_name file ∷ []))
  throw_if (not (has_key (lowercased name) channels)) (
      error (lit "This VoteBot configuration contains an invalid channel name!")
        (file_name file ∷ channel_name name ∷ []))
  ok (some (configured_vote_bot options))

-- CVoteBot::Init, of the instance with the given m_ConfigID; `none` where it returns false.
unfoldable pub init_vote_bot :
    Host → Configuration → List (Text × Channel) → Text → Result (Option VoteBot)
unfolding enabled_vote_bot
init_vote_bot host configuration channels id =
    let file = configuration.config_path ++ (lit "/VoteBot_" ++ (id ++ lit ".ini")) in
    elim (host.contents file) [ none ↦ ok none | some _ ↦ enabled_vote_bot host file channels ]

-- An object of the class with the nickname is added.
unfoldable pub enroll : Environment → Virtual → ClientKind → ℕ → Text → Server → Server
enroll env virt kind self nickname s =
    s ▸ with_client (λ _. virtual_client kind nickname) self ▸ add_virtual_client env virt self

module _ (host : Host) (configuration : Configuration) (env : Environment) (virt : Virtual) where
  -- CIRCServer::AddVirtualClient of each class. CNickServ::Init returns true.
  unfoldable pub add_nick_serv : Server → Server
  unfolding enroll
  add_nick_serv = enroll env virt nick_serv host.nick_serv_address (lit "NickServ")

  -- AddVirtualClient behind Init.
  unfoldable pub enroll_log_bot : Option LogBot → Server → Server
  unfolding enroll
  enroll_log_bot none s = s
  enroll_log_bot (some b) s =
      s
      ▸ with_log_bot (λ _. b) host.log_bot_address
      ▸ enroll env virt log_bot host.log_bot_address (lit "LogBot")

  unfoldable pub enroll_vote_bot : ℕ → Text → Option VoteBot → Server → Server
  unfolding enroll
  enroll_vote_bot self nickname none s = s
  enroll_vote_bot self nickname (some b) s =
      s ▸ with_vote_bot (λ _. b) self ▸ enroll env virt vote_bot self nickname

  unfoldable pub add_log_bot : Server → Files → Result Server × Files
  unfolding enroll_log_bot
  add_log_bot s files =
      let initialized = init_log_bot host configuration s.channels files in
      (initialized.0 >>= λ o. ok (enroll_log_bot o s), initialized.1)

  unfoldable pub add_vote_bot : ℕ → Entry → Server → Result Server
  unfolding enroll_vote_bot
  add_vote_bot self (nickname, id) s =
      init_vote_bot host configuration s.channels id >>= λ o. ok (enroll_vote_bot self nickname o s)

  -- The loop over the entries of VoteBotManager.ini; `i` VoteBots have been created.
  unfoldable pub add_vote_bots : ℕ → List Entry → Server → Result Server
  unfolding add_vote_bot
  add_vote_bots i [] s = ok s
  add_vote_bots i (entry ∷ entries) s =
      add_vote_bot (host.vote_bot_address i) entry s >>= λ s'. add_vote_bots (i + 1) entries s'

  -- CVoteBotManager::Init
  unfoldable pub init_vote_bots : Server → Result Server
  unfolding add_vote_bots
  init_vote_bots s =
      let file = configuration.config_path ++ lit "/VoteBotManager.ini" in
      elim (host.contents file) [
        | none ↦ ok s
        | some _ ↦ host.parse_config_file file >>= λ entries. add_vote_bots 0 entries s
      ]

  -- The last three calls of InitializeServer.
  unfoldable pub add_virtual_clients : Server → Files → Result Server × Files
  unfolding add_nick_serv add_log_bot init_vote_bots
  add_virtual_clients s files =
      let added = add_log_bot (add_nick_serv s) files in (added.0 >>= init_vote_bots, added.1)
