-- ===== src/Startup/VirtualClients/Added.antt =====
-- The maps of the server after CIRCServer::AddVirtualClient of all virtual clients.
use rosev_ircsystem.Common.{
  ℕ, ◌+◌, ◌≡◌, subst, Option, none, some, List, [], ◌∷◌, ◌++◌, All, Option-cases, inl, inr,
}
use rosev_ircsystem.Text.{Text, lit}
use rosev_ircsystem.Assoc.{nat_key, text_key}
use rosev_ircsystem.State.{
  log_bot, vote_bot, nick_serv, VoteBot, LogBot, Core, Server, Environment, Virtual, with_vote_bot,
  with_log_bot,
}
use rosev_ircsystem.Send.Core.{IsQuiet}
use rosev_ircsystem.Server.Membership.{Inv}
use rosev_ircsystem.Startup.Result.{ok, err, Returns, returned, ◌⟫◌, any_Returns}
use rosev_ircsystem.Startup.Host.{Entry, Host, Files}
use rosev_ircsystem.Startup.Config.{Configuration}
use rosev_ircsystem.Startup.VirtualClients.{
  enroll_log_bot, enroll_vote_bot, init_log_bot, init_vote_bot, add_nick_serv, add_log_bot,
  add_vote_bot, add_vote_bots, init_vote_bots, add_virtual_clients,
}
use rosev_ircsystem.Startup.VirtualClients.Agreement.{
  Planned, IsPending, IsApart, AreApart, enroll-IsAdded,
}

-- The VoteBots of VoteBotManager.ini, from the given one on.
unfoldable pub planned_vote_bots : Host → ℕ → List Entry → List Planned
planned_vote_bots host i [] = []
planned_vote_bots host i ((nickname, id) ∷ entries) =
    (host.vote_bot_address i, nickname) ∷ planned_vote_bots host (i + 1) entries

-- NickServ, LogBot and the VoteBots.
unfoldable pub planned_clients : Host → List Entry → List Planned
planned_clients host entries =
    (host.nick_serv_address, lit "NickServ")
    ∷ (host.log_bot_address, lit "LogBot")
    ∷ planned_vote_bots host 0 entries

-- The entries of VoteBotManager.ini, if there is one.
unfoldable pub vote_bot_entries : Host → Configuration → List Entry
vote_bot_entries host configuration =
    let file = configuration.config_path ++ lit "/VoteBotManager.ini" in
    elim (host.contents file) [
      | none ↦ []
      | some _ ↦ elim (host.parse_config_file file) [ err e ↦ [] | ok entries ↦ entries ]
    ]

read_lem :
    (host : Host) (configuration : Configuration) (text : Text) (entries : List Entry)
    → host.contents (configuration.config_path ++ lit "/VoteBotManager.ini") ≡ some text
    → host.parse_config_file (configuration.config_path ++ lit "/VoteBotManager.ini") ≡ ok entries
    → vote_bot_entries host configuration ≡ entries
unfolding vote_bot_entries
read_lem host configuration text entries e f = rw (e, f, vote_bot_entries)

-- The maps agree, and these are still to be added.
pub record IsStarting (xs : List Planned) (k : Core) : Type 0 where
  pub inv : Inv k
  pub pending : All (IsPending k) xs

module _ (host : Host) (configuration : Configuration) (env : Environment) (virt : Virtual)
    (quiet : IsQuiet virt) where
  add_nick_serv-IsStarting :
      (xs : List Planned) (s : Server)
      → All (IsApart (host.nick_serv_address, lit "NickServ")) xs
      → IsStarting ((host.nick_serv_address, lit "NickServ") ∷ xs) s.core
      → IsStarting xs (add_nick_serv host configuration env virt s).core
  unfolding add_nick_serv
  add_nick_serv-IsStarting xs s apart r =
      let added =
        enroll-IsAdded (host.nick_serv_address, lit "NickServ") xs apart env virt quiet nick_serv s
          r.inv r.pending in
      record { inv = added.ready.inv; pending = added.pending }

  enroll_log_bot-IsStarting :
      (xs : List Planned) (o : Option LogBot) (s : Server)
      → All (IsApart (host.log_bot_address, lit "LogBot")) xs
      → IsStarting ((host.log_bot_address, lit "LogBot") ∷ xs) s.core
      → IsStarting xs (enroll_log_bot host configuration env virt o s).core
  unfolding enroll_log_bot with_log_bot
  enroll_log_bot-IsStarting xs none s apart r = record { inv = r.inv; pending = r.pending.1 }
  enroll_log_bot-IsStarting xs (some b) s apart r =
      let added =
        enroll-IsAdded (host.log_bot_address, lit "LogBot") xs apart env virt quiet log_bot
          (with_log_bot (λ _. b) host.log_bot_address s) r.inv r.pending in
      record { inv = added.ready.inv; pending = added.pending }

  enroll_vote_bot-IsStarting :
      (self : ℕ) (nickname : Text) (xs : List Planned) (o : Option VoteBot) (s : Server)
      → All (IsApart (self, nickname)) xs
      → IsStarting ((self, nickname) ∷ xs) s.core
      → IsStarting xs (enroll_vote_bot host configuration env virt self nickname o s).core
  unfolding enroll_vote_bot with_vote_bot
  enroll_vote_bot-IsStarting self nickname xs none s apart r = record {
    inv = r.inv;
    pending = r.pending.1;
  }
  enroll_vote_bot-IsStarting self nickname xs (some b) s apart r =
      let added =
        enroll-IsAdded (self, nickname) xs apart env virt quiet vote_bot
          (with_vote_bot (λ _. b) self s) r.inv r.pending in
      record { inv = added.ready.inv; pending = added.pending }

  add_log_bot-IsStarting :
      (xs : List Planned) (s : Server) (files : Files)
      → All (IsApart (host.log_bot_address, lit "LogBot")) xs
      → IsStarting ((host.log_bot_address, lit "LogBot") ∷ xs) s.core
      → Returns
          (λ (t : Server). IsStarting xs t.core)
          (add_log_bot host configuration env virt s files).0
  unfolding add_log_bot
  add_log_bot-IsStarting xs s files apart r =
      any_Returns (init_log_bot host configuration s.channels files).0 ⟫ λ o _.
      returned (enroll_log_bot-IsStarting xs o s apart r)

  add_vote_bot-IsStarting :
      (self : ℕ) (nickname id : Text) (xs : List Planned) (s : Server)
      → All (IsApart (self, nickname)) xs
      → IsStarting ((self, nickname) ∷ xs) s.core
      → Returns
          (λ (t : Server). IsStarting xs t.core)
          (add_vote_bot host configuration env virt self (nickname, id) s)
  unfolding add_vote_bot
  add_vote_bot-IsStarting self nickname id xs s apart r =
      any_Returns (init_vote_bot host configuration s.channels id) ⟫ λ o _.
      returned (enroll_vote_bot-IsStarting self nickname xs o s apart r)

  add_vote_bots-Inv :
      (i : ℕ) (entries : List Entry) (s : Server)
      → AreApart (planned_vote_bots host i entries)
      → IsStarting (planned_vote_bots host i entries) s.core
      → Returns (λ (t : Server). Inv t.core) (add_vote_bots host configuration env virt i entries s)
  unfolding add_vote_bots planned_vote_bots
  add_vote_bots-Inv i [] s apart r = returned r.inv
  add_vote_bots-Inv i ((nickname, id) ∷ entries) s apart r =
      add_vote_bot-IsStarting (host.vote_bot_address i) nickname id
        (planned_vote_bots host (i + 1) entries) s apart.0 r
      ⟫ λ s' r'. add_vote_bots-Inv (i + 1) entries s' apart.1 r'

  init_vote_bots-Inv :
      (s : Server)
      → AreApart (planned_vote_bots host 0 (vote_bot_entries host configuration))
      → IsStarting (planned_vote_bots host 0 (vote_bot_entries host configuration)) s.core
      → Returns (λ (t : Server). Inv t.core) (init_vote_bots host configuration env virt s)
  unfolding init_vote_bots vote_bot_entries
  init_vote_bots-Inv s apart r =
      elim (Option-cases (host.contents (configuration.config_path ++ lit "/VoteBotManager.ini"))) [
        | inl e ↦ rw (e, init_vote_bots) (returned r.inv)
        | inr (text, e) ↦
            rw (e, init_vote_bots)
              (any_Returns
                  (host.parse_config_file (configuration.config_path ++ lit "/VoteBotManager.ini"))
                ⟫ λ entries f.
                    add_vote_bots-Inv 0 entries s
                      (subst (λ es. AreApart (planned_vote_bots host 0 es))
                        (read_lem host configuration text entries e f) apart)
                      (subst (λ es. IsStarting (planned_vote_bots host 0 es) s.core)
                        (read_lem host configuration text entries e f) r))
      ]

  pub add_virtual_clients-Inv :
      (s : Server) (files : Files)
      → AreApart (planned_clients host (vote_bot_entries host configuration))
      → IsStarting (planned_clients host (vote_bot_entries host configuration)) s.core
      → Returns
          (λ (t : Server). Inv t.core)
          (add_virtual_clients host configuration env virt s files).0
  unfolding add_virtual_clients planned_clients
  add_virtual_clients-Inv s files apart r =
      add_log_bot-IsStarting _ (add_nick_serv host configuration env virt s) files apart.1.0
        (add_nick_serv-IsStarting _ s apart.0 r)
      ⟫ λ s' r'. init_vote_bots-Inv s' apart.1.1 r'
