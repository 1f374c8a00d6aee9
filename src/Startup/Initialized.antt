-- ===== src/Startup/Initialized.antt =====
-- The server when InitializeServer is done, and whatever it reaches from there.
use rosev_ircsystem.Common.{
  ℕ, ◌≡◌, refl, subst, ◌≢◌, some, List, [], ◌∷◌, ◌++◌, arith, All, Option-cases, inl, inr, false,
}
use rosev_ircsystem.Text.{Text, lit}
use rosev_ircsystem.Assoc.{nat_key, text_key, lookup, has_key}
use rosev_ircsystem.State.{Channel, Core, Server, Environment}
use rosev_ircsystem.Server.Membership.{Inv, is_member}
use rosev_ircsystem.Bots.{bots}
use rosev_ircsystem.Bots.Tame.{bots-IsTame}
use rosev_ircsystem.Startup.Result.{
  ok, Returns, returned, thrown, ◌⟫◌, any_Returns, of_ok, Result-cases,
}
use rosev_ircsystem.Startup.Host.{Host, Files}
use rosev_ircsystem.Startup.Config.{Configuration}
use rosev_ircsystem.Startup.Channels.{preset_channels, server_of, init_server}
use rosev_ircsystem.Startup.Channels.Configured.{preset_channels-IsConfigured}
use rosev_ircsystem.Startup.VirtualClients.Agreement.{Planned, IsPending, AreApart}
use rosev_ircsystem.Startup.Main.{environment_of, initialize}
use rosev_ircsystem.Startup.VirtualClients.Added.{
  planned_clients, vote_bot_entries, IsStarting, add_virtual_clients-Inv,
}
use rosev_ircsystem.System.{Reach, Reach-Inv}

-- The virtual clients of a configuration have nicknames, and they differ from each other in their
-- addresses and in their nicknames, also apart from the case of letters.
pub record IsSound (host : Host) (configuration : Configuration) : Type 0 where
  pub apart : AreApart (planned_clients host (vote_bot_entries host configuration))
  pub titled : All (λ x. x.1 ≢ []) (planned_clients host (vote_bot_entries host configuration))

server_of-IsPending :
    (host : Host) (configuration : Configuration) (channels : List (Text × Channel))
    (xs : List Planned)
    → All (λ x. x.1 ≢ []) xs
    → All (IsPending (server_of host configuration channels).core) xs
unfolding server_of lookup
server_of-IsPending host configuration channels [] h = tt
server_of-IsPending host configuration channels (x ∷ xs) h = (
  record { nameless = refl; alive = refl; free = refl; named = h.0 },
  server_of-IsPending host configuration channels xs h.1,
)

-- A server without members.
vacant-is_member :
    (k : Core) (key : Text) (c : ℕ)
    → ((channel : Channel) → lookup key k.channels ≡ some channel → channel.clients ≡ [])
    → is_member k key c ≡ false
unfolding is_member has_key
vacant-is_member k key c vacant = elim (Option-cases (lookup key k.channels)) [
  | inl e ↦ rw (e, is_member)
  | inr (channel, e) ↦ rw (e, is_member, vacant channel e) (unfold lookup in refl)
]

server_of-Inv :
    (host : Host) (configuration : Configuration) (channels : List (Text × Channel))
    → ((key : Text) (channel : Channel) → lookup key channels ≡ some channel → channel.clients ≡ [])
    → Inv (server_of host configuration channels).core
unfolding server_of has_key lookup
server_of-Inv host configuration channels vacant = record {
  agree = λ key c a. vacant-is_member _ key c (vacant key);
  gone = λ key c a. ground (arith, a);
  owner = λ n c h. ground (arith, h);
  named = λ c a f. ground (arith, f);
  titled = λ c a. ground (arith, a);
  lodged = λ key c h. ground (arith, h);
  linked = λ c o. refl;
  listed = λ c h. refl;
}

init_server-Inv :
    (host : Host) (configuration : Configuration)
    → IsSound host configuration
    → Returns
        (λ (s : Server).
          IsStarting (planned_clients host (vote_bot_entries host configuration)) s.core)
        (init_server host configuration)
unfolding init_server
init_server-Inv host configuration sound =
    any_Returns (host.parse_config_file (configuration.config_path ++ lit "/Channel_Users.ini"))
    ⟫ λ users _.
        any_Returns
          (host.parse_config_file (configuration.config_path ++ lit "/Channel_Observers.ini"))
        ⟫ λ observers _.
            any_Returns (host.parse_config_file (configuration.config_path ++ lit "/Channels.ini"))
            ⟫ λ entries _. any_Returns (preset_channels users observers entries) ⟫ λ channels e.
                returned (record {
                  inv =
                      server_of-Inv host configuration channels
                        (preset_channels-IsConfigured users observers entries channels e).vacant;
                  pending = server_of-IsPending host configuration channels _ sound.titled;
                })

initialize-Returns :
    (host : Host) (depth : ℕ) (configuration : Configuration) (files : Files)
    → IsSound host configuration
    → Returns
        (λ (r : Environment × Server). Inv r.1.core)
        (initialize host depth configuration files).0
unfolding initialize
initialize-Returns host depth configuration files sound =
    let env = environment_of host configuration in
    elim (Result-cases (init_server host configuration)) [
      | inl (s, e) ↦
          rw (e, initialize)
            (add_virtual_clients-Inv host configuration env (bots depth env)
                (bots-IsTame depth env).quiet s files sound.apart
                (of_ok (subst (Returns _) e (init_server-Inv host configuration sound)))
              ⟫ λ s' v. returned v)
      | inr (x, e) ↦ rw (e, initialize) thrown
    ]

-- If the virtual clients have nicknames and differ in address and nickname, the maps of the server
-- that the initialization returns agree, and so do those of each state that the steps of Step,
-- connections, reads and timers among them, lead to from there. A read is of a client whose socket
-- is open, and completes no NICK message with an empty nickname; a new client object stands at an
-- address that no channel and no nickname has, and the one that waits for the connection has not
-- been shut down.
pub initialize-Inv :
    (host : Host) (depth : ℕ) (configuration : Configuration) (files : Files) (env : Environment)
    (s t : Server)
    → IsSound host configuration
    → (initialize host depth configuration files).0 ≡ ok (env, s)
    → Reach depth env s t
    → Inv t.core
initialize-Inv host depth configuration files env s t sound e r =
    Reach-Inv
      (of_ok (
        subst (Returns (λ (r : Environment × Server). Inv r.1.core)) e
          (initialize-Returns host depth configuration files sound)))
      r
