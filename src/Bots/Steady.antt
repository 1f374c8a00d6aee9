-- ===== src/Bots/Steady.antt =====
-- The virtual clients let the VoteBots speak, and what a virtual client says to a channel is told from
-- PART and QUIT.
use rosev_ircsystem.Common.{
  ℕ, zero, suc, ◌≡◌, refl, ap, ◌∙◌, some, false, [], ◌∷◌, ◌++◌, append_assoc, arith, if_elim,
}
use rosev_ircsystem.Text.{Text, lit, lowercased, text_eq, find_first_of, Free}
use rosev_ircsystem.State.{
  ClientKind, network, nick_serv, log_bot, vote_bot, Server, Environment, Virtual,
}
use rosev_ircsystem.Relay.{
  Relay, from_server, malformed, from_client, parse_relay, relay_user, relay_command, take_until,
}
use rosev_ircsystem.LogBot.Quiet as LogQuiet
use rosev_ircsystem.VoteBot.Votes.{watch_relay, send_irc_message}
use rosev_ircsystem.VoteBot.Steady.{is_departure, IsSteady, IsPlain}
use rosev_ircsystem.Bots.{irc_message_of, dispatch, bots, virtual_client}
use rosev_ircsystem.Bots.Tame.{bots-IsTame}

module _ (env : Environment) (virt : Virtual) where
  vote_bots-watch_relay :
      (self : ℕ) (r : Relay) (s : Server)
      → is_departure r ≡ false
      → (watch_relay env virt self r s).vote_bots ≡ s.vote_bots
  unfolding watch_relay is_departure
  vote_bots-watch_relay self from_server s n = refl
  vote_bots-watch_relay self malformed s n = refl
  vote_bots-watch_relay self (from_client user command parameters) s n = rw (n, watch_relay)

  vote_bots-send_irc_message :
      (self : ℕ) (m : Text) (s : Server)
      → is_departure (parse_relay m) ≡ false
      → (send_irc_message env virt self m s).vote_bots ≡ s.vote_bots
  unfolding send_irc_message
  vote_bots-send_irc_message self m s n =
      if_elim (λ (t : Server). t.vote_bots ≡ s.vote_bots) (s.vote_bots self).vote_started
        (vote_bots-watch_relay self (parse_relay m) s n) refl

  irc_message_of-votes :
      (kind : ClientKind) (s : Server) (self : ℕ) (m : Text)
      → is_departure (parse_relay m) ≡ false
      → (irc_message_of env virt kind s self m).vote_bots ≡ s.vote_bots
  unfolding irc_message_of
  irc_message_of-votes network s self m n = refl
  irc_message_of-votes nick_serv s self m n = refl
  irc_message_of-votes log_bot s self m n = LogQuiet.vote_bots-send_irc_message env self m s
  irc_message_of-votes vote_bot s self m n = vote_bots-send_irc_message self m s n

-- However deep their calls nest, virtual clients that are sent an IRC message other than PART and
-- QUIT change no VoteBot.
pub bots-IsSteady : (depth : ℕ) (env : Environment) → IsSteady (bots depth env)
unfolding bots dispatch
bots-IsSteady zero env = record {
  quiet = (bots-IsTame zero env).quiet;
  votes_kept = λ s c m n. refl;
}
bots-IsSteady (suc depth) env = record {
  quiet = (bots-IsTame (suc depth) env).quiet;
  votes_kept = λ s c m n. irc_message_of-votes env (bots depth env) (s.clients c).kind s c m n;
}

find_first_of-append :
    (sep : ℕ) (s t : Text) → Free sep s → find_first_of sep (s ++ sep ∷ t) ≡ some t
unfolding find_first_of
find_first_of-append sep [] t h = ground arith
find_first_of-append sep (c ∷ s) t h = ground (arith, find_first_of-append sep s t h.1)

relay_user-client :
    (user rest : Text)
    → Free 64 user
    → relay_user (some (user ++ 64 ∷ rest))
      ≡ relay_command (take_until 64 (user ++ 64 ∷ rest)) (find_first_of 32 rest)
unfolding relay_user
relay_user-client user rest b = rw (find_first_of-append 64 user rest b, relay_user)

-- A message with PRIVMSG behind a prefix.
is_departure-privmsg :
    (nickname user m : Text)
    → Free 33 nickname
    → Free 64 user
    → is_departure
        (parse_relay (58 ∷ (nickname ++ 33 ∷ (user ++ 64 ∷ (lit "virtual PRIVMSG #" ++ m)))))
      ≡ false
unfolding is_departure parse_relay find_first_of relay_command take_until text_eq lit
is_departure-privmsg nickname user m a b =
    ap (λ o. is_departure (relay_user o))
      (find_first_of-append 33 nickname (user ++ 64 ∷ (lit "virtual PRIVMSG #" ++ m)) a)
    ∙ ap is_departure (relay_user-client user (lit "virtual PRIVMSG #" ++ m) b)

-- The prefix of a virtual client whose nickname has neither an exclamation mark nor an at sign.
pub virtual_client-IsPlain :
    (kind : ClientKind) (nickname : Text)
    → Free 33 nickname
    → Free 64 (lowercased nickname)
    → IsPlain (virtual_client kind nickname).prefix
unfolding IsPlain virtual_client lit
virtual_client-IsPlain kind nickname a b m =
    ap (λ t. is_departure (parse_relay (58 ∷ t)))
      (append_assoc nickname (33 ∷ (lowercased nickname ++ lit "@virtual")) (lit " PRIVMSG #" ++ m)
        ∙ ap (λ t. nickname ++ 33 ∷ t)
            (append_assoc (lowercased nickname) (lit "@virtual") (lit " PRIVMSG #" ++ m)))
    ∙ is_departure-privmsg nickname (lowercased nickname) m a b
