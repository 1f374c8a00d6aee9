-- ===== src/Bots/Tame.antt =====
-- The virtual clients satisfy what the server needs of them, however deep their calls nest.
use rosev_ircsystem.Common.{ℕ, zero, suc, ◌≡◌, refl, false}
use rosev_ircsystem.Text.{Text}
use rosev_ircsystem.State.{
  ClientKind, network, nick_serv, log_bot, vote_bot, Server, Environment, Virtual,
}
use rosev_ircsystem.Send.{is_network_client, to_network_client}
use rosev_ircsystem.Server.Membership.{Inv}
use rosev_ircsystem.Server.Talk.Agreement.{IsTame}
use rosev_ircsystem.LogBot.Quiet as LogQuiet
use rosev_ircsystem.NickServ
use rosev_ircsystem.NickServ.Agreement as NickServInv
use rosev_ircsystem.VoteBot.Quiet.{IsReserved, send_irc_message_kept}
use rosev_ircsystem.VoteBot.Quiet.Answers.{receive_private_message_kept}
use rosev_ircsystem.Bots.{irc_message_of, private_message_of, dispatch, no_bots, bots}

no_bots-IsReserved : IsReserved no_bots
no_bots-IsReserved = record {
  quiet = record { core_kept = λ s c m. refl };
  private_message_kept = λ s d c m h. refl;
}

no_bots-IsTame : IsTame no_bots
no_bots-IsTame = record {
  quiet = record { core_kept = λ s c m. refl };
  private_message_kept = λ s d c m v. v;
}

core-nick_serv :
    (env : Environment) (virt : Virtual) (self c : ℕ) (m : Text) (s : Server)
    → is_network_client c s ≡ false
    → (NickServ.send_private_message env virt self c m s).core ≡ s.core
unfolding NickServ.send_private_message to_network_client
core-nick_serv env virt self c m s h = rw h

module _ (env : Environment) (virt : Virtual) (reserved : IsReserved virt) where
  irc_message_of-core :
      (kind : ClientKind) (s : Server) (self : ℕ) (m : Text)
      → (s.clients self).kind ≡ kind
      → (irc_message_of env virt kind s self m).core ≡ s.core
  unfolding irc_message_of
  irc_message_of-core network s self m e = refl
  irc_message_of-core nick_serv s self m e = refl
  irc_message_of-core log_bot s self m e = LogQuiet.core-send_irc_message env self m s
  irc_message_of-core vote_bot s self m e =
      send_irc_message_kept env virt reserved self s.core (rw e) m s refl

  private_message_of-core :
      (kind : ClientKind) (s : Server) (self c : ℕ) (m : Text)
      → (s.clients self).kind ≡ kind
      → is_network_client c s ≡ false
      → (private_message_of env virt kind s self c m).core ≡ s.core
  unfolding private_message_of
  private_message_of-core network s self c m e h = refl
  private_message_of-core log_bot s self c m e h = refl
  private_message_of-core nick_serv s self c m e h = core-nick_serv env virt self c m s h
  private_message_of-core vote_bot s self c m e h =
      receive_private_message_kept env virt reserved self s.core (rw e) c m s refl

  private_message_of-Inv :
      (kind : ClientKind) (s : Server) (self c : ℕ) (m : Text)
      → (s.clients self).kind ≡ kind
      → Inv s.core
      → Inv (private_message_of env virt kind s self c m).core
  unfolding private_message_of
  private_message_of-Inv network s self c m e v = v
  private_message_of-Inv log_bot s self c m e v = v
  private_message_of-Inv nick_serv s self c m e v =
      NickServInv.send_private_message-Inv env virt reserved.quiet self c m s v
  private_message_of-Inv vote_bot s self c m e v =
      rw (receive_private_message_kept env virt reserved self s.core (rw e) c m s refl) v

  dispatch-IsReserved : IsReserved (dispatch env virt)
  unfolding dispatch
  dispatch-IsReserved = record {
    quiet = record { core_kept = λ s c m. irc_message_of-core (s.clients c).kind s c m refl };
    private_message_kept = λ s d c m h. private_message_of-core (s.clients d).kind s d c m refl h;
  }

  dispatch-IsTame : IsTame (dispatch env virt)
  unfolding dispatch
  dispatch-IsTame = record {
    quiet = record { core_kept = λ s c m. irc_message_of-core (s.clients c).kind s c m refl };
    private_message_kept = λ s d c m v. private_message_of-Inv (s.clients d).kind s d c m refl v;
  }

-- However deep their calls nest, virtual clients that are sent an IRC message, or a private
-- message by a virtual client, change no map of the server.
pub bots-IsReserved : (depth : ℕ) (env : Environment) → IsReserved (bots depth env)
unfolding bots
bots-IsReserved zero env = no_bots-IsReserved
bots-IsReserved (suc depth) env =
    dispatch-IsReserved env (bots depth env) (bots-IsReserved depth env)

-- However deep their calls nest, virtual clients that are sent an IRC message change no map of the
-- server, and virtual clients that are sent a private message keep the maps in agreement.
pub bots-IsTame : (depth : ℕ) (env : Environment) → IsTame (bots depth env)
unfolding bots
bots-IsTame zero env = no_bots-IsTame
bots-IsTame (suc depth) env = dispatch-IsTame env (bots depth env) (bots-IsReserved depth env)
