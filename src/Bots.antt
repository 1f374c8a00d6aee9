-- ===== src/Bots.antt =====
-- The classes below CVirtualClient: which object answers a virtual call, CVirtualClient.cpp, and
-- CIRCServer::AddVirtualClient. A bot that calls the server may make it call other bots; the number
-- says how deep these calls may nest, and running out of it is marked as undefined behaviour.
pub mod Tame
pub mod Steady
use rosev_ircsystem.Common.{ℕ, zero, suc, Bool, true, false, List, [], ◌∷◌, ◌++◌, if◌then◌else◌}
use rosev_ircsystem.Text.{Text, lit, lowercased}
use rosev_ircsystem.Assoc.{text_key, insert}
use rosev_ircsystem.State.{
  ClientKind, network, nick_serv, log_bot, vote_bot, Client, Server, Environment, Virtual,
  with_nicknames,
}
use rosev_ircsystem.Send.{◌▸◌, undefined_behaviour}
use rosev_ircsystem.LogBot
use rosev_ircsystem.NickServ
use rosev_ircsystem.VoteBot.{channel_name}
use rosev_ircsystem.VoteBot.Votes
use rosev_ircsystem.VoteBot.Messages
use rosev_ircsystem.Server.Rooms.{receive_message_join}

module _ (env : Environment) (virt : Virtual) where
  -- SendIRCMessage of the object's class.
  unfoldable pub irc_message_of : ClientKind → Server → ℕ → Text → Server
  irc_message_of log_bot s self message = LogBot.send_irc_message env self message s
  irc_message_of vote_bot s self message = Votes.send_irc_message env virt self message s
  irc_message_of nick_serv s self message = s
  irc_message_of network s self message = s

  -- SendPrivateMessage of the object's class.
  unfoldable pub private_message_of : ClientKind → Server → ℕ → ℕ → Text → Server
  private_message_of nick_serv s self sender message =
      NickServ.send_private_message env virt self sender message s
  private_message_of vote_bot s self sender message =
      Messages.receive_private_message env virt self sender message s
  private_message_of log_bot s self sender message = s
  private_message_of network s self sender message = s

  unfoldable pub dispatch : Virtual
  dispatch = record {
    irc_message = λ s self message. irc_message_of (s.clients self).kind s self message;
    private_message =
        λ s self sender message. private_message_of (s.clients self).kind s self sender message;
  }

  -- PostInit of the object's class.
  unfoldable pub post_init : ClientKind → ℕ → Server → Server
  post_init log_bot self s = LogBot.join_logged env self virt (s.log_bots self).channel_streams s
  post_init vote_bot self s =
      receive_message_join env virt self (channel_name (s.vote_bots self).channel s ∷ []) s
  post_init nick_serv self s = s
  post_init network self s = s

  -- CIRCServer::AddVirtualClient, for a client whose Init succeeded.
  unfoldable pub add_virtual_client : ℕ → Server → Server
  add_virtual_client self s =
      s
      ▸ with_nicknames (insert (s.clients self).nickname_lowercased self)
      ▸ post_init (s.clients self).kind self

abbrev pub no_bots : Virtual
no_bots = record {
  irc_message = λ s self message. undefined_behaviour s;
  private_message = λ s self sender message. undefined_behaviour s;
}

unfoldable pub bots : ℕ → Environment → Virtual
unfolding dispatch
bots zero env = no_bots
bots (suc depth) env = dispatch env (bots depth env)

-- CVirtualClient::CVirtualClient
unfoldable pub virtual_client : ClientKind → Text → Client
virtual_client kind nickname = record {
  kind = kind;
  joined_channels = [];
  nickname = nickname;
  nickname_lowercased = lowercased nickname;
  prefix = nickname ++ (lit "!" ++ (lowercased nickname ++ lit "@virtual"));
  user_state = record {
    has_sent_nick_message = true;
    has_sent_user_message = true;
    is_identified = true;
  };
  shutdown_completed = false;
  socket_open = false;
}
