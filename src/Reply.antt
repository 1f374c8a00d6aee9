-- ===== src/Reply.antt =====
-- The numeric replies: irc_constants.h, the table NumericReplyMessages and the class
-- CNumericReplyFormatter of CClient.cpp. A format string of boost::format is the list of its pieces.
pub mod Complete
use Prim.Native.Nat.{◌/◌, ◌%◌}
use mathlib.Core.Option
use rosev_ircsystem.Common.{
  ℕ, ◌+◌, Bool, true, false, Option, none, some, List, [], ◌∷◌, ◌++◌, is_empty, if◌then◌else◌,
}
use rosev_ircsystem.Text.{Text, lit}
use rosev_ircsystem.State.{Environment, Client}

pub data Reply : Type 0 where
  rpl_welcome rpl_yourhost rpl_created rpl_myinfo rpl_notopic rpl_topic rpl_version : Reply
  rpl_namreply rpl_endofnames rpl_info rpl_motd rpl_endofinfo rpl_motdstart rpl_endofmotd : Reply
  err_nosuchnick err_nosuchchannel err_cannotsendtochan err_norecipient err_notexttosend : Reply
  err_nonicknamegiven err_erroneusnickname err_nicknameinuse err_notonchannel : Reply
  err_needmoreparams : Reply

unfoldable pub code : Reply → ℕ
code rpl_welcome = 1
code rpl_yourhost = 2
code rpl_created = 3
code rpl_myinfo = 4
code rpl_notopic = 331
code rpl_topic = 332
code rpl_version = 351
code rpl_namreply = 353
code rpl_endofnames = 366
code rpl_info = 371
code rpl_motd = 372
code rpl_endofinfo = 374
code rpl_motdstart = 375
code rpl_endofmotd = 376
code err_nosuchnick = 401
code err_nosuchchannel = 403
code err_cannotsendtochan = 404
code err_norecipient = 411
code err_notexttosend = 412
code err_nonicknamegiven = 431
code err_erroneusnickname = 432
code err_nicknameinuse = 433
code err_notonchannel = 442
code err_needmoreparams = 461

-- A text, or a %s.
pub data Piece : Type 0 where
  text : Text → Piece
  argument : Piece

unfoldable pub reply_message : Environment → Reply → List Piece
reply_message env rpl_welcome =
    text (lit ":Welcome to the ")
    ∷ argument
    ∷ text (lit " Internet Relay Chat Network ")
    ∷ argument
    ∷ []
reply_message env rpl_yourhost =
    text (lit ":Your host is ")
    ∷ argument
    ∷ text (lit ", running version ")
    ∷ text env.version_id
    ∷ []
reply_message env rpl_created = text (lit ":This server was created ") ∷ text env.version_date ∷ []
reply_message env rpl_myinfo =
    argument ∷ text (lit " ") ∷ text env.version_id ∷ text (lit " iv i") ∷ []
reply_message env rpl_notopic = text (lit "#") ∷ argument ∷ text (lit " :No topic is set") ∷ []
reply_message env rpl_topic = text (lit "#") ∷ argument ∷ text (lit " :") ∷ argument ∷ []
reply_message env rpl_version =
    text env.version_id ∷ text (lit ". ") ∷ argument ∷ text (lit " :") ∷ text env.product_name ∷ []
reply_message env rpl_namreply = text (lit "= #") ∷ argument ∷ text (lit " :") ∷ argument ∷ []
reply_message env rpl_endofnames = text (lit "#") ∷ argument ∷ text (lit " :End of NAMES list") ∷ []
reply_message env rpl_info = text (lit ":") ∷ argument ∷ []
reply_message env rpl_motd = text (lit ":- ") ∷ argument ∷ []
reply_message env rpl_endofinfo = text (lit ":End of INFO list") ∷ []
reply_message env rpl_motdstart =
    text (lit ":- ") ∷ argument ∷ text (lit " Message of the day - ") ∷ []
reply_message env rpl_endofmotd = text (lit ":End of MOTD command.") ∷ []
reply_message env err_nosuchnick = argument ∷ text (lit " :No such nick/channel") ∷ []
reply_message env err_nosuchchannel =
    text (lit "#") ∷ argument ∷ text (lit " :No such channel") ∷ []
reply_message env err_cannotsendtochan =
    text (lit "#") ∷ argument ∷ text (lit " :Cannot send to channel") ∷ []
reply_message env err_norecipient =
    text (lit ":No recipient given (") ∷ argument ∷ text (lit ")") ∷ []
reply_message env err_notexttosend = text (lit ":No text to send") ∷ []
reply_message env err_nonicknamegiven = text (lit ":No nickname given") ∷ []
reply_message env err_erroneusnickname = argument ∷ text (lit " :Erroneous Nickname") ∷ []
reply_message env err_nicknameinuse = argument ∷ text (lit " :Nickname is already in use") ∷ []
reply_message env err_notonchannel =
    text (lit "#") ∷ argument ∷ text (lit " :You're not on that channel") ∷ []
reply_message env err_needmoreparams = argument ∷ text (lit " :Not enough parameters") ∷ []

-- operator% for each argument and _CheckRemainingArguments: the message as it is sent once no %s is
-- left, whatever arguments are still to come. `none` is a message that is never sent.
unfoldable pub fill : List Piece → List Text → Option Text
fill [] args = some []
fill (text t ∷ pieces) args = Option.map (λ rest. t ++ rest) (fill pieces args)
fill (argument ∷ pieces) [] = none
fill (argument ∷ pieces) (a ∷ args) = Option.map (λ rest. a ++ rest) (fill pieces args)

-- An argument is given behind the last %s: the assertion of operator% fails.
unfoldable pub has_surplus : List Piece → List Text → Bool
has_surplus [] [] = false
has_surplus [] (a ∷ args) = true
has_surplus (text t ∷ pieces) args = has_surplus pieces args
has_surplus (argument ∷ pieces) [] = false
has_surplus (argument ∷ pieces) (a ∷ args) = has_surplus pieces args

-- %03d
unfoldable pub three_digits : ℕ → Text
three_digits n = (48 + n / 100) ∷ (48 + (n / 10) % 10) ∷ (48 + n % 10) ∷ []

-- CClient::GetNicknameAsTarget
unfoldable pub nickname_as_target : Client → Text
nickname_as_target client = if is_empty client.nickname then lit "*" else client.nickname

-- ":%s %03d %s " and the message of the reply.
unfoldable pub numeric_reply : Environment → Client → Reply → List Text → Option Text
numeric_reply env client reply args =
    fill
      (text (lit ":")
        ∷ argument
        ∷ text (lit " ")
        ∷ argument
        ∷ text (lit " ")
        ∷ argument
        ∷ text (lit " ")
        ∷ reply_message env reply)
      (env.name ∷ three_digits (code reply) ∷ nickname_as_target client ∷ args)
