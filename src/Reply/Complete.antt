-- ===== src/Reply/Complete.antt =====
-- How many arguments each numeric reply takes before it is sent, and how many it takes at all.
use mathlib.Core.Option
use rosev_ircsystem.Common.{
  ℕ, suc, ◌≡◌, refl, ◌≢◌, ◌↔◌, Option, none, some, List, [], ◌∷◌, ◌++◌, ◌∙◌, ap, leb, ltb, ◌≤◌, ◌<◌,
  Bool, true, false, arith, length,
}
use rosev_ircsystem.Text.{Text}
use rosev_ircsystem.State.{Environment, Client}
use rosev_ircsystem.Reply.{
  Reply, rpl_welcome, rpl_yourhost, rpl_created, rpl_myinfo, rpl_notopic, rpl_topic, rpl_version,
  rpl_namreply, rpl_endofnames, rpl_info, rpl_motd, rpl_endofinfo, rpl_motdstart, rpl_endofmotd,
  err_nosuchnick, err_nosuchchannel, err_cannotsendtochan, err_norecipient, err_notexttosend,
  err_nonicknamegiven, err_erroneusnickname, err_nicknameinuse, err_notonchannel,
  err_needmoreparams, Piece, text, argument, fill, has_surplus, reply_message, numeric_reply,
}

-- The number of %s.
holes : List Piece → ℕ
holes [] = 0
holes (text t ∷ pieces) = holes pieces
holes (argument ∷ pieces) = suc (holes pieces)

is_sent : Option Text → Bool
is_sent none = false
is_sent (some message) = true

is_sent-map : (f : Text → Text) (o : Option Text) → is_sent (Option.map f o) ≡ is_sent o
unfolding is_sent
is_sent-map f none = refl
is_sent-map f (some message) = refl

is_sent-fill :
    (pieces : List Piece) (args : List Text)
    → is_sent (fill pieces args) ≡ leb (holes pieces) (length args)
unfolding fill holes is_sent
is_sent-fill [] args = ground arith
is_sent-fill (text t ∷ pieces) args =
    is_sent-map (λ rest. t ++ rest) (fill pieces args) ∙ is_sent-fill pieces args
is_sent-fill (argument ∷ pieces) [] = ground arith
is_sent-fill (argument ∷ pieces) (a ∷ args) =
    is_sent-map (λ rest. a ++ rest) (fill pieces args) ∙ is_sent-fill pieces args ∙ ground arith

-- How many arguments follow the code of each reply.
unfoldable pub arity : Reply → ℕ
arity rpl_welcome = 2
arity rpl_created = 0
arity rpl_topic = 2
arity rpl_namreply = 2
arity rpl_endofinfo = 0
arity rpl_endofmotd = 0
arity err_notexttosend = 0
arity err_nonicknamegiven = 0
arity _ = 1

holes-reply_message :
    (env : Environment) (reply : Reply) → holes (reply_message env reply) ≡ arity reply
unfolding holes reply_message arity
holes-reply_message env rpl_welcome = refl
holes-reply_message env rpl_yourhost = refl
holes-reply_message env rpl_created = refl
holes-reply_message env rpl_myinfo = refl
holes-reply_message env rpl_notopic = refl
holes-reply_message env rpl_topic = refl
holes-reply_message env rpl_version = refl
holes-reply_message env rpl_namreply = refl
holes-reply_message env rpl_endofnames = refl
holes-reply_message env rpl_info = refl
holes-reply_message env rpl_motd = refl
holes-reply_message env rpl_endofinfo = refl
holes-reply_message env rpl_motdstart = refl
holes-reply_message env rpl_endofmotd = refl
holes-reply_message env err_nosuchnick = refl
holes-reply_message env err_nosuchchannel = refl
holes-reply_message env err_cannotsendtochan = refl
holes-reply_message env err_norecipient = refl
holes-reply_message env err_notexttosend = refl
holes-reply_message env err_nonicknamegiven = refl
holes-reply_message env err_erroneusnickname = refl
holes-reply_message env err_nicknameinuse = refl
holes-reply_message env err_notonchannel = refl
holes-reply_message env err_needmoreparams = refl

sent_with :
    (env : Environment) (client : Client) (reply : Reply) (args : List Text)
    → is_sent (numeric_reply env client reply args) ≡ leb (arity reply) (length args)
unfolding numeric_reply
sent_with env client reply args =
    is_sent-fill _ _ ∙ unfold holes in ground (arith, holes-reply_message env reply)

has_surplus-holes :
    (pieces : List Piece) (args : List Text)
    → has_surplus pieces args ≡ ltb (holes pieces) (length args)
unfolding has_surplus holes
has_surplus-holes [] [] = refl
has_surplus-holes [] (a ∷ args) = ground arith
has_surplus-holes (text t ∷ pieces) args = has_surplus-holes pieces args
has_surplus-holes (argument ∷ pieces) [] = ground arith
has_surplus-holes (argument ∷ pieces) (a ∷ args) = has_surplus-holes pieces args ∙ ground arith

sent_iff : (n m : ℕ) (o : Option Text) → is_sent o ≡ leb n m → (o ≢ none) ↔ (n ≤ m)
unfolding is_sent
sent_iff n m none e = (λ h. absurd (h refl), λ q. absurd (ground (arith, e, q)))
sent_iff n m (some t) e = (λ h. ground (arith, e), λ q h. cc)

-- A numeric reply is sent exactly if it is given at least as many arguments as the arity of its
-- code, and the assertion that an argument is still missing fails exactly if it is given more.
pub numeric_reply-arity :
    (env : Environment) (client : Client) (reply : Reply) (args : List Text)
    → ((numeric_reply env client reply args ≢ none) ↔ (arity reply ≤ length args))
      × ((has_surplus (reply_message env reply) args ≡ true) ↔ (arity reply < length args))
numeric_reply-arity env client reply args = (
  sent_iff (arity reply) (length args) (numeric_reply env client reply args)
      (sent_with env client reply args),
  (λ h. ground (arith, surplus, h), λ h. ground (arith, surplus, h)),
)
  where
    surplus : has_surplus (reply_message env reply) args ≡ ltb (arity reply) (length args)
    surplus =
        has_surplus-holes (reply_message env reply) args
        ∙ ap (λ n. ltb n (length args)) (holes-reply_message env reply)
