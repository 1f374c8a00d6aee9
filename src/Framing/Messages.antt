-- ===== src/Framing/Messages.antt =====
-- Which messages the bytes of a read hold, what the loop of CNetworkClient::_HandleNewData keeps if
-- receiving a message does, and how long the remainder is.
use rosev_ircsystem.Common.{
  ◌<◌, ◌≡◌, Bool, true, false, some, List, [], ◌∷◌, ◌++◌, arith, ◌==◌, if◌then◌else◌, length, All,
}
use rosev_ircsystem.Text.{Text}
use rosev_ircsystem.Framing.{scan, finish, line_ending_length, irc_message_length}

-- The messages of the bytes, behind the beginning of one, without their line endings. `skip` is set
-- in front of the LF of a CRLF. A NUL ends them.
unfoldable pub messages_of : Bool → Text → Text → List Text
messages_of skip message [] = []
messages_of true message (c ∷ rest) = messages_of false message rest
messages_of false message (c ∷ rest) =
    let ending = line_ending_length c rest in
    let longer = messages_of false (message ++ c ∷ []) rest in
    let next = messages_of (ending == 2) [] rest in
    if c == 0 then [] else if ending == 0 then longer else message ∷ next

-- What a server state satisfies in front of a message, and what after one.
module _ {S : Type 0} (receive : Text → S → S) (is_open : S → Bool) (too_long : S → S)
    (IsGood : Text → Type 0) (Before After : S → Type 0)
    (received : (m : Text) (s : S) → IsGood m → Before s → After (receive m s))
    (still_open : (s : S) → is_open s ≡ true → After s → Before s)
    (refused : (s : S) → Before s → After (too_long s)) (idle : (s : S) → Before s → After s) where
  finish_kept :
      (message : Text) (s : S) → Before s → After (finish receive is_open too_long message s).0
  unfolding finish
  finish_kept message s b = ground (arith, refused s b, idle s b)

  -- The invariant rule of the loop.
  pub scan_kept :
      (skip : Bool) (message bytes : Text) (s : S)
      → All IsGood (messages_of skip message bytes)
      → Before s
      → After (scan receive is_open too_long skip message bytes s).0
  unfolding scan messages_of
  scan_kept skip message [] s g b = finish_kept message s b
  scan_kept true message (c ∷ rest) s g b = scan_kept false message rest s g b
  scan_kept false message (c ∷ rest) s g b = ground (
    arith,
    finish_kept message s b,
    refused s b,
    received message s,
    still_open (receive message s),
    scan_kept false (message ++ c ∷ []) rest s,
    scan_kept (line_ending_length c rest == 2) [] rest (receive message s),
  )

module _ {S : Type 0} (receive : Text → S → S) (is_open : S → Bool) (too_long : S → S) where
  -- Whatever a read brings, the remainder that is kept for the next one is shorter than 512 bytes,
  -- so that three quarters of the input buffer are free for it.
  pub scan-short :
      (skip : Bool) (message bytes rest : Text) (s : S)
      → (scan receive is_open too_long skip message bytes s).1 ≡ some rest
      → length rest < irc_message_length
  unfolding scan finish
  scan-short skip message [] rest s e = ground (arith, e)
  scan-short true message (c ∷ bytes) rest s e = scan-short false message bytes rest s e
  scan-short false message (c ∷ bytes) rest s e = ground (
    arith,
    e,
    scan-short false (message ++ c ∷ []) bytes rest s,
    scan-short (line_ending_length c bytes == 2) [] bytes rest (receive message s),
  )
