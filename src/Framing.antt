-- ===== src/Framing.antt =====
-- CNetworkClient::_HandleNewData: the input buffer, line endings and the length limit. The loop is
-- written over any server state S, given how a message is received, whether the socket is still
-- open, and how the client is disconnected.
pub mod Lines
pub mod Messages
use rosev_ircsystem.Common.{
  ℕ, zero, suc, ◌+◌, ◌≤◌, ◌<◌, ◌≡◌, refl, sym, ◌≢◌, ◌⊎◌, inl, inr, Bool, true, false, ◌&&◌, not,
  Option, none, some, List, [], ◌∷◌, ◌++◌, append-nil, append_assoc, arith, ◌==◌, ltb, leb,
  if◌then◌else◌, length, length-append, All, Bool-cases,
}
use rosev_ircsystem.Text.{Text, lit}

abbrev pub irc_message_length : ℕ
irc_message_length = 512

abbrev pub begins_with_lf : Text → Bool
begins_with_lf [] = false
begins_with_lf (c ∷ s) = c == 10

-- LineEndingLength at *p = c, with `rest` behind it.
unfoldable pub line_ending_length : ℕ → Text → ℕ
line_ending_length c rest = if (c == 13) && begins_with_lf rest then 2 else if c == 10 then 1 else 0

abbrev pub ends_in_cr : Text → Bool
ends_in_cr [] = false
ends_in_cr (c ∷ []) = c == 13
ends_in_cr (c ∷ d ∷ s) = ends_in_cr (d ∷ s)

-- The bytes before the terminating NUL that `while(*p)` stops at.
abbrev pub IsNulFree : Text → Type 0
IsNulFree s = All (λ c. c ≢ 0) s

module _ {S : Type 0} (receive : Text → S → S) (is_open : S → Bool) (too_long : S → S) where
  -- The code behind the loop: too much without a line ending, or a remainder for the next read.
  unfoldable pub finish : Text → S → S × Option Text
  finish message s =
      if leb irc_message_length (length message) then (too_long s, none) else (s, some message)

  -- The loop. `message` holds the bytes from IRCMessage up to p; `skip` is set where p has to pass
  -- over the LF of a CRLF. `none` means that the function returned early.
  unfoldable pub scan : Bool → Text → Text → S → S × Option Text
  unfolding finish line_ending_length
  scan skip message [] s = finish message s
  scan true message (c ∷ rest) s = scan false message rest s
  scan false message (c ∷ rest) s =
      let ending = line_ending_length c rest in
      let longer = scan false (message ++ c ∷ []) rest s in
      let received = receive message s in
      let next = scan (ending == 2) [] rest received in
      if c == 0
      then finish message s
      else if ending == 0
      then longer
      else if ltb irc_message_length (length message + ending)
      then (too_long s, none)
      else if is_open received
      then next
      else (received, none)

  -- A read, and then another one if the function did not return early.
  unfoldable pub scan_next : S × Option Text → Text → S × Option Text
  scan_next (s, none) more = (s, none)
  scan_next (s, some message) more = scan false message more s

  scan_overlong :
      (message rest : Text) (s : S)
      → irc_message_length ≤ length message
      → scan false message rest s ≡ (too_long s, none)
  unfolding scan
  scan_overlong message [] s h = ground arith
  scan_overlong message (c ∷ rest) s h =
      ground (arith, scan_overlong (message ++ c ∷ []) rest s, length-append message (c ∷ []))

  scan_next_some :
      (message ys : Text) (s : S) → scan_next (finish message s) ys ≡ scan false message ys s
  unfolding scan_next finish
  scan_next_some message ys s = ground (arith, scan_overlong message ys s)

  ends_in_cr-tail : (c : ℕ) (xs : Text) → ends_in_cr (c ∷ xs) ≡ false → ends_in_cr xs ≡ false
  ends_in_cr-tail c [] e = refl
  ends_in_cr-tail c (d ∷ xs) e = e

  -- One round of the loop, with the length of the line ending given.
  round : ℕ → ℕ → Text → Text → S → S × Option Text
  round c ending message rest s =
      if c == 0
      then finish message s
      else if ending == 0
      then scan false (message ++ c ∷ []) rest s
      else if ltb irc_message_length (length message + ending)
      then (too_long s, none)
      else if is_open (receive message s)
      then scan (ending == 2) [] rest (receive message s)
      else (receive message s, none)

  scan-round :
      (c : ℕ) (message rest : Text) (s : S)
      → scan false message (c ∷ rest) s ≡ round c (line_ending_length c rest) message rest s
  unfolding scan round
  scan-round c message rest s = refl

  round-append :
      (c ending : ℕ) (message xs ys : Text) (s : S)
      → c ≢ 0
      → scan false (message ++ c ∷ []) (xs ++ ys) s
        ≡ scan_next (scan false (message ++ c ∷ []) xs s) ys
      → scan (ending == 2) [] (xs ++ ys) (receive message s)
        ≡ scan_next (scan (ending == 2) [] xs (receive message s)) ys
      → round c ending message (xs ++ ys) s ≡ scan_next (round c ending message xs s) ys
  unfolding round scan_next
  round-append c ending message xs ys s f h k = ground arith

  line_ending_length-append :
      (c : ℕ) (xs ys : Text)
      → ends_in_cr (c ∷ xs) ≡ false
      → line_ending_length c (xs ++ ys) ≡ line_ending_length c xs
  unfolding line_ending_length
  line_ending_length-append c [] ys e = ground arith
  line_ending_length-append c (d ∷ xs) ys e = refl

  line_ending_length-last : (c : ℕ) → (line_ending_length c [] == 2) ≡ false
  unfolding line_ending_length
  line_ending_length-last c = ground arith

  scan-append :
      (skip : Bool) (message xs ys : Text) (s : S)
      → IsNulFree xs
      → ends_in_cr xs ≡ false
      → (skip ≡ true → xs ≢ [])
      → scan skip message (xs ++ ys) s ≡ scan_next (scan skip message xs s) ys
  unfolding scan
  scan-append false message [] ys s f e k = sym (scan_next_some message ys s)
  scan-append true message [] ys s f e k = absurd (k refl refl)
  scan-append true message (c ∷ xs) ys s f e k =
      scan-append false message xs ys s f.1 (ends_in_cr-tail c xs e) (λ q. cc)
  scan-append false message (c ∷ []) ys s f e k =
      rw (scan-round c message ys s, scan-round c message [] s, line_ending_length-append c [] ys e)
        (round-append c (line_ending_length c []) message [] ys s f.0
          (sym (scan_next_some (message ++ c ∷ []) ys s))
          (rw (line_ending_length-last c) (sym (scan_next_some [] ys (receive message s)))))
  scan-append false message (c ∷ d ∷ xs) ys s f e k =
      rw
        (
          scan-round c message (d ∷ xs ++ ys) s,
          scan-round c message (d ∷ xs) s,
          line_ending_length-append c (d ∷ xs) ys e,
        )
        (round-append c (line_ending_length c (d ∷ xs)) message (d ∷ xs) ys s f.0
          (scan-append false (message ++ c ∷ []) (d ∷ xs) ys s f.1 e (λ q. cc))
          (scan-append (line_ending_length c (d ∷ xs) == 2) [] (d ∷ xs) ys (receive message s) f.1 e
            (λ _ q. cc)))

-- However TCP splits the stream of bytes, the same messages are received, in the same states: a read
-- of xs and a further one of ys do what one read of both does. The first chunk holds no NUL, and
-- does not end in a CR.
pub scan_chunks :
    {S : Type 0} (receive : Text → S → S) (is_open : S → Bool) (too_long : S → S)
    (message xs ys : Text) (s : S)
    → IsNulFree xs
    → ends_in_cr xs ≡ false
    → scan_next receive is_open too_long (scan receive is_open too_long false message xs s) ys
      ≡ scan receive is_open too_long false message (xs ++ ys) s
scan_chunks receive is_open too_long message xs ys s f e =
    sym (scan-append receive is_open too_long false message xs ys s f e (λ q. cc))
