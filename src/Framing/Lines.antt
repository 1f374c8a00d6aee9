-- ===== src/Framing/Lines.antt =====
-- Which messages the loop of CNetworkClient::_HandleNewData receives from a line, and what a CRLF
-- that is split between two reads does.
use rosev_ircsystem.Common.{
  ℕ, ◌≤◌, ◌<◌, ◌≡◌, refl, ◌∙◌, ◌≢◌, Bool, false, Option, none, some, [], ◌∷◌, ◌++◌, append-nil,
  append_assoc, arith, if◌then◌else◌, length, length-append, All,
}
use rosev_ircsystem.Text.{Text}
use rosev_ircsystem.Framing.{scan, scan_next, scan_next_some, line_ending_length}

-- No NUL and no line ending.
abbrev pub IsPlain : Text → Type 0
IsPlain m = All (λ c. (c ≢ 0) × (c ≢ 13) × (c ≢ 10)) m

-- The state after a message, and the remainder if the client is still connected.
abbrev pub received {ℓ} : {S : Type ℓ} → (S → Bool) → S → S × Option Text
received is_open s = if is_open s then (s, some []) else (s, none)

module _ {S : Type 0} (receive : Text → S → S) (is_open : S → Bool) (too_long : S → S) where
  scan_byte :
      (c : ℕ) (message rest : Text) (s : S)
      → (c ≢ 0) × (c ≢ 10)
      → line_ending_length c rest ≡ 0
      → scan receive is_open too_long false message (c ∷ rest) s
        ≡ scan receive is_open too_long false (message ++ c ∷ []) rest s
  unfolding scan
  scan_byte c message rest s h e = ground arith

  no_line_ending : (c : ℕ) (rest : Text) → (c ≢ 13) × (c ≢ 10) → line_ending_length c rest ≡ 0
  unfolding line_ending_length
  no_line_ending c rest h = ground arith

  scan_plain :
      (m message rest : Text) (s : S)
      → IsPlain m
      → scan receive is_open too_long false message (m ++ rest) s
        ≡ scan receive is_open too_long false (message ++ m) rest s
  scan_plain [] message rest s h = rw append-nil
  scan_plain (c ∷ m) message rest s h =
      scan_byte c message (m ++ rest) s (h.0.0, h.0.2) (no_line_ending c (m ++ rest) (h.0.1, h.0.2))
      ∙ scan_plain m (message ++ c ∷ []) rest s h.1
      ∙ rw append_assoc

  scan_crlf :
      (message : Text) (s : S)
      → length message ≤ 510
      → scan receive is_open too_long false message (13 ∷ 10 ∷ []) s
        ≡ received is_open (receive message s)
  unfolding scan
  scan_crlf message s h = ground arith

  scan_lf :
      (message : Text) (s : S)
      → length message ≤ 511
      → scan receive is_open too_long false message (10 ∷ []) s
        ≡ received is_open (receive message s)
  unfolding scan
  scan_lf message s h = ground arith

  -- A line without NUL, CR and LF of at most 510 bytes, with its CRLF in one read, is received
  -- without the line ending.
  pub scan_line :
      (m : Text) (s : S)
      → IsPlain m
      → length m ≤ 510
      → scan receive is_open too_long false [] (m ++ 13 ∷ 10 ∷ []) s
        ≡ received is_open (receive m s)
  scan_line m s h k = scan_plain m [] (13 ∷ 10 ∷ []) s h ∙ scan_crlf m s k

  -- A line without NUL, CR and LF of at most 510 bytes, whose CRLF is split between two reads, is
  -- received with the CR as its last byte.
  pub scan_split_line :
      (m : Text) (s : S)
      → IsPlain m
      → length m ≤ 510
      → scan_next receive is_open too_long
          (scan receive is_open too_long false [] (m ++ 13 ∷ []) s)
          (10 ∷ [])
        ≡ received is_open (receive (m ++ 13 ∷ []) s)
  scan_split_line m s h k =
      rw (scan_plain m [] (13 ∷ []) s h, scan_byte 13 m [] s (omega arith) lone_cr)
        (split_remainder (m ++ 13 ∷ []) (omega (arith, length-append m (13 ∷ []))))
    where
      lone_cr : line_ending_length 13 [] ≡ 0
      lone_cr = unfold line_ending_length in refl

      split_remainder :
          (message : Text)
          → length message ≤ 511
          → scan_next receive is_open too_long
              (scan receive is_open too_long false message [] s)
              (10 ∷ [])
            ≡ received is_open (receive message s)
      split_remainder message h =
          unfold scan in
          scan_next_some receive is_open too_long message (10 ∷ []) s ∙ scan_lf message s h

  -- At a line without NUL, CR and LF of more than 510 bytes and its CRLF, the client is
  -- disconnected, and nothing is received.
  pub scan_long_line :
      (m rest : Text) (s : S)
      → IsPlain m
      → 510 < length m
      → scan receive is_open too_long false [] (m ++ 13 ∷ 10 ∷ rest) s ≡ (too_long s, none)
  scan_long_line m rest s h k = scan_plain m [] (13 ∷ 10 ∷ rest) s h ∙ overlong_crlf
    where
      overlong_crlf : scan receive is_open too_long false m (13 ∷ 10 ∷ rest) s ≡ (too_long s, none)
      overlong_crlf = unfold scan in ground arith
