-- ===== src/Message/Printed.antt =====
-- A message as a client prints it, and what CNetworkClient::_ReceiveMessage makes of it.
use rosev_ircsystem.Common.{
  ◌≡◌, refl, ap, ◌∙◌, Bool, true, false, some, List, [], ◌∷◌, ◌++◌, arith, ◌==◌, All,
}
use rosev_ircsystem.Text.{Text, Free, cons_head, find_first_of, uppercased}
use rosev_ircsystem.Message.{drop_prefix, words, command_of, parse_message}

abbrev pub begins_with_colon : Text → Bool
begins_with_colon [] = false
begins_with_colon (c ∷ s) = c == 58

-- A command or a parameter before the last one: no space, and no colon at its beginning.
abbrev pub IsMiddle : Text → Type 0
IsMiddle w = Free 32 w × (begins_with_colon w ≡ false)

-- Each parameter after a space, the last one after a colon.
pub print_parameters : List Text → Text → Text
print_parameters [] last = 32 ∷ 58 ∷ last
print_parameters (p ∷ ps) last = 32 ∷ p ++ print_parameters ps last

pub print_message : Text → List Text → Text → Text
print_message command ps last = command ++ print_parameters ps last

word_rest : (w t : Text) → Free 32 w → words false (w ++ 32 ∷ t) ≡ w ∷ words true t
unfolding words cons_head
word_rest [] t f = ground arith
word_rest (b ∷ w) t f = ground (arith, word_rest w t f.1)

words_word : (fresh : Bool) (w t : Text) → IsMiddle w → words fresh (w ++ 32 ∷ t) ≡ w ∷ words true t
unfolding words cons_head
words_word fresh [] t h = ground arith
words_word fresh (c ∷ w) t (f, e) = ground (arith, word_rest w t f.1)

words_parameters :
    (fresh : Bool) (w : Text) (ps : List Text) (last : Text)
    → IsMiddle w
    → All IsMiddle ps
    → words fresh (w ++ print_parameters ps last) ≡ w ∷ ps ++ last ∷ []
unfolding print_parameters
words_parameters fresh w [] last h hs = rw (words_word fresh w (58 ∷ last) h) trailing
  where
    trailing : w ∷ words true (58 ∷ last) ≡ w ∷ last ∷ []
    trailing = unfold words in refl
words_parameters fresh w (p ∷ ps) last h (k, hs) =
    rw (words_word fresh w (p ++ print_parameters ps last) h, words_parameters true p ps last k hs)

drop_prefix-none :
    (w : Text) (ps : List Text) (last : Text)
    → begins_with_colon w ≡ false
    → drop_prefix (w ++ print_parameters ps last) ≡ some (w ++ print_parameters ps last)
unfolding drop_prefix print_parameters
drop_prefix-none [] [] last e = refl
drop_prefix-none [] (p ∷ ps) last e = refl
drop_prefix-none (c ∷ w) ps last e = ground arith

find_space : (prefix t : Text) → Free 32 prefix → find_first_of 32 (prefix ++ 32 ∷ t) ≡ some t
unfolding find_first_of
find_space [] t h = ground arith
find_space (c ∷ prefix) t h = ground (arith, find_space prefix t h.1)

parse_some :
    (message rest : Text)
    → drop_prefix message ≡ some rest
    → parse_message message ≡ some (command_of (words false rest))
unfolding parse_message
parse_some message rest e = rw (parse_message, e)

parse_words :
    (message command : Text) (ps : List Text) (last : Text)
    → drop_prefix message ≡ some (command ++ print_parameters ps last)
    → IsMiddle command
    → All IsMiddle ps
    → parse_message message ≡ some (uppercased command, ps ++ last ∷ [])
unfolding command_of
parse_words message command ps last e h hs =
    parse_some message _ e
    ∙ ap (λ ws. some (command_of ws)) (words_parameters false command ps last h hs)

-- A command and its parameters are parsed from the message that is printed for them, the command
-- in upper case. The command and the parameters before the last hold no space and begin with no
-- colon; the last one is any text.
pub parse_message-print_message :
    (command : Text) (ps : List Text) (last : Text)
    → IsMiddle command
    → All IsMiddle ps
    → parse_message (print_message command ps last) ≡ some (uppercased command, ps ++ last ∷ [])
unfolding print_message
parse_message-print_message command ps last h hs =
    parse_words (print_message command ps last) command ps last
      (drop_prefix-none command ps last h.1) h hs

-- A command and its parameters are parsed in the same way from the message with a prefix without
-- spaces in front of it. The command and the parameters before the last hold no space and begin
-- with no colon; the last one is any text.
pub parse_message-prefix :
    (prefix command : Text) (ps : List Text) (last : Text)
    → Free 32 prefix
    → IsMiddle command
    → All IsMiddle ps
    → parse_message (58 ∷ prefix ++ 32 ∷ print_message command ps last)
      ≡ some (uppercased command, ps ++ last ∷ [])
unfolding print_message drop_prefix find_first_of
parse_message-prefix prefix command ps last f h hs =
    parse_words (58 ∷ prefix ++ 32 ∷ print_message command ps last) command ps last
      (ground (arith, find_space prefix (command ++ print_parameters ps last) f)) h hs
