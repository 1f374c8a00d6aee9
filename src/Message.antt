-- ===== src/Message.antt =====
-- The text of CNetworkClient::_ReceiveMessage: prefix, command and parameters.
pub mod Printed
use rosev_ircsystem.Common.{
  ℕ, zero, suc, ◌+◌, ◌≤◌, ◌<◌, ◌≡◌, refl, ◌≢◌, ◌⊎◌, inl, inr, Bool, true, false, ◌&&◌, not, Option,
  none, some, List, [], ◌∷◌, ◌++◌, append-nil, append_assoc, arith, ◌==◌, if◌then◌else◌, length,
  length-append, All, Bool-cases,
}
use rosev_ircsystem.Text.{Text, lit, Free, cons_head, find_first_of, uppercased}

-- Without the prefix, up to the first space, of a message that begins with a colon. `none` is an
-- invalid message.
unfoldable pub drop_prefix : Text → Option Text
unfolding find_first_of
drop_prefix [] = some []
drop_prefix (c ∷ s) = if c == 58 then find_first_of 32 (c ∷ s) else some (c ∷ s)

-- The words between the spaces; a colon that begins a word other than the first makes all that
-- follows it the last one. `fresh` is set at the beginning of a parameter.
unfoldable pub words : Bool → Text → List Text
unfolding cons_head
words fresh [] = [] ∷ []
words fresh (c ∷ s) =
    let next = words true s in
    let longer = cons_head c (words false s) in
    if fresh && (c == 58) then s ∷ [] else if c == 32 then [] ∷ next else longer

command_of : List Text → Text × List Text
unfolding uppercased
command_of [] = ([], [])
command_of (command ∷ parameters) = (uppercased command, parameters)

-- The command and its parameters.
unfoldable pub parse_message : Text → Option (Text × List Text)
unfolding drop_prefix words command_of
parse_message message = elim (drop_prefix message) [
  | none ↦ none
  | some s ↦ some (command_of (words false s))
]
