-- ===== src/Relay.antt =====
-- How CLogBot::SendIRCMessage and CVoteBot::SendIRCMessage take a message of the server apart.
use rosev_ircsystem.Common.{
  ℕ, Bool, true, false, Option, none, some, List, [], ◌∷◌, ◌==◌, if◌then◌else◌,
}
use rosev_ircsystem.Text.{Text, find_first_of}
use rosev_ircsystem.Message.{words}

-- Up to the separator, or all of the text.
unfoldable pub take_until : ℕ → Text → Text
take_until sep [] = []
take_until sep (c ∷ s) = let rest = take_until sep s in if c == sep then [] else c ∷ rest

abbrev pub begins_with_colon : Text → Bool
begins_with_colon [] = false
begins_with_colon (c ∷ s) = c == 58

-- A message of the server itself, one at which an assertion fails, or the lowercased nickname, the
-- command and the parameters.
pub data Relay : Type 0 where
  from_server malformed : Relay
  from_client : Text → Text → List Text → Relay

unfoldable pub relay_command : Text → Option Text → Relay
relay_command user none = malformed
relay_command user (some rest) =
    from_client user (take_until 32 rest)
      (elim (find_first_of 32 rest) [ none ↦ [] | some parameters ↦ words true parameters ])

unfoldable pub relay_user : Option Text → Relay
unfolding relay_command
relay_user none = from_server
relay_user (some s) = elim (find_first_of 64 s) [
  | none ↦ malformed
  | some rest ↦ relay_command (take_until 64 s) (find_first_of 32 rest)
]

unfoldable pub parse_relay : Text → Relay
unfolding relay_user
parse_relay message =
    if begins_with_colon message then relay_user (find_first_of 33 message) else malformed
