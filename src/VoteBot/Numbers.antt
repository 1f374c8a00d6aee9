-- ===== src/VoteBot/Numbers.antt =====
-- The numbers of the options, as _ReceiveCommand_START prints them and as _ReceiveVote reads them.
use rosev_ircsystem.Common.{ℕ, ◌++◌}
use rosev_ircsystem.Text.{Text, lit, decimal}
use rosev_ircsystem.Assoc.{nat_key}

abbrev option_line : ℕ → Text → Text
option_line i option = lit "   " ++ (decimal i ++ (lit " - " ++ option))
