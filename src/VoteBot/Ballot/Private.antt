-- ===== src/VoteBot/Ballot/Private.antt =====
-- Every private message to a VoteBot keeps what holds of the votes.
use rosev_ircsystem.Common.{ℕ}
use rosev_ircsystem.Text.{Text}
use rosev_ircsystem.Assoc.{nat_key, text_key}
use rosev_ircsystem.State.{Core, Server, Environment, Virtual}
use rosev_ircsystem.VoteBot.Steady.{IsSteady}
use rosev_ircsystem.VoteBot.Quiet.{IsReserved}
use rosev_ircsystem.VoteBot.Ballot.Preserved.{IsSpeaker}
use rosev_ircsystem.VoteBot.Ballot.Orderly.{IsOrderly}

module _ (env : Environment) (virt : Virtual) (steady : IsSteady virt) (reserved : IsReserved virt)
    (self : ℕ) (k : Core) (speaker : IsSpeaker k self) where
  abbrev Orderly : Server → Type 0
  Orderly = IsOrderly env virt steady reserved self k speaker
