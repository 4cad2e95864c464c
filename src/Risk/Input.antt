-- ===== src/Risk/Input.antt =====
-- What risk is compiled from and to: RiskInput and RiskResult of src/graphori_core/compiler.py,
-- Risk and TaskMode of src/graphori_core/models.py. A tri-state field is an option: none is unknown.
use graphori.Common.{ℕ, String, List, Bool, Option}
use graphori.Common.Int.{ℤ}

pub data Risk : Type 0 where
  low medium high critical : Risk

-- Risk.level
abbrev pub level : Risk → ℕ
level low = 0
level medium = 1
level high = 2
level critical = 3

pub data TaskMode : Type 0 where
  fast_mode standard_mode critical_mode : TaskMode

-- How much review a mode asks for.
abbrev pub depth : TaskMode → ℕ
depth fast_mode = 0
depth standard_mode = 1
depth critical_mode = 2

pub record RiskInput : Type 0 where
  pub risk_level : ℤ
  pub uncertainty : ℤ
  pub scope : ℤ
  pub synthesis : ℤ
  pub parallelism : ℤ
  pub tags : List String
  pub usage_status : String
  pub budget_ok : Bool
  pub external_effect : Option Bool
  pub local_only : Option Bool
  pub reversible : Option Bool

pub record Routing : Type 0 where
  pub risk : ℕ
  pub uncertainty : ℕ
  pub scope : ℕ
  pub synthesis : ℕ
  pub parallelism : ℕ

pub record RiskResult : Type 0 where
  pub risk : Risk
  pub mode : TaskMode
  pub score : ℕ
  pub hard_triggers : List String
  pub routing_scores : Routing
