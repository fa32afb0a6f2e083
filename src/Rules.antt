-- ===== src/Rules.antt =====
-- src/shadowops/rules: the findings of a static audit (contracts.py) and their order of severity.
pub mod Syntax
pub mod Calls
pub mod Engine
pub mod Service
pub mod Risk
pub mod Flags
pub mod Report
use shadowops.Prelude.{ℕ, String, Bool, Option, List}

pub data Severity : Type 0 where
  info low medium high : Severity

-- A confidence is in hundredths.
pub record StaticFinding : Type 0 where
  pub rule_id : String
  pub rule_version : String
  pub severity : Severity
  pub confidence : ℕ
  pub relative_path : Option String
  pub line : ℕ
  pub column : ℕ
  pub message : String
  pub remediation : String
  pub evidence_ids : List String
  pub unknowns : List String

-- `_SEVERITY_ORDER`
unfoldable pub severity_order : Severity → ℕ
severity_order info = 0
severity_order low = 1
severity_order medium = 2
severity_order high = 3
