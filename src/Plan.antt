-- ===== src/Plan.antt =====
-- src/shadowops/agent: the audit plans that the planning agent writes, the capabilities that a plan
-- may use (contracts.py, catalog.py), and the validator of a plan (validator.py).
pub mod Graph
pub mod Validator
pub mod Fuel
pub mod Acyclic
pub mod Ancestors
pub mod Dictionary
pub mod Accepted
pub mod Sound
use shadowops.Prelude.{
  ℕ, zero, suc, Memᴰ, ◌≡◌, refl, sym, ap, ◌∙◌, ◌↔◌, String, Bool, true, false, Option, none, some,
  List, [], ◌∷◌, ◌==◌, ==_iff, get_elem?, arith,
}
use mathlib.Core.List.Memᴰ

pub data CapabilityName : Type 0 where
  provision_shadow_db upgrade_baseline apply_target_migrations load_test_data run_smoke_checks
        verify_rollback_roundtrip collect_evidence cleanup_shadow_environment :
      CapabilityName

unfoldable pub place : CapabilityName → ℕ
place provision_shadow_db = 0
place upgrade_baseline = 1
place apply_target_migrations = 2
place load_test_data = 3
place run_smoke_checks = 4
place verify_rollback_roundtrip = 5
place collect_evidence = 6
place cleanup_shadow_environment = 7

unfoldable pub capability_eq : CapabilityName → CapabilityName → Bool
unfolding place
capability_eq a b = place a == place b

mem_at : (l : List CapabilityName) (i : ℕ) {a : CapabilityName} → get_elem? l i ≡ some a → Memᴰ a l
mem_at [] i h = absurd (cc)
mem_at (x ∷ xs) zero h = Memᴰ.head (ground (arith, h))
mem_at (x ∷ xs) (suc i) h = Memᴰ.tail (mem_at xs i h)

unfoldable pub all_names : List CapabilityName
all_names =
    provision_shadow_db ∷ upgrade_baseline ∷ apply_target_migrations ∷ load_test_data
    ∷ run_smoke_checks ∷ verify_rollback_roundtrip ∷ collect_evidence ∷ cleanup_shadow_environment
    ∷ []

at_place : (a : CapabilityName) → get_elem? all_names (place a) ≡ some a
unfolding place all_names
at_place provision_shadow_db = refl
at_place upgrade_baseline = refl
at_place apply_target_migrations = refl
at_place load_test_data = refl
at_place run_smoke_checks = refl
at_place verify_rollback_roundtrip = refl
at_place collect_evidence = refl
at_place cleanup_shadow_environment = refl

pub listed : (a : CapabilityName) → Memᴰ a all_names
unfolding all_names
listed a = mem_at all_names (place a) (at_place a)

pub capability_eq_iff : (a b : CapabilityName) → (capability_eq a b ≡ true) ↔ (a ≡ b)
unfolding capability_eq
capability_eq_iff a b = (
  λ h. ground (arith, sym (at_place a) ∙ ap (get_elem? all_names) ((==_iff _ _).0 h) ∙ at_place b),
  λ e. (==_iff _ _).1 (ap place e),
)

-- `StrEnum.value`
unfoldable pub capability_value : CapabilityName → String
capability_value provision_shadow_db = "provision_shadow_db"
capability_value upgrade_baseline = "upgrade_baseline"
capability_value apply_target_migrations = "apply_target_migrations"
capability_value load_test_data = "load_test_data"
capability_value run_smoke_checks = "run_smoke_checks"
capability_value verify_rollback_roundtrip = "verify_rollback_roundtrip"
capability_value collect_evidence = "collect_evidence"
capability_value cleanup_shadow_environment = "cleanup_shadow_environment"

pub record PlanStep : Type 0 where
  pub id : String
  pub capability : CapabilityName
  pub depends_on : List String
  pub timeout_seconds : ℕ
  pub required : Bool
  pub reason : String
  pub evidence_refs : List String

pub record AuditPlan : Type 0 where
  pub objective : String
  pub steps : List PlanStep
  pub coverage_gaps : List String
  pub assumptions : List String

pub record CapabilitySpec : Type 0 where
  pub name : CapabilityName
  pub version : String
  pub mandatory : Bool
  pub max_timeout_seconds : ℕ
  pub prerequisites : List CapabilityName

abbrev spec : CapabilityName → ℕ → List CapabilityName → CapabilitySpec
spec name limit prerequisites = record {
  name = name;
  version = "1.0";
  mandatory = true;
  max_timeout_seconds = limit;
  prerequisites = prerequisites;
}

-- `CAPABILITIES_BY_NAME`
unfoldable pub specification_of : CapabilityName → CapabilitySpec
specification_of provision_shadow_db = spec provision_shadow_db 60 []
specification_of upgrade_baseline = spec upgrade_baseline 180 (provision_shadow_db ∷ [])
specification_of apply_target_migrations = spec apply_target_migrations 180 (upgrade_baseline ∷ [])
specification_of load_test_data = spec load_test_data 120 (apply_target_migrations ∷ [])
specification_of run_smoke_checks = spec run_smoke_checks 120 (load_test_data ∷ [])
specification_of verify_rollback_roundtrip =
    spec verify_rollback_roundtrip 300 (run_smoke_checks ∷ [])
specification_of collect_evidence = spec collect_evidence 60 (verify_rollback_roundtrip ∷ [])
specification_of cleanup_shadow_environment =
    spec cleanup_shadow_environment 60 (collect_evidence ∷ [])

-- `CAPABILITY_CATALOG`
unfoldable pub capability_catalog : List CapabilitySpec
unfolding specification_of
capability_catalog =
    specification_of provision_shadow_db
    ∷ specification_of upgrade_baseline
    ∷ specification_of apply_target_migrations
    ∷ specification_of load_test_data
    ∷ specification_of run_smoke_checks
    ∷ specification_of verify_rollback_roundtrip
    ∷ specification_of collect_evidence
    ∷ specification_of cleanup_shadow_environment
    ∷ []
