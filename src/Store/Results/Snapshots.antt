-- ===== src/Store/Results/Snapshots.antt =====
-- src/shadowops/persistence/repositories.py: `SqlAlchemyRepoSnapshotRepository`, with the snapshot of
-- src/shadowops/repository/contracts.py.
use shadowops.Prelude.{
  ℕ, ◌≡◌, ◌≢◌, refl, String, Bool, true, false, Option, List, inl, inr, Bool-cases, str_eq,
  str_eq_iff, sym, ◌∙◌,
}
use native.Mathlib.Decide.{ℕ_discrete}
use mathlib.Core.HLevel.{Discrete}
use mathlib.Core.Bool.{false≢true}
use mathlib.Core.Option
use mathlib.Core.List.{List-discrete}
use shadowops.Domain.Errors.{Result}
use shadowops.Store.Results.{create_or_get, insert_absent, compared, get_for_run}

pub record GitChange : Type 0 where
  pub path : String
  pub status : String
  pub content_hash : Option String

-- A snapshot without `id` and `created_at`, which is what the repository compares.
pub record SnapshotContent : Type 0 where
  pub run_id : ℕ
  pub source_path_hash : String
  pub diff_mode : String
  pub base_commit : Option String
  pub head_commit : String
  pub dirty_diff_hash : Option String
  pub content_hash : String
  pub artifact_uri : String
  pub file_count : ℕ
  pub total_bytes : ℕ
  pub changed_paths : List GitChange

pub record RepoSnapshot : Type 0 where
  pub id : ℕ
  pub content : SnapshotContent
  pub created_at : ℕ

String-discrete : Discrete String
String-discrete a b = elim (Bool-cases (str_eq a b)) [
  | inl e ↦ yes ((str_eq_iff a b).0 e)
  | inr e ↦ no (λ p. false≢true (sym e ∙ (str_eq_iff a b).1 p))
]

SnapshotContent-discrete : Discrete SnapshotContent
SnapshotContent-discrete = hlevel (ℕ_discrete, String-discrete, Option.discrete, List-discrete)

abbrev pub snapshot_id : RepoSnapshot → ℕ
snapshot_id s = s.id

abbrev pub snapshot_run : RepoSnapshot → ℕ
snapshot_run s = s.content.run_id

-- `existing.model_dump(exclude={"id", "created_at"}) == snapshot.model_dump(exclude=…)`
pub same_snapshot : RepoSnapshot → RepoSnapshot → Bool
same_snapshot existing snapshot =
    elim (SnapshotContent-discrete existing.content snapshot.content) [
      | yes e ↦ true
      | no n ↦ false
    ]

unfoldable pub create_or_get_snapshot :
    List RepoSnapshot → RepoSnapshot → Result (RepoSnapshot × List RepoSnapshot)
unfolding insert_absent compared get_for_run
create_or_get_snapshot rows snapshot =
    create_or_get snapshot_id snapshot_run same_snapshot "repository snapshot"
      "Snapshot upsert did not expose a durable result" rows snapshot

pub same_snapshot-agree :
    (existing snapshot : RepoSnapshot)
    → existing.content ≡ snapshot.content
    → same_snapshot existing snapshot ≡ true
unfolding same_snapshot
same_snapshot-agree existing snapshot h =
    elim (SnapshotContent-discrete existing.content snapshot.content)
      as (λ d. elim d [ yes e ↦ true | no n ↦ false ] ≡ true) [ yes e ↦ refl | no n ↦ absurd (n h) ]

pub same_snapshot-differ :
    (existing snapshot : RepoSnapshot)
    → existing.content ≢ snapshot.content
    → same_snapshot existing snapshot ≡ false
unfolding same_snapshot
same_snapshot-differ existing snapshot h =
    elim (SnapshotContent-discrete existing.content snapshot.content)
      as (λ d. elim d [ yes e ↦ true | no n ↦ false ] ≡ false) [
        | yes e ↦ absurd (h e)
        | no n ↦ refl
      ]
