-- ===== src/Rules/Flags.antt =====
-- What the rules find in the sources.
use shadowops.Prelude.{
  ℕ, ◌≡◌, refl, sym, ap, subst, ◌∙◌, ◌⊎◌, inl, inr, String, true, false, Option, some, List, [],
  ◌∷◌, ◌++◌, Memᴰ, Bool-cases, Option-cases, arith,
}
use mathlib.Core.List.Memᴰ
use shadowops.Domain.Errors.{Result, ok, Result-cases}
use shadowops.Search.{text_in}
use shadowops.Revisions.{UnsupportedReason, RevisionNode}
use shadowops.Rules.{StaticFinding}
use shadowops.Rules.Syntax.{Node, Nodes, Within, walk, walk-Within}
use shadowops.Rules.Calls.{op_call, is_destructive, gather, function_named}
use shadowops.Rules.Engine.{
  operation_of, destructive_at, destructive_finding, upgrade_findings, evaluate,
}
use shadowops.Rules.Service.{structural_finding, structural_findings, source_findings}

mem-gather :
    (rule : Node → Option StaticFinding) (l : List Node) (x : Node) {f : StaticFinding}
    → Memᴰ x l
    → rule x ≡ some f
    → Memᴰ f (gather rule l)
unfolding gather
mem-gather rule [] x m e = elim m [ ]
mem-gather rule (y ∷ ys) x {f} (Memᴰ.head q) e = rw (gather, ap rule (sym q) ∙ e) (Memᴰ.head refl)
mem-gather rule (y ∷ ys) x {f} (Memᴰ.tail m) e = elim (Option-cases (rule y)) [
  | inl n ↦ rw (gather, n) (mem-gather rule ys x m e)
  | inr (g, n) ↦ rw (gather, n) (Memᴰ.tail (mem-gather rule ys x m e))
]

module _ (parse : String → Option Nodes) (drop_sql : String → Option String)
    (evidence_of : String → String → ℕ → ℕ → String → String) where
  destructive_at-found :
      (hash : String) (node : RevisionNode) (x : Node) {o : String}
      → op_call x ≡ some o
      → is_destructive o ≡ true
      → destructive_at drop_sql evidence_of hash node x
        ≡ some (destructive_finding drop_sql evidence_of hash node x (o, 100))
  unfolding destructive_at operation_of
  destructive_at-found hash node x e d = rw (destructive_at, operation_of, e, d) refl

  -- A destructive call anywhere in the upgrade is among the findings of its file.
  pub evaluate-found :
      (hash : String) (node : RevisionNode) (body : Nodes) (upgrade x : Node) {o : String}
      → function_named "upgrade" body ≡ some upgrade
      → Within x upgrade
      → op_call x ≡ some o
      → is_destructive o ≡ true
      → Memᴰ
          (destructive_finding drop_sql evidence_of hash node x (o, 100))
          (evaluate drop_sql evidence_of hash node (some body))
  unfolding evaluate upgrade_findings
  evaluate-found hash node body upgrade x e w call d = rw e (
      Memᴰ.append_left _ (
        Memᴰ.append_left _ (
          Memᴰ.append_left _ (
            mem-gather (destructive_at drop_sql evidence_of hash node) (walk upgrade) x
              (walk-Within x upgrade w) (destructive_at-found hash node x call d)))))

  -- What became of the first revision.
  source_next :
      (read_text : String → Result String) (hash : String) (changed : List String)
      (n : RevisionNode) (nodes : List RevisionNode) {fs : List StaticFinding}
      → source_findings parse drop_sql evidence_of read_text hash changed (n ∷ nodes) ≡ ok fs
      → ((text_in n.revision changed ≡ false)
          × (source_findings parse drop_sql evidence_of read_text hash changed nodes ≡ ok fs))
        ⊎ ((source : String) × (rest : List StaticFinding) × (read_text n.relative_path ≡ ok source)
            × (source_findings parse drop_sql evidence_of read_text hash changed nodes ≡ ok rest)
            × (fs ≡ evaluate drop_sql evidence_of hash n (parse source) ++ rest))
  unfolding source_findings
  source_next read_text hash changed n nodes h = elim (Bool-cases (text_in n.revision changed)) [
    | inr e ↦ inl (e, rw (source_findings, e) at h)
    | inl e ↦ elim (Result-cases (read_text n.relative_path)) [
      | inr (f, q) ↦ absurd (ground (arith, rw (source_findings, e, q) at h))
      | inl (source, q) ↦
          elim (Result-cases
            (source_findings parse drop_sql evidence_of read_text hash changed nodes)) [
              | inr (f, r) ↦ absurd (ground (arith, rw (source_findings, e, q, r) at h))
              | inl (rest, r) ↦
                  inr (source, rest, q, r, ground (arith, rw (source_findings, e, q, r) at h))
            ]
    ]
  ]

  -- The file of a changed revision was read, and its findings are there.
  pub source_findings-mem :
      (read_text : String → Result String) (hash : String) (changed : List String)
      (nodes : List RevisionNode) (node : RevisionNode) {fs : List StaticFinding}
      → source_findings parse drop_sql evidence_of read_text hash changed nodes ≡ ok fs
      → Memᴰ node nodes
      → text_in node.revision changed ≡ true
      → (source : String) × (read_text node.relative_path ≡ ok source)
        × ((f : StaticFinding)
            → Memᴰ f (evaluate drop_sql evidence_of hash node (parse source))
            → Memᴰ f fs)
  source_findings-mem read_text hash changed [] node h m c = elim m [ ]
  source_findings-mem read_text hash changed (n ∷ nodes) node {fs} h m c =
      elim (source_next read_text hash changed n nodes h) [
        | inl (e, rest) ↦ elim (Memᴰ.cases_cons m) [
          | inl same ↦
              absurd
                (ground (arith, e, c, ap (λ (x : RevisionNode). text_in x.revision changed) same))
          | inr m' ↦ source_findings-mem read_text hash changed nodes node rest m' c
        ]
        | inr (source, rest, q, r, parts) ↦ elim (Memᴰ.cases_cons m) [
          | inl same ↦
              subst
                (λ (x : RevisionNode).
                  (source : String) × (read_text x.relative_path ≡ ok source)
                  × ((f : StaticFinding)
                      → Memᴰ f (evaluate drop_sql evidence_of hash x (parse source))
                      → Memᴰ f fs))
                (sym same)
                (source, q, λ f l. subst (λ k. Memᴰ f k) (sym parts) (Memᴰ.append_left rest l))
          | inr m' ↦
              let (source', q', found) =
                source_findings-mem read_text hash changed nodes node r m' c in
              (
                source',
                q',
                λ f l.
                    subst (λ k. Memᴰ f k) (sym parts)
                      (Memᴰ.append_right (evaluate drop_sql evidence_of hash n (parse source))
                        (found f l)),
              )
        ]
      ]

  pub mem-structural_findings :
      (hash : String) (reasons : List UnsupportedReason) (r : UnsupportedReason)
      → Memᴰ r reasons
      → Memᴰ
          (structural_finding parse drop_sql evidence_of hash r)
          (structural_findings parse drop_sql evidence_of hash reasons)
  unfolding structural_findings
  mem-structural_findings hash [] r m = elim m [ ]
  mem-structural_findings hash (x ∷ xs) r (Memᴰ.head e) =
      Memᴰ.head (ap (structural_finding parse drop_sql evidence_of hash) e)
  mem-structural_findings hash (x ∷ xs) r (Memᴰ.tail m) =
      Memᴰ.tail (mem-structural_findings hash xs r m)
