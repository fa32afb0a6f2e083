-- ===== src/Rules/Risk.antt =====
-- The risk level of a report, and its findings.
use shadowops.Prelude.{
  ◌≤◌, ◌≡◌, refl, sym, ◌⊎◌, inl, inr, List, [], ◌∷◌, Memᴰ, ltb, Bool-cases, arith,
}
use mathlib.Core.List.Memᴰ
use shadowops.Rules.{Severity, info, low, medium, high, StaticFinding, severity_order}
use shadowops.Rules.Service.{worst, risk_of}

worst_bound :
    (s : Severity) (fs : List StaticFinding)
    → (severity_order s ≤ severity_order (worst s fs))
      × ((f : StaticFinding) → Memᴰ f fs → severity_order f.severity ≤ severity_order (worst s fs))
unfolding worst
worst_bound s [] = (omega arith, λ f m. elim m [ ])
worst_bound s (g ∷ gs) = elim (Bool-cases (ltb (severity_order s) (severity_order g.severity))) [
  | inl e ↦
      let (here, rest) = worst_bound g.severity gs in
      rw e (
        ground (arith, here, e),
        λ f m. elim (Memᴰ.cases_cons m) [ inl same ↦ rw same here | inr m' ↦ rest f m' ],
      )
  | inr e ↦
      let (here, rest) = worst_bound s gs in
      rw e (
        here,
        λ f m. elim (Memᴰ.cases_cons m) [
          | inl same ↦ rw same (ground (arith, here, e))
          | inr m' ↦ rest f m'
        ],
      )
]

worst_attained :
    (s : Severity) (fs : List StaticFinding)
    → (worst s fs ≡ s) ⊎ ((f : StaticFinding) × Memᴰ f fs × (f.severity ≡ worst s fs))
unfolding worst
worst_attained s [] = inl refl
worst_attained s (g ∷ gs) = elim (Bool-cases (ltb (severity_order s) (severity_order g.severity))) [
  | inl e ↦ rw e (elim (worst_attained g.severity gs) [
    | inl q ↦ inr (g, Memᴰ.head refl, sym q)
    | inr (f, m, q) ↦ inr (f, Memᴰ.tail m, q)
  ])
  | inr e ↦
      rw e (elim (worst_attained s gs) [ inl q ↦ inl q | inr (f, m, q) ↦ inr (f, Memᴰ.tail m, q) ])
]

-- The level is as grave as any finding, and as one of them where there is one.
pub record IsRisk (level : Severity) (fs : List StaticFinding) : Type 0 where
  pub bound : (f : StaticFinding) → Memᴰ f fs → severity_order f.severity ≤ severity_order level
  pub attained :
      ((fs ≡ []) × (level ≡ info)) ⊎ ((f : StaticFinding) × Memᴰ f fs × (f.severity ≡ level))

pub risk_of-IsRisk : (fs : List StaticFinding) → IsRisk (risk_of fs) fs
unfolding risk_of
risk_of-IsRisk [] = record { bound = λ f m. elim m [ ]; attained = inl (refl, refl) }
risk_of-IsRisk (g ∷ gs) =
    let (here, rest) = worst_bound g.severity gs in
    record {
      bound = λ f m. elim (Memᴰ.cases_cons m) [ inl same ↦ rw same here | inr m' ↦ rest f m' ];
      attained = inr (elim (worst_attained g.severity gs) [
        | inl q ↦ (g, Memᴰ.head refl, sym q)
        | inr (f, m, q) ↦ (f, Memᴰ.tail m, q)
      ]);
    }

pub gravest : (s : Severity) → 3 ≤ severity_order s → s ≡ high
unfolding severity_order
gravest info h = absurd (omega (arith, h))
gravest low h = absurd (omega (arith, h))
gravest medium h = absurd (omega (arith, h))
gravest high h = refl
