-- ===== src/Prelude/Sorting.antt =====
-- Sorting keeps what a table holds and puts its keys in order; a list in order that holds each
-- number of a range once is that range.
use Prim.Native.Nat.{ℕ, zero, suc, ◌+◌, ◌≤◌, ◌<◌}
use mathlib.Core.Path.{◌≡◌, refl}
use mathlib.Core.Logic.{◌⊎◌, inl, inr}
use mathlib.Core.Bool.{Bool, ◌&&◌}
use mathlib.Core.List.{List, [], ◌∷◌, map, Memᴰ}
use mathlib.Core.List.Memᴰ
use native.Mathlib.Omega.{arith}
use shadowops.Prelude.Lists.{All, All-map}
use shadowops.Prelude.Tests.{if◌then◌else◌, Bool-cases, ltb, leb, ◌==◌}
use shadowops.Prelude.Tables.{select, count_where, insert_by, sort_by}

module _ {ℓ} {A : Type ℓ} where
  count_where-insert_by :
      (p : A → Bool) (le : A → A → Bool) (x : A) (l : List A)
      → count_where p (insert_by le x l) ≡ count_where p (x ∷ l)
  unfolding count_where insert_by
  count_where-insert_by p le x [] = refl
  count_where-insert_by p le x (y ∷ ys) = elim (Bool-cases (le x y)) [
    | inl e ↦ rw e refl
    | inr e ↦ rw e (ground (arith, count_where-insert_by p le x ys))
  ]

  pub count_where-sort_by :
      (p : A → Bool) (le : A → A → Bool) (l : List A)
      → count_where p (sort_by le l) ≡ count_where p l
  unfolding count_where sort_by
  count_where-sort_by p le [] = refl
  count_where-sort_by p le (x ∷ xs) =
      ground (arith, count_where-insert_by p le x (sort_by le xs), count_where-sort_by p le xs)

  mem-insert_by :
      (le : A → A → Bool) (x : A) (l : List A) {y : A} → Memᴰ y (x ∷ l) → Memᴰ y (insert_by le x l)
  unfolding insert_by
  mem-insert_by le x [] m = m
  mem-insert_by le x (z ∷ zs) m = elim (Bool-cases (le x z)) [
    | inl e ↦ rw e m
    | inr e ↦ rw e (elim (Memᴰ.cases_cons m) [
      | inl same ↦ Memᴰ.tail (mem-insert_by le x zs (Memᴰ.head same))
      | inr old ↦ elim (Memᴰ.cases_cons old) [
        | inl same ↦ Memᴰ.head same
        | inr rest ↦ Memᴰ.tail (mem-insert_by le x zs (Memᴰ.tail rest))
      ]
    ])
  ]

  pub mem-sort_by : (le : A → A → Bool) (l : List A) {y : A} → Memᴰ y l → Memᴰ y (sort_by le l)
  unfolding sort_by
  mem-sort_by le [] m = m
  mem-sort_by le (x ∷ xs) (Memᴰ.head e) = mem-insert_by le x (sort_by le xs) (Memᴰ.head e)
  mem-sort_by le (x ∷ xs) (Memᴰ.tail m) =
      mem-insert_by le x (sort_by le xs) (Memᴰ.tail (mem-sort_by le xs m))

  pub count_where_both :
      (p q : A → Bool) (l : List A) → count_where p (select q l) ≡ count_where (λ x. q x && p x) l
  unfolding count_where select
  count_where_both p q [] = refl
  count_where_both p q (x ∷ xs) = elim (Bool-cases (q x)) [
    | inl e ↦ ground (arith, e, count_where_both p q xs)
    | inr e ↦ ground (arith, e, count_where_both p q xs)
  ]

  pub count_where_same :
      (p q : A → Bool) (l : List A) → ((x : A) → p x ≡ q x) → count_where p l ≡ count_where q l
  unfolding count_where
  count_where_same p q [] h = refl
  count_where_same p q (x ∷ xs) h = ground (arith, h x, count_where_same p q xs h)

  pub count_keys :
      (key : A → ℕ) (v : ℕ) (l : List A)
      → count_where (λ k. k == v) (map key l) ≡ count_where (λ x. key x == v) l
  unfolding count_where
  count_keys key v [] = refl
  count_keys key v (x ∷ xs) = ground (arith, count_keys key v xs)

module _ {ℓ κ} {A : Type ℓ} (P : A → Type κ) (le : A → A → Bool) where
  inserted-All : (x : A) (l : List A) → P x → All P l → All P (insert_by le x l)
  unfolding insert_by
  inserted-All x [] px a = (px, tt)
  inserted-All x (y ∷ ys) px a = elim (Bool-cases (le x y)) [
    | inl e ↦ rw e (px, a)
    | inr e ↦ rw e (a.0, inserted-All x ys px a.1)
  ]

  pub sort_by-All : (l : List A) → All P l → All P (sort_by le l)
  unfolding sort_by
  sort_by-All [] a = tt
  sort_by-All (x ∷ xs) a = inserted-All x (sort_by le xs) a.0 (sort_by-All xs a.1)

abbrev pub Ascending : List ℕ → Type 0
Ascending [] = Unit
Ascending (x ∷ xs) = All (λ y. x ≤ y) xs × Ascending xs

module _ {ℓ} {A : Type ℓ} (key : A → ℕ) (le : A → A → Bool)
    (by_key : (a b : A) → le a b ≡ leb (key a) (key b)) where
  insert_by-All :
      (P : ℕ → Type 0) (x : A) (l : List A)
      → P (key x)
      → All P (map key l)
      → All P (map key (insert_by le x l))
  unfolding insert_by
  insert_by-All P x [] px a = (px, tt)
  insert_by-All P x (y ∷ ys) px a = elim (Bool-cases (le x y)) [
    | inl e ↦ rw e (px, a)
    | inr e ↦ rw e (a.0, insert_by-All P x ys px a.1)
  ]

  insert_by-Ascending :
      (x : A) (l : List A) → Ascending (map key l) → Ascending (map key (insert_by le x l))
  unfolding insert_by
  insert_by-Ascending x [] a = (tt, tt)
  insert_by-Ascending x (y ∷ ys) a = elim (Bool-cases (le x y)) [
    | inl e ↦
        let small : key x ≤ key y = ground (arith, e, by_key x y) in
        rw e (
          (
            small,
            All-map (λ k. key y ≤ k) (λ k. key x ≤ k) (map key ys) (λ k h. omega (arith, small, h))
                a.0,
          ),
          a,
        )
    | inr e ↦
        let large : key y ≤ key x = ground (arith, e, by_key x y) in
        rw e (insert_by-All (λ k. key y ≤ k) x ys large a.0, insert_by-Ascending x ys a.1)
  ]

  pub sort_by-Ascending : (l : List A) → Ascending (map key (sort_by le l))
  unfolding sort_by
  sort_by-Ascending [] = tt
  sort_by-Ascending (x ∷ xs) = insert_by-Ascending x (sort_by le xs) (sort_by-Ascending xs)

-- `range(lo, lo + n)`
abbrev pub up_from : ℕ → ℕ → List ℕ
up_from lo zero = []
up_from lo (suc n) = lo ∷ up_from (suc lo) n

abbrev within : ℕ → ℕ → ℕ → ℕ
within lo n v = if leb lo v && ltb v (lo + n) then 1 else 0

none_below :
    (x v : ℕ) (xs : List ℕ) → All (λ y. x ≤ y) xs → v < x → count_where (λ k. k == v) xs ≡ 0
unfolding count_where
none_below x v [] a h = refl
none_below x v (y ∷ ys) a h = ground (arith, a.0, none_below x v ys a.1 h)

pub Ascending-range :
    (ks : List ℕ) (lo n : ℕ)
    → Ascending ks
    → ((v : ℕ) → count_where (λ k. k == v) ks ≡ within lo n v)
    → ks ≡ up_from lo n
unfolding count_where
Ascending-range [] lo zero a h = refl
Ascending-range [] lo (suc n) a h = absurd (ground (arith, h lo))
Ascending-range (x ∷ xs) lo zero a h = absurd (ground (arith, h x))
Ascending-range (x ∷ xs) lo (suc n) a h =
    let low : lo ≤ x = ground (arith, h x) in
    let high : x ≤ lo = elim (Bool-cases (ltb lo x)) [
      | inl e ↦
          let less : lo < x = ground (arith, e) in
          absurd (ground (arith, h lo, none_below x lo xs a.0 less, less))
      | inr e ↦ ground (arith, e)
    ] in
    let same : x ≡ lo = omega (arith, low, high) in
    let rest =
      Ascending-range xs (suc lo) n a.1 (λ v. ground (arith, h v, same, none_below x v xs a.0)) in
    ground (arith, same, rest)

pub all_above : (a lo n : ℕ) → a < lo → select (ltb a) (up_from lo n) ≡ up_from lo n
unfolding select
all_above a lo zero h = refl
all_above a lo (suc n) h = ground (arith, h, all_above a (suc lo) n (omega (arith, h)))

pub select_above :
    (a lo n m : ℕ)
    → (lo ≤ suc a)
    → (lo + n ≤ suc a + m)
    → (m ≡ 0) ⊎ (suc a + m ≡ lo + n)
    → select (ltb a) (up_from lo n) ≡ up_from (suc a) m
unfolding select
select_above a lo zero zero low fits end = refl
select_above a lo zero (suc m) low fits end = absurd (omega (arith, low, fits, end))
select_above a lo (suc n) m low fits end = elim (Bool-cases (ltb a lo)) [
  | inl e ↦
      let same : lo ≡ suc a = ground (arith, low, e) in
      let long : m ≡ suc n = omega (arith, fits, end, same) in
      rw (e, all_above a (suc lo) n (ground (arith, e)), same, long) refl
  | inr e ↦
      rw e
        (select_above a (suc lo) n m (ground (arith, e)) (omega (arith, fits)) (omega (arith, end)))
]
