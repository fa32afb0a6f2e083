-- ===== src/Prelude/Counts.antt =====
-- How many rows pass a test, and how updates and selections change it.
use Prim.Native.Nat.{suc, ◌+◌, ◌≤◌, ◌<◌}
use mathlib.Core.Path.{◌≡◌, refl, sym, ap, ◌∙◌}
use mathlib.Core.Logic.{inl, inr}
use mathlib.Core.Bool.{Bool, true, false}
use mathlib.Core.List.{List, [], ◌∷◌, Memᴰ}
use native.Mathlib.Omega.{arith}
use shadowops.Prelude.Lists.{length}
use shadowops.Prelude.Tests.{Bool-cases}
use shadowops.Prelude.Tables.{select, count_where, any_where, update_where}

module _ {ℓ} {A : Type ℓ} where
  pub count_where-select :
      (p q : A → Bool) (l : List A) → count_where p (select q l) ≤ count_where p l
  unfolding count_where select
  count_where-select p q [] = omega arith
  count_where-select p q (x ∷ xs) = elim (Bool-cases (q x)) [
    | inl e ↦ rw e (ground (arith, count_where-select p q xs))
    | inr e ↦ rw e (ground (arith, count_where-select p q xs))
  ]

  pub length_split :
      (p q : A → Bool) (l : List A)
      → ((x : A) → Memᴰ x l → (p x ≡ true → q x ≡ false) × (p x ≡ false → q x ≡ true))
      → count_where p l + length (select q l) ≡ length l
  unfolding count_where select
  length_split p q [] h = refl
  length_split p q (x ∷ xs) h =
      let rest = length_split p q xs (λ y m. h y (Memᴰ.tail m)) in
      let here = h x (Memᴰ.head refl) in
      elim (Bool-cases (p x)) [
        | inl e ↦ rw (e, here.0 e) (omega (arith, rest))
        | inr e ↦ rw (e, here.1 e) (omega (arith, rest))
      ]

  pub mem-count_where :
      (p : A → Bool) (l : List A) {x : A} → Memᴰ x l → p x ≡ true → 0 < count_where p l
  unfolding count_where
  mem-count_where p [] m h = elim m [ ]
  mem-count_where p (z ∷ zs) (Memᴰ.head e) h = rw (← e) (rw h (omega arith))
  mem-count_where p (z ∷ zs) (Memᴰ.tail m) h = ground (arith, mem-count_where p zs m h)

  -- Of two rows that pass a test which one row passes at most, each is the other.
  pub count_where_unique :
      (p : A → Bool) (l : List A) {x y : A}
      → count_where p l ≤ 1
      → Memᴰ x l
      → Memᴰ y l
      → p x ≡ true
      → p y ≡ true
      → x ≡ y
  unfolding count_where
  count_where_unique p [] h m _ px py = elim m [ ]
  count_where_unique p (z ∷ zs) h (Memᴰ.head e) (Memᴰ.head e') px py = e ∙ sym e'
  count_where_unique p (z ∷ zs) h (Memᴰ.head e) (Memᴰ.tail m) px py =
      absurd (ground (arith, mem-count_where p zs m py, ap p e))
  count_where_unique p (z ∷ zs) h (Memᴰ.tail m) (Memᴰ.head e) px py =
      absurd (ground (arith, mem-count_where p zs m px, ap p e))
  count_where_unique p (z ∷ zs) h (Memᴰ.tail m) (Memᴰ.tail m') px py =
      count_where_unique p zs (ground arith) m m' px py

  -- An update that keeps a test keeps its count.
  pub count_where-update_same :
      (p q : A → Bool) (f : A → A) (l : List A)
      → ((x : A) → Memᴰ x l → q x ≡ true → p (f x) ≡ p x)
      → count_where p (update_where q f l) ≡ count_where p l
  unfolding count_where update_where
  count_where-update_same p q f [] keep = refl
  count_where-update_same p q f (x ∷ xs) keep = elim (Bool-cases (q x)) [
    | inl e ↦ rw (
      e,
      keep x (Memᴰ.head refl) e,
      count_where-update_same p q f xs (λ y m. keep y (Memᴰ.tail m)),
    )
    | inr e ↦ rw (e, count_where-update_same p q f xs (λ y m. keep y (Memᴰ.tail m)))
  ]

  -- An update that makes a test pass, which failed before, adds its rows to the count.
  pub count_where-update_gain :
      (p q : A → Bool) (f : A → A) (l : List A)
      → ((x : A) → Memᴰ x l → q x ≡ true → (p x ≡ false) × (p (f x) ≡ true))
      → count_where p (update_where q f l) ≡ count_where p l + count_where q l
  unfolding count_where update_where
  count_where-update_gain p q f [] gain = omega arith
  count_where-update_gain p q f (x ∷ xs) gain = elim (Bool-cases (q x)) [
    | inl e ↦
        let (before, after) = gain x (Memᴰ.head refl) e in
        rw (e, before, after)
          (omega (arith, count_where-update_gain p q f xs (λ y m. gain y (Memᴰ.tail m))))
    | inr e ↦ ground (arith, count_where-update_gain p q f xs (λ y m. gain y (Memᴰ.tail m)))
  ]

  -- Of two tests of which one implies the other, a row that passes only the weaker one is counted
  -- by that one alone.
  pub count_where_le :
      (p q : A → Bool) (l : List A)
      → ((x : A) → Memᴰ x l → p x ≡ true → q x ≡ true)
      → count_where p l ≤ count_where q l
  unfolding count_where
  count_where_le p q [] h = omega arith
  count_where_le p q (x ∷ xs) h =
      ground (arith, h x (Memᴰ.head refl), count_where_le p q xs (λ y m. h y (Memᴰ.tail m)))

  pub count_where_less :
      (p q : A → Bool) (l : List A) {x : A}
      → ((y : A) → Memᴰ y l → p y ≡ true → q y ≡ true)
      → Memᴰ x l
      → p x ≡ false
      → q x ≡ true
      → count_where p l < count_where q l
  unfolding count_where
  count_where_less p q [] h m px qx = elim m [ ]
  count_where_less p q (z ∷ zs) h (Memᴰ.head e) px qx =
      ground (arith, ap p e, ap q e, count_where_le p q zs (λ y m. h y (Memᴰ.tail m)))
  count_where_less p q (z ∷ zs) h (Memᴰ.tail m) px qx =
      ground
        (arith, h z (Memᴰ.head refl), count_where_less p q zs (λ y m. h y (Memᴰ.tail m)) m px qx)

  -- Rows of one kind that pass, and the others that do.
  pub count_where_split :
      (p p' q : A → Bool) (l : List A)
      → ((x : A)
          → Memᴰ x l
          → (q x ≡ true → (p x ≡ true) × (p' x ≡ false)) × (q x ≡ false → p' x ≡ p x))
      → count_where p l ≡ count_where p' l + count_where q l
  unfolding count_where
  count_where_split p p' q [] h = omega arith
  count_where_split p p' q (x ∷ xs) h =
      let rest = count_where_split p p' q xs (λ y m. h y (Memᴰ.tail m)) in
      let here = h x (Memᴰ.head refl) in
      elim (Bool-cases (q x)) [
        | inl e ↦ ground (arith, here.0 e, rest)
        | inr e ↦ ground (arith, here.1 e, rest)
      ]

  pub count_where_all :
      (p : A → Bool) (l : List A) → ((x : A) → p x ≡ true) → count_where p l ≡ length l
  unfolding count_where
  count_where_all p [] h = refl
  count_where_all p (x ∷ xs) h = rw (h x) (ap suc (count_where_all p xs h))

  pub count_where-length : (p : A → Bool) (l : List A) → count_where p l ≤ length l
  unfolding count_where
  count_where-length p [] = omega arith
  count_where-length p (x ∷ xs) = ground (arith, count_where-length p xs)

  pub count_where-zero :
      (p : A → Bool) (l : List A) → ((x : A) → Memᴰ x l → p x ≡ false) → count_where p l ≡ 0
  unfolding count_where
  count_where-zero p [] h = refl
  count_where-zero p (x ∷ xs) h =
      rw (h x (Memᴰ.head refl)) (count_where-zero p xs (λ y m. h y (Memᴰ.tail m)))

  pub count_where_none : (p : A → Bool) (l : List A) → any_where p l ≡ false → count_where p l ≡ 0
  unfolding any_where count_where
  count_where_none p [] h = refl
  count_where_none p (x ∷ xs) h = ground (arith, count_where_none p xs)
