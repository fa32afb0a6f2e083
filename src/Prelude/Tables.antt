-- ===== src/Prelude/Tables.antt =====
-- Tables as lists of rows, and the SQL statements that the repositories send: SELECT, UPDATE with
-- its row count, and ORDER BY.
use Prim.Native.Nat.{ℕ, suc}
use mathlib.Core.Path.{◌≡◌, refl, sym, ap, subst}
use mathlib.Core.Logic.{◌≢◌, ◌⊎◌, inl, inr}
use mathlib.Core.Bool.{Bool, true, false, ◌||◌}
use mathlib.Core.Option.{Option, none, some}
use mathlib.Core.List.{List, [], ◌∷◌, Memᴰ}
use mathlib.Core.List.Memᴰ
use native.Mathlib.Omega.{arith}
use shadowops.Prelude.Tests.{if◌then◌else◌, Bool-cases}

module _ {ℓ} {A : Type ℓ} where
  -- The first row that passes.
  unfoldable pub find_where : (A → Bool) → List A → Option A
  find_where p [] = none
  find_where p (x ∷ xs) = if p x then some x else find_where p xs

  -- SELECT … WHERE p
  unfoldable pub select : (A → Bool) → List A → List A
  select p [] = []
  select p (x ∷ xs) = let rest = select p xs in if p x then x ∷ rest else rest

  unfoldable pub count_where : (A → Bool) → List A → ℕ
  count_where p [] = 0
  count_where p (x ∷ xs) = let rest = count_where p xs in if p x then suc rest else rest

  unfoldable pub any_where : (A → Bool) → List A → Bool
  any_where p [] = false
  any_where p (x ∷ xs) = let rest = any_where p xs in if p x then true else rest

  -- UPDATE … SET f WHERE p
  unfoldable pub update_where : (A → Bool) → (A → A) → List A → List A
  update_where p f [] = []
  update_where p f (x ∷ xs) = (if p x then f x else x) ∷ update_where p f xs

  -- ORDER BY, as a stable insertion sort.
  unfoldable pub insert_by : (A → A → Bool) → A → List A → List A
  insert_by le x [] = x ∷ []
  insert_by le x (y ∷ ys) = let rest = insert_by le x ys in if le x y then x ∷ y ∷ ys else y ∷ rest

  unfoldable pub sort_by : (A → A → Bool) → List A → List A
  unfolding insert_by
  sort_by le [] = []
  sort_by le (x ∷ xs) = insert_by le x (sort_by le xs)

  pub find_where-mem :
      (p : A → Bool) (l : List A) {x : A} → find_where p l ≡ some x → Memᴰ x l × (p x ≡ true)
  unfolding find_where
  find_where-mem p [] h = absurd (ground arith)
  find_where-mem p (y ∷ ys) {x} h = elim (Bool-cases (p y)) [
    | inl e ↦
        let same : y ≡ x = ground arith in (Memᴰ.head (sym same), subst (λ z. p z ≡ true) same e)
    | inr e ↦ let (m, px) = find_where-mem p ys {x = x} (rw e at h) in (Memᴰ.tail m, px)
  ]

  pub mem-find_where :
      (p : A → Bool) (l : List A) {x : A}
      → Memᴰ x l
      → p x ≡ true
      → (y : A) × (find_where p l ≡ some y)
  unfolding find_where
  mem-find_where p [] m h = elim m [ ]
  mem-find_where p (z ∷ zs) (Memᴰ.head e) h = (z, rw (← e) (rw h))
  mem-find_where p (z ∷ zs) (Memᴰ.tail m) h = elim (Bool-cases (p z)) [
    | inl e ↦ (z, rw e)
    | inr e ↦ let (y, q) = mem-find_where p zs m h in (y, rw e q)
  ]

  pub mem-any_where :
      (p : A → Bool) (l : List A) {x : A} → Memᴰ x l → p x ≡ true → any_where p l ≡ true
  unfolding any_where
  mem-any_where p [] m h = elim m [ ]
  mem-any_where p (z ∷ zs) (Memᴰ.head e) h = rw (← e) (rw h)
  mem-any_where p (z ∷ zs) (Memᴰ.tail m) h = ground (arith, mem-any_where p zs m h)

  pub any_where-mem :
      (p : A → Bool) (l : List A) → any_where p l ≡ true → (x : A) × Memᴰ x l × (p x ≡ true)
  unfolding any_where
  any_where-mem p [] h = absurd (ground arith)
  any_where-mem p (z ∷ zs) h = elim (Bool-cases (p z)) [
    | inl e ↦ (z, Memᴰ.head refl, e)
    | inr e ↦ let (x, m, q) = any_where-mem p zs (rw e at h) in (x, Memᴰ.tail m, q)
  ]

  pub select-mem :
      (p : A → Bool) (l : List A) {x : A} → Memᴰ x (select p l) → Memᴰ x l × (p x ≡ true)
  unfolding select
  select-mem p [] m = elim m [ ]
  select-mem p (z ∷ zs) {x} m = elim (Bool-cases (p z)) [
    | inl e ↦ elim (Memᴰ.cases_cons (rw e at m)) [
      | inl same ↦ (Memᴰ.head same, rw same e)
      | inr rest ↦ let (m', q) = select-mem p zs rest in (Memᴰ.tail m', q)
    ]
    | inr e ↦ let (m', q) = select-mem p zs {x = x} (rw e at m) in (Memᴰ.tail m', q)
  ]

  pub mem-select : (p : A → Bool) (l : List A) {x : A} → Memᴰ x l → p x ≡ true → Memᴰ x (select p l)
  unfolding select
  mem-select p [] m h = elim m [ ]
  mem-select p (z ∷ zs) {x} (Memᴰ.head e) h = rw (← e) (rw h (Memᴰ.head refl))
  mem-select p (z ∷ zs) (Memᴰ.tail m) h = elim (Bool-cases (p z)) [
    | inl e ↦ rw e (Memᴰ.tail (mem-select p zs m h))
    | inr e ↦ rw e (mem-select p zs m h)
  ]

  pub select_all : (p : A → Bool) (l : List A) → ((x : A) → Memᴰ x l → p x ≡ true) → select p l ≡ l
  unfolding select
  select_all p [] h = refl
  select_all p (x ∷ xs) h =
      rw (h x (Memᴰ.head refl)) (ap (λ l. x ∷ l) (select_all p xs (λ y m. h y (Memᴰ.tail m))))

  insert_by_some : (le : A → A → Bool) (x : A) (l : List A) → insert_by le x l ≢ []
  unfolding insert_by
  insert_by_some le x [] h = absurd (ground (arith, h))
  insert_by_some le x (y ∷ ys) h = absurd (ground (arith, h))

  pub sort_by_none : (le : A → A → Bool) (l : List A) → sort_by le l ≡ [] → l ≡ []
  unfolding sort_by
  sort_by_none le [] h = refl
  sort_by_none le (x ∷ xs) h = absurd (insert_by_some le x (sort_by le xs) h)

  -- A row of an updated table is an old row that was passed over, or what became of one.
  pub update_where-mem :
      (p : A → Bool) (f : A → A) (l : List A) {y : A}
      → Memᴰ y (update_where p f l)
      → (x : A) × Memᴰ x l × (((p x ≡ false) × (y ≡ x)) ⊎ ((p x ≡ true) × (y ≡ f x)))
  unfolding update_where
  update_where-mem p f [] m = elim m [ ]
  update_where-mem p f (z ∷ zs) (Memᴰ.head e) = elim (Bool-cases (p z)) [
    | inl t ↦ (z, Memᴰ.head refl, inr (t, rw t at e))
    | inr t ↦ (z, Memᴰ.head refl, inl (t, rw t at e))
  ]
  update_where-mem p f (z ∷ zs) (Memᴰ.tail m) =
      let (x, m', c) = update_where-mem p f zs m in (x, Memᴰ.tail m', c)

  pub mem-update_where :
      (p : A → Bool) (f : A → A) (l : List A) {x : A}
      → Memᴰ x l
      → Memᴰ (if p x then f x else x) (update_where p f l)
  unfolding update_where
  mem-update_where p f [] m = elim m [ ]
  mem-update_where p f (z ∷ zs) (Memᴰ.head e) = Memᴰ.head (ap (λ w. if p w then f w else w) e)
  mem-update_where p f (z ∷ zs) (Memᴰ.tail m) = Memᴰ.tail (mem-update_where p f zs m)

  pub find_where-none : (p : A → Bool) (l : List A) → find_where p l ≡ none → any_where p l ≡ false
  unfolding find_where any_where
  find_where-none p [] h = refl
  find_where-none p (x ∷ xs) h = elim (Bool-cases (p x)) [
    | inl e ↦ absurd (ground (arith, h, e))
    | inr e ↦ rw e (find_where-none p xs (rw e at h))
  ]

  pub any_where_left :
      (p q : A → Bool) (l : List A) → any_where (λ x. p x || q x) l ≡ false → any_where p l ≡ false
  unfolding any_where
  any_where_left p q [] h = refl
  any_where_left p q (x ∷ xs) h = ground (arith, any_where_left p q xs)

-- A table that grew by one row unless a test passed.
module _ {ℓ} {A : Type ℓ} (x : A) (l l' : List A) (t : Bool)
    (grown : l' ≡ (if t then l else x ∷ l)) where
  pub grown_to : (y : A) → Memᴰ y l → Memᴰ y l'
  grown_to y m = elim (Bool-cases t) [
    | inl e ↦ subst (λ z. Memᴰ y z) (sym (rw e at grown)) m
    | inr e ↦ subst (λ z. Memᴰ y z) (sym (rw e at grown)) (Memᴰ.tail m)
  ]

  pub grown_from : (y : A) → Memᴰ y l' → Memᴰ y l ⊎ (y ≡ x)
  grown_from y m = elim (Bool-cases t) [
    | inl e ↦ inl (subst (λ z. Memᴰ y z) (rw e at grown) m)
    | inr e ↦ elim (Memᴰ.cases_cons (subst (λ z. Memᴰ y z) (rw e at grown) m)) [
      | inl same ↦ inr same
      | inr old ↦ inl old
    ]
  ]

  pub grown_new : t ≡ false → Memᴰ x l'
  grown_new e = subst (λ z. Memᴰ x z) (sym (rw e at grown)) (Memᴰ.head refl)
