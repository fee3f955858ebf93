-- ===== src/Sorting.antt =====
-- Python's `list.sort`, as far as it is specified: a stable sort by an order given as a test.
use mathlib.Core.List.{Perm}
use mathlib.Core.List.Perm
use hermes_a2a_v.Prelude.{
  ◌≡◌, refl, inl, inr, Bool, true, false, List, [], ◌∷◌, if◌then◌else◌, arith, select, All,
  Bool-cases,
}

module _ {ℓ} {A : Type ℓ} (le : A → A → Bool) where
  -- The item goes before those that it may precede, so equal items keep their order.
  unfoldable pub insert : A → List A → List A
  insert x [] = x ∷ []
  insert x (y ∷ ys) = let later = insert x ys in if le x y then x ∷ y ∷ ys else y ∷ later

  unfoldable pub sort_by : List A → List A
  unfolding insert
  sort_by [] = []
  sort_by (x ∷ xs) = insert x (sort_by xs)

  -- Every item may precede all that come after it.
  unfoldable pub IsSorted : List A → Type 0
  IsSorted [] = Unit
  IsSorted (x ∷ xs) = All (λ y. le x y ≡ true) xs × IsSorted xs

  insert-Perm : (x : A) (xs : List A) → Perm (insert x xs) (x ∷ xs)
  unfolding insert
  insert-Perm x [] = Perm.rfl
  insert-Perm x (y ∷ ys) = elim (Bool-cases (le x y)) [
    | inl e ↦ rw e Perm.rfl
    | inr e ↦ rw e (Perm.trans (Perm.cons y (insert-Perm x ys)) (Perm.swap x y ys))
  ]

  pub sort_by-Perm : (xs : List A) → Perm (sort_by xs) xs
  unfolding sort_by
  sort_by-Perm [] = Perm.rfl
  sort_by-Perm (x ∷ xs) = Perm.trans (insert-Perm x (sort_by xs)) (Perm.cons x (sort_by-Perm xs))

  All-insert {κ} : (P : A → Type κ) (x : A) (xs : List A) → P x → All P xs → All P (insert x xs)
  unfolding insert
  All-insert P x [] p h = (p, tt)
  All-insert P x (y ∷ ys) p (q, h) = elim (Bool-cases (le x y)) [
    | inl e ↦ rw e (p, (q, h))
    | inr e ↦ rw e (q, All-insert P x ys p h)
  ]

  module _ (total : (x y : A) → le x y ≡ false → le y x ≡ true)
      (trans : (x y z : A) → le x y ≡ true → le y z ≡ true → le x z ≡ true) where
    All-le :
        (x y : A) (xs : List A)
        → le x y ≡ true
        → All (λ z. le y z ≡ true) xs
        → All (λ z. le x z ≡ true) xs
    All-le x y [] p h = tt
    All-le x y (z ∷ zs) p (q, h) = (trans x y z p q, All-le x y zs p h)

    insert-IsSorted : (x : A) (xs : List A) → IsSorted xs → IsSorted (insert x xs)
    unfolding insert IsSorted
    insert-IsSorted x [] h = (tt, tt)
    insert-IsSorted x (y ∷ ys) (below, h) = elim (Bool-cases (le x y)) [
      | inl e ↦ rw e ((e, All-le x y ys e below), (below, h))
      | inr e ↦
          rw e (All-insert (λ z. le y z ≡ true) x ys (total x y e) below, insert-IsSorted x ys h)
    ]

    pub sort_by-IsSorted : (xs : List A) → IsSorted (sort_by xs)
    unfolding sort_by IsSorted
    sort_by-IsSorted [] = tt
    sort_by-IsSorted (x ∷ xs) = insert-IsSorted x (sort_by xs) (sort_by-IsSorted xs)

  -- Items that may all precede each other keep their order.
  module _ (p : A → Bool) (equal : (x y : A) → p x ≡ true → p y ≡ true → le x y ≡ true) where
    select-insert : (x : A) (xs : List A) → select p (insert x xs) ≡ select p (x ∷ xs)
    unfolding insert
    select-insert x [] = refl
    select-insert x (y ∷ ys) = ground (arith, select-insert x ys, equal x y)

    pub select-sort_by : (xs : List A) → select p (sort_by xs) ≡ select p xs
    unfolding sort_by
    select-sort_by [] = refl
    select-sort_by (x ∷ xs) = ground (arith, select-insert x (sort_by xs), select-sort_by xs)
