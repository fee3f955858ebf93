-- ===== src/Distinct.antt =====
-- Python's lists as collections: `in`, `append` and `remove`, and lists in which no item stands twice.
use hermes_a2a_v.Prelude.{
  ℕ, ◌≡◌, refl, ◌∙◌, inl, inr, Bool, false, not, ◌&&◌, ◌||◌, List, [], ◌∷◌, ◌++◌, ◌==◌, arith,
  select, Bool-cases, if◌then◌else◌, ◌↔◌, true,
}
use hermes_a2a_v.Dict.{Eq}

pub nat_beq_iff : (a b : ℕ) → ((a == b) ≡ true) ↔ (a ≡ b)
nat_beq_iff a b = ground arith

instance abbrev pub nat_eq : Eq ℕ
nat_eq = record { beq = ◌==◌; beq_iff = nat_beq_iff }

module _ {K : Type 0} ⦃e : Eq K⦄ where
  -- `x in xs`
  unfoldable pub is_in : K → List K → Bool
  is_in x [] = false
  is_in x (y ∷ ys) = e.beq y x || is_in x ys

  -- `xs.remove(x)`, with its ValueError passed over
  unfoldable pub remove_first : K → List K → List K
  remove_first x [] = []
  remove_first x (y ∷ ys) = let rest = remove_first x ys in if e.beq y x then ys else y ∷ rest

  unfoldable pub IsDistinct : List K → Type 0
  unfolding is_in
  IsDistinct [] = Unit
  IsDistinct (x ∷ xs) = (is_in x xs ≡ false) × IsDistinct xs

  pub is_in-append : (x y : K) (xs : List K) → is_in x (xs ++ y ∷ []) ≡ (e.beq y x || is_in x xs)
  unfolding is_in
  is_in-append x y [] = refl
  is_in-append x y (z ∷ xs) = ground (arith, is_in-append x y xs)

  pub append-IsDistinct :
      (y : K) (xs : List K) → is_in y xs ≡ false → IsDistinct xs → IsDistinct (xs ++ y ∷ [])
  unfolding is_in IsDistinct
  append-IsDistinct y [] h d = (refl, tt)
  append-IsDistinct y (x ∷ xs) h d = (
    ground (arith, is_in-append x y xs, d.0, e.beq_iff x y, e.beq_iff y x),
    append-IsDistinct y xs (ground arith) d.1,
  )

  pub is_in-remove_first :
      (x y : K) (xs : List K)
      → IsDistinct xs
      → is_in x (remove_first y xs) ≡ (not (e.beq y x) && is_in x xs)
  unfolding is_in remove_first IsDistinct
  is_in-remove_first x y [] d = ground arith
  is_in-remove_first x y (z ∷ xs) d =
      ground
        (arith, is_in-remove_first x y xs d.1, d.0, e.beq_iff z y, e.beq_iff z x, e.beq_iff y x)

  pub remove_first-IsDistinct :
      (y : K) (xs : List K) → IsDistinct xs → IsDistinct (remove_first y xs)
  unfolding is_in remove_first IsDistinct
  remove_first-IsDistinct y [] d = tt
  remove_first-IsDistinct y (x ∷ xs) d = elim (Bool-cases (e.beq x y)) [
    | inl same ↦ rw same d.1
    | inr other ↦
        rw other
          (is_in-remove_first x y xs d.1 ∙ ground (arith, d.0), remove_first-IsDistinct y xs d.1)
  ]

  pub is_in-select :
      (p : K → Bool) (x : K) (xs : List K) → is_in x (select p xs) ≡ (is_in x xs && p x)
  unfolding is_in
  is_in-select p x [] = refl
  is_in-select p x (y ∷ xs) = ground (arith, is_in-select p x xs, e.beq_iff y x)

  pub select-IsDistinct : (p : K → Bool) (xs : List K) → IsDistinct xs → IsDistinct (select p xs)
  unfolding is_in IsDistinct
  select-IsDistinct p [] d = tt
  select-IsDistinct p (x ∷ xs) d = elim (Bool-cases (p x)) [
    | inl q ↦ rw q (is_in-select p x xs ∙ ground (arith, d.0), select-IsDistinct p xs d.1)
    | inr q ↦ rw q (select-IsDistinct p xs d.1)
  ]
