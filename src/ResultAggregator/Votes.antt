-- ===== src/ResultAggregator/Votes.antt =====
-- Which answer wins a vote.
use hermes_a2a_v.Prelude.{
  ℕ, ◌+◌, ◌≤◌, ◌≡◌, refl, ◌∙◌, ap, sym, String, none, some, List, [], ◌∷◌, arith, str_eq, eq_iff,
  eq_refl, if◌then◌else◌, Bool-cases, inl, inr, length, ltb, ◌⊎◌,
}
use hermes_a2a_v.Dict.{Dict, get, put, get-put, put-IsKeyed, IsKeyed, string_eq}
use hermes_a2a_v.Orchestrator.{SubTaskResult}
use hermes_a2a_v.ResultAggregator.{
  counter, best_of, most_common, verdict, vote, completed_results, count_or_zero,
}

-- How often an answer was given.
unfoldable pub occurrences : String → List String → ℕ
occurrences s [] = 0
occurrences s (x ∷ xs) = if str_eq x s then occurrences s xs + 1 else occurrences s xs

counter-get :
    (s : String) (xs : List String) (d : Dict String ℕ)
    → count_or_zero (get s (counter xs d)) ≡ count_or_zero (get s d) + occurrences s xs
unfolding counter occurrences
counter-get s [] d = omega arith
counter-get s (x ∷ xs) d =
    let n = count_or_zero (get x d) + 1 in
    ground (arith, counter-get s xs (put x n d), get-put x s n d, eq_iff x s)

counter-IsKeyed : (xs : List String) (d : Dict String ℕ) → IsKeyed d → IsKeyed (counter xs d)
unfolding counter
counter-IsKeyed [] d h = h
counter-IsKeyed (x ∷ xs) d h =
    let n = count_or_zero (get x d) + 1 in counter-IsKeyed xs (put x n d) (put-IsKeyed x n d h)

-- The entry that `best_of` chooses is the given one or stands in the dict, and none counts more.
record IsBest (best : String × ℕ) (d : Dict String ℕ) (r : String × ℕ) : Type 0 where
  from : (r ≡ best) ⊎ (get r.0 d ≡ some r.1)
  above : best.1 ≤ r.1
  most : (s : String) → count_or_zero (get s d) ≤ r.1

behind :
    (j k : String) (m n : ℕ) (d : Dict String ℕ)
    → get j d ≡ none
    → get k d ≡ some n
    → get k ((j, m) ∷ d) ≡ some n
unfolding get
behind j k m n d new e = ground (arith, new, e, eq_iff j k)

in_front :
    (j : String) (m : ℕ) (d : Dict String ℕ) (r : String × ℕ)
    → r ≡ (j, m)
    → get r.0 ((j, m) ∷ d) ≡ some r.1
unfolding get
in_front j m d (k, n) e =
    let at : k ≡ j = ap (λ (x : String × ℕ). x.0) e in
    let count : n ≡ m = ap (λ (x : String × ℕ). x.1) e in rw (at, count, eq_refl j) refl

best_of-IsBest :
    (best : String × ℕ) (d : Dict String ℕ) → IsKeyed d → IsBest best d (best_of best d)
unfolding best_of get
best_of-IsBest best [] h = record { from = inl refl; above = omega arith; most = λ s. omega arith }
best_of-IsBest best ((j, m) ∷ d) (new, h) = elim (Bool-cases (ltb best.1 m)) [
  | inl more ↦
      let x = best_of-IsBest (j, m) d h in
      rw more (record {
        from = elim x.from [
          | inl new_one ↦ inr (in_front j m d (best_of (j, m) d) new_one)
          | inr later ↦ inr (behind j (best_of (j, m) d).0 m (best_of (j, m) d).1 d new later)
        ];
        above = ground (arith, more, x.above);
        most = λ s. ground (arith, x.above, x.most s);
      })
  | inr not_more ↦
      let x = best_of-IsBest best d h in
      rw not_more (record {
        from = elim x.from [
          | inl same ↦ inl same
          | inr later ↦ inr (behind j (best_of best d).0 m (best_of best d).1 d new later)
        ];
        above = x.above;
        most = λ s. ground (arith, x.above, x.most s);
      })
]

most_common-IsBest :
    (j : String) (m : ℕ) (d : Dict String ℕ)
    → IsKeyed ((j, m) ∷ d)
    → let r = most_common ((j, m) ∷ d) in
      (get r.0 ((j, m) ∷ d) ≡ some r.1) × ((s : String) → count_or_zero (get s ((j, m) ∷ d)) ≤ r.1)
unfolding most_common get
most_common-IsBest j m d (new, h) =
    let x = best_of-IsBest (j, m) d h in
    (
      elim x.from [
        | inl first ↦ in_front j m d (best_of (j, m) d) first
        | inr later ↦ behind j (best_of (j, m) d).0 m (best_of (j, m) d).1 d new later
      ],
      λ s. ground (arith, x.above, x.most s),
    )

nonempty-IsBest :
    (d : Dict String ℕ) (x : String)
    → IsKeyed d
    → 1 ≤ count_or_zero (get x d)
    → (get (most_common d).0 d ≡ some (most_common d).1)
      × ((s : String) → count_or_zero (get s d) ≤ (most_common d).1)
unfolding get
nonempty-IsBest [] x h e = absurd (omega (arith, e))
nonempty-IsBest ((j, m) ∷ d) x h e = most_common-IsBest j m d h

-- If there is a completed result, the vote names an answer that was given, and no answer was given
-- more often; the counts it shows are how often that answer was given and how many answers there are.
pub vote_winner :
    (results : List SubTaskResult) (x : String) (xs : List String)
    → completed_results results ≡ x ∷ xs
    → (winner : String) × (vote results
        ≡ verdict (winner, occurrences winner (x ∷ xs)) (length (x ∷ xs)))
      × (1 ≤ occurrences winner (x ∷ xs))
      × ((s : String) → occurrences s (x ∷ xs) ≤ occurrences winner (x ∷ xs))
unfolding vote get occurrences
vote_winner results x xs e =
    let d = counter (x ∷ xs) [] in
    let count = λ (s : String). counter-get s (x ∷ xs) [] in
    let given : 1 ≤ count_or_zero (get x d) = ground (arith, count x, eq_refl x) in
    let (own, most) = nonempty-IsBest d x (counter-IsKeyed (x ∷ xs) [] tt) given in
    let winner = (most_common d).0 in
    let n : (most_common d).1 ≡ occurrences winner (x ∷ xs) =
      sym (ap count_or_zero own) ∙ count winner ∙ omega arith in
    (
      winner,
      rw e (ap (λ m. verdict (winner, m) (length (x ∷ xs))) n),
      omega (arith, given, most x, n),
      λ s. omega (arith, most s, count s, n),
    )
