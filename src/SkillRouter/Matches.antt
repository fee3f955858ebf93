-- ===== src/SkillRouter/Matches.antt =====
-- Which names a peer's score lists as matched.
use hermes_a2a_v.Prelude.{
  ◌≡◌, ◌∙◌, inl, inr, String, Bool, false, ◌&&◌, ◌||◌, List, [], ◌∷◌, ◌++◌, str_eq, eq_iff, arith,
  if◌then◌else◌, Bool-cases,
}
use hermes_a2a_v.Dict.{string_eq}
use hermes_a2a_v.Distinct.{is_in, IsDistinct, is_in-append, append-IsDistinct}
use hermes_a2a_v.SkillRouter.Keywords.{fuzzy_match}
use hermes_a2a_v.SkillRouter.{match_names, match_all}

-- Some keyword is related to the name.
unfoldable pub is_wanted : List String → String → Bool
is_wanted [] n = false
is_wanted (kw ∷ kws) n = fuzzy_match kw n || is_wanted kws n

-- One name
add_match : String → String → List String → List String
unfolding fuzzy_match is_in
add_match kw n matched =
    if fuzzy_match kw n then if is_in n matched then matched else matched ++ n ∷ [] else matched

add_match-is_in :
    (s kw n : String) (matched : List String)
    → is_in s (add_match kw n matched) ≡ (is_in s matched || str_eq n s && fuzzy_match kw s)
unfolding add_match
add_match-is_in s kw n matched = ground (arith, is_in-append s n matched, eq_iff n s)

add_match-IsDistinct :
    (kw n : String) (matched : List String)
    → IsDistinct matched
    → IsDistinct (add_match kw n matched)
unfolding add_match
add_match-IsDistinct kw n matched d = elim (Bool-cases (fuzzy_match kw n)) [
  | inl e ↦ rw e (elim (Bool-cases (is_in n matched)) [
    | inl e' ↦ rw e' d
    | inr e' ↦ rw e' (append-IsDistinct n matched e' d)
  ])
  | inr e ↦ rw e d
]

match_names-is_in :
    (s kw : String) (names matched : List String)
    → is_in s (match_names kw names matched)
      ≡ (is_in s matched || is_in s names && fuzzy_match kw s)
unfolding match_names is_in add_match
match_names-is_in s kw [] matched = ground arith
match_names-is_in s kw (n ∷ names) matched =
    match_names-is_in s kw names (add_match kw n matched)
    ∙ rw (add_match-is_in s kw n matched) (ground arith)

match_names-IsDistinct :
    (kw : String) (names matched : List String)
    → IsDistinct matched
    → IsDistinct (match_names kw names matched)
unfolding match_names add_match
match_names-IsDistinct kw [] matched d = d
match_names-IsDistinct kw (n ∷ names) matched d =
    match_names-IsDistinct kw names (add_match kw n matched) (add_match-IsDistinct kw n matched d)

match_all-is_in :
    (s : String) (kws names matched : List String)
    → is_in s (match_all kws names matched) ≡ (is_in s matched || is_in s names && is_wanted kws s)
unfolding match_all is_wanted
match_all-is_in s [] names matched = ground arith
match_all-is_in s (kw ∷ kws) names matched =
    match_all-is_in s kws names (match_names kw names matched)
    ∙ rw (match_names-is_in s kw names matched) (ground arith)

match_all-IsDistinct :
    (kws names matched : List String)
    → IsDistinct matched
    → IsDistinct (match_all kws names matched)
unfolding match_all
match_all-IsDistinct [] names matched d = d
match_all-IsDistinct (kw ∷ kws) names matched d =
    match_all-IsDistinct kws names (match_names kw names matched)
      (match_names-IsDistinct kw names matched d)

-- The matched names are exactly the peer's names that are related to some keyword, each of them once.
pub match_all_exact :
    (kws names : List String)
    → IsDistinct (match_all kws names [])
      × ((s : String) → is_in s (match_all kws names []) ≡ (is_in s names && is_wanted kws s))
unfolding is_in IsDistinct
match_all_exact kws names =
    (match_all-IsDistinct kws names [] tt, λ s. match_all-is_in s kws names [])
