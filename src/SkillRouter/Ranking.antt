-- ===== src/SkillRouter/Ranking.antt =====
-- The order of the ranked peers, and that bonuses never outweigh a matched skill.
use mathlib.Core.List.{Perm}
use mathlib.Core.List.Perm
use hermes_a2a_v.Prelude.{
  ℕ, ◌≤◌, ◌<◌, ◌≡◌, inl, inr, String, true, false, List, [], ◌∷◌, str_eq, arith, length, map, ltb,
  All, Bool-cases,
}
use hermes_a2a_v.Dict.{Dict, get, put, string_eq}
use hermes_a2a_v.Text.Order.{str_leb_total, str_leb_trans}
use hermes_a2a_v.Sorting.{sort_by, IsSorted, sort_by-Perm, sort_by-IsSorted}
use hermes_a2a_v.SkillRouter.Keywords.{extract_keywords}
use hermes_a2a_v.SkillRouter.{
  name_or_unknown, SkillRouter, History, PeerInfo, PeerScore, init, record_success, record_failure,
  increment_active, decrement_active, active_of, history_bonus, load_bonus, score_peer,
  ranks_before, route, history_or_new,
}

pub data Call : Type 0 where
  succeeds fails begins ends : String → Call

unfoldable pub step : Call → SkillRouter → SkillRouter
step (succeeds p) r = record_success p r
step (fails p) r = record_failure p r
step (begins p) r = increment_active p r
step (ends p) r = decrement_active p r

unfoldable pub run : List Call → SkillRouter → SkillRouter
unfolding step
run [] r = r
run (c ∷ cs) r = run cs (step c r)

-- No peer has more successes than tasks.
abbrev pub IsCounted : SkillRouter → Type 0
IsCounted r = All (λ e. e.1.success ≤ e.1.total) r.history

put-All :
    (k : String) (h : History) (d : Dict String History)
    → h.success ≤ h.total
    → All (λ e. e.1.success ≤ e.1.total) d
    → All (λ e. e.1.success ≤ e.1.total) (put k h d)
unfolding put
put-All k h [] p a = (p, tt)
put-All k h ((j, g) ∷ d) p a = elim (Bool-cases (str_eq j k)) [
  | inl e ↦ rw e (p, a.1)
  | inr e ↦ rw e (a.0, put-All k h d p a.1)
]

get-All :
    (k : String) (d : Dict String History)
    → All (λ e. e.1.success ≤ e.1.total) d
    → (history_or_new (get k d)).success ≤ (history_or_new (get k d)).total
unfolding get history_or_new
get-All k [] a = omega arith
get-All k ((j, g) ∷ d) a = elim (Bool-cases (str_eq j k)) [
  | inl e ↦ rw e a.0
  | inr e ↦ rw e (get-All k d a.1)
]

step-IsCounted : (c : Call) (r : SkillRouter) → IsCounted r → IsCounted (step c r)
unfolding step record_success record_failure increment_active decrement_active
step-IsCounted (succeeds p) r h = put-All p _ r.history (omega (arith, get-All p r.history h)) h
step-IsCounted (fails p) r h = put-All p _ r.history (omega (arith, get-All p r.history h)) h
step-IsCounted (begins p) r h = h
step-IsCounted (ends p) r h = elim (Bool-cases (ltb 0 (active_of p r))) [
  | inl e ↦ rw e h
  | inr e ↦ rw e h
]

pub run-IsCounted : (cs : List Call) (r : SkillRouter) → IsCounted r → IsCounted (run cs r)
unfolding run
run-IsCounted [] r h = h
run-IsCounted (c ∷ cs) r h = run-IsCounted cs (step c r) (step-IsCounted c r h)

ranks_total : (a b : PeerScore) → ranks_before a b ≡ false → ranks_before b a ≡ true
unfolding ranks_before
ranks_total a b h = ground (arith, str_leb_total a.peer_name b.peer_name)

ranks_trans :
    (a b c : PeerScore)
    → ranks_before a b ≡ true
    → ranks_before b c ≡ true
    → ranks_before a c ≡ true
unfolding ranks_before
ranks_trans a b c h k = ground (arith, str_leb_trans a.peer_name b.peer_name c.peer_name)

module _ (lower : String → String) (round_rate : ℕ → ℕ → ℕ) where
  -- Routing ranks every peer once, by falling score, and by name where scores are equal.
  pub route_ranks :
      (task : String) (peers : List PeerInfo) (r : SkillRouter)
      → Perm
          (route lower round_rate task peers r)
          (map (λ p. score_peer lower round_rate (extract_keywords lower task) p r) peers)
        × IsSorted ranks_before (route lower round_rate task peers r)
  unfolding route sort_by IsSorted
  route_ranks task [] r = (Perm.rfl, tt)
  route_ranks task (p ∷ peers) r =
      let scores =
        map (λ q. score_peer lower round_rate (extract_keywords lower task) q r) (p ∷ peers) in
      (
        sort_by-Perm ranks_before scores,
        sort_by-IsSorted ranks_before ranks_total ranks_trans scores,
      )

  -- Rounding a rate that is not above 1 gives no more than 1 (documented for `round`).
  module _ (bounded : (s t : ℕ) → s ≤ t → round_rate s t ≤ 10000) where
    history_bonus-le :
        (k : String) (d : Dict String History)
        → All (λ e. e.1.success ≤ e.1.total) d
        → history_bonus lower round_rate (get k d) ≤ 10000
    unfolding history_bonus get
    history_bonus-le k [] a = omega arith
    history_bonus-le k ((j, g) ∷ d) a =
        ground (arith, bounded g.success g.total a.0, history_bonus-le k d a.1)

    -- After any calls on a new router: of two peers, the one that matches more skills of a task, and
    -- at least as many tags, gets the higher score, whatever their history and load.
    pub skill_dominates :
        (cs : List Call) (kws : List String) (a b : PeerInfo)
        → length (score_peer lower round_rate kws b (run cs init)).matched_skills
          < length (score_peer lower round_rate kws a (run cs init)).matched_skills
        → length (score_peer lower round_rate kws b (run cs init)).matched_tags
          ≤ length (score_peer lower round_rate kws a (run cs init)).matched_tags
        → (score_peer lower round_rate kws b (run cs init)).score
          < (score_peer lower round_rate kws a (run cs init)).score
    unfolding score_peer load_bonus init
    skill_dominates cs kws a b more_skills tags =
        let counted = run-IsCounted cs init tt in
        omega (arith, history_bonus-le (name_or_unknown b.name) (run cs init).history counted)
