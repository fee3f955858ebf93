-- ===== src/SkillRouter.antt =====
-- src/hermes_a2a/skill_router.py: scoring and ranking peers for a task. A score is counted in
-- ten-thousandths, which is what `round(score, 4)` leaves of it: 30000 for a skill, 20000 for a tag.
-- `lower` is Python's `str.lower`, and `round_rate` the rounding of a success rate, as arguments. The
-- proofs are in the children.
pub mod Keywords
pub mod Matches
pub mod Ranking
use hermes_a2a_v.Prelude.{
  ℕ, ◌+◌, ◌-◌, ◌*◌, ◌≤◌, String, Bool, true, false, not, ◌&&◌, ◌||◌, Option, none, some, List, [],
  ◌∷◌, ◌++◌, map, str_eq, ltb, leb, ◌==◌, if◌then◌else◌, length, is_empty,
}
use hermes_a2a_v.Dict.{Dict, get, put, string_eq}
use hermes_a2a_v.Distinct.{is_in}
use hermes_a2a_v.Sorting.{sort_by}
use hermes_a2a_v.Text.Order.{str_leb}
use hermes_a2a_v.SkillRouter.Keywords.{fuzzy_match, extract_keywords}

pub record PeerScore : Type 0 where
  pub peer_name : String
  pub score : ℕ
  pub matched_skills : List String
  pub matched_tags : List String

pub record History : Type 0 where
  pub success : ℕ
  pub total : ℕ

pub record SkillRouter : Type 0 where
  pub history : Dict String History
  pub active_tasks : Dict String ℕ

unfoldable pub init : SkillRouter
init = record { history = []; active_tasks = [] }

-- `setdefault(peer_name, {"success": 0, "total": 0})`
history_or_new : Option History → History
history_or_new none = record { success = 0; total = 0 }
history_or_new (some h) = h

unfoldable pub record_success : String → SkillRouter → SkillRouter
unfolding history_or_new
record_success peer_name r =
    let hist = history_or_new (get peer_name r.history) in
    record r {
      history =
          put peer_name (record { success = hist.success + 1; total = hist.total + 1 }) r.history;
    }

unfoldable pub record_failure : String → SkillRouter → SkillRouter
unfolding history_or_new
record_failure peer_name r =
    let hist = history_or_new (get peer_name r.history) in
    record r { history = put peer_name (record hist { total = hist.total + 1 }) r.history }

-- `self._active_tasks.get(peer_name, 0)`
unfoldable pub active_of : String → SkillRouter → ℕ
active_of peer_name r = elim (get peer_name r.active_tasks) [ none ↦ 0 | some n ↦ n ]

unfoldable pub increment_active : String → SkillRouter → SkillRouter
unfolding active_of
increment_active peer_name r = record r {
  active_tasks = put peer_name (active_of peer_name r + 1) r.active_tasks;
}

unfoldable pub decrement_active : String → SkillRouter → SkillRouter
unfolding active_of
decrement_active peer_name r =
    let count = active_of peer_name r in
    if ltb 0 count then record r { active_tasks = put peer_name (count - 1) r.active_tasks } else r

-- An item of a peer's `skills`: a dict, by its name, or another value, by its text
pub data Skill : Type 0 where
  named : Option String → Skill
  plain : String → Skill

-- A peer info dict; a missing key is `none`, missing lists are empty.
pub record PeerInfo : Type 0 where
  pub name : Option String
  pub skills : List Skill
  pub tags : List String

skill_name : Skill → String
skill_name (named none) = ""
skill_name (named (some n)) = n
skill_name (plain s) = s

-- `peer.get("name", "unknown")`
name_or_unknown : Option String → String
name_or_unknown none = "unknown"
name_or_unknown (some n) = n

-- The inner loop: the names that match a keyword, each appended once
match_names : String → List String → List String → List String
unfolding fuzzy_match is_in
match_names kw [] matched = matched
match_names kw (n ∷ names) matched =
    match_names kw names
      (if fuzzy_match kw n then if is_in n matched then matched else matched ++ n ∷ [] else matched)

-- The loop over the keywords
unfoldable pub match_all : List String → List String → List String → List String
unfolding match_names
match_all [] names matched = matched
match_all (kw ∷ kws) names matched = match_all kws names (match_names kw names matched)

-- `max(0.0, WEIGHT_LOAD - active * 0.2)`
unfoldable pub load_bonus : ℕ → ℕ
load_bonus active = 10000 - active * 2000

-- The order of the key `(-s.score, s.peer_name)`
unfoldable pub ranks_before : PeerScore → PeerScore → Bool
ranks_before a b = ltb b.score a.score || (a.score == b.score && str_leb a.peer_name b.peer_name)

module _ (lower : String → String) (round_rate : ℕ → ℕ → ℕ) where
  -- `success_rate`, in ten-thousandths; no bonus without history
  unfoldable pub history_bonus : Option History → ℕ
  history_bonus none = 0
  history_bonus (some hist) = if ltb 0 hist.total then round_rate hist.success hist.total else 0

  -- `_score_peer`
  unfoldable pub score_peer : List String → PeerInfo → SkillRouter → PeerScore
  unfolding match_all skill_name name_or_unknown history_bonus load_bonus active_of
  score_peer task_keywords peer r =
      let peer_name = name_or_unknown peer.name in
      let matched_skills =
        match_all task_keywords (map (λ s. lower (skill_name s)) peer.skills) [] in
      let matched_tags = match_all task_keywords (map lower peer.tags) [] in
      record {
        peer_name = peer_name;
        score =
            length matched_skills * 30000
            + length matched_tags * 20000
            + history_bonus (get peer_name r.history)
            + load_bonus (active_of peer_name r);
        matched_skills = matched_skills;
        matched_tags = matched_tags;
      }

  unfoldable pub route : String → List PeerInfo → SkillRouter → List PeerScore
  unfolding score_peer ranks_before extract_keywords
  route task peers r =
      let ranked =
        sort_by ranks_before (map (λ p. score_peer (extract_keywords lower task) p r) peers) in
      if is_empty peers then [] else ranked
