-- ===== src/Analyze/Ranking.antt =====
-- The SELECT of app/analyze/batch.py: which matches are candidates, and in which order.
use job_match_pipeline.Prelude.{
  ℕ, Bool, true, false, ◌&&◌, ◌||◌, not, List, [], ◌∷◌, Option, none, some, any, keep, take, elem,
  is_some, leb, ltb, nat_beq, if◌then◌else◌, ◌==◌, nat_eq,
}
use job_match_pipeline.Payload.{Uuid}
use job_match_pipeline.Db.Rows.{Match, MatchAnalysis}
use job_match_pipeline.Db.Session.{World}
use job_match_pipeline.Screen.Labels.{qualification_label_rank}

abbrev pub same_pair : Match → Match → Bool
same_pair a b = a.user_id == b.user_id && a.job_id == b.job_id

-- `ORDER BY cycle_at DESC, id DESC` within a pair: `b` comes before `a`.
abbrev pub is_newer : Match → Match → Bool
is_newer b a = ltb a.cycle_at b.cycle_at || (b.cycle_at == a.cycle_at && ltb a.id b.id)

-- `Match.id IN (SELECT DISTINCT ON (user_id, job_id) …)`
abbrev pub is_latest : List Match → Match → Bool
is_latest rows m = not (any (λ b. same_pair b m && is_newer b m) rows)

-- The outer join and `MatchAnalysis.id IS NULL`.
abbrev pub is_analyzed : List MatchAnalysis → Match → Bool
is_analyzed analyses m = any (λ a. a.match_id == m.id) analyses

-- `Match.user_id IN user_ids`, where the payload names users.
abbrev pub is_requested : Option (List Uuid) → Match → Bool
is_requested none m = true
is_requested (some ids) m = elem m.user_id ids

unfoldable pub is_candidate : Option (List Uuid) → World → Match → Bool
is_candidate user_ids w m =
    is_requested user_ids m
    && (is_latest (keep (is_requested user_ids) w.matches) m
        && (is_some m.qualification_label && not (is_analyzed w.analyses m)))

-- `desc().nulls_last()`: `a` is strictly before `b`, or ranks the same.
abbrev before : Option ℕ → Option ℕ → Bool
before none b = false
before (some a) none = true
before (some a) (some b) = ltb b a

abbrev same : Option ℕ → Option ℕ → Bool
same none none = true
same (some a) (some b) = nat_beq a b
same _ _ = false

-- The ORDER BY of the candidates on its three keys: label tier, rerank score, cycle.
unfoldable pub key_before : Option ℕ → Option ℕ → ℕ → Option ℕ → Option ℕ → ℕ → Bool
key_before ta ra ca tb rb cb =
    before ta tb || (same ta tb && (before ra rb || (same ra rb && leb cb ca)))

-- `a` may stand before `b`.
unfoldable pub ranks_before : Match → Match → Bool
ranks_before a b =
    key_before (qualification_label_rank a.qualification_label) a.rerank_score a.cycle_at
      (qualification_label_rank b.qualification_label) b.rerank_score b.cycle_at

unfoldable pub insert : Match → List Match → List Match
insert m [] = m ∷ []
insert m (x ∷ xs) = let rest = insert m xs in if ranks_before m x then m ∷ x ∷ xs else x ∷ rest

-- Rows that rank the same keep the order of the table, which the database does not promise.
unfoldable pub order : List Match → List Match
unfolding insert
order [] = []
order (x ∷ xs) = insert x (order xs)

unfoldable pub select_candidates : ℕ → Option (List Uuid) → World → List Match
unfolding is_candidate order
select_candidates limit user_ids w = take limit (order (keep (is_candidate user_ids w) w.matches))
