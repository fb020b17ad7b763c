-- ===== src/Match/Batch.antt =====
-- app/match/service.py: one match cycle. The rows of the candidate query, the reranker and the
-- weighting of similarity and overlap are arguments.
use job_match_pipeline.Prelude.{
  ℕ, suc, ◌+◌, ◌-◌, ◌%◌, Bool, false, ◌&&◌, String, List, [], ◌∷◌, ◌++◌, Option, none, some, map,
  min, take, keep, last, any, elem, length, is_none, is_some, is_empty, ltb, leb, if◌then◌else◌,
  ◌==◌, nat_eq,
}
use job_match_pipeline.Payload.{Uuid, text, Builtins}
use job_match_pipeline.Db.Rows.{Score, Time, Match, Stage, Action}
use job_match_pipeline.Db.Session.{World, QueueName, record_pipeline_event, enqueue}
use job_match_pipeline.Match.Skills.{skill_buckets, jaccard_overlap}
use job_match_pipeline.Match.Rerank.{RerankDocument, RerankResult, Reranker, sort_desc}

-- `_Candidate`, a row of the candidate query.
pub record Candidate : Type 0 where
  pub user_id : Uuid
  pub job_id : Uuid
  pub extracted_at : Option Time
  pub synthesized_doc : Option String
  pub job_skill_ids : List String
  pub profile_skill_ids : List String
  pub profile_doc : Option String
  pub similarity : Option Score

-- What the cycle takes from the settings and from outside.
pub record MatchSettings : Type 0 where
  pub daily_candidate_cap : ℕ
  pub match_top_n : ℕ
  pub screen_score_floor : Option Score
  -- `0.7 * similarity + 0.3 * overlap` in floats
  pub weigh : Option Score → ℕ × ℕ → Score
  pub normalize_label : String → String
  pub concept_labels : String → Option String

-- The loop's variables.
pub record Cycle : Type 0 where
  pub world : World
  pub already_this_cycle : List (Uuid × Uuid)
  pub matches_written : ℕ
  pub screens_enqueued : ℕ

abbrev text_or : Option String → String
text_or none = ""
text_or (some s) = s

abbrev pub event : Action → Option Uuid → Option Uuid → Option Score → World → World
event action job user score w = record_pipeline_event Stage.match_batch action job user score none w

-- `_enqueue_extracts`: one message for each distinct job.
unfoldable pub extract_loop : Builtins → List Uuid → List Candidate → World → ℕ × World
unfolding record_pipeline_event enqueue
extract_loop py seen [] w = (0, w)
extract_loop py seen (c ∷ cs) w =
    let w1 = event Action.deferred_unextracted (some c.job_id) (some c.user_id) none w in
    let known = elem c.job_id seen in
    let w2 =
      event Action.enqueued_extract (some c.job_id) none none
        (enqueue QueueName.extract_job (("job_id", text (py.str_of_uuid c.job_id)) ∷ []) w1) in
    let (n, w3) =
      extract_loop py (if known then seen else c.job_id ∷ seen) cs (if known then w1 else w2) in
    (if known then n else suc n, w3)

unfoldable pub enqueue_extracts : Builtins → List Candidate → World → ℕ × World
enqueue_extracts py cs w = extract_loop py [] cs w

-- `(user_id, job_id) in already_this_cycle`
abbrev pub pair_in : Uuid → Uuid → List (Uuid × Uuid) → Bool
pair_in user job pairs = any (λ p. p.0 == user && p.1 == job) pairs

module _ (py : Builtins) (s : MatchSettings) (cycle_at : Time) where
  unfoldable pub combined_score : Candidate → Score
  combined_score c = s.weigh c.similarity (jaccard_overlap c.job_skill_ids c.profile_skill_ids)

  abbrev pub below_floor : Option Score → Score → Bool
  below_floor none score = false
  below_floor (some floor) score = ltb score floor

  -- The row of a match.
  abbrev pub new_match : Candidate → Score → Uuid → Match
  new_match c score id =
      let b =
        skill_buckets s.normalize_label s.concept_labels c.job_skill_ids c.profile_skill_ids in
      record {
        id = id;
        user_id = c.user_id;
        job_id = c.job_id;
        cycle_at = cycle_at;
        rerank_score = some score;
        qualification_label = none;
        screen_reason = none;
        matched_skills = b.matched;
        adjacent_skills = b.adjacent;
        missing_skills = b.missing;
      }

  -- `session.add(match)` and its event.
  unfoldable pub add_match : Candidate → Score → World → World
  unfolding record_pipeline_event
  add_match c score w =
      event Action.matched (some c.job_id) (some c.user_id) (some score) (record w {
        matches = w.matches ++ new_match c score w.next_id ∷ [];
        next_id = suc w.next_id;
      })

  -- The message to screen-job and its event.
  unfoldable pub enqueue_screen : Candidate → Score → Uuid → World → World
  unfolding record_pipeline_event enqueue
  enqueue_screen c score id w =
      event Action.enqueued_screen (some c.job_id) (some c.user_id) (some score) (
        enqueue QueueName.screen_job
          (("user_id", text (py.str_of_uuid c.user_id))
            ∷ ("job_id", text (py.str_of_uuid c.job_id))
            ∷ ("match_id", text (py.str_of_uuid id))
            ∷ [])
          w)

  -- A result whose job is in the pool and is not matched in this cycle.
  unfoldable pub write_match : Candidate → Score → Cycle → Cycle
  unfolding record_pipeline_event
  write_match c score k =
      let id = k.world.next_id in
      let w1 = add_match c score k.world in
      let low = below_floor s.screen_score_floor score in
      record {
        world =
            if low
            then event Action.below_screen_floor (some c.job_id) (some c.user_id) (some score) w1
            else enqueue_screen c score id w1;
        already_this_cycle = (c.user_id, c.job_id) ∷ k.already_this_cycle;
        matches_written = k.matches_written + 1;
        screens_enqueued = if low then k.screens_enqueued else k.screens_enqueued + 1;
      }

  -- `by_job.get(uuid.UUID(result.id))`; of two candidates with one job the later is kept.
  abbrev by_job : List Candidate → Option Uuid → Option Candidate
  by_job pool none = none
  by_job pool (some id) = last (keep (λ c. c.job_id == id) pool)

  unfoldable pub found_in : List Candidate → RerankResult → Option Candidate
  found_in pool r = by_job pool (py.uuid_of_text r.id)

  -- One result of the reranker.
  unfoldable pub take_result : List Candidate → RerankResult → Cycle → Cycle
  take_result pool r k = elim (found_in pool r) [
    | none ↦ k
    | some c ↦
        if pair_in c.user_id c.job_id k.already_this_cycle then k else write_match c r.score k
  ]

  unfoldable pub take_results : List Candidate → List RerankResult → Cycle → Cycle
  take_results pool [] k = k
  take_results pool (r ∷ rs) k = take_results pool rs (take_result pool r k)

  unfoldable pub documents : List Candidate → List RerankDocument
  documents pool =
      map
        (λ c. record {
          id = py.str_of_uuid c.job_id;
          text = text_or c.synthesized_doc;
          similarity = some (combined_score c);
        })
        pool

  abbrev query_of : List Candidate → String
  query_of [] = ""
  query_of (c ∷ cs) = text_or c.profile_doc

  -- One user: at most what is left of the daily cap is reranked and written.
  unfoldable pub match_user : Reranker → ℕ → ℕ → Uuid → List Candidate → Cycle → Cycle
  unfolding record_pipeline_event
  match_user reranker top_n already user cands k =
      let remaining = s.daily_candidate_cap - already in
      let pool = take remaining (sort_desc combined_score cands) in
      let width = min top_n remaining in
      let ranked = reranker (query_of pool) (documents pool) width in
      let written = take_results pool (take width ranked) k in
      if nat_eq.beq remaining 0
      then record k { world = event Action.capped none (some user) none k.world }
      else if is_empty pool
      then k
      else written

  -- `by_user.items()`, with the number of matches that each user has today.
  unfoldable pub match_users :
      Reranker → ℕ → (Uuid → ℕ) → List Candidate → List Uuid → Cycle → Cycle
  match_users reranker top_n already extracted [] k = k
  match_users reranker top_n already extracted (u ∷ us) k =
      match_users reranker top_n already extracted us
        (match_user reranker top_n (already u) u (keep (λ c. c.user_id == u) extracted) k)

-- `by_user`'s keys: the users of the candidates in order of first appearance.
unfoldable pub users_in_order : List Uuid → List Candidate → List Uuid
users_in_order seen [] = []
users_in_order seen (c ∷ cs) =
    let known = elem c.user_id seen in
    let rest = users_in_order (if known then seen else c.user_id ∷ seen) cs in
    if known then rest else c.user_id ∷ rest

-- Midnight UTC of a time.
abbrev pub day_start : Time → Time
day_start t = t - t % 86400000000

-- `_matches_since_day_start`
abbrev pub is_today : Time → Uuid → Match → Bool
is_today cycle_at user m = m.user_id == user && leb (day_start cycle_at) m.cycle_at

abbrev pub matches_today : Time → World → Uuid → ℕ
matches_today cycle_at w user = length (keep (is_today cycle_at user) w.matches)

-- `_pairs_for_cycle`
abbrev pub pairs_for_cycle : Time → List Match → List (Uuid × Uuid)
pairs_for_cycle cycle_at [] = []
pairs_for_cycle cycle_at (m ∷ ms) =
    let rest = pairs_for_cycle cycle_at ms in
    if m.cycle_at == cycle_at then (m.user_id, m.job_id) ∷ rest else rest

-- From the candidate rows to the end of the loop over users.
unfoldable pub match_candidates :
    Builtins → MatchSettings → Time → Reranker → List Candidate → World → ℕ × Cycle
match_candidates py s cycle_at reranker candidates w =
    let unextracted = keep (λ c. is_none c.extracted_at) candidates in
    let extracted = keep (λ c. is_some c.extracted_at) candidates in
    let (extracts, w1) = enqueue_extracts py unextracted w in
    (
      extracts,
      match_users py s cycle_at reranker s.match_top_n (matches_today cycle_at w1) extracted
          (users_in_order [] extracted)
          (record {
            world = w1;
            already_this_cycle = pairs_for_cycle cycle_at w1.matches;
            matches_written = 0;
            screens_enqueued = 0;
          }),
    )
