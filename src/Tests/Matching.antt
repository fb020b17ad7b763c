-- ===== src/Tests/Matching.antt =====
-- Runs of matching and of the analyses.
use job_match_pipeline.Prelude.{
  false, ◌==◌, ℕ, ◌+◌, ◌-◌, ◌*◌, ◌≤◌, ◌≡◌, refl, arith, min, String, List, [], ◌∷◌, none, some,
  true, elem, string_eq, nat_eq, ◌&&◌, not, length,
}
use job_match_pipeline.Payload.{pos}
use job_match_pipeline.Llm.{answered}
use job_match_pipeline.Db.Session.{alone}
use job_match_pipeline.Analyze.Batch.{BatchSettings, analyze_batch, spent_today, at_least_zero}
use job_match_pipeline.Analyze.Budget.{analyses_in, analyze_batch-budget}
use job_match_pipeline.Analyze.Service.{AnalysisLlm, analyze_match}
use job_match_pipeline.Analyze.Unique.{analysis_count, analyze_match-one}
use job_match_pipeline.Match.Rerank.{cosine_rerank}
use job_match_pipeline.Match.Batch.{
  Candidate, MatchSettings, Cycle, matches_today, match_user, match_candidates, enqueue_extracts,
  extract_loop, users_in_order, match_users,
}
use job_match_pipeline.Prelude.Text.{strip}
use job_match_pipeline.Payload.{Payload, text, lookup}
use job_match_pipeline.Db.Session.{record_pipeline_event}
use job_match_pipeline.Match.Dirty.{select_dirty, sort_ids, insert_id, clear_rematch, is_dirty}
use job_match_pipeline.Match.Modes.{
  MatchServices, mode_of, requested_ids, positive_int, parse_datetime, select_user_ids, since_of,
}
use job_match_pipeline.Match.Service.{
  match_batch, run_mode, run_cycle, selected_users, finish_dirty, clear_events,
}
use job_match_pipeline.Match.Flags.{match_batch-is_dirty}
use job_match_pipeline.Db.Session.{World}
use job_match_pipeline.Match.Recorded.{pair_count}
use job_match_pipeline.Match.Cap.{match_user-within_cap}
use job_match_pipeline.Match.Cycle.{IsMatched, match_candidates-once}
use job_match_pipeline.Tests.Data.{py, profile, world, bill, names}

abbrev required : List String
required = "python" ∷ "" ∷ "rust" ∷ "python" ∷ []

abbrev rust : String
rust = "rust"

abbrev known : List String
known = "python" ∷ []

abbrev pub budget : BatchSettings
budget = record { analysis_daily_budget_usd = pos 7; analysis_est_cost_usd = pos 3 }

analyze_batch-budget_example :
    let (result, w) = analyze_batch py budget 0 [] world in
    (analyses_in w ≡ analyses_in world + result.enqueued)
    × (length w.pending ≡ length world.pending + result.enqueued)
    × (result.enqueued * 3 ≤ at_least_zero budget.analysis_daily_budget_usd - spent_today 0 world)
analyze_batch-budget_example = analyze_batch-budget py budget 0 [] world 3 refl

abbrev pub analyst : AnalysisLlm
analyst m j p = answered "model" bill

analyze_match-one_example :
    analysis_count 21 (analyze_match py "model" analyst alone (names "match_id" 21) world).1 ≤ 1
analyze_match-one_example =
    analyze_match-one py "model" analyst alone 21 world (omega arith) (omega arith)
      (names "match_id" 21)

abbrev settings : MatchSettings
settings = record {
  daily_candidate_cap = 3;
  match_top_n = 2;
  screen_score_floor = none;
  weigh = λ similarity overlap. overlap.0;
  normalize_label = λ s. s;
  concept_labels = λ s. none;
}

abbrev candidate : Candidate
candidate = record {
  user_id = 1;
  job_id = 11;
  extracted_at = some 0;
  synthesized_doc = none;
  job_skill_ids = required;
  profile_skill_ids = known;
  profile_doc = none;
  similarity = some 500;
}

abbrev start : Cycle
start = record { world = world; already_this_cycle = []; matches_written = 0; screens_enqueued = 0 }

-- The user has two matches of the day, and a cap of three.
match_user-within_cap_example :
    matches_today 9
      (match_user py settings 9
        (cosine_rerank 0)
        2
        (matches_today 9 world 1)
        1
        (candidate ∷ [])
        start).world
      1
    ≤ min 3 (matches_today 9 world 1 + 2)
match_user-within_cap_example =
    match_user-within_cap py settings 9 (cosine_rerank 0) 2 1 (candidate ∷ []) start (omega arith)

none_twice : (u j : ℕ) → pair_count py settings 9 u j world ≤ 1
none_twice u j = omega arith

match_candidates-once_example :
    IsMatched py settings 9 world
      (match_candidates py settings 9 (cosine_rerank 0) (candidate ∷ candidate ∷ []) world).1
match_candidates-once_example =
    match_candidates-once py settings 9 (cosine_rerank 0) (candidate ∷ candidate ∷ []) world
      none_twice

-- The user's profile is flagged.
abbrev dirty_world : World
dirty_world = record world { profiles = record profile { rematch_needed = true } ∷ [] }

-- A batch in mode dirty, with no rows of the candidate query.
abbrev pub match_services : MatchServices
match_services = record {
  settings = settings;
  dirty_profile_cap = 5;
  reranker = λ query docs n. [];
  candidate_query = λ ids since w. [];
  time_of = λ s. none;
  lower = λ s. s;
}

abbrev dirty_request : Payload
dirty_request = ("mode", text "dirty") ∷ []

clears_flag : is_dirty 1 (match_batch py match_services dirty_request dirty_world).1 ≡ false
unfolding match_batch mode_of run_mode selected_users select_user_ids select_dirty sort_ids
    insert_id requested_ids positive_int parse_datetime run_cycle match_candidates enqueue_extracts
    extract_loop users_in_order match_users finish_dirty clear_rematch clear_events
    record_pipeline_event lookup strip since_of
clears_flag = refl

match_batch-is_dirty_example :
    is_dirty 1 (match_batch py match_services dirty_request dirty_world).1 ≡ (
      is_dirty 1 dirty_world
      && not (
          mode_of py match_services dirty_request == "dirty"
          && elem {A = ℕ} 1 (selected_users py match_services dirty_request dirty_world)))
match_batch-is_dirty_example = match_batch-is_dirty py match_services dirty_request dirty_world 1
