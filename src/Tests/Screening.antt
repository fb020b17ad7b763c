-- ===== src/Tests/Screening.antt =====
-- Runs of screening, of the quota and of the messages.
use job_match_pipeline.Prelude.{IsDistinct, nat_eq, ◌-◌, ◌≡◌, refl, min, arith, some}
use job_match_pipeline.Prelude.Text.{strip}
use job_match_pipeline.Payload.{parse_uuid, lookup}
use job_match_pipeline.Llm.{answered, permanent, returned}
use job_match_pipeline.Db.Rows.{QualificationLabel, Action}
use job_match_pipeline.Db.Session.{get_match, get_user, get_job, get_profile}
use job_match_pipeline.Quota.{consume_times}
use job_match_pipeline.Quota.Bounds.{quota_of, consume_times_bounded}
use job_match_pipeline.Screen.Service.{
  GateLlm, GateDecision, ScreenSettings, ScreenResult, screen_job, screen_match, screen_unscreened,
  screen_rows, after_llm, save_decision, write_label,
}
use job_match_pipeline.Screen.Gate.{hard_requirement_overlap, missing_count}
use job_match_pipeline.Screen.Once.{match_ids, label_of, screen_job-keeps_label}
use job_match_pipeline.Screen.Service
use job_match_pipeline.Screen.Frame.{IsQuiet, screen_job-IsQuiet}
use job_match_pipeline.Db.Session.{alone}
use job_match_pipeline.Screen.Redelivery.{screen_job-redelivered}
use job_match_pipeline.Tests.Data.{py, world, user, bill, names, marks, count_marks}

abbrev pub gate : GateLlm
gate job_text profile_text =
    answered (record { label = QualificationLabel.clearly_qualified; reason = "fits" }) bill

abbrev broken : GateLlm
broken job_text profile_text = permanent

abbrev pub settings : ScreenSettings
settings = record { rerank_high_score_threshold = 800; rerank_low_score_threshold = 300 }

parse-20 : parse_uuid py (lookup "match_id" (names "match_id" 20)) ≡ some 20
unfolding marks count_marks parse_uuid lookup
parse-20 = refl

parse-21 : parse_uuid py (lookup "match_id" (names "match_id" 21)) ≡ some 21
unfolding marks count_marks parse_uuid lookup
parse-21 = refl

label-21 : label_of 21 world ≡ some QualificationLabel.overqualified
label-21 = refl

-- Screening match 20 leaves the label of match 21.
screen_job-keeps_label_example :
    label_of 21 (screen_job gate alone settings py (names "match_id" 20) world).1
    ≡ some QualificationLabel.overqualified
screen_job-keeps_label_example =
    screen_job-keeps_label gate alone settings 21 QualificationLabel.overqualified world label-21
      label-21 py (names "match_id" 20)

screen_job-IsQuiet_example :
    IsQuiet world (screen_job gate alone settings py (names "match_id" 20) world).1
screen_job-IsQuiet_example =
    screen_job-IsQuiet gate alone settings world
      (record { same_pending = refl; same_users = refl; same_generations = refl }) py
      (names "match_id" 20)

abbrev result : ScreenResult
result = record {
  action = Action.screened;
  match_id = some 20;
  qualification_label = some QualificationLabel.clearly_qualified;
  hard_req_missing_count = 1;
  usage = bill;
}

first_delivery : (screen_job gate alone settings py (names "match_id" 20) world).0 ≡ returned result
unfolding screen_job screen_match screen_unscreened screen_rows after_llm save_decision write_label
    parse_uuid lookup marks count_marks hard_requirement_overlap missing_count get_match get_job
    get_profile get_user strip
first_delivery = refl

one_each : IsDistinct (match_ids world.matches)
one_each = ground arith

screen_job-redelivered_example :
    let w1 = (screen_job gate alone settings py (names "match_id" 20) world).1 in
    ((screen_job broken alone settings py (names "match_id" 20) w1).0
      ≡ returned (record (Service.bare_result Action.skipped_screened (some 20)) {
        qualification_label = some QualificationLabel.clearly_qualified;
      }))
    × ((screen_job broken alone settings py (names "match_id" 20) w1).1.matches ≡ w1.matches)
screen_job-redelivered_example =
    screen_job-redelivered gate alone settings world result one_each py (names "match_id" 20) 20
      broken alone parse-20 first_delivery refl

consume_times_bounded_example :
    ((consume_times 3 1 world).0 ≡ min 3 2)
    × (quota_of 1 (consume_times 3 1 world).1 ≡ some (2 - 3))
unfolding get_user
consume_times_bounded_example = consume_times_bounded 3 1 world user 2 (omega arith) refl refl
