-- ===== src/Tests/Profiles.antt =====
-- Runs of the profile: its parser, its document and its service.
use mathlib.Core.List.{Permᴰ}
use job_match_pipeline.Prelude.{
  ◌+◌, ◌≤◌, ◌≡◌, refl, true, false, String, List, [], ◌∷◌, Option, none, some, All, elem, length,
  if◌then◌else◌, ◌==◌, string_eq, nat_eq, arith,
}
use job_match_pipeline.Prelude.Text.{strip, lstrip, reverse_onto, occurs, join, clip, text_length}
use job_match_pipeline.Db.Session.{World, get_user, get_profile, record_pipeline_event}
use job_match_pipeline.Match.Dirty.{select_dirty}
use job_match_pipeline.Extract.Synthesize.{estimate_tokens}
use job_match_pipeline.Profile.Schema.{Role, LlmParsePayload, ParsedResume, WorkHistoryEntry}
use job_match_pipeline.Profile.Fields.{
  ResumeLibrary, normalize_date, is_present, normalize_bullet, get_entry, drop_chars,
}
use job_match_pipeline.Profile.Spans.{
  text_leb, role_leb, insert_role, sort_roles, span_id_of, number_bullets, entry_of, entries_from,
  assign_span_ids,
}
use job_match_pipeline.Profile.Stable.{assign_span_ids-perm}
use job_match_pipeline.Profile.Offline.{
  parse_offline, extract_structured, take_lines, take_line, body_line, experience_line,
  collect_meta, change_last,
}
use job_match_pipeline.Profile.Quoted.{lines_of}
use job_match_pipeline.Profile.Sourced.{IsSourced, parse_offline-IsSourced}
use job_match_pipeline.Profile.Filters.{derive_default_filters}
use job_match_pipeline.Profile.Document.{
  trimmed, is_long, trim_oldest, trim_bullets, render_profile, history_lines, end_line, fit_profile,
  synthesize_profile_doc, header_lines, most_recent_role,
}
use job_match_pipeline.Profile.Tail.{IsTail}
use job_match_pipeline.Profile.Trimmed.{is_ended, trimmed-IsTail}
use job_match_pipeline.Profile.Limits.{synthesize_profile_doc-bound}
use job_match_pipeline.Profile.Service.{
  done, ProfileServices, IngestResult, ProfileBundle, ingest_profile, store_ingest, skills_of,
  get_or_create_user, next_month_start, ensure_filter, get_filter, values_of,
}
use job_match_pipeline.Profile.Versions.{IsNextVersion}
use job_match_pipeline.Profile.Ingested.{ingest_profile-IsNextVersion}
use job_match_pipeline.Profile.Edit.{Edits, edit_profile, edit_row, finish_edit, store_edit}
use job_match_pipeline.Profile.Edited.{edit_profile-IsNextVersion}
use job_match_pipeline.Profile.Selected.{edit_profile-is_selected}
use job_match_pipeline.Tests.Data.{py, world, profile}

-- Lines of a resume are separated here; two are headers of roles, and one is a bullet.
abbrev resume : ResumeLibrary
resume = record {
  lower = λ s. s;
  iso_month = λ s. none;
  year_only = λ s. if s == "2020" then some "2020" else none;
  month_year = λ s. if s == "Mar 2021" then some ("mar", "2021") else none;
  two_digits = λ s. s;
  section = λ s. none;
  role_header = λ s.
      if s == "Engineer at Acme"
      then some ("Engineer", "Acme")
      else if s == "Clerk at Bank"
      then some ("Clerk", "Bank")
      else none;
  date_range = λ s. none;
  bullet_item = λ s. if s == "- built it" then some "built it" else none;
  place = λ s. none;
  collapse_spaces = λ s. s;
  drop_hashes = λ s. s;
  collapse_bars = λ s. s;
  split_list = λ s. s ∷ [];
  splitlines = λ s. "Jo" ∷ "Engineer at Acme" ∷ " - built it" ∷ [];
  without = λ s t. s;
}

normal_dates : normalize_date resume (some " 2020 ") ≡ some "2020-01"
unfolding normalize_date is_present strip get_entry drop_chars reverse_onto
normal_dates = refl

normal_month : normalize_date resume (some "Mar 2021") ≡ some "2021-03"
unfolding normalize_date is_present strip get_entry drop_chars reverse_onto
normal_month = refl

abbrev role : String → String → Option String → Role
role title employer start = record {
  employer = employer;
  title = title;
  start_date = start;
  end_date = none;
  location = none;
  bullets = [];
}

abbrev early : Role
early = role "Clerk" "Bank" none

abbrev late : Role
late = role "Engineer" "Acme" (some "2020")

abbrev answer : List Role → LlmParsePayload
answer roles = record {
  work_history = roles;
  skill_spans = [];
  locations = [];
  seniority = none;
  title_families = [];
  work_arrangement = [];
  comp_floor = none;
  summary = none;
}

not_tied : (role_leb py resume late early) ≡ false
unfolding role_leb text_leb normalize_date is_present strip get_entry
not_tied = refl

assign_span_ids-perm_example :
    assign_span_ids py resume (answer (early ∷ late ∷ []))
    ≡ assign_span_ids py resume (answer (late ∷ early ∷ []))
assign_span_ids-perm_example =
    assign_span_ids-perm py resume (answer (late ∷ early ∷ [])) (early ∷ late ∷ [])
      (Permᴰ.swap refl refl) ((rw not_tied refl, tt), (tt, tt))

finds_role :
    (parse_offline resume (λ s. []) py "text").work_history
    ≡ record {
      employer = "Acme";
      title = "Engineer";
      start_date = none;
      end_date = none;
      is_current = false;
      location = none;
      source = "parsed";
      bullets = record { span_id = span_id_of py resume 0 0; text = "built it" } ∷ [];
    }
      ∷ []
unfolding parse_offline extract_structured take_lines take_line body_line experience_line
    collect_meta change_last assign_span_ids sort_roles insert_role entries_from entry_of
    number_bullets normalize_bullet normalize_date strip drop_chars reverse_onto occurs
finds_role = refl

parse_offline-IsSourced_example :
    All
      (IsSourced resume py (lines_of resume "text"))
      (parse_offline resume (λ s. []) py "text").work_history
parse_offline-IsSourced_example = parse_offline-IsSourced resume py (λ s. []) "text"

-- An empty history: the clipped text and its newline are one character over the limit.
abbrev parsed : ParsedResume
parsed = record {
  work_history = [];
  skill_spans = [];
  locations = [];
  seniority = none;
  title_families = [];
  work_arrangement = [];
  comp_floor = none;
  summary = none;
}

one_over : estimate_tokens (synthesize_profile_doc parsed [] 1) ≡ 2
unfolding synthesize_profile_doc fit_profile trimmed trim_oldest trim_bullets is_long render_profile
    history_lines end_line header_lines most_recent_role estimate_tokens text_length clip join
    lstrip reverse_onto
one_over = refl

synthesize_profile_doc-bound_example : estimate_tokens (synthesize_profile_doc parsed [] 1) ≤ 1 + 1
synthesize_profile_doc-bound_example = synthesize_profile_doc-bound parsed [] 1

-- Two roles and no room: the older role is gone, and the bullets of the later one.
abbrev worked : String → WorkHistoryEntry
worked employer = record {
  employer = employer;
  title = "Engineer";
  start_date = none;
  end_date = none;
  is_current = false;
  location = none;
  source = "parsed";
  bullets = [];
}

trims_all :
    trimmed [] 1 ((worked "Bank", "a" ∷ []) ∷ (worked "Acme", "b" ∷ "c" ∷ []) ∷ [])
    ≡ (worked "Acme", []) ∷ []
unfolding trimmed trim_oldest trim_bullets is_long render_profile history_lines end_line
    estimate_tokens text_length join lstrip reverse_onto
trims_all = refl

trimmed-IsTail_example :
    IsTail
      ((worked "Bank", "a" ∷ []) ∷ (worked "Acme", "b" ∷ "c" ∷ []) ∷ [])
      (trimmed [] 1 ((worked "Bank", "a" ∷ []) ∷ (worked "Acme", "b" ∷ "c" ∷ []) ∷ []))
    × (is_ended [] 1
          (trimmed [] 1 ((worked "Bank", "a" ∷ []) ∷ (worked "Acme", "b" ∷ "c" ∷ []) ∷ []))
        ≡ true)
trimmed-IsTail_example =
    trimmed-IsTail [] 1 (worked "Bank") ("a" ∷ []) ((worked "Acme", "b" ∷ "c" ∷ []) ∷ [])

abbrev services : ProfileServices
services = record {
  parser = λ text. done parsed;
  embedder = λ doc. done [];
  linker = record { link_spans = λ s. []; scan_text = λ s. []; labels_for = λ ids. ids };
  resume = resume;
  default_user_tier = "free";
  default_quota_remaining = 20;
  year_month = λ t. (2024, 12);
  month_start = λ year month. year + month;
}

-- After December comes the January of the next year.
next_january : next_month_start services 0 ≡ 2026
unfolding next_month_start
next_january = refl

abbrev ingested : World
ingested =
    (store_ingest 1 false (values_of parsed [] (synthesize_profile_doc parsed [] 2048) [])
      (derive_default_filters resume parsed) world).1

abbrev ingest_result : IngestResult
ingest_result =
    (store_ingest 1 false (values_of parsed [] (synthesize_profile_doc parsed [] 2048) [])
      (derive_default_filters resume parsed) world).0

ingests : ingest_profile services "text" (some 1) world ≡ done (ingest_result, ingested)
unfolding ingest_profile get_or_create_user get_user skills_of
ingests = refl

ingest_profile-IsNextVersion_example : IsNextVersion ingest_result.result.user_id world ingested
ingest_profile-IsNextVersion_example =
    ingest_profile-IsNextVersion services "text" (some 1) world ingested ingest_result ingests

-- An edit of the locations.
abbrev edits : Edits
edits = record {
  work_history = none;
  skill_ids = none;
  synthesized_doc = none;
  title_families = none;
  locations = some ("Berlin" ∷ []);
  work_arrangement = none;
  seniority_band = none;
  comp_floor = none;
  clear_comp_floor = false;
  embedder = none;
  linker = none;
}

abbrev edited : ProfileBundle × World
edited = store_edit 1 edits (finish_edit edits none profile) world

edits_locations : edit_profile py resume 1 edits world ≡ done edited
unfolding edit_profile edit_row get_profile
edits_locations = refl

edit_profile-IsNextVersion_example : IsNextVersion 1 world edited.1
edit_profile-IsNextVersion_example =
    edit_profile-IsNextVersion py resume 1 edits world edited.1 edited.0 edits_locations

few_profiles : length edited.1.profiles ≤ 10
unfolding store_edit ensure_filter get_filter record_pipeline_event
few_profiles = omega arith

edit_profile-is_selected_example : elem 1 (select_dirty 10 none edited.1) ≡ true
edit_profile-is_selected_example =
    edit_profile-is_selected py resume 1 edits world edited.1 edited.0 10 edits_locations
      few_profiles
