-- ===== src/Life/Woven/Tests.antt =====
-- A run that is started, overlaps with a submission, claims two reviews of one profile, and processes them
-- or dies.
use dost_review_api.Prelude.{
  length, ◌≤◌, true, false, eq_iff, ◌≡◌, refl, none, some, [], ◌∷◌, All, arith,
}
use dost_review_api.Models.{DostReview}
use dost_review_api.Review.{
  Row, update_where, upsert_rejected, find, committed, gated, is_processing,
}
use dost_review_api.Review.Laws.{HasUniqueIds}
use dost_review_api.Gate as Gate
use dost_review_api.Gate.Profiles.{not_configured}
use dost_review_api.Batch.Database.{EngineInput, no_stats, Db, elem, Reputation}
use dost_review_api.Batch.Claim.{
  Group, claim, claimed, claimed_ids, chosen, sort_by_time, insert_by_time, is_claimable,
  mark_processing, group_by_profile, group_onto, add_to_group,
}
use dost_review_api.Batch.Engine.{
  engine_input, finished, claimed_work, process_profile, try_profile, after_reply, commit_profile,
  recover,
}
use dost_review_api.Batch.Fixture.{settings, env, renv, row, first_row, second_row}
use dost_review_api.Batch.Orphans.{runs_on, HasNoOrphans}
use dost_review_api.Batch.Runner.{
  RunnerEnv, requeue_raises, stale_ids, is_stale, find_run, new_run, update_runs, requeue,
  start_given, start_swept, start_unless_running, start_batch, sweep_stale_batches,
}
use dost_review_api.Life.System.{with_reviews}
use dost_review_api.Life.Woven.{
  started, Active, with_started, claim_step, phase_after, turn_step, ended_as, end_step, Weaves,
  begins, admits, starts, claims, ask_step, answering, asks, answers, ends, dies,
}
use dost_review_api.Life.Woven.Invariant.{woven-Single, woven-Final}
use dost_review_api.Life.Woven.Owned.{Owns}
use dost_review_api.Life.Woven.Current.{IsCurrent, woven-Current}
use dost_review_api.Life.Woven.Rescue.{woven-Owned, woven-rescues}

abbrev done_row : Row
done_row = row "r3" "p1" committed (some "b0") 2

abbrev reputation : Reputation
reputation = record {
  profile_id = "p1";
  reputation = "GOOD";
  reputation_score = 40;
  total_reviews = 3;
  all_tags = [];
  summary = "";
  state = ("seen", "3") ∷ [];
  created_at = 1;
  updated_at = 1;
}

abbrev s : Db
s = record {
  reviews = first_row ∷ second_row ∷ done_row ∷ [];
  reputations = reputation ∷ [];
  runs = [];
}

unique : HasUniqueIds s.reviews
unfolding find
unique = ground (arith, eq_iff "r1" "r2", eq_iff "r1" "r3", eq_iff "r2" "r3")

no_orphans : HasNoOrphans s
no_orphans = ((λ busy. cc), ((λ busy. cc), ((λ busy. cc), tt)))

abbrev started_db : Db
started_db = (start_batch renv "b1" s).1

abbrev run : Active
run = record { id = "b1"; phase = started; stats = no_stats }

start : Weaves s started_db (with_started (start_batch renv "b1" s).0 [])
start = starts begins renv "b1" tt

abbrev working_db : Db
working_db = (claim_step settings env run started_db).1

abbrev working_run : Active
working_run = (claim_step settings env run started_db).0

claim_first : Weaves s working_db (working_run ∷ [])
unfolding with_started start_batch start_swept start_unless_running start_given sweep_stale_batches
    requeue_raises stale_ids find_run update_runs
claim_first = claims start settings env [] [] run refl refl

-- A submission while the engine is at work.
abbrev gate_settings : Gate.Settings
gate_settings = record { rate_limit_per_rater_per_target = 5 }

abbrev gate_env : Gate.Env
gate_env = record {
  onboard = not_configured;
  py_now = 6;
  db_now = 6;
  others = λ rows. rows;
  persist_fails = false;
  insert_fails = false;
}

abbrev late_review : DostReview
late_review = record {
  review_id = "r9";
  target_profile_id = "p1";
  rater_profile_id = "buyer";
  review_text = 110 ∷ [];
  multimedia = none;
  created_at = 5;
}

abbrev group : Group
group = ("p1", mark_processing "b1" first_row ∷ mark_processing "b1" second_row ∷ [])

abbrev asked_run : Active
asked_run = ask_step working_run group [] working_db

ask : Weaves s working_db (asked_run ∷ [])
unfolding claim_step group_by_profile group_onto add_to_group claimed claim claimed_ids chosen
    is_claimable sort_by_time insert_by_time mark_processing update_where elem start_batch
    start_swept start_unless_running start_given sweep_stale_batches requeue_raises stale_ids
    requeue update_runs find_run
ask = asks claim_first env [] [] working_run group [] refl refl refl

abbrev joined_db : Db
joined_db =
    with_reviews working_db
      (Gate.admit gate_settings gate_env late_review none none working_db.reviews).1

joins : Weaves s joined_db (asked_run ∷ [])
joins = admits ask gate_settings gate_env late_review none none

abbrev question : EngineInput
question = engine_input group.0 group.1 working_db.reputations

abbrev turned : Active × Db
turned =
    turn_step settings (answering env (env.process_reputation question)) asked_run group []
      joined_db

turn : Weaves s turned.1 (turned.0 ∷ [])
unfolding ask_step
turn = answers joins settings env [] [] asked_run group [] question refl refl

abbrev ended_db : Db
ended_db = end_step renv turned.0 finished turned.1

woven-Single_example :
    (length (asked_run ∷ []) ≤ 1) × All (λ a. runs_on a.id joined_db.runs ≡ true) (asked_run ∷ [])
woven-Single_example = woven-Single s joined_db (asked_run ∷ []) unique joins

woven-Owned_example : HasNoOrphans joined_db × All (Owns joined_db) (asked_run ∷ [])
unfolding joins ask claim_first start
woven-Owned_example = woven-Owned s joined_db (asked_run ∷ []) unique no_orphans joins (tt, refl)

abbrev later : RunnerEnv
later = record renv { now = 100 }

-- The process dies with its reviews claimed.
woven-rescues_example :
    (find "r1" (sweep_stale_batches later joined_db).1.reviews
      ≡ some (record (mark_processing "b1" first_row) { status = gated }))
    × All (λ r. is_processing r.status ≡ false) (sweep_stale_batches later joined_db).1.reviews
unfolding find Gate.admit start_batch start_swept start_unless_running start_given
    sweep_stale_batches requeue_raises stale_ids find_run update_runs joins ask claim_first start
    is_stale new_run claim_step claimed_work Gate.in_window Gate.insert_gated upsert_rejected
woven-rescues_example =
    woven-rescues s joined_db [] later "r1" (mark_processing "b1" first_row) unique no_orphans
      (dies joins) (tt, refl) refl ((λ b. refl), tt) refl

ended : Weaves s ended_db []
unfolding turn_step phase_after process_profile recover try_profile after_reply commit_profile
    ended_as
ended = ends turn renv [] [] turned.0 finished refl refl

woven-Final_example : find "r3" ended_db.reviews ≡ some done_row
unfolding find
woven-Final_example = woven-Final s ended_db [] "r3" done_row unique ended refl refl

woven-Current_example : All (λ a. IsCurrent joined_db.reputations a.phase) (asked_run ∷ [])
woven-Current_example = woven-Current s joined_db (asked_run ∷ []) unique joins
