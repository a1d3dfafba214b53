-- ===== src/Batch/Fixture.antt =====
-- A table with three reviews of two profiles, a run that is going on, and an engine.
use dost_review_api.Prelude.{true, false, Option, none, some, List, [], ◌∷◌}
use dost_review_api.Models.{Uuid, Instant}
use dost_review_api.Review.{Row, Status, gated, processing}
use dost_review_api.Batch.Database.{no_stats, running, BatchRun, Db, Output, output}
use dost_review_api.Batch.Engine.{Settings, Env, Work}
use dost_review_api.Batch.Runner.{RunnerEnv}

abbrev pub settings : Settings
settings = record { max_reviews_per_batch = 2; max_review_retries = 3 }

abbrev pub row : Uuid → Uuid → Status → Option Uuid → Instant → Row
row id target status batch_id received = record {
  id = id;
  target_profile_id = target;
  rater_profile_id = "buyer";
  rater_weight = 100;
  review_text = 111 ∷ [];
  multimedia_json = none;
  status = status;
  gate_reason = none;
  batch_id = batch_id;
  event_id = none;
  created_at = 0;
  received_at = received;
  processed_at = none;
  retry_count = 0;
}

abbrev pub first_row : Row
first_row = row "r1" "p1" gated none 3

abbrev pub second_row : Row
second_row = row "r2" "p1" gated none 1

abbrev pub held_row : Row
held_row = row "r3" "p2" processing (some "b0") 2

abbrev pub rows : List Row
rows = first_row ∷ second_row ∷ held_row ∷ []

abbrev pub open_run : BatchRun
open_run = record { id = "b0"; status = running; stats = none; started_at = 0; completed_at = none }

abbrev pub db : Db
db = record { reviews = rows; reputations = []; runs = open_run ∷ [] }

abbrev pub work : Work
work = record { db = db; stats = no_stats }

-- An engine that knows the text of one tag, and one that refuses for good.
abbrev pub answer : Output
answer = record {
  reputation = "GOOD";
  reputation_score = 41;
  total_reviews = 2;
  top_tags = record { tag = "polite"; weight = 2; score = 50 } ∷ [];
  all_tags = ("polite", 2) ∷ ("late", 1) ∷ [];
  summary = none;
  state = [];
}

abbrev pub env : Env
env = record {
  process_reputation = λ input. output answer;
  engine_loads = true;
  locked = λ k. false;
  now = 10;
  claim_fails = false;
  load_fails = λ k. false;
  commit_fails = λ k. false;
  update_fails = λ attempt k. false;
}

abbrev pub renv : RunnerEnv
renv = record {
  now = 10;
  stale_after = 5;
  sweep_requeue_fails = false;
  finish_fails = false;
  mark_failed_fails = false;
  requeue_fails = false;
}
