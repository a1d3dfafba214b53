-- ===== src/Risk/Collapse/Migrated/Tests.antt =====
-- A queue in which a profile has two OPEN rows.
use dost_review_api.Prelude.{ℕ, ◌≡◌, refl, String, none, List, [], ◌∷◌, arith}
use dost_review_api.Models.{Instant}
use dost_review_api.Risk.Store.{RiskDb, open_review, has_open}
use dost_review_api.Risk.Queue.{HasSingleOpen}
use dost_review_api.Risk.Replies.{Engine, ConvReply, FoldReply, OutcomeReport}
use dost_review_api.Risk.Service.{ingest_outcome}
use dost_review_api.Risk.Served.{here, reports}
use dost_review_api.Risk.Collapse.{QueueEntry, collapse, rows_of, HasUniqueKeys}
use dost_review_api.Risk.Collapse.Migrated.{migrated-HasSingleOpen}

abbrev entry : Instant → ℕ → QueueEntry
entry at id = record {
  created_at = at;
  id = id;
  row = record {
    profile_id = "alice";
    session_id = none;
    reason = "score";
    risk_score = 700;
    evidence = "{}";
    status = open_review;
  };
}

abbrev entries : List QueueEntry
entries = entry 7 2 ∷ entry 7 1 ∷ []

unique : HasUniqueKeys entries
unique = (((λ e. omega arith), tt), (tt, tt))

abbrev db : RiskDb
db = record {
  signal_events = [];
  conversations = [];
  profiles = [];
  outcomes = [];
  queue = rows_of (collapse entries);
}

abbrev engine : Engine
engine = record {
  process_conversation = λ session state event. ConvReply.out "{}" [];
  process_signals = λ input. FoldReply.error "no";
  evidence_text = λ f evidence. "{}";
}

abbrev outcome : OutcomeReport
outcome = record {
  profile_id = "alice";
  tag = "not_received";
  reporter_id = none;
  session_id = none;
  evidence = "{}";
}

migrated-HasSingleOpen_example :
    HasSingleOpen db
    × HasSingleOpen (ingest_outcome engine outcome db).1
    × ((k : String) → has_open k db.queue ≡ has_open k (rows_of entries))
    × (collapse (collapse entries) ≡ collapse entries)
migrated-HasSingleOpen_example =
    migrated-HasSingleOpen entries db (ingest_outcome engine outcome db).1 unique refl
      (reports here engine outcome)
