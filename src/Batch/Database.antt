-- ===== src/Batch/Database.antt =====
-- The tables of the batch pipeline: `review`, `profile_reputation` and `batch_run` of
-- migrations/001_initial.sql, and the values that pass between the pipeline and the engine.
use dost_review_api.Prelude.{
  ℕ, String, ◌==◌, Bool, true, false, Option, none, some, List, [], ◌∷◌, if◌then◌else◌,
}
use dost_review_api.Models.{Uuid, Text, Instant}
use dost_review_api.Review.{Row}

-- A JSON object: its members in order, each value by its text. An empty one is falsy.
abbrev pub JsonObject : Type 0
JsonObject = List (String × String)

-- `merged[tag]`: a weight, and a score in tenths where the tag is among the top tags.
pub record TagInfo : Type 0 where
  pub weight : ℕ
  pub score : Option ℕ

-- What `all_tags` stores under a tag: an object, as the batch writes it, or a bare number, from before it
-- did.
pub data StoredTag : Type 0 where
  object : TagInfo → StoredTag
  bare : ℕ → StoredTag

-- `reputation_score` counts tenths (DECIMAL(3,1)).
pub record Reputation : Type 0 where
  pub profile_id : Uuid
  pub reputation : String
  pub reputation_score : ℕ
  pub total_reviews : ℕ
  pub all_tags : List (String × StoredTag)
  pub summary : String
  pub state : JsonObject
  pub created_at : Instant
  pub updated_at : Instant

-- The dictionary `stats` of `run_batch`.
pub record Stats : Type 0 where
  pub total_reviews : ℕ
  pub committed : ℕ
  pub failed : ℕ
  pub dead_lettered : ℕ
  pub profiles_updated : ℕ

abbrev pub no_stats : Stats
no_stats = record {
  total_reviews = 0;
  committed = 0;
  failed = 0;
  dead_lettered = 0;
  profiles_updated = 0;
}

-- `chk_batch_status`.
pub data RunStatus : Type 0 where
  running completed failed : RunStatus

-- The column `stats` of `batch_run`.
pub data RunReport : Type 0 where
  counted : Stats → RunReport
  stale : RunReport
  error : RunReport

pub record BatchRun : Type 0 where
  pub id : Uuid
  pub status : RunStatus
  pub stats : Option RunReport
  pub started_at : Instant
  pub completed_at : Option Instant

pub record Db : Type 0 where
  pub reviews : List Row
  pub reputations : List Reputation
  pub runs : List BatchRun

-- `key in ids`, and `= ANY($1)`.
unfoldable pub elem : Uuid → List Uuid → Bool
elem k [] = false
elem k (j ∷ ids) = if j == k then true else elem k ids

unfoldable pub find_reputation : Uuid → List Reputation → Option Reputation
find_reputation k [] = none
find_reputation k (r ∷ rows) = if r.profile_id == k then some r else find_reputation k rows

-- `INSERT ... ON CONFLICT (profile_id) DO UPDATE`: all columns but `created_at` are set anew.
unfoldable pub upsert_reputation : Reputation → List Reputation → List Reputation
upsert_reputation new [] = new ∷ []
upsert_reputation new (r ∷ rows) =
    if r.profile_id == new.profile_id
    then record new { created_at = r.created_at } ∷ rows
    else r ∷ upsert_reputation new rows

-- What `process_reputation` is given. A `datetime` in ISO format is kept as its instant.
pub record EngineInput : Type 0 where
  pub profile_id : String
  pub about : String
  pub reviews : List (Text × Instant)
  pub state : Option JsonObject

pub record TopTag : Type 0 where
  pub tag : String
  pub weight : ℕ
  pub score : ℕ

pub record Output : Type 0 where
  pub reputation : String
  pub reputation_score : ℕ
  pub total_reviews : ℕ
  pub top_tags : List TopTag
  pub all_tags : List (String × ℕ)
  pub summary : Option String
  pub state : JsonObject

-- What it answers: an error with its `willRetry`, if that is there, or an output. `raises` is also an
-- output without one of the keys that the commit reads.
pub data Reply : Type 0 where
  raises : Reply
  engine_error : Option Bool → Reply
  output : Output → Reply
