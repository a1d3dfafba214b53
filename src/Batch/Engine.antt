-- ===== src/Batch/Engine.antt =====
-- app/batch_engine.py: `run_batch` and its helpers.
use dost_review_api.Prelude.{
  ℕ, suc, ◌+◌, String, ◌==◌, Bool, true, not, ◌||◌, Option, none, some, List, [], ◌∷◌, map, length,
  ltb, leb, if◌then◌else◌,
}
use dost_review_api.Models.{Uuid, Instant, str}
use dost_review_api.Review.{Row, gated, committed, failed, update_where}
use dost_review_api.Batch.Database.{
  TagInfo, object, Reputation, Stats, no_stats, Db, JsonObject, elem, find_reputation,
  upsert_reputation, EngineInput, TopTag, Output, Reply, raises, engine_error, output,
}
use dost_review_api.Batch.Claim.{Group, claim, claimed, group_by_profile}

-- `settings.max_reviews_per_batch` (10 000) and `settings.max_review_retries` (3).
pub record Settings : Type 0 where
  pub max_reviews_per_batch : ℕ
  pub max_review_retries : ℕ

-- The failed rows of a profile are handled in the `try`, or again in its `except`.
pub data Attempt : Type 0 where
  in_try in_except : Attempt

-- What a run meets: the engine, which is not part of the program; the locks of other transactions; the
-- clock; and which calls of the database raise.
pub record Env : Type 0 where
  pub process_reputation : EngineInput → Reply
  pub engine_loads : Bool
  pub locked : Uuid → Bool
  pub now : Instant
  pub claim_fails : Bool
  pub load_fails : Uuid → Bool
  pub commit_fails : Uuid → Bool
  pub update_fails : Attempt → Uuid → Bool

pub record Work : Type 0 where
  pub db : Db
  pub stats : Stats

-- How a piece of the loop ends: by its end, or by an exception, with what was written before it.
pub data Ended : Type 0 where
  finished raised : Ended

module _ {V : Type 0} where
  -- `d[key] = value` and `d.get(key)`.
  unfoldable pub set_item : String → V → List (String × V) → List (String × V)
  set_item k v [] = (k, v) ∷ []
  set_item k v ((j, w) ∷ d) = if j == k then (k, v) ∷ d else (j, w) ∷ set_item k v d

  unfoldable pub get_item : String → List (String × V) → Option V
  get_item k [] = none
  get_item k ((j, v) ∷ d) = if j == k then some v else get_item k d

-- The two loops of `_merge_tags`.
unfoldable pub set_counts : List (String × TagInfo) → List (String × ℕ) → List (String × TagInfo)
set_counts merged [] = merged
set_counts merged ((tag, n) ∷ tags) =
    set_counts (set_item tag (record { weight = n; score = none }) merged) tags

unfoldable pub set_top : List (String × TagInfo) → List TopTag → List (String × TagInfo)
set_top merged [] = merged
set_top merged (t ∷ tags) =
    set_top (set_item t.tag (record { weight = t.weight; score = some t.score }) merged) tags

unfoldable pub merge_tags : Output → List (String × TagInfo)
merge_tags o = set_top (set_counts [] o.all_tags) o.top_tags

-- The stored state, unless it is an empty object.
unfoldable pub stored_state : Option Reputation → Option JsonObject
stored_state none = none
stored_state (some r) = elim r.state [ [] ↦ none | m ∷ ms ↦ some (m ∷ ms) ]

unfoldable pub engine_input : Uuid → List Row → List Reputation → EngineInput
engine_input profile_id rows reputations = record {
  profile_id = str profile_id;
  about = "";
  reviews = map (λ r. (r.review_text, r.created_at)) rows;
  state = stored_state (find_reputation profile_id reputations);
}

unfoldable pub dead_letter : ℕ → Instant → Row → Row
dead_letter n now r = record r { status = failed; retry_count = n; processed_at = some now }

unfoldable pub requeue_row : ℕ → Row → Row
requeue_row n r = record r { status = gated; retry_count = n }

unfoldable pub has_id : Uuid → Row → Bool
has_id k r = r.id == k

-- One turn of the loop of `_handle_failed_reviews`, on the row as it was claimed.
unfoldable pub fail_row : Settings → Instant → Bool → Row → Work → Work
fail_row settings now will_retry row w =
    let n = row.retry_count + 1 in
    if not will_retry || leb settings.max_review_retries n
    then record {
      db = record w.db { reviews = update_where (has_id row.id) (dead_letter n now) w.db.reviews };
      stats = record w.stats { dead_lettered = suc w.stats.dead_lettered };
    }
    else record {
      db = record w.db { reviews = update_where (has_id row.id) (requeue_row n) w.db.reviews };
      stats = record w.stats { failed = suc w.stats.failed };
    }

-- `_handle_failed_reviews`.
unfoldable pub handle_failed : Settings → Env → Attempt → Bool → List Row → Work → Ended × Work
handle_failed settings env attempt will_retry [] w = (finished, w)
handle_failed settings env attempt will_retry (row ∷ rows) w =
    if env.update_fails attempt row.id
    then (raised, w)
    else handle_failed settings env attempt will_retry rows
        (fail_row settings env.now will_retry row w)

unfoldable pub reputation_row : Uuid → Instant → Output → Reputation
reputation_row profile_id now o = record {
  profile_id = profile_id;
  reputation = o.reputation;
  reputation_score = o.reputation_score;
  total_reviews = o.total_reviews;
  all_tags = map (λ (t : String × TagInfo). (t.0, object t.1)) (merge_tags o);
  summary = elim o.summary [ none ↦ "" | some s ↦ s ];
  state = o.state;
  created_at = now;
  updated_at = now;
}

unfoldable pub mark_committed : Instant → Row → Row
mark_committed now r = record r { status = committed; processed_at = some now }

abbrev pub ids_of : List Row → List Uuid
ids_of rows = map (λ r. r.id) rows

-- Step 4. The transaction raises as a whole where a call does, or where the score is over 5.0
-- (`chk_reputation_score`).
unfoldable pub commit_profile : Env → Group → Output → Work → Ended × Work
commit_profile env (profile_id, rows) o w =
    if env.commit_fails profile_id || ltb 50 o.reputation_score then (raised, w) else (
      finished,
      record {
        db = record w.db {
          reputations = upsert_reputation (reputation_row profile_id env.now o) w.db.reputations;
          reviews =
              update_where (λ r. elem r.id (ids_of rows)) (mark_committed env.now) w.db.reviews;
        };
        stats = record w.stats {
          committed = w.stats.committed + length rows;
          profiles_updated = suc w.stats.profiles_updated;
        };
      },
    )

-- `output["error"].get("willRetry", True)`.
unfoldable pub will_retry_of : Option Bool → Bool
will_retry_of none = true
will_retry_of (some b) = b

unfoldable pub after_reply : Settings → Env → Group → Reply → Work → Ended × Work
after_reply settings env group raises w = (raised, w)
after_reply settings env group (engine_error will_retry) w =
    handle_failed settings env in_try (will_retry_of will_retry) group.1 w
after_reply settings env group (output o) w = commit_profile env group o w

-- The body of the `try`.
unfoldable pub try_profile : Settings → Env → Group → Work → Ended × Work
try_profile settings env group w =
    if env.load_fails group.0
    then (raised, w)
    else after_reply settings env group
        (env.process_reputation (engine_input group.0 group.1 w.db.reputations)) w

-- The `except`.
unfoldable pub recover : Settings → Env → Group → Ended × Work → Ended × Work
recover settings env group (finished, w) = (finished, w)
recover settings env group (raised, w) = handle_failed settings env in_except true group.1 w

unfoldable pub process_profile : Settings → Env → Group → Work → Ended × Work
process_profile settings env group w = recover settings env group (try_profile settings env group w)

-- What follows a piece of work, unless it raised.
unfoldable pub and_then : (Work → Ended × Work) → Ended × Work → Ended × Work
and_then next (finished, w) = next w
and_then next (raised, w) = (raised, w)

-- The loop over the profiles. An exception of the `except` leaves it.
unfoldable pub run_profiles : Settings → Env → List Group → Work → Ended × Work
run_profiles settings env [] w = (finished, w)
run_profiles settings env (g ∷ groups) w =
    and_then (run_profiles settings env groups) (process_profile settings env g w)

-- The work that the loop begins with.
unfoldable pub claimed_work : Settings → Env → Uuid → Db → Work
claimed_work settings env batch_id db = record {
  db = record db { reviews = claim env.locked settings.max_reviews_per_batch batch_id db.reviews };
  stats = record no_stats {
    total_reviews = length (claimed env.locked settings.max_reviews_per_batch batch_id db.reviews);
  };
}

-- `run_batch`. With no rows the loop is empty, as is the early return.
unfoldable pub run_batch : Settings → Env → Uuid → Db → Ended × Work
run_batch settings env batch_id db =
    if not env.engine_loads || env.claim_fails
    then (raised, record { db = db; stats = no_stats })
    else run_profiles settings env
        (group_by_profile (claimed env.locked settings.max_reviews_per_batch batch_id db.reviews))
        (claimed_work settings env batch_id db)
