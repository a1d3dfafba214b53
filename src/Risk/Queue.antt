-- ===== src/Risk/Queue.antt =====
-- The review queue: one OPEN row per profile, and a row for every high score.
use dost_review_api.Prelude.{
  ℕ, ◌≤◌, Bool, false, ◌&&◌, ◌==◌, eq_iff, ◌≡◌, refl, String, Option, List, [], ◌∷◌, arith, count,
}
use dost_review_api.Risk.Records.{SignalRecord}
use dost_review_api.Risk.Store.{
  QueueRow, RiskDb, is_open, has_open, put_profile, put_conversation_state, insert_signal_event,
  enqueue_review,
}
use dost_review_api.Risk.Keeps.{Keeps, ingest_record-keeps}
use dost_review_api.Risk.Replies.{Engine}
use dost_review_api.Risk.Service.{ingest_record}

unfoldable pub is_open_for : String → QueueRow → Bool
is_open_for k q = q.profile_id == k && is_open q.status

-- `uq_review_queue_open`.
abbrev pub HasSingleOpen : RiskDb → Type 0
HasSingleOpen db = (k : String) → count (is_open_for k) db.queue ≤ 1

not-open-count :
    (k : String) (rows : List QueueRow) → has_open k rows ≡ false → count (is_open_for k) rows ≡ 0
unfolding has_open is_open_for
not-open-count k [] h = refl
not-open-count k (q ∷ rows) h = ground (arith, not-open-count k rows)

pub enqueue-HasSingleOpen :
    (profile_id : String) (session : Option String) (reason : String) (score : ℕ)
    (evidence : String)
    → Keeps HasSingleOpen (enqueue_review profile_id session reason score evidence)
unfolding enqueue_review is_open_for
enqueue-HasSingleOpen profile_id session reason score evidence db h k =
    ground (
      arith,
      h k,
      not-open-count k db.queue,
      not-open-count profile_id db.queue,
      eq_iff profile_id k,
    )

-- If no profile has two OPEN rows in the queue, none has after the ingest of a record, whatever it
-- answers: the unique index on OPEN rows is kept.
pub ingest_record-HasSingleOpen :
    (engine : Engine) (r : SignalRecord) (db : RiskDb)
    → HasSingleOpen db
    → HasSingleOpen (ingest_record engine r db).1
ingest_record-HasSingleOpen engine r =
    ingest_record-keeps HasSingleOpen engine r
      (λ new e db h k. unfold put_profile in ground (arith, h k))
      (enqueue-HasSingleOpen r.src_profile_id) (λ state db h. unfold put_conversation_state in h)
      (λ db h k. unfold insert_signal_event in ground (arith, h k))
