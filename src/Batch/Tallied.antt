-- ===== src/Batch/Tallied.antt =====
-- The statistics of a run are the numbers of its reviews in the table, by the status that it leaves them in.
use dost_review_api.Prelude.{
  ℕ, ◌+◌, ◌≤◌, ◌≡◌, refl, Bool, false, not, ◌&&◌, ◌||◌, List, [], ◌∷◌, arith, leb, ltb, length, All,
  Bool-cases, inl, inr,
}
use dost_review_api.Models.{Uuid}
use dost_review_api.Review.{Row, is_gated, in_batch, update_where}
use dost_review_api.Review.Laws.{HasUniqueIds}
use dost_review_api.Batch.Database.{Db, elem, Output}
use dost_review_api.Batch.Claim.{
  Group, claim, claimed, claimed_ids, mark_processing, group_by_profile,
}
use dost_review_api.Batch.Engine.{
  Settings, Env, in_try, Work, finished, has_id, fail_row, dead_letter, requeue_row, ids_of,
  mark_committed, commit_profile, claimed_work, run_batch,
}
use dost_review_api.Batch.Updates.{All-update}
use dost_review_api.Batch.Ids.{unique-ids, fail_row-ids, commit-ids, claim-ids}
use dost_review_api.Batch.Keeps.{run_profiles-keeps}
use dost_review_api.Batch.Taken.{IsFresh}
use dost_review_api.Batch.Settled.{run_batch-IsSettled}
use dost_review_api.Batch.Counts.{run_batch-counts}
use dost_review_api.Batch.Tally.{
  is_committed, is_failed, tally, batch_size, count-clears, count-adds, count-same, count-has_id,
  count-elem, IsTaken, claim-batch_size, claim-tally, batch_size-tallies,
}

-- The statistics are not below the numbers in the table; `n` reviews are of the run.
record Covers (b : Uuid) (n : ℕ) (w : Work) : Type 0 where
  pub unique : HasUniqueIds w.db.reviews
  pub taken : All (IsTaken b) w.db.reviews
  pub size : batch_size b w.db.reviews ≡ n
  pub committed : tally is_committed b w.db.reviews ≤ w.stats.committed
  pub gated : tally is_gated b w.db.reviews ≤ w.stats.failed
  pub failed : tally is_failed b w.db.reviews ≤ w.stats.dead_lettered

module _ (settings : Settings) (env : Env) (b : Uuid) (n : ℕ) where
  update-IsTaken :
      (p : Row → Bool) (f : Row → Row) (rows : List Row)
      → ((r : Row) → IsTaken b (f r))
      → All (IsTaken b) rows
      → All (IsTaken b) (update_where p f rows)
  update-IsTaken p f rows h =
      All-update (IsTaken b) (IsTaken b) p f rows
        (λ r taken. elim (Bool-cases (p r)) [ inl met ↦ rw met (h r) | inr other ↦ rw other taken ])

  fail_row-Covers :
      (will_retry : Bool) (row : Row) (w : Work)
      → Covers b n w
      → Covers b n (fail_row settings env.now will_retry row w)
  unfolding fail_row dead_letter requeue_row
  fail_row-Covers will_retry row w c =
      let m = row.retry_count + 1 in
      let rows = w.db.reviews in
      let unique' =
        unique-ids rows (fail_row settings env.now will_retry row w).db.reviews
          (fail_row-ids settings env (ids_of rows) will_retry row w refl) c.unique in
      let p = has_id row.id in
      let one = count-has_id row.id rows c.unique in
      elim (Bool-cases (not will_retry || leb settings.max_review_retries m)) [
        | inl dead ↦
            let f = dead_letter m env.now in
            rw dead (record {
              unique = rw dead at unique';
              taken = update-IsTaken p f rows (λ r e. refl) c.taken;
              size = rw (count-same p (λ r. in_batch b r.batch_id) f rows (λ r. refl)) c.size;
              committed = omega (
                arith,
                c.committed,
                count-clears p (λ r. in_batch b r.batch_id && is_committed r.status) f rows
                    (λ r. ground arith),
              );
              gated = omega (
                arith,
                c.gated,
                count-clears p (λ r. in_batch b r.batch_id && is_gated r.status) f rows
                    (λ r. ground arith),
              );
              failed = omega (
                arith,
                c.failed,
                one,
                count-adds p (λ r. in_batch b r.batch_id && is_failed r.status) f rows,
              );
            })
        | inr retry ↦
            let f = requeue_row m in
            rw retry (record {
              unique = rw retry at unique';
              taken = update-IsTaken p f rows (λ r e. refl) c.taken;
              size = rw (count-same p (λ r. in_batch b r.batch_id) f rows (λ r. refl)) c.size;
              committed = omega (
                arith,
                c.committed,
                count-clears p (λ r. in_batch b r.batch_id && is_committed r.status) f rows
                    (λ r. ground arith),
              );
              gated = omega (
                arith,
                c.gated,
                one,
                count-adds p (λ r. in_batch b r.batch_id && is_gated r.status) f rows,
              );
              failed = omega (
                arith,
                c.failed,
                count-clears p (λ r. in_batch b r.batch_id && is_failed r.status) f rows
                    (λ r. ground arith),
              );
            })
      ]

  length-ids_of : (rows : List Row) → length (ids_of rows) ≡ length rows
  length-ids_of [] = refl
  length-ids_of (r ∷ rows) = ground (arith, length-ids_of rows)

  commit-Covers :
      (group : Group) (o : Output) (w : Work)
      → Covers b n w
      → Covers b n (commit_profile env group o w).1
  unfolding commit_profile mark_committed
  commit-Covers group o w c =
      let rows = w.db.reviews in
      let unique' =
        unique-ids rows (commit_profile env group o w).1.db.reviews
          (commit-ids settings env (ids_of rows) group o w refl) c.unique in
      let p : Row → Bool = λ r. elem r.id (ids_of group.1) in
      let f = mark_committed env.now in
      elim (Bool-cases (env.commit_fails group.0 || ltb 50 o.reputation_score)) [
        | inl stops ↦ rw stops c
        | inr goes_on ↦ rw goes_on (record {
          unique = rw goes_on at unique';
          taken = update-IsTaken p f rows (λ r e. refl) c.taken;
          size = rw (count-same p (λ r. in_batch b r.batch_id) f rows (λ r. refl)) c.size;
          committed = omega (
            arith,
            c.committed,
            length-ids_of group.1,
            count-elem (ids_of group.1) rows c.unique,
            count-adds p (λ r. in_batch b r.batch_id && is_committed r.status) f rows,
          );
          gated = omega (
            arith,
            c.gated,
            count-clears p (λ r. in_batch b r.batch_id && is_gated r.status) f rows
                (λ r. ground arith),
          );
          failed = omega (
            arith,
            c.failed,
            count-clears p (λ r. in_batch b r.batch_id && is_failed r.status) f rows
                (λ r. ground arith),
          );
        })
      ]

claimed_work-Covers :
    (settings : Settings) (env : Env) (b : Uuid) (db : Db)
    → HasUniqueIds db.reviews
    → IsFresh b db.reviews
    → Covers b
        (length (claimed env.locked settings.max_reviews_per_batch b db.reviews))
        (claimed_work settings env b db)
unfolding claimed claim claimed_work
claimed_work-Covers settings env b db unique fresh =
    let ids = claimed_ids env.locked settings.max_reviews_per_batch db.reviews in
    let after = update_where (λ r. elem r.id ids) (mark_processing b) db.reviews in
    record {
      unique = unique-ids db.reviews after (claim-ids settings env b db) unique;
      taken =
          All-update (λ r. in_batch b r.batch_id ≡ false) (IsTaken b) (λ r. elem r.id ids)
            (mark_processing b) db.reviews
            (λ r free. elim (Bool-cases (elem r.id ids)) [
              | inl met ↦ rw met (λ e. unfold mark_processing in refl)
              | inr other ↦ rw other (λ e. absurd (cc (e, free)))
            ])
            fresh;
      size = claim-batch_size b ids db.reviews fresh;
      committed = omega (arith, claim-tally is_committed b ids db.reviews refl fresh);
      gated = omega (arith, claim-tally is_gated b ids db.reviews refl fresh);
      failed = omega (arith, claim-tally is_failed b ids db.reviews refl fresh);
    }

run_batch-Covers :
    (settings : Settings) (env : Env) (b : Uuid) (db : Db)
    → HasUniqueIds db.reviews
    → IsFresh b db.reviews
    → (run_batch settings env b db).0 ≡ finished
    → Covers b
        (length (claimed env.locked settings.max_reviews_per_batch b db.reviews))
        (run_batch settings env b db).1
unfolding run_batch
run_batch-Covers settings env b db unique fresh e =
    let rows = claimed env.locked settings.max_reviews_per_batch b db.reviews in
    elim (Bool-cases (not env.engine_loads || env.claim_fails)) [
      | inl stops ↦ absurd (ground arith)
      | inr goes_on ↦ rw goes_on (
          run_profiles-keeps settings env (Covers b (length rows))
            (fail_row-Covers settings env b (length rows))
            (commit-Covers settings env b (length rows)) (group_by_profile rows)
            (claimed_work settings env b db) (claimed_work-Covers settings env b db unique fresh))
    ]

-- If no update of the first handling of failed rows raises, a run under a new id that returns reports the
-- number of the reviews that it claimed, and of these the number that are COMMITTED in the table, as
-- `committed`, that are GATED again, as `failed`, and that are FAILED, as `dead_lettered`; and no review of
-- the run is left out of these three. Ids are unique at first.
pub run_batch-tallies :
    (settings : Settings) (env : Env) (batch_id : Uuid) (db : Db)
    → HasUniqueIds db.reviews
    → IsFresh batch_id db.reviews
    → ((k : Uuid) → env.update_fails in_try k ≡ false)
    → (run_batch settings env batch_id db).0 ≡ finished
    → let stats = (run_batch settings env batch_id db).1.stats in
      let rows = (run_batch settings env batch_id db).1.db.reviews in
      (stats.total_reviews
        ≡ length (claimed env.locked settings.max_reviews_per_batch batch_id db.reviews))
      × (stats.committed ≡ tally is_committed batch_id rows)
      × (stats.failed ≡ tally is_gated batch_id rows)
      × (stats.dead_lettered ≡ tally is_failed batch_id rows)
      × (stats.committed + stats.failed + stats.dead_lettered ≡ stats.total_reviews)
run_batch-tallies settings env batch_id db unique fresh steady e =
    let c = run_batch-Covers settings env batch_id db unique fresh e in
    let counted = run_batch-counts settings env batch_id db steady e in
    let split =
      batch_size-tallies batch_id (run_batch settings env batch_id db).1.db.reviews c.taken
        (run_batch-IsSettled settings env batch_id db fresh e) in
    (
      counted.1,
      omega (arith, c.committed, c.gated, c.failed, c.size, counted, split),
      omega (arith, c.committed, c.gated, c.failed, c.size, counted, split),
      omega (arith, c.committed, c.gated, c.failed, c.size, counted, split),
      counted.0,
    )
