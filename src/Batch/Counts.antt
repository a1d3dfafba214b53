-- ===== src/Batch/Counts.antt =====
-- The statistics of a run account for every review that it claimed.
use dost_review_api.Prelude.{
  ℕ, suc, ◌+◌, ◌≡◌, refl, Bool, true, false, not, ◌||◌, List, [], ◌∷◌, arith, length, length-append,
  Bool-cases, inl, inr,
}
use dost_review_api.Models.{Uuid}
use dost_review_api.Review.{Row}
use dost_review_api.Batch.Database.{Stats, Db, Reply, raises, engine_error, output}
use dost_review_api.Batch.Claim.{Group, add_to_group, group_onto, group_by_profile, claimed}
use dost_review_api.Batch.Engine.{
  Settings, Env, Attempt, in_try, in_except, Work, Ended, finished, raised, fail_row, handle_failed,
  commit_profile, will_retry_of, after_reply, engine_input, try_profile, recover, process_profile,
  and_then, run_profiles, claimed_work, run_batch,
}

-- The reviews that the statistics have placed so far.
abbrev pub placed : Stats → ℕ
placed s = s.committed + s.failed + s.dead_lettered

-- A piece of work that ends has placed `n` more reviews, and one that raises has placed none.
abbrev Places : ℕ → Work → Ended × Work → Type 0
Places n w (finished, w') =
    (placed w'.stats ≡ placed w.stats + n) × (w'.stats.total_reviews ≡ w.stats.total_reviews)
Places n w (raised, w') = w' ≡ w

abbrev group_size : List Group → ℕ
group_size [] = 0
group_size (g ∷ groups) = length g.1 + group_size groups

module _ (settings : Settings) (env : Env) where
  fail_row-Places :
      (will_retry : Bool) (row : Row) (w : Work)
      → Places 1 w (finished, fail_row settings env.now will_retry row w)
  unfolding fail_row
  fail_row-Places will_retry row w = ground arith

  handle_failed-Places :
      (attempt : Attempt) (will_retry : Bool) (rows : List Row) (w : Work)
      → (handle_failed settings env attempt will_retry rows w).0 ≡ finished
      → Places (length rows) w (finished, (handle_failed settings env attempt will_retry rows w).1)
  unfolding handle_failed
  handle_failed-Places attempt will_retry [] w e = omega arith
  handle_failed-Places attempt will_retry (row ∷ rows) w e = ground (
    arith,
    fail_row-Places will_retry row w,
    handle_failed-Places attempt will_retry rows (fail_row settings env.now will_retry row w),
  )

  handle_failed-ends :
      (attempt : Attempt) (will_retry : Bool) (rows : List Row) (w : Work)
      → ((k : Uuid) → env.update_fails attempt k ≡ false)
      → (handle_failed settings env attempt will_retry rows w).0 ≡ finished
  unfolding handle_failed
  handle_failed-ends attempt will_retry [] w steady = refl
  handle_failed-ends attempt will_retry (row ∷ rows) w steady = rw (steady row.id) (
      handle_failed-ends attempt will_retry rows (fail_row settings env.now will_retry row w)
        steady)

  module _ (steady : (k : Uuid) → env.update_fails in_try k ≡ false) where
    handle-Places :
        (will_retry : Bool) (rows : List Row) (w : Work) (r : Ended × Work)
        → handle_failed settings env in_try will_retry rows w ≡ r
        → Places (length rows) w r
    handle-Places will_retry rows w (finished, w') e =
        rw e at (handle_failed-Places in_try will_retry rows w (rw e))
    handle-Places will_retry rows w (raised, w') e =
        absurd (ground (arith, handle_failed-ends in_try will_retry rows w steady))

    after_reply-Places :
        (group : Group) (reply : Reply) (w : Work)
        → Places (length group.1) w (after_reply settings env group reply w)
    unfolding after_reply commit_profile
    after_reply-Places group raises w = refl
    after_reply-Places group (engine_error wr) w =
        handle-Places (will_retry_of wr) group.1 w
          (handle_failed settings env in_try (will_retry_of wr) group.1 w) refl
    after_reply-Places group (output o) w = ground arith

    recover-Places :
        (group : Group) (w : Work) (r : Ended × Work)
        → Places (length group.1) w r
        → (recover settings env group r).0 ≡ finished
        → Places (length group.1) w (finished, (recover settings env group r).1)
    unfolding recover
    recover-Places group w (finished, w') h e = h
    recover-Places group w (raised, w') h e =
        ground (arith, handle_failed-Places in_except true group.1 w')

    process_profile-Places :
        (group : Group) (w : Work)
        → (process_profile settings env group w).0 ≡ finished
        → Places (length group.1) w (finished, (process_profile settings env group w).1)
    unfolding process_profile try_profile
    process_profile-Places group w e = elim (Bool-cases (env.load_fails group.0)) [
      | inl stops ↦ rw stops (recover-Places group w (raised, w) refl (rw stops at e))
      | inr goes_on ↦
          let reply : Reply =
            env.process_reputation (engine_input group.0 group.1 w.db.reputations) in
          rw goes_on (
            recover-Places group w (after_reply settings env group reply w)
              (after_reply-Places group reply w) (rw goes_on at e))
    ]

    and_then-Places :
        (n m : ℕ) (w : Work) (next : Work → Ended × Work)
        → ((w' : Work) → (next w').0 ≡ finished → Places m w' (finished, (next w').1))
        → (r : Ended × Work) → (r.0 ≡ finished → Places n w (finished, r.1))
        → (and_then next r).0 ≡ finished
        → Places (n + m) w (finished, (and_then next r).1)
    unfolding and_then
    and_then-Places n m w next step (finished, w') h e = omega (arith, step w' e, h refl)
    and_then-Places n m w next step (raised, w') h e = absurd (ground arith)

    run_profiles-Places :
        (groups : List Group) (w : Work)
        → (run_profiles settings env groups w).0 ≡ finished
        → Places (group_size groups) w (finished, (run_profiles settings env groups w).1)
    unfolding run_profiles
    run_profiles-Places [] w e = omega arith
    run_profiles-Places (g ∷ groups) w e =
        and_then-Places (length g.1) (group_size groups) w (run_profiles settings env groups)
          (run_profiles-Places groups) (process_profile settings env g w)
          (process_profile-Places g w) e

size-add_to_group :
    (r : Row) (groups : List Group) → group_size (add_to_group r groups) ≡ suc (group_size groups)
unfolding add_to_group
size-add_to_group r [] = refl
size-add_to_group r ((t, rows) ∷ groups) =
    ground (arith, size-add_to_group r groups, length-append rows (r ∷ []))

size-group_onto :
    (rows : List Row) (groups : List Group)
    → group_size (group_onto groups rows) ≡ group_size groups + length rows
unfolding group_onto
size-group_onto [] groups = omega arith
size-group_onto (r ∷ rows) groups =
    omega (arith, size-group_onto rows (add_to_group r groups), size-add_to_group r groups)

module _ (settings : Settings) (env : Env)
    (steady : (k : Uuid) → env.update_fails in_except k ≡ false) where
  recover-ends : (group : Group) (r : Ended × Work) → (recover settings env group r).0 ≡ finished
  unfolding recover
  recover-ends group (finished, w) = refl
  recover-ends group (raised, w) = handle_failed-ends settings env in_except true group.1 w steady

  and_then-ends :
      (next : Work → Ended × Work)
      → ((w : Work) → (next w).0 ≡ finished)
      → (r : Ended × Work) → r.0 ≡ finished
      → (and_then next r).0 ≡ finished
  unfolding and_then
  and_then-ends next step (finished, w) e = step w
  and_then-ends next step (raised, w) e = absurd (ground arith)

  run_profiles-ends :
      (groups : List Group) (w : Work) → (run_profiles settings env groups w).0 ≡ finished
  unfolding run_profiles process_profile
  run_profiles-ends [] w = refl
  run_profiles-ends (g ∷ groups) w =
      and_then-ends (run_profiles settings env groups) (run_profiles-ends groups)
        (recover settings env g (try_profile settings env g w))
        (recover-ends g (try_profile settings env g w))

-- A run whose engine loads and whose claim succeeds comes to its end: an exception of the engine, of a
-- load, of a commit or of a first update is caught, as long as the updates of the `except` go through.
pub run_batch-ends :
    (settings : Settings) (env : Env) (batch_id : Uuid) (db : Db)
    → env.engine_loads ≡ true
    → env.claim_fails ≡ false
    → ((k : Uuid) → env.update_fails in_except k ≡ false)
    → (run_batch settings env batch_id db).0 ≡ finished
unfolding run_batch
run_batch-ends settings env batch_id db loads claims steady = ground (
  arith,
  run_profiles-ends settings env steady
      (group_by_profile (claimed env.locked settings.max_reviews_per_batch batch_id db.reviews))
      (claimed_work settings env batch_id db),
)

-- If no update of the first handling of failed rows raises, a run that returns has counted every claimed
-- review exactly once, as committed, returned for a retry, or dead-lettered.
pub run_batch-counts :
    (settings : Settings) (env : Env) (batch_id : Uuid) (db : Db)
    → ((k : Uuid) → env.update_fails in_try k ≡ false)
    → (run_batch settings env batch_id db).0 ≡ finished
    → let stats = (run_batch settings env batch_id db).1.stats in
      (placed stats ≡ stats.total_reviews)
      × (stats.total_reviews
          ≡ length (claimed env.locked settings.max_reviews_per_batch batch_id db.reviews))
unfolding run_batch
run_batch-counts settings env batch_id db steady e =
    elim (Bool-cases (not env.engine_loads || env.claim_fails)) [
      | inl stops ↦ absurd (ground arith)
      | inr goes_on ↦
          let rows = claimed env.locked settings.max_reviews_per_batch batch_id db.reviews in
          let w = claimed_work settings env batch_id db in
          rw goes_on (
            unfold group_by_profile claimed_work in
            omega (
              arith,
              run_profiles-Places settings env steady (group_by_profile rows) w (rw goes_on at e),
              size-group_onto rows [],
            ))
    ]
