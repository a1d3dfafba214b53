-- ===== src/Batch/Settled.antt =====
-- A run that returns leaves none of its reviews in PROCESSING.
use dost_review_api.Prelude.{
  ltb, ◌≡◌, refl, sym, ap, ◌∙◌, Bool, true, false, not, ◌||◌, List, [], ◌∷◌, ◌++◌, arith,
  Bool-cases, inl, inr,
}
use dost_review_api.Models.{Uuid}
use dost_review_api.Review.{Row}
use dost_review_api.Batch.Database.{Db, elem, Reply, raises, engine_error, output, Output}
use dost_review_api.Batch.Claim.{Group, claimed, group_by_profile}
use dost_review_api.Batch.Engine.{
  Settings, Env, in_try, in_except, Work, Ended, finished, raised, handle_failed, ids_of,
  mark_committed, commit_profile, after_reply, try_profile, recover, process_profile, and_then,
  run_profiles, claimed_work, run_batch, will_retry_of, engine_input,
}
use dost_review_api.Batch.Updates.{All-mono, elem-append}
use dost_review_api.Batch.Held.{
  is_held, HeldWithin, IsSettled, update-HeldWithin, handle_failed-keeps, handle_failed-frees,
  group_ids,
}
use dost_review_api.Batch.Taken.{IsFresh, IsFresh-IsSettled, claimed_work-HeldWithin}

module _ (batch_id : Uuid) (settings : Settings) (env : Env) where
  commit-frees :
      (group : Group) (o : Output) (ids : List Uuid) (w : Work)
      → (commit_profile env group o w).0 ≡ finished
      → HeldWithin batch_id (ids_of group.1 ++ ids) w.db.reviews
      → HeldWithin batch_id ids (commit_profile env group o w).1.db.reviews
  unfolding commit_profile mark_committed
  commit-frees (profile_id, rows) o ids w e h =
      elim (Bool-cases (env.commit_fails profile_id || ltb 50 o.reputation_score)) [
        | inl stops ↦ absurd (ground arith)
        | inr goes_on ↦ rw goes_on (
            update-HeldWithin batch_id (ids_of rows ++ ids) ids (λ r. elem r.id (ids_of rows))
              (mark_committed env.now) w.db.reviews (λ r. refl)
              (λ r other m. ground (arith, elem-append r.id (ids_of rows) ids)) h)
      ]

  commit-raised :
      (group : Group) (o : Output) (w : Work)
      → (commit_profile env group o w).0 ≡ raised
      → (commit_profile env group o w).1 ≡ w
  unfolding commit_profile
  commit-raised group o w e = ground arith

  -- The `try` either finishes with the group freed, or raises with no new row held.
  abbrev TryResult : List Uuid → List Uuid → Ended × Work → Type 0
  TryResult before after (finished, w) = HeldWithin batch_id after w.db.reviews
  TryResult before after (raised, w) = HeldWithin batch_id before w.db.reviews

  handle-TryResult :
      (will_retry : Bool) (rows : List Row) (ids : List Uuid) (w : Work)
      → HeldWithin batch_id (ids_of rows ++ ids) w.db.reviews
      → (r : Ended × Work) → handle_failed settings env in_try will_retry rows w ≡ r
      → TryResult (ids_of rows ++ ids) ids r
  handle-TryResult will_retry rows ids w h (finished, w') e =
      let k = handle_failed-frees batch_id settings env will_retry in_try rows ids w in
      rw e at (k (rw e) h)
  handle-TryResult will_retry rows ids w h (raised, w') e =
      rw e at
        (handle_failed-keeps batch_id settings env will_retry in_try rows (ids_of rows ++ ids) w h)

  commit-TryResult :
      (group : Group) (o : Output) (ids : List Uuid) (w : Work)
      → HeldWithin batch_id (ids_of group.1 ++ ids) w.db.reviews
      → (r : Ended × Work) → commit_profile env group o w ≡ r
      → TryResult (ids_of group.1 ++ ids) ids r
  commit-TryResult group o ids w h (finished, w') e = rw e at (commit-frees group o ids w (rw e) h)
  commit-TryResult group o ids w h (raised, w') e =
      let same : w' ≡ w =
        (sym (ap (λ (r : Ended × Work). r.1) e)) ∙ commit-raised group o w (rw e) in
      rw same h

  try-TryResult :
      (group : Group) (ids : List Uuid) (w : Work)
      → HeldWithin batch_id (ids_of group.1 ++ ids) w.db.reviews
      → (reply : Reply)
      → TryResult (ids_of group.1 ++ ids) ids (after_reply settings env group reply w)
  unfolding after_reply
  try-TryResult group ids w h raises = h
  try-TryResult group ids w h (engine_error wr) =
      handle-TryResult (will_retry_of wr) group.1 ids w h
        (handle_failed settings env in_try (will_retry_of wr) group.1 w) refl
  try-TryResult group ids w h (output o) =
      commit-TryResult group o ids w h (commit_profile env group o w) refl

  recover-frees :
      (group : Group) (ids : List Uuid) (r : Ended × Work)
      → (recover settings env group r).0 ≡ finished
      → TryResult (ids_of group.1 ++ ids) ids r
      → HeldWithin batch_id ids (recover settings env group r).1.db.reviews
  unfolding recover
  recover-frees group ids (finished, w) e h = h
  recover-frees group ids (raised, w) e h =
      handle_failed-frees batch_id settings env true in_except group.1 ids w e h

  pub process_profile-frees :
      (group : Group) (ids : List Uuid) (w : Work)
      → (process_profile settings env group w).0 ≡ finished
      → HeldWithin batch_id (ids_of group.1 ++ ids) w.db.reviews
      → HeldWithin batch_id ids (process_profile settings env group w).1.db.reviews
  unfolding process_profile try_profile
  process_profile-frees group ids w e h = elim (Bool-cases (env.load_fails group.0)) [
    | inl stops ↦ rw stops (recover-frees group ids (raised, w) (rw stops at e) h)
    | inr goes_on ↦ rw goes_on (
        recover-frees group ids
          (after_reply settings env group
            (env.process_reputation (engine_input group.0 group.1 w.db.reputations)) w)
          (rw goes_on at e)
          (try-TryResult group ids w h
            (env.process_reputation (engine_input group.0 group.1 w.db.reputations))))
  ]

  and_then-frees :
      (ids : List Uuid) (next : Work → Ended × Work)
      → ((w : Work)
          → (next w).0 ≡ finished
          → HeldWithin batch_id ids w.db.reviews
          → HeldWithin batch_id [] (next w).1.db.reviews)
      → (r : Ended × Work) → (r.0 ≡ finished → HeldWithin batch_id ids r.1.db.reviews)
      → (and_then next r).0 ≡ finished
      → HeldWithin batch_id [] (and_then next r).1.db.reviews
  unfolding and_then
  and_then-frees ids next step (finished, w) h e = step w e (h refl)
  and_then-frees ids next step (raised, w) h e = absurd (ground arith)

  run_profiles-frees :
      (groups : List Group) (w : Work)
      → (run_profiles settings env groups w).0 ≡ finished
      → HeldWithin batch_id (group_ids groups) w.db.reviews
      → HeldWithin batch_id [] (run_profiles settings env groups w).1.db.reviews
  unfolding run_profiles
  run_profiles-frees [] w e h = h
  run_profiles-frees (g ∷ groups) w e h =
      and_then-frees (group_ids groups) (run_profiles settings env groups)
        (run_profiles-frees groups) (process_profile settings env g w)
        (λ ends. process_profile-frees g (group_ids groups) w ends h) e

-- A run under a new id that returns has let go of every review that it claimed: none is PROCESSING
-- under its id. This holds whatever the engine answers and whichever calls of the database raise.
pub run_batch-IsSettled :
    (settings : Settings) (env : Env) (batch_id : Uuid) (db : Db)
    → IsFresh batch_id db.reviews
    → (run_batch settings env batch_id db).0 ≡ finished
    → IsSettled batch_id (run_batch settings env batch_id db).1.db.reviews
unfolding run_batch
run_batch-IsSettled settings env batch_id db fresh e =
    elim (Bool-cases (not env.engine_loads || env.claim_fails)) [
      | inl stops ↦ absurd (ground arith)
      | inr goes_on ↦
          let groups =
            group_by_profile
              (claimed env.locked settings.max_reviews_per_batch batch_id db.reviews) in
          let w = claimed_work settings env batch_id db in
          rw goes_on (
            All-mono (λ r. is_held batch_id r ≡ true → elem r.id [] ≡ true)
              (λ r. is_held batch_id r ≡ false) (run_profiles settings env groups w).1.db.reviews
              (λ r h. unfold elem in ground arith)
              (run_profiles-frees batch_id settings env groups w (rw goes_on at e) (
                claimed_work-HeldWithin batch_id settings env db
                  (IsFresh-IsSettled batch_id db.reviews fresh))))
    ]
