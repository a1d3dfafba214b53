-- ===== src/Batch/Others.antt =====
-- What a run leaves alone: the reviews of none of its groups.
use dost_review_api.Prelude.{
  ◌≡◌, refl, ◌∙◌, Bool, true, false, List, [], ◌∷◌, arith, Bool-cases, inl, inr,
}
use dost_review_api.Models.{Uuid}
use dost_review_api.Review.{Row, find}
use dost_review_api.Batch.Database.{elem, Reply, engine_error, output, Output}
use dost_review_api.Batch.Claim.{Group}
use dost_review_api.Batch.Engine.{
  Settings, Env, Attempt, in_try, in_except, Work, Ended, finished, raised, fail_row, handle_failed,
  ids_of, commit_profile, will_retry_of, engine_input, try_profile, and_then, after_reply, recover,
  process_profile, run_profiles,
}
use dost_review_api.Batch.Failures.{find-fail_row}
use dost_review_api.Batch.Results.{find-commit}
use dost_review_api.Batch.Held.{group_ids}
use dost_review_api.Batch.Updates.{elem-append}

-- The work of a run on other reviews leaves this one alone.
module _ (settings : Settings) (env : Env) (k : Uuid) where
  abbrev Same : Work → Work → Type 0
  Same w w' = find k w'.db.reviews ≡ find k w.db.reviews

  handle_failed-Same :
      (attempt : Attempt) (will_retry : Bool) (rows : List Row) (w : Work)
      → elem k (ids_of rows) ≡ false
      → Same w (handle_failed settings env attempt will_retry rows w).1
  unfolding handle_failed elem
  handle_failed-Same attempt will_retry [] w h = refl
  handle_failed-Same attempt will_retry (row ∷ rows) w h = ground (
    arith,
    find-fail_row settings env will_retry row k w,
    handle_failed-Same attempt will_retry rows (fail_row settings env.now will_retry row w),
  )

  commit-Same :
      (group : Group) (o : Output) (w : Work)
      → elem k (ids_of group.1) ≡ false
      → Same w (commit_profile env group o w).1
  unfolding commit_profile
  commit-Same group o w h = ground (arith, find-commit env.now (ids_of group.1) k w.db.reviews)

  reply-Same :
      (group : Group) (reply : Reply) (w : Work)
      → elem k (ids_of group.1) ≡ false
      → Same w (after_reply settings env group reply w).1
  unfolding after_reply
  reply-Same group Reply.raises w h = refl
  reply-Same group (engine_error wr) w h = handle_failed-Same in_try (will_retry_of wr) group.1 w h
  reply-Same group (output o) w h = commit-Same group o w h

  recover-Same :
      (group : Group) (w : Work) (r : Ended × Work)
      → elem k (ids_of group.1) ≡ false
      → Same w r.1
      → Same w (recover settings env group r).1
  unfolding recover
  recover-Same group w (finished, w') h e = e
  recover-Same group w (raised, w') h e = handle_failed-Same in_except true group.1 w' h ∙ e

  pub process_profile-Same :
      (group : Group) (w : Work)
      → elem k (ids_of group.1) ≡ false
      → Same w (process_profile settings env group w).1
  unfolding process_profile try_profile
  process_profile-Same group w h = elim (Bool-cases (env.load_fails group.0)) [
    | inl stops ↦ rw stops (recover-Same group w (raised, w) h refl)
    | inr goes_on ↦
        let reply : Reply =
          env.process_reputation (engine_input group.0 group.1 w.db.reputations) in
        rw goes_on (
          recover-Same group w (after_reply settings env group reply w) h
            (reply-Same group reply w h))
  ]

  and_then-Same :
      (next : Work → Ended × Work) (w : Work) (r : Ended × Work)
      → ((w' : Work) → Same w' (next w').1)
      → Same w r.1
      → Same w (and_then next r).1
  unfolding and_then
  and_then-Same next w (finished, w') step e = step w' ∙ e
  and_then-Same next w (raised, w') step e = e

  pub run_profiles-Same :
      (groups : List Group) (w : Work)
      → elem k (group_ids groups) ≡ false
      → Same w (run_profiles settings env groups w).1
  unfolding run_profiles
  run_profiles-Same [] w h = refl
  run_profiles-Same (g ∷ groups) w h =
      and_then-Same (run_profiles settings env groups) w (process_profile settings env g w)
        (λ w'.
          run_profiles-Same groups w'
            (ground (arith, h, elem-append k (ids_of g.1) (group_ids groups))))
        (process_profile-Same g w
          (ground (arith, h, elem-append k (ids_of g.1) (group_ids groups))))
