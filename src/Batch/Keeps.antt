-- ===== src/Batch/Keeps.antt =====
-- Induction over a run: what the failure of a row and the commit of a profile keep, the loop keeps.
use dost_review_api.Prelude.{Bool, true, List, [], ◌∷◌, Bool-cases, inl, inr}
use dost_review_api.Review.{Row}
use dost_review_api.Batch.Database.{Reply, raises, engine_error, output, Output}
use dost_review_api.Batch.Claim.{Group}
use dost_review_api.Batch.Engine.{
  Settings, Env, Attempt, in_try, in_except, Work, Ended, finished, raised, fail_row, handle_failed,
  commit_profile, will_retry_of, after_reply, engine_input, try_profile, recover, process_profile,
  and_then, run_profiles,
}

module _ (settings : Settings) (env : Env) (P : Work → Type 0)
    (failing : (will_retry : Bool) (row : Row) (w : Work)
      → P w
      → P (fail_row settings env.now will_retry row w))
    (committing : (group : Group) (o : Output) (w : Work)
      → P w
      → P (commit_profile env group o w).1) where
  handle_failed-keeps :
      (attempt : Attempt) (will_retry : Bool) (rows : List Row) (w : Work)
      → P w
      → P (handle_failed settings env attempt will_retry rows w).1
  unfolding handle_failed
  handle_failed-keeps attempt will_retry [] w h = h
  handle_failed-keeps attempt will_retry (row ∷ rows) w h =
      elim (Bool-cases (env.update_fails attempt row.id)) [
        | inl stops ↦ rw stops h
        | inr goes_on ↦ rw goes_on (
            handle_failed-keeps attempt will_retry rows (fail_row settings env.now will_retry row w)
              (failing will_retry row w h))
      ]

  after_reply-keeps :
      (group : Group) (reply : Reply) (w : Work)
      → P w
      → P (after_reply settings env group reply w).1
  unfolding after_reply
  after_reply-keeps group raises w h = h
  after_reply-keeps group (engine_error wr) w h =
      handle_failed-keeps in_try (will_retry_of wr) group.1 w h
  after_reply-keeps group (output o) w h = committing group o w h

  recover-keeps : (group : Group) (r : Ended × Work) → P r.1 → P (recover settings env group r).1
  unfolding recover
  recover-keeps group (finished, w) h = h
  recover-keeps group (raised, w) h = handle_failed-keeps in_except true group.1 w h

  pub process_profile-keeps :
      (group : Group) (w : Work) → P w → P (process_profile settings env group w).1
  unfolding process_profile try_profile
  process_profile-keeps group w h = elim (Bool-cases (env.load_fails group.0)) [
    | inl stops ↦ rw stops (recover-keeps group (raised, w) h)
    | inr goes_on ↦
        let reply : Reply =
          env.process_reputation (engine_input group.0 group.1 w.db.reputations) in
        rw goes_on (
          recover-keeps group (after_reply settings env group reply w)
            (after_reply-keeps group reply w h))
  ]

  and_then-keeps :
      (next : Work → Ended × Work)
      → ((w : Work) → P w → P (next w).1)
      → (r : Ended × Work) → P r.1
      → P (and_then next r).1
  unfolding and_then
  and_then-keeps next step (finished, w) h = step w h
  and_then-keeps next step (raised, w) h = h

  pub run_profiles-keeps :
      (groups : List Group) (w : Work) → P w → P (run_profiles settings env groups w).1
  unfolding run_profiles
  run_profiles-keeps [] w h = h
  run_profiles-keeps (g ∷ groups) w h =
      and_then-keeps (run_profiles settings env groups) (run_profiles-keeps groups)
        (process_profile settings env g w) (process_profile-keeps g w h)
