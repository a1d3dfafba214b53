-- ===== src/Batch/Progress.antt =====
-- What a run does to each review: a claimed one comes a step further, and every other one stays.
use dost_review_api.Prelude.{
  ℕ, ◌+◌, ◌<◌, ◌==◌, ◌≡◌, refl, ◌∙◌, ◌⊎◌, Bool, true, false, ◌||◌, some, List, [], ◌∷◌, ◌++◌, arith,
  ltb, All, Bool-cases, inl, inr,
}
use dost_review_api.Models.{Uuid}
use dost_review_api.Review.{Row, gated, committed, failed, find}
use dost_review_api.Batch.Database.{elem, Reply, engine_error, output, Output}
use dost_review_api.Batch.Claim.{Group}
use dost_review_api.Batch.Engine.{
  Settings, Env, Attempt, in_try, in_except, Work, Ended, finished, raised, fail_row, dead_letter,
  requeue_row, handle_failed, ids_of, mark_committed, commit_profile, will_retry_of, after_reply,
  engine_input, try_profile, recover, process_profile, and_then, run_profiles,
}
use dost_review_api.Batch.Failures.{failed_once, find-fail_row}
use dost_review_api.Batch.Results.{find-commit}
use dost_review_api.Batch.Held.{group_ids}
use dost_review_api.Batch.Updates.{elem-append}

-- A review that had failed `n` times has been COMMITTED, or is FAILED, or waits with one failure more,
-- still below the limit.
abbrev pub Advanced : Settings → ℕ → Row → Type 0
Advanced settings n r =
    (r.status ≡ committed)
    ⊎ ((r.status ≡ failed)
        ⊎ ((r.status ≡ gated) × (r.retry_count ≡ n + 1) × (n + 1 < settings.max_review_retries)))

-- What holds of the rows of each group.
abbrev pub AllGroups : (List Row → Type 0) → List Group → Type 0
AllGroups P [] = Unit
AllGroups P (g ∷ groups) = P g.1 × AllGroups P groups

commit-raised :
    (env : Env) (group : Group) (o : Output) (w : Work)
    → (env.commit_fails group.0 || ltb 50 o.reputation_score) ≡ true
    → commit_profile env group o w ≡ (raised, w)
unfolding commit_profile
commit-raised env group o w e = rw e refl

commit-finished :
    (env : Env) (group : Group) (o : Output) (w : Work)
    → (env.commit_fails group.0 || ltb 50 o.reputation_score) ≡ false
    → (commit_profile env group o w).0 ≡ finished
unfolding commit_profile
commit-finished env group o w e = rw e refl

module _ (settings : Settings) (env : Env) (k : Uuid) (n : ℕ) where
  abbrev pub AdvancedAt : Work → Type 0
  AdvancedAt w = (s : Row) × (find k w.db.reviews ≡ some s) × Advanced settings n s

  -- The review is advanced, or it is stored and on the list.
  abbrev pub Due : List Uuid → Work → Type 0
  Due ids w = AdvancedAt w ⊎ ((elem k ids ≡ true) × ((s : Row) × (find k w.db.reviews ≡ some s)))

  -- Every claimed row of the id has failed `n` times.
  abbrev pub IsCounted : List Row → Type 0
  IsCounted = All (λ r. (r.id == k) ≡ true → r.retry_count ≡ n)

  failed_once-Advanced :
      (will_retry : Bool) (row s : Row)
      → row.retry_count ≡ n
      → Advanced settings n (failed_once settings env.now will_retry row s)
  unfolding dead_letter requeue_row
  failed_once-Advanced will_retry row s e = ground arith

  still_stored :
      (ids : List Uuid) (w : Work) → Due ids w → (s : Row) × (find k w.db.reviews ≡ some s)
  still_stored ids w (inl (s, at, advanced)) = (s, at)
  still_stored ids w (inr (m, (s, at))) = (s, at)

  Due-same :
      (ids ids' : List Uuid) (w w' : Work)
      → find k w'.db.reviews ≡ find k w.db.reviews
      → (elem k ids ≡ true → elem k ids' ≡ true)
      → Due ids w
      → Due ids' w'
  Due-same ids ids' w w' e le (inl (s, at, advanced)) = inl (s, e ∙ at, advanced)
  Due-same ids ids' w w' e le (inr (m, (s, at))) = inr (le m, (s, e ∙ at))

  fail_row-Due :
      (will_retry : Bool) (row : Row) (ids : List Uuid) (w : Work)
      → ((row.id == k) ≡ true → row.retry_count ≡ n)
      → Due (row.id ∷ ids) w
      → Due ids (fail_row settings env.now will_retry row w)
  unfolding elem
  fail_row-Due will_retry row ids w counted due = elim (Bool-cases (row.id == k)) [
    | inl same ↦
        let (s, at) = still_stored (row.id ∷ ids) w due in
        inl (
          failed_once settings env.now will_retry row s,
          rw (find-fail_row settings env will_retry row k w, same, at) refl,
          failed_once-Advanced will_retry row s (counted same),
        )
    | inr other ↦
        let e : find k (fail_row settings env.now will_retry row w).db.reviews
            ≡ find k w.db.reviews =
          rw (find-fail_row settings env will_retry row k w, other) refl in
        Due-same (row.id ∷ ids) ids w (fail_row settings env.now will_retry row w) e
          (λ m. ground (arith, m, other)) due
  ]

  handle_failed-Due :
      (attempt : Attempt) (will_retry : Bool) (rows : List Row) (ids : List Uuid) (w : Work)
      → ((j : Uuid) → env.update_fails attempt j ≡ false)
      → IsCounted rows
      → Due (ids_of rows ++ ids) w
      → Due ids (handle_failed settings env attempt will_retry rows w).1
  unfolding handle_failed
  handle_failed-Due attempt will_retry [] ids w steady counted due = due
  handle_failed-Due attempt will_retry (row ∷ rows) ids w steady counted due = rw (steady row.id) (
      handle_failed-Due attempt will_retry rows ids (fail_row settings env.now will_retry row w)
        steady counted.1 (fail_row-Due will_retry row (ids_of rows ++ ids) w counted.0 due))

  commit-Due :
      (group : Group) (o : Output) (ids : List Uuid) (w : Work)
      → (env.commit_fails group.0 || ltb 50 o.reputation_score) ≡ false
      → Due (ids_of group.1 ++ ids) w
      → Due ids (commit_profile env group o w).1
  unfolding commit_profile
  commit-Due group o ids w goes_on due = elim (Bool-cases (elem k (ids_of group.1))) [
    | inl met ↦
        let (s, at) = still_stored (ids_of group.1 ++ ids) w due in
        inl (
          mark_committed env.now s,
          rw (goes_on, find-commit env.now (ids_of group.1) k w.db.reviews, met, at) refl,
          unfold mark_committed in inl refl,
        )
    | inr other ↦
        Due-same (ids_of group.1 ++ ids) ids w (commit_profile env group o w).1
          (rw (goes_on, find-commit env.now (ids_of group.1) k w.db.reviews, other) refl)
          (λ m. ground (arith, m, other, elem-append k (ids_of group.1) ids)) due
  ]

  abbrev Steady : Type 0
  Steady = (attempt : Attempt) (j : Uuid) → env.update_fails attempt j ≡ false

  recover-raised :
      (group : Group) (ids : List Uuid) (w : Work)
      → Steady
      → IsCounted group.1
      → Due (ids_of group.1 ++ ids) w
      → Due ids (recover settings env group (raised, w)).1
  unfolding recover
  recover-raised group ids w steady counted =
      handle_failed-Due in_except true group.1 ids w (steady in_except) counted

  recover-finished :
      (group : Group) (r : Ended × Work) → r.0 ≡ finished → recover settings env group r ≡ r
  unfolding recover
  recover-finished group (finished, w) e = refl
  recover-finished group (raised, w) e = cc

  handle_failed-finished :
      (attempt : Attempt) (will_retry : Bool) (rows : List Row) (w : Work)
      → Steady
      → (handle_failed settings env attempt will_retry rows w).0 ≡ finished
  unfolding handle_failed
  handle_failed-finished attempt will_retry [] w steady = refl
  handle_failed-finished attempt will_retry (row ∷ rows) w steady = rw (steady attempt row.id) (
      handle_failed-finished attempt will_retry rows (fail_row settings env.now will_retry row w)
        steady)

  reply-Due :
      (group : Group) (reply : Reply) (ids : List Uuid) (w : Work)
      → Steady
      → IsCounted group.1
      → Due (ids_of group.1 ++ ids) w
      → Due ids (recover settings env group (after_reply settings env group reply w)).1
  unfolding after_reply
  reply-Due group Reply.raises ids w steady counted due =
      recover-raised group ids w steady counted due
  reply-Due group (engine_error wr) ids w steady counted due =
      rw
        (recover-finished group (handle_failed settings env in_try (will_retry_of wr) group.1 w)
          (handle_failed-finished in_try (will_retry_of wr) group.1 w steady))
        (handle_failed-Due in_try (will_retry_of wr) group.1 ids w (steady in_try) counted due)
  reply-Due group (output o) ids w steady counted due =
      elim (Bool-cases (env.commit_fails group.0 || ltb 50 o.reputation_score)) [
        | inl stops ↦
            rw (commit-raised env group o w stops) (recover-raised group ids w steady counted due)
        | inr goes_on ↦
            rw
              (recover-finished group (commit_profile env group o w)
                (commit-finished env group o w goes_on))
              (commit-Due group o ids w goes_on due)
      ]

  process_profile-Due :
      (group : Group) (ids : List Uuid) (w : Work)
      → Steady
      → IsCounted group.1
      → Due (ids_of group.1 ++ ids) w
      → Due ids (process_profile settings env group w).1
  unfolding process_profile try_profile
  process_profile-Due group ids w steady counted due = elim (Bool-cases (env.load_fails group.0)) [
    | inl stops ↦ rw stops (recover-raised group ids w steady counted due)
    | inr goes_on ↦ rw goes_on (
        reply-Due group (env.process_reputation (engine_input group.0 group.1 w.db.reputations)) ids
          w steady counted due)
  ]

  and_then-Due :
      (ids : List Uuid) (next : Work → Ended × Work) (r : Ended × Work)
      → ((w : Work) → Due ids w → (next w).0 ≡ finished → AdvancedAt (next w).1)
      → Due ids r.1
      → (and_then next r).0 ≡ finished
      → AdvancedAt (and_then next r).1
  unfolding and_then
  and_then-Due ids next (finished, w) step due e = step w due e
  and_then-Due ids next (raised, w) step due e = cc

  -- The groups that are still to come hold the review, or it is advanced already.
  pub run_profiles-Advanced :
      (groups : List Group) (w : Work)
      → Steady
      → AllGroups IsCounted groups
      → Due (group_ids groups) w
      → (run_profiles settings env groups w).0 ≡ finished
      → AdvancedAt (run_profiles settings env groups w).1
  unfolding run_profiles
  run_profiles-Advanced [] w steady counted due e = unfold elem in ground (arith, due)
  run_profiles-Advanced (g ∷ groups) w steady counted due e =
      and_then-Due (group_ids groups) (run_profiles settings env groups)
        (process_profile settings env g w)
        (λ w' due' e. run_profiles-Advanced groups w' steady counted.1 due' e)
        (process_profile-Due g (group_ids groups) w steady counted.0 due) e
