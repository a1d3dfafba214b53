-- ===== src/Batch/Results.antt =====
-- What a profile's turn leaves in `profile_reputation`, and the merged tags that it stores.
use dost_review_api.Prelude.{
  ◌≤◌, ◌==◌, eq_iff, ◌≡◌, refl, ◌∙◌, ◌⊎◌, Bool, true, false, ◌||◌, some, List, [], ◌∷◌, arith, ltb,
  Bool-cases, Option-cases, inl, inr, if◌then◌else◌,
}
use dost_review_api.Models.{Uuid, Instant}
use dost_review_api.Review.{Row, find, update_where}
use dost_review_api.Review.Laws.{id-find}
use dost_review_api.Batch.Database.{
  Reputation, elem, find_reputation, upsert_reputation, Reply, raises, engine_error, output, Output,
}
use dost_review_api.Batch.Claim.{Group}
use dost_review_api.Batch.Engine.{
  Settings, Env, Attempt, in_try, in_except, Work, Ended, finished, raised, fail_row, handle_failed,
  reputation_row, mark_committed, ids_of, commit_profile, after_reply, try_profile, recover,
  process_profile, will_retry_of, engine_input,
}
use dost_review_api.Batch.Chosen.{find-update}
use dost_review_api.Batch.Failures.{on_stored}
use dost_review_api.Batch.Tags.{created_or}

handle_failed-reputations :
    (settings : Settings) (env : Env) (attempt : Attempt) (will_retry : Bool) (rows : List Row)
    (w : Work)
    → ((handle_failed settings env attempt will_retry rows w).1.db.reputations ≡ w.db.reputations)
      × ((handle_failed settings env attempt will_retry rows w).1.stats.profiles_updated
          ≡ w.stats.profiles_updated)
unfolding handle_failed fail_row
handle_failed-reputations settings env attempt will_retry [] w = (refl, refl)
handle_failed-reputations settings env attempt will_retry (row ∷ rows) w = ground (
  arith,
  handle_failed-reputations settings env attempt will_retry rows
      (fail_row settings env.now will_retry row w),
)

pub find-upsert_reputation :
    (new : Reputation) (k : Uuid) (rows : List Reputation)
    → find_reputation k (upsert_reputation new rows) ≡ (
        if new.profile_id == k
        then some (record new {
          created_at = created_or new.created_at (find_reputation new.profile_id rows);
        })
        else find_reputation k rows)
unfolding find_reputation upsert_reputation
find-upsert_reputation new k [] = refl
find-upsert_reputation new k (r ∷ rows) = ground (
  arith,
  find-upsert_reputation new k rows,
  eq_iff r.profile_id new.profile_id,
  eq_iff r.profile_id k,
  eq_iff new.profile_id k,
)

-- The turn of a profile failed: its reputation is as before.
pub record IsUnchanged (w w' : Work) : Type 0 where
  pub reputations : w'.db.reputations ≡ w.db.reputations
  pub updated : w'.stats.profiles_updated ≡ w.stats.profiles_updated

-- The turn succeeded with this output: both tables have it.
pub record IsCommitted (now : Instant) (group : Group) (o : Output) (w w' : Work) : Type 0 where
  pub score_fits : o.reputation_score ≤ 50
  pub stored :
      find_reputation group.0 w'.db.reputations
      ≡ some (record (reputation_row group.0 now o) {
        created_at = created_or now (find_reputation group.0 w.db.reputations);
      })
  pub others :
      (k : Uuid)
      → (group.0 == k) ≡ false
      → find_reputation k w'.db.reputations ≡ find_reputation k w.db.reputations
  pub reviews :
      (k : Uuid)
      → find k w'.db.reviews ≡ (
          if elem k (ids_of group.1)
          then on_stored (mark_committed now) (find k w.db.reviews)
          else find k w.db.reviews)

pub find-commit :
    (now : Instant) (ids : List Uuid) (k : Uuid) (rows : List Row)
    → find k (update_where (λ r. elem r.id ids) (mark_committed now) rows)
      ≡ (if elem k ids then on_stored (mark_committed now) (find k rows) else find k rows)
unfolding mark_committed
find-commit now ids k rows =
    let law = find-update (λ r. elem r.id ids) (mark_committed now) (λ r. refl) k rows in
    elim (Option-cases (find k rows)) [
      | inl absent ↦ ground (arith, law)
      | inr (r, e) ↦ ground (arith, law, id-find k rows r e)
    ]

module _ (settings : Settings) (env : Env) (group : Group) (w : Work) where
  abbrev pub Outcome : Work → Type 0
  Outcome w' =
      IsUnchanged w w'
      ⊎ ((o : Output) × (env.process_reputation (engine_input group.0 group.1 w.db.reputations)
            ≡ output o)
          × IsCommitted env.now group o w w')

  -- An exception of the `try` has changed no reputation.
  abbrev TryOutcome : Ended × Work → Type 0
  TryOutcome (finished, w') = Outcome w'
  TryOutcome (raised, w') = IsUnchanged w w'

  unchanged-TryOutcome : (r : Ended × Work) → IsUnchanged w r.1 → TryOutcome r
  unchanged-TryOutcome (finished, w') h = inl h
  unchanged-TryOutcome (raised, w') h = h

  handle_failed-IsUnchanged :
      (attempt : Attempt) (will_retry : Bool) (w' : Work)
      → IsUnchanged w w'
      → IsUnchanged w (handle_failed settings env attempt will_retry group.1 w').1
  handle_failed-IsUnchanged attempt will_retry w' h =
      let (same, updated) = handle_failed-reputations settings env attempt will_retry group.1 w' in
      record { reputations = same ∙ h.reputations; updated = updated ∙ h.updated }

  commit-TryOutcome :
      (o : Output)
      → env.process_reputation (engine_input group.0 group.1 w.db.reputations) ≡ output o
      → TryOutcome (commit_profile env group o w)
  unfolding commit_profile
  commit-TryOutcome o e =
      elim (Bool-cases (env.commit_fails group.0 || ltb 50 o.reputation_score)) [
        | inl stops ↦ rw stops (record { reputations = refl; updated = refl })
        | inr goes_on ↦
            let law = find-upsert_reputation (reputation_row group.0 env.now o) in
            rw goes_on (
              inr (
                o,
                e,
                record {
                  score_fits = ground arith;
                  stored =
                      unfold reputation_row in
                      ground (arith, law group.0 w.db.reputations, eq_iff group.0 group.0);
                  others = λ k ne. unfold reputation_row in ground (arith, law k w.db.reputations);
                  reviews = λ k. find-commit env.now (ids_of group.1) k w.db.reviews;
                },
              ))
      ]

  after_reply-TryOutcome :
      (reply : Reply)
      → env.process_reputation (engine_input group.0 group.1 w.db.reputations) ≡ reply
      → TryOutcome (after_reply settings env group reply w)
  unfolding after_reply
  after_reply-TryOutcome raises e = record { reputations = refl; updated = refl }
  after_reply-TryOutcome (engine_error wr) e =
      unchanged-TryOutcome (handle_failed settings env in_try (will_retry_of wr) group.1 w) (
        handle_failed-IsUnchanged in_try (will_retry_of wr) w
          (record { reputations = refl; updated = refl }))
  after_reply-TryOutcome (output o) e = commit-TryOutcome o e

  recover-Outcome : (r : Ended × Work) → TryOutcome r → Outcome (recover settings env group r).1
  unfolding recover
  recover-Outcome (finished, w') h = h
  recover-Outcome (raised, w') h = inl (handle_failed-IsUnchanged in_except true w' h)

  -- A profile's turn, whatever fails in it, either leaves all of `profile_reputation` as it was, or the
  -- engine gave an output whose score fits, and then the profile's row has that output and its old
  -- creation time, no other profile's row changed, and exactly the group's reviews became COMMITTED.
  pub process_profile-atomic : Outcome (process_profile settings env group w).1
  unfolding process_profile try_profile
  process_profile-atomic = elim (Bool-cases (env.load_fails group.0)) [
    | inl stops ↦
        rw stops (recover-Outcome (raised, w) (record { reputations = refl; updated = refl }))
    | inr goes_on ↦
        let reply : Reply =
          env.process_reputation (engine_input group.0 group.1 w.db.reputations) in
        rw goes_on (
          recover-Outcome (after_reply settings env group reply w)
            (after_reply-TryOutcome reply refl))
  ]
