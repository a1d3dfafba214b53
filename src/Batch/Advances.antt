-- ===== src/Batch/Advances.antt =====
-- A run, review by review.
use dost_review_api.Prelude.{
  ◌==◌, eq_iff, ◌≡◌, refl, ap, ◌∙◌, Bool, true, false, not, ◌||◌, some, List, [], ◌∷◌, arith, keep,
  All, All-append, if◌then◌else◌, Bool-cases, inl, inr,
}
use dost_review_api.Models.{Uuid}
use dost_review_api.Review.{Row, find}
use dost_review_api.Review.Laws.{HasUniqueIds, id-find}
use dost_review_api.Batch.Database.{Db, elem}
use dost_review_api.Batch.Claim.{
  Group, claim, claimed, claimed_ids, mark_processing, add_to_group, group_onto, group_by_profile,
}
use dost_review_api.Batch.Engine.{
  Settings, Env, Attempt, finished, ids_of, run_profiles, claimed_work, run_batch,
}
use dost_review_api.Batch.Chosen.{find-update}
use dost_review_api.Batch.Held.{group_ids}
use dost_review_api.Batch.Taken.{elem-group_onto, elem-keep}
use dost_review_api.Batch.Updates.{All-update, All-found}
use dost_review_api.Batch.Others.{run_profiles-Same}
use dost_review_api.Batch.Progress.{Advanced, IsCounted, AllGroups, run_profiles-Advanced}

add-AllGroups :
    (Q : Row → Type 0) (r : Row) (groups : List Group)
    → Q r
    → AllGroups (All Q) groups
    → AllGroups (All Q) (add_to_group r groups)
unfolding add_to_group
add-AllGroups Q r [] h a = ((h, tt), tt)
add-AllGroups Q r ((k, rows) ∷ groups) h a = elim (Bool-cases (k == r.target_profile_id)) [
  | inl e ↦ rw e (All-append Q rows (r ∷ []) a.0 (h, tt), a.1)
  | inr e ↦ rw e (a.0, add-AllGroups Q r groups h a.1)
]

onto-AllGroups :
    (Q : Row → Type 0) (rows : List Row) (groups : List Group)
    → All Q rows
    → AllGroups (All Q) groups
    → AllGroups (All Q) (group_onto groups rows)
unfolding group_onto
onto-AllGroups Q [] groups h a = a
onto-AllGroups Q (r ∷ rows) groups h a =
    onto-AllGroups Q rows (add_to_group r groups) h.1 (add-AllGroups Q r groups h.0 a)

All-keep : (Q : Row → Type 0) (p : Row → Bool) (rows : List Row) → All Q rows → All Q (keep p rows)
All-keep Q p [] h = tt
All-keep Q p (r ∷ rows) h = elim (Bool-cases (p r)) [
  | inl e ↦ rw e (h.0, All-keep Q p rows h.1)
  | inr e ↦ rw e (All-keep Q p rows h.1)
]

not-elem-keep :
    (k : Uuid) (ids : List Uuid) (rows : List Row)
    → elem k ids ≡ false
    → elem k (ids_of (keep (λ r. elem r.id ids) rows)) ≡ false
unfolding elem
not-elem-keep k ids [] h = refl
not-elem-keep k ids (r ∷ rows) h = elim (Bool-cases (elem r.id ids)) [
  | inl e ↦
      let other : (r.id == k) ≡ false = ground (arith, h, e, eq_iff r.id k) in
      rw (e, other) (not-elem-keep k ids rows h)
  | inr e ↦ rw e (not-elem-keep k ids rows h)
]

pub elem-find :
    (k : Uuid) (rows : List Row) (r : Row) → find k rows ≡ some r → elem k (ids_of rows) ≡ true
unfolding elem find
elem-find k [] r e = cc
elem-find k (s ∷ rows) r e = ground (arith, elem-find k rows r)

-- What becomes of a review: whether the run has claimed it decides.
abbrev pub Fate : Settings → Uuid → Row → Bool → List Row → Type 0
Fate settings k r true after =
    (s : Row) × (find k after ≡ some s) × Advanced settings r.retry_count s
Fate settings k r false after = find k after ≡ some r

module _ (settings : Settings) (env : Env) (batch_id : Uuid) (db : Db) (k : Uuid) (r : Row)
    (unique : HasUniqueIds db.reviews) (stored : find k db.reviews ≡ some r) where
  abbrev taken : List Uuid
  taken = claimed_ids env.locked settings.max_reviews_per_batch db.reviews

  abbrev groups : List Group
  groups = group_by_profile (claimed env.locked settings.max_reviews_per_batch batch_id db.reviews)

  -- Every row of the id in the table has the count of the stored one, before the claim and after it.
  rows-IsCounted :
      IsCounted settings env k r.retry_count
        (claim env.locked settings.max_reviews_per_batch batch_id db.reviews)
  unfolding claim mark_processing
  rows-IsCounted =
      All-update (λ s. find s.id db.reviews ≡ some s)
        (λ s. (s.id == k) ≡ true → s.retry_count ≡ r.retry_count) (λ s. elem s.id taken)
        (mark_processing batch_id) db.reviews
        (λ s found. elim (Bool-cases (elem s.id taken)) [
          | inl e ↦ rw e (λ same. same_count s found same)
          | inr e ↦ rw e (λ same. same_count s found same)
        ])
        (All-found db.reviews unique)
    where
      same_count :
          (s : Row)
          → find s.id db.reviews ≡ some s
          → (s.id == k) ≡ true
          → s.retry_count ≡ r.retry_count
      same_count s found same =
          let key : s.id ≡ k = (eq_iff s.id k).0 same in
          cc (found, stored, ap (λ (j : Uuid). find j db.reviews) key)

  groups-IsCounted : AllGroups (IsCounted settings env k r.retry_count) groups
  unfolding group_by_profile claimed
  groups-IsCounted =
      onto-AllGroups (λ s. (s.id == k) ≡ true → s.retry_count ≡ r.retry_count) _ []
        (All-keep (λ s. (s.id == k) ≡ true → s.retry_count ≡ r.retry_count) (λ s. elem s.id taken) _
          rows-IsCounted)
        tt

  pub stored_claim :
      find k (claim env.locked settings.max_reviews_per_batch batch_id db.reviews)
      ≡ some (if elem k taken then mark_processing batch_id r else r)
  unfolding claim mark_processing
  stored_claim =
      rw
        (
          find-update (λ s. elem s.id taken) (mark_processing batch_id) (λ s. refl) k db.reviews,
          stored,
        )
        (ground (arith, id-find k db.reviews r stored))

  pub in_groups : elem k (group_ids groups) ≡ elem k taken
  unfolding group_by_profile claimed
  in_groups = elim (Bool-cases (elem k taken)) [
    | inl e ↦
        rw
          (
            elem-group_onto,
            e,
            elem-keep k taken (claim env.locked settings.max_reviews_per_batch batch_id db.reviews)
                e
                (elem-find k (claim env.locked settings.max_reviews_per_batch batch_id db.reviews) _
                  stored_claim),
          )
          refl
    | inr e ↦
        rw
          (
            elem-group_onto,
            e,
            not-elem-keep k taken
                (claim env.locked settings.max_reviews_per_batch batch_id db.reviews) e,
          )
          (unfold elem in refl)
  ]

  loop-Fate :
      (e : Bool)
      → elem k taken ≡ e
      → ((attempt : Attempt) (j : Uuid) → env.update_fails attempt j ≡ false)
      → (run_profiles settings env groups (claimed_work settings env batch_id db)).0 ≡ finished
      → Fate settings k r e
          (run_profiles settings env groups (claimed_work settings env batch_id db)).1.db.reviews
  unfolding claimed_work
  loop-Fate true is steady ends =
      run_profiles-Advanced settings env k r.retry_count groups
        (claimed_work settings env batch_id db) steady groups-IsCounted
        (inr (in_groups ∙ is, (_, stored_claim))) ends
  loop-Fate false is steady ends =
      run_profiles-Same settings env k groups (claimed_work settings env batch_id db)
        (in_groups ∙ is)
      ∙ rw is at stored_claim

  run-Fate :
      (e : Bool)
      → elem k taken ≡ e
      → ((attempt : Attempt) (j : Uuid) → env.update_fails attempt j ≡ false)
      → (run_batch settings env batch_id db).0 ≡ finished
      → Fate settings k r e (run_batch settings env batch_id db).1.db.reviews
  unfolding run_batch
  run-Fate e is steady ends = elim (Bool-cases (not env.engine_loads || env.claim_fails)) [
    | inl stops ↦ absurd (ground arith)
    | inr goes_on ↦ rw goes_on (loop-Fate e is steady (rw goes_on at ends))
  ]

-- A run that returns, if no update of failed rows raises, brings every review that it has claimed a step
-- further: it is COMMITTED, or FAILED, or GATED again with one failure more and still below the limit. It
-- leaves every other review of the table as it was. Ids are unique, as the primary key has it.
pub run_batch-Fate :
    (settings : Settings) (env : Env) (batch_id : Uuid) (db : Db) (k : Uuid) (r : Row)
    → HasUniqueIds db.reviews
    → find k db.reviews ≡ some r
    → ((attempt : Attempt) (j : Uuid) → env.update_fails attempt j ≡ false)
    → (run_batch settings env batch_id db).0 ≡ finished
    → Fate settings k r
        (elem k (claimed_ids env.locked settings.max_reviews_per_batch db.reviews))
        (run_batch settings env batch_id db).1.db.reviews
run_batch-Fate settings env batch_id db k r unique stored =
    run-Fate settings env batch_id db k r unique stored
      (elem k (claimed_ids env.locked settings.max_reviews_per_batch db.reviews)) refl
