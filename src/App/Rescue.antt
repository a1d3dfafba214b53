-- ===== src/App/Rescue.antt =====
-- What a start of the process repairs after a crash.
use dost_review_api.Prelude.{
  if◌then◌else◌, true, false, ◌==◌, ◌≡◌, refl, some, List, [], ◌∷◌, arith, All, Bool-cases,
  Option-cases, inl, inr,
}
use dost_review_api.Models.{Uuid}
use dost_review_api.Review.{Row, gated, is_processing, find}
use dost_review_api.Batch.Database.{Db}
use dost_review_api.Batch.Engine.{Ended, finished, raised}
use dost_review_api.Batch.Runner.{
  RunnerEnv, is_running, is_stale, stale_ids, requeue_raises, sweep_stale_batches,
}
use dost_review_api.Batch.Orphans.{HasNoOrphans, sweep_clears}
use dost_review_api.Batch.Rescued.{sweep-find}
use dost_review_api.App.Pools.{SqlFile, insert_by_name, sort_by_name, execute_all, run_migrations}
use dost_review_api.App.Lifespan.{
  Config, Process, Outside, Command, next, ◌>>◌, set_api_key, open_pool, migrate, open_onboard,
  sweep, start_jobs, startup,
}

-- From a database with `P`, a command that does not raise makes one with `Q`.
abbrev Takes : {S : Type 0} → (Db → Type 0) → Command S → (Db → Type 0) → Type 0
Takes {S = S} P m Q = (p : Process S) → P p.db → (m p).0 ≡ finished → Q (m p).1.db

module _ {S : Type 0} where
  next-Takes :
      (Q R : Db → Type 0) (k : Command S) (x : Ended × Process S)
      → (x.0 ≡ finished → Q x.1.db)
      → Takes Q k R
      → (next k x).0 ≡ finished
      → R (next k x).1.db
  unfolding next
  next-Takes Q R k (finished, p) h t e = t p (h refl) e
  next-Takes Q R k (raised, p) h t e = cc

  seq-Takes :
      (P Q R : Db → Type 0) (m k : Command S) → Takes P m Q → Takes Q k R → Takes P (m >> k) R
  seq-Takes P Q R m k first second p h = next-Takes Q R k (m p) (first p h) second

-- The tables `review` and `batch_run` are left alone by a migration.
abbrev pub LeavesBatches : SqlFile Db → Type 0
LeavesBatches f =
    (db after : Db)
    → f.execute db ≡ some after
    → (after.reviews ≡ db.reviews) × (after.runs ≡ db.runs)

insert-All :
    (P : SqlFile Db → Type 0) (f : SqlFile Db) (files : List (SqlFile Db))
    → P f
    → All P files
    → All P (insert_by_name f files)
unfolding insert_by_name
insert-All P f [] h a = (h, tt)
insert-All P f (g ∷ files) h a = ground (arith, insert-All P f files h a.1)

sort-All :
    (P : SqlFile Db → Type 0) (files : List (SqlFile Db)) → All P files → All P (sort_by_name files)
unfolding sort_by_name
sort-All P [] a = tt
sort-All P (f ∷ files) a = insert-All P f (sort_by_name files) a.0 (sort-All P files a.1)

-- Nothing in PROCESSING is without a RUNNING run, and every RUNNING run is stale: the process died.
pub record IsCrashed (renv : RunnerEnv) (db : Db) : Type 0 where
  pub owned : HasNoOrphans db
  pub stale : All (λ b. is_running b.status ≡ true → is_stale renv b ≡ true) db.runs

-- The same, with this row under this id; and what is made of it.
abbrev Holds : RunnerEnv → Uuid → Row → Db → Type 0
Holds renv k r db = IsCrashed renv db × (find k db.reviews ≡ some r)

abbrev IsRescued : Uuid → Row → Db → Type 0
IsRescued k r db =
    (find k db.reviews ≡ some (if is_processing r.status then record r { status = gated } else r))
    × All (λ x. is_processing x.status ≡ false) db.reviews

Holds-same :
    (renv : RunnerEnv) (k : Uuid) (r : Row) (db after : Db)
    → after.reviews ≡ db.reviews
    → after.runs ≡ db.runs
    → Holds renv k r db
    → Holds renv k r after
Holds-same renv k r db after er eu (c, found) =
    (record { owned = rw (er, eu) c.owned; stale = rw eu c.stale }, rw er found)

execute-Holds :
    (renv : RunnerEnv) (k : Uuid) (r : Row) (files : List (SqlFile Db)) (db : Db)
    → All LeavesBatches files
    → Holds renv k r db
    → Holds renv k r (execute_all files db).1
unfolding execute_all
execute-Holds renv k r [] db a c = c
execute-Holds renv k r (f ∷ files) db a c = elim (Option-cases (f.execute db)) [
  | inl e ↦ rw (e, execute_all) c
  | inr (after, e) ↦
      let (er, eu) = a.0 db after e in
      rw (e, execute_all)
        (execute-Holds renv k r files after a.1 (Holds-same renv k r db after er eu c))
]

swept_clean :
    (renv : RunnerEnv) (k : Uuid) (r : Row) (db : Db)
    → Holds renv k r db
    → (sweep_stale_batches renv db).0 ≡ finished
    → IsRescued k r (sweep_stale_batches renv db).1
swept_clean renv k r db (c, found) e =
    elim (Bool-cases (requeue_raises renv (stale_ids renv db.runs))) [
      | inl fails ↦ absurd (unfold sweep_stale_batches in ground arith)
      | inr fine ↦ (
        sweep-find renv db k r fine c.owned c.stale found,
        sweep_clears renv db fine c.owned c.stale,
      )
    ]

module _ {S : Type 0} (outside : Outside S) (config : Config) where
  set_api_key-Takes : (P : Db → Type 0) → Takes P (set_api_key {S = S} config) P
  unfolding set_api_key
  set_api_key-Takes P q c e = c

  open_pool-Takes : (P : Db → Type 0) → Takes P (open_pool outside config) P
  unfolding open_pool
  open_pool-Takes P q c e = c

  migrate-Takes :
      All LeavesBatches outside.migrations
      → (k : Uuid) (r : Row)
      → Takes (Holds outside.runner k r) (migrate outside) (Holds outside.runner k r)
  unfolding migrate run_migrations
  migrate-Takes leaves k r q c e =
      execute-Holds outside.runner k r (sort_by_name outside.migrations) q.db
        (sort-All LeavesBatches outside.migrations leaves) c

  open_onboard-Takes : (P : Db → Type 0) → Takes P (open_onboard outside config) P
  unfolding open_onboard
  open_onboard-Takes P q c e = elim (Bool-cases (config.onboard_database_url == "")) [
    | inl unset ↦ rw unset c
    | inr set ↦ rw set c
  ]

  sweep-Takes :
      (k : Uuid) (r : Row) → Takes (Holds outside.runner k r) (sweep outside) (IsRescued k r)
  unfolding sweep
  sweep-Takes k r q c e = swept_clean outside.runner k r q.db c e

  start_jobs-Takes : (P : Db → Type 0) → Takes P (start_jobs outside config) P
  unfolding start_jobs
  start_jobs-Takes P q c e = c

-- When a process has died and every RUNNING run is stale, the next start, if it gets as far as serving
-- requests, makes each review that was in PROCESSING GATED, with all its other columns as they were, leaves
-- every other review as it was, and so leaves none in PROCESSING. The conditions are that every review in
-- PROCESSING belonged to a RUNNING run, which a requeue that raised may have broken, and that the migrations
-- leave the tables of the batch alone.
pub startup-rescues :
    {S : Type 0} (outside : Outside S) (config : Config) (p : Process S) (k : Uuid) (r : Row)
    → All LeavesBatches outside.migrations
    → IsCrashed outside.runner p.db
    → (startup outside config p).0 ≡ finished
    → find k p.db.reviews ≡ some r
    → (find k (startup outside config p).1.db.reviews
        ≡ some (if is_processing r.status then record r { status = gated } else r))
      × All (λ x. is_processing x.status ≡ false) (startup outside config p).1.db.reviews
unfolding startup
startup-rescues {S = S} outside config p k r leaves crashed served found =
    let C : Db → Type 0 = Holds outside.runner k r in
    let D : Db → Type 0 = IsRescued k r in
    let tail : Command S = sweep outside >> start_jobs outside config in
    let rest : Command S = open_onboard outside config >> tail in
    seq-Takes C C D (set_api_key config) (open_pool outside config >> (migrate outside >> rest))
      (set_api_key-Takes outside config C)
      (seq-Takes C C D (open_pool outside config) (migrate outside >> rest)
        (open_pool-Takes outside config C)
        (seq-Takes C C D (migrate outside) rest (migrate-Takes outside config leaves k r) (
          seq-Takes C C D (open_onboard outside config) tail (open_onboard-Takes outside config C) (
            seq-Takes C D D (sweep outside) (start_jobs outside config)
              (sweep-Takes outside config k r) (start_jobs-Takes outside config D)))))
      p (crashed, found) served
