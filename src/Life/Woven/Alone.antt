-- ===== src/Life/Woven/Alone.antt =====
-- The steps of a run, one after another with nothing in between, lead where `run_batch_to_completion` leads.
use dost_review_api.Prelude.{
  Bool-cases, inl, inr, subst, ap, ◌∙◌, ◌≡◌, refl, Bool, true, false, not, ◌||◌, Option, none, some,
  List, [], ◌∷◌, ◌++◌, if◌then◌else◌,
}
use dost_review_api.Models.{Uuid}
use dost_review_api.Review.{Row}
use dost_review_api.Batch.Database.{
  EngineInput, Reply, raises, engine_error, output, Stats, no_stats, Db,
}
use dost_review_api.Batch.Claim.{Group, claimed, group_by_profile}
use dost_review_api.Batch.Engine.{
  Attempt, in_try, in_except, handle_failed, fail_row, commit_profile, will_retry_of, engine_input,
  try_profile, after_reply, recover, Settings, Env, Ended, finished, raised, Work, claimed_work,
  process_profile, and_then, run_profiles, run_batch,
}
use dost_review_api.Batch.Runner.{
  RunnerEnv, start_batch, finish_run, run_batch_to_completion, after_start, execute_batch,
}
use dost_review_api.Life.Woven.{
  Phase, started, working, broken, Active, with_started, claim_step, phase_after, turn_step,
  ended_as, end_step, Weaves, starts, claims, asks, unread, answers, answering, ask_step, asked,
  ends,
}

-- What the engine has answered makes no difference to what follows the answer.
module _ (settings : Settings) (env : Env) (given : Reply) where
  same-handle_failed :
      (attempt : Attempt) (will_retry : Bool) (rows : List Row) (w : Work)
      → handle_failed settings (answering env given) attempt will_retry rows w
        ≡ handle_failed settings env attempt will_retry rows w
  unfolding handle_failed
  same-handle_failed attempt will_retry [] w = refl
  same-handle_failed attempt will_retry (row ∷ rows) w =
      ap (λ (r : Ended × Work). if env.update_fails attempt row.id then (raised, w) else r)
        (same-handle_failed attempt will_retry rows (fail_row settings env.now will_retry row w))

  same-reply :
      (g : Group) (reply : Reply) (w : Work)
      → after_reply settings (answering env given) g reply w ≡ after_reply settings env g reply w
  unfolding after_reply commit_profile
  same-reply g raises w = refl
  same-reply g (engine_error wr) w = same-handle_failed in_try (will_retry_of wr) g.1 w
  same-reply g (output o) w = refl

  same-recover :
      (g : Group) (r : Ended × Work)
      → recover settings (answering env given) g r ≡ recover settings env g r
  unfolding recover
  same-recover g (finished, w) = refl
  same-recover g (raised, w) = same-handle_failed in_except true g.1 w

-- With nothing in between, the answer is to what is stored.
answered :
    (settings : Settings) (env : Env) (g : Group) (w : Work)
    → env.load_fails g.0 ≡ false
    → process_profile settings
        (answering env (env.process_reputation (engine_input g.0 g.1 w.db.reputations)))
        g
        w
      ≡ process_profile settings env g w
unfolding process_profile try_profile
answered settings env g w loads =
    let reply : Reply = env.process_reputation (engine_input g.0 g.1 w.db.reputations) in
    rw loads (
      same-recover settings env reply g (after_reply settings (answering env reply) g reply w)
      ∙ ap (recover settings env g) (same-reply settings env reply g reply w))

module _ (s : Db) (settings : Settings) (env : Env) (renv : RunnerEnv) (id : Uuid)
    (before after : List Active) where
  abbrev with_run : Phase → Stats → List Active
  with_run phase stats = before ++ record { id = id; phase = phase; stats = stats } ∷ after

  end-Weaves :
      (phase : Phase) (e : Ended) (w : Work)
      → ended_as phase ≡ some e
      → Weaves s w.db (with_run phase w.stats)
      → Weaves s (finish_run renv id (e, w)).1 (before ++ after)
  end-Weaves phase e w ended weave =
      unfold end_step in
      ends weave renv before after (record { id = id; phase = phase; stats = w.stats }) e refl ended

  then-Weaves :
      (groups : List Group) (next : Work → Ended × Work) (r : Ended × Work)
      → ((w : Work)
          → Weaves s w.db (with_run (working groups) w.stats)
          → Weaves s (finish_run renv id (next w)).1 (before ++ after))
      → Weaves s r.1.db (with_run (phase_after r.0 groups) r.1.stats)
      → Weaves s (finish_run renv id (and_then next r)).1 (before ++ after)
  unfolding and_then phase_after
  then-Weaves groups next (finished, w) rest weave = rest w weave
  then-Weaves groups next (raised, w) rest weave =
      end-Weaves broken raised w (unfold ended_as in refl) weave

  -- One round of the loop, in one step or in two.
  round-Weaves :
      (g : Group) (groups : List Group) (w : Work)
      → Weaves s w.db (with_run (working (g ∷ groups)) w.stats)
      → Weaves s (process_profile settings env g w).1.db (
          with_run
            (phase_after (process_profile settings env g w).0 groups)
            (process_profile settings env g w).1.stats)
  round-Weaves g groups w weave = elim (Bool-cases (env.load_fails g.0)) [
    | inl fails ↦
        unfold turn_step in
        unread weave settings env before after
          (record { id = id; phase = working (g ∷ groups); stats = w.stats }) g groups refl refl
          fails
    | inr loads ↦
        let input : EngineInput = engine_input g.0 g.1 w.db.reputations in
        let waiting : Weaves s w.db (with_run (asked g groups input) w.stats) =
          unfold ask_step in
          asks weave env before after
            (record { id = id; phase = working (g ∷ groups); stats = w.stats }) g groups refl refl
            loads in
        subst (λ (r : Ended × Work). Weaves s r.1.db (with_run (phase_after r.0 groups) r.1.stats))
          (answered settings env g w loads)
          (unfold turn_step in
            answers waiting settings env before after
              (record { id = id; phase = asked g groups input; stats = w.stats }) g groups input
              refl refl)
  ]

  loop-Weaves :
      (groups : List Group) (w : Work)
      → Weaves s w.db (with_run (working groups) w.stats)
      → Weaves s (finish_run renv id (run_profiles settings env groups w)).1 (before ++ after)
  unfolding run_profiles
  loop-Weaves [] w weave = end-Weaves (working []) finished w (unfold ended_as in refl) weave
  loop-Weaves (g ∷ groups) w weave =
      then-Weaves groups (run_profiles settings env groups) (process_profile settings env g w)
        (λ v next. loop-Weaves groups v next) (round-Weaves g groups w weave)

  -- What follows the claim.
  abbrev next_of : Bool → List Group → Work → Work → Active × Db
  next_of stops groups v w =
      if stops
      then (record { id = id; phase = broken; stats = v.stats }, v.db)
      else (record { id = id; phase = working groups; stats = w.stats }, w.db)

  claimed-Weaves :
      (stops : Bool) (groups : List Group) (v w : Work)
      → Weaves s (next_of stops groups v w).1 (before ++ (next_of stops groups v w).0 ∷ after)
      → Weaves s
          (finish_run renv id (if stops then (raised, v) else run_profiles settings env groups w)).1
          (before ++ after)
  claimed-Weaves true groups v w weave = end-Weaves broken raised v (unfold ended_as in refl) weave
  claimed-Weaves false groups v w weave = loop-Weaves groups w weave

  -- The claim, the question and the answer for each profile that the loop comes to, and the end lead where
  -- `run_batch_to_completion` leads, whatever other runs are going on.
  pub complete-Weaves :
      (db : Db) (stats : Stats)
      → Weaves s db (with_run started stats)
      → Weaves s (run_batch_to_completion settings env renv id db).1 (before ++ after)
  unfolding run_batch_to_completion run_batch
  complete-Weaves db stats weave =
      claimed-Weaves (not env.engine_loads || env.claim_fails)
        (group_by_profile (claimed env.locked settings.max_reviews_per_batch id db.reviews))
        (record { db = db; stats = no_stats }) (claimed_work settings env id db)
        (unfold claim_step in
          claims weave settings env before after
            (record { id = id; phase = started; stats = stats }) refl refl)

-- The database that `execute_batch` leaves can be reached by single steps too, with no run going on before
-- or after them.
pub execute-Weaves :
    (s db : Db) (settings : Settings) (env : Env) (renv : RunnerEnv) (fresh : Uuid)
    → Weaves s db []
    → Weaves s (execute_batch settings env renv fresh db).1 []
unfolding execute_batch with_started after_start
execute-Weaves s db settings env renv fresh weave =
    go (start_batch renv fresh db) (starts weave renv fresh tt)
  where
    go :
        (r : Option (Uuid × Bool) × Db)
        → Weaves s r.1 (with_started r.0 [])
        → Weaves s (after_start settings env renv r).1 []
    go (none, db') next = next
    go (some (id, false), db') next = next
    go (some (id, true), db') next = complete-Weaves s settings env renv id [] [] db' no_stats next
