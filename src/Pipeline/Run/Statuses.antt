-- ===== src/Pipeline/Run/Statuses.antt =====
-- The statuses of the rows of steps and runs, and what one round of the loop of `executeRun` and the
-- writes after it do to them.
pub mod Loop
use hamyar_ops.Base.{
  ℕ, ◌≡◌, ◌∙◌, refl, sym, ap, String, Bool, true, false, ◌&&◌, not, Option, none, some, List, [],
  ◌∷◌, ◌++◌, arith, if◌then◌else◌, str_eq, eq_iff, keep, any, every, first, amend, Bool-cases,
  Option-cases, inl, inr, ◌⊎◌, ◌≢◌,
}
use mathlib.Core.List.{Memᴰ}
use hamyar_ops.Prisma.{Database, find_first}
use hamyar_ops.Bull.{JobQueue}
use hamyar_ops.Pipeline.State.{
  Status, pending, running, success, failed, Pipeline, Run, Step, is_pending, Pipelines,
}
use hamyar_ops.Pipeline.Steps.{Commands, Logged, execute_step}
use hamyar_ops.Pipeline.Run.{
  has_returned, status_of, start_step, finish_step, remaining_steps, is_listed, fail_run,
  succeed_run, run_steps, steps_of, execute_run,
}

-- The status of the row with an id.
abbrev pub status_in : String → List Step → Option Status
status_in k [] = none
status_in k (t ∷ ts) = if str_eq t.id k then some t.status else status_in k ts

abbrev pub run_status_in : String → List Run → Option Status
run_status_in k [] = none
run_status_in k (t ∷ ts) = if str_eq t.id k then some t.status else run_status_in k ts

-- The status of a row that is overwritten, if there is one.
abbrev pub becomes : Status → Option Status → Option Status
becomes v none = none
becomes v (some _) = some v

becomes_twice : (v w : Status) (o : Option Status) → becomes v (becomes w o) ≡ becomes v o
becomes_twice v w none = refl
becomes_twice v w (some _) = refl

-- An update of the rows that pass `q` to one status.
status_in-amend :
    (k : String) (q : Step → Bool) (f : Step → Step) (v : Status) (ts : List Step)
    → ((t : Step) → (f t).id ≡ t.id)
    → ((t : Step) → (f t).status ≡ v)
    → ((t : Step) → t.id ≡ k → q t ≡ true)
    → status_in k (amend q f ts) ≡ becomes v (status_in k ts)
status_in-amend k q f v [] same to hit = refl
status_in-amend k q f v (t ∷ ts) same to hit =
    ground (arith, same t, to t, hit t, eq_iff t.id k, status_in-amend k q f v ts same to hit)

status_in-amend_other :
    (k : String) (q : Step → Bool) (f : Step → Step) (ts : List Step)
    → ((t : Step) → (f t).id ≡ t.id)
    → ((t : Step) → t.id ≡ k → q t ≡ false)
    → status_in k (amend q f ts) ≡ status_in k ts
status_in-amend_other k q f [] same miss = refl
status_in-amend_other k q f (t ∷ ts) same miss =
    ground (arith, same t, miss t, eq_iff t.id k, status_in-amend_other k q f ts same miss)

pub run_status_in-amend :
    (k : String) (f : Run → Run) (v : Status) (ts : List Run)
    → ((t : Run) → (f t).id ≡ t.id)
    → ((t : Run) → (f t).status ≡ v)
    → run_status_in k (amend (λ t. str_eq t.id k) f ts) ≡ becomes v (run_status_in k ts)
run_status_in-amend k f v [] same to = refl
run_status_in-amend k f v (t ∷ ts) same to =
    ground (arith, same t, to t, eq_iff t.id k, run_status_in-amend k f v ts same to)

module _ ⦃db : Database⦄ ⦃bull : JobQueue⦄ where
  open db use {rows, update_many}

  -- The status of a step's row, and of a run's row.
  abbrev pub step_status : String → Pipelines → Option Status
  step_status k s = status_in k (rows s.steps)

  abbrev pub run_status : String → Pipelines → Option Status
  run_status k s = run_status_in k (rows s.runs)

module _ ⦃db : Database⦄ ⦃bull : JobQueue⦄ (cmd : Commands) (now : ℕ) where
  open db use {rows, update_many}

  abbrev round : String → Pipeline → Step → Pipelines → Pipelines
  round run_id p step s =
      finish_step cmd now run_id p step (execute_step cmd step.name p)
        (start_step cmd now run_id p step s)

  -- The step's commands are carried out without an error.
  abbrev pub returns : Pipeline → Step → Bool
  returns p step = has_returned cmd now (execute_step cmd step.name p).1

  round_self :
      (run_id : String) (p : Pipeline) (step : Step) (s : Pipelines)
      → step_status step.id (round run_id p step s)
        ≡ becomes (if returns p step then success else failed) (step_status step.id s)
  unfolding start_step finish_step
  round_self run_id p step s =
      rw (db.rows-update_many, db.rows-update_many)
        (status_in-amend step.id (λ t. str_eq t.id step.id) _ _ _ (λ t. refl) (λ t. refl)
            (λ t e. (eq_iff _ _).1 e)
          ∙ (ap (becomes _) (
                status_in-amend step.id (λ t. str_eq t.id step.id) _ _ (rows s.steps) (λ t. refl)
                  (λ t. refl) (λ t e. (eq_iff _ _).1 e))
              ∙ becomes_twice _ _ _))

  round_other :
      (run_id : String) (p : Pipeline) (step : Step) (s : Pipelines) (k : String)
      → k ≢ step.id
      → step_status k (round run_id p step s) ≡ step_status k s
  unfolding start_step finish_step
  round_other run_id p step s k other =
      rw (db.rows-update_many, db.rows-update_many)
        (status_in-amend_other k (λ t. str_eq t.id step.id) _ _ (λ t. refl) (λ t e. ne t e)
          ∙ status_in-amend_other k (λ t. str_eq t.id step.id) _ (rows s.steps) (λ t. refl)
              (λ t e. ne t e))
    where
      ne : (t : Step) → t.id ≡ k → str_eq t.id step.id ≡ false
      ne t e = ground (arith, eq_iff t.id step.id)

  round-run_status :
      (run_id : String) (p : Pipeline) (step : Step) (s : Pipelines) (k : String)
      → run_status k (round run_id p step s) ≡ run_status k s
  unfolding start_step finish_step
  round-run_status run_id p step s k = refl

  -- Whether some step has this id, and whether some step with it was pending.
  abbrev pub has_id : String → List Step → Bool
  has_id k = any (λ t. str_eq t.id k)

  abbrev pub has_pending : String → List Step → Bool
  has_pending k = any (λ t. str_eq t.id k && is_pending t.status)

  listed_of_pending :
      (k : String) (step : Step) (all : List Step) (t : Step)
      → has_pending k all ≡ true
      → k ≢ step.id
      → t.id ≡ k
      → is_listed cmd now (remaining_steps cmd now step all) t ≡ true
  listed_of_pending k step [] t h other e = cc
  listed_of_pending k step (x ∷ xs) t h other e =
      ground
        (arith, eq_iff x.id k, eq_iff x.id step.id, eq_iff x.id t.id, listed_of_pending k step xs t)

  unlisted_self :
      (step : Step) (all : List Step) (t : Step)
      → t.id ≡ step.id
      → is_listed cmd now (remaining_steps cmd now step all) t ≡ false
  unlisted_self step [] t e = refl
  unlisted_self step (x ∷ xs) t e =
      ground (arith, eq_iff x.id step.id, eq_iff x.id t.id, unlisted_self step xs t)

  unlisted_other :
      (k : String) (step : Step) (all : List Step) (t : Step)
      → has_id k all ≡ false
      → t.id ≡ k
      → is_listed cmd now (remaining_steps cmd now step all) t ≡ false
  unlisted_other k step [] t h e = refl
  unlisted_other k step (x ∷ xs) t h e =
      ground (arith, eq_iff x.id k, eq_iff x.id t.id, unlisted_other k step xs t)

  fail_run_pending :
      (run_id : String) (p : Pipeline) (step : Step) (all : List Step) (s : Pipelines) (k : String)
      → has_pending k all ≡ true
      → k ≢ step.id
      → step_status k (fail_run cmd now run_id p step all s) ≡ becomes failed (step_status k s)
  unfolding fail_run
  fail_run_pending run_id p step all s k h other = rw db.rows-update_many (
      status_in-amend k _ _ _ (rows s.steps) (λ t. refl) (λ t. refl)
        (λ t e. listed_of_pending k step all t h other e))

  fail_run_self :
      (run_id : String) (p : Pipeline) (step : Step) (all : List Step) (s : Pipelines)
      → step_status step.id (fail_run cmd now run_id p step all s) ≡ step_status step.id s
  unfolding fail_run
  fail_run_self run_id p step all s = rw db.rows-update_many (
      status_in-amend_other step.id _ _ (rows s.steps) (λ t. refl)
        (λ t e. unlisted_self step all t e))

  fail_run_other :
      (run_id : String) (p : Pipeline) (step : Step) (all : List Step) (s : Pipelines) (k : String)
      → has_id k all ≡ false
      → step_status k (fail_run cmd now run_id p step all s) ≡ step_status k s
  unfolding fail_run
  fail_run_other run_id p step all s k h = rw db.rows-update_many (
      status_in-amend_other k _ _ (rows s.steps) (λ t. refl)
        (λ t e. unlisted_other k step all t h e))

  fail_run-run_status :
      (run_id : String) (p : Pipeline) (step : Step) (all : List Step) (s : Pipelines)
      → run_status run_id (fail_run cmd now run_id p step all s)
        ≡ becomes failed (run_status run_id s)
  unfolding fail_run
  fail_run-run_status run_id p step all s =
      rw db.rows-update_many (run_status_in-amend run_id _ _ (rows s.runs) (λ t. refl) (λ t. refl))

  succeed_run-run_status :
      (run_id : String) (p : Pipeline) (s : Pipelines)
      → run_status run_id (succeed_run cmd now run_id p s) ≡ becomes success (run_status run_id s)
  unfolding succeed_run
  succeed_run-run_status run_id p s =
      rw db.rows-update_many (run_status_in-amend run_id _ _ (rows s.runs) (λ t. refl) (λ t. refl))

  succeed_run-step_status :
      (run_id : String) (p : Pipeline) (s : Pipelines) (k : String)
      → step_status k (succeed_run cmd now run_id p s) ≡ step_status k s
  unfolding succeed_run
  succeed_run-step_status run_id p s k = refl
