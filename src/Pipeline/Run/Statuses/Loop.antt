-- ===== src/Pipeline/Run/Statuses/Loop.antt =====
-- How `executeRun` ends a run and its steps.
use hamyar_ops.Base.{
  ℕ, ◌≡◌, ◌∙◌, refl, ap, String, true, false, List, [], ◌∷◌, arith, if◌then◌else◌, eq_iff, every,
  Bool-cases, inl, inr, ◌≢◌,
}
use hamyar_ops.Prisma.{Database}
use hamyar_ops.Bull.{JobQueue}
use hamyar_ops.Pipeline.State.{success, failed, Pipeline, Step, Pipelines}
use hamyar_ops.Pipeline.Steps.{Commands}
use hamyar_ops.Pipeline.Run.{fail_run, succeed_run, run_steps}
use hamyar_ops.Pipeline.Run.Statuses.{
  becomes, becomes_twice, step_status, run_status, round, returns, round_self, round_other,
  round-run_status, has_id, has_pending, fail_run_pending, fail_run_self, fail_run_other,
  fail_run-run_status, succeed_run-run_status, succeed_run-step_status,
}

module _ ⦃db : Database⦄ ⦃bull : JobQueue⦄ (cmd : Commands) (now : ℕ) where
  open db use {rows}

  -- One round cmd now, when the step's commands succeed and when they fail.
  run_steps_next :
      (run_id : String) (p : Pipeline) (all rest : List Step) (step : Step) (s : Pipelines)
      → returns cmd now p step ≡ true
      → run_steps cmd now run_id p all (step ∷ rest) s
        ≡ run_steps cmd now run_id p all rest (round cmd now run_id p step s)
  unfolding run_steps
  run_steps_next run_id p all rest step s h = rw h

  run_steps_stop :
      (run_id : String) (p : Pipeline) (all rest : List Step) (step : Step) (s : Pipelines)
      → returns cmd now p step ≡ false
      → run_steps cmd now run_id p all (step ∷ rest) s
        ≡ fail_run cmd now run_id p step all (round cmd now run_id p step s)
  unfolding run_steps
  run_steps_stop run_id p all rest step s h = rw h

  run_steps_end :
      (run_id : String) (p : Pipeline) (all : List Step) (s : Pipelines)
      → run_steps cmd now run_id p all [] s ≡ succeed_run cmd now run_id p s
  unfolding run_steps
  run_steps_end run_id p all s = refl

  -- How the loop ends the run, by whether all the steps that are left return.
  pub run_steps-run_status :
      (run_id : String) (p : Pipeline) (all rest : List Step) (s : Pipelines)
      → run_status run_id (run_steps cmd now run_id p all rest s)
        ≡ becomes (if every (returns cmd now p) rest then success else failed) (run_status run_id s)
  run_steps-run_status run_id p all [] s =
      rw (run_steps_end run_id p all s) (succeed_run-run_status cmd now run_id p s)
  run_steps-run_status run_id p all (step ∷ rest) s = elim (Bool-cases (returns cmd now p step)) [
    | inl succeeded ↦
        rw (run_steps_next run_id p all rest step s succeeded, succeeded)
          (run_steps-run_status run_id p all rest (round cmd now run_id p step s)
            ∙ ap (becomes _) (round-run_status cmd now run_id p step s run_id))
    | inr stopped ↦
        rw (run_steps_stop run_id p all rest step s stopped, stopped)
          (fail_run-run_status cmd now run_id p step all (round cmd now run_id p step s)
            ∙ ap (becomes _) (round-run_status cmd now run_id p step s run_id))
  ]

  -- If all return, a step that is left ends SUCCESS, and any other row is untouched.
  pub run_steps_success :
      (run_id : String) (p : Pipeline) (all rest : List Step) (s : Pipelines) (k : String)
      → every (returns cmd now p) rest ≡ true
      → step_status k (run_steps cmd now run_id p all rest s)
        ≡ (if has_id cmd now k rest then becomes success (step_status k s) else step_status k s)
  run_steps_success run_id p all [] s k h =
      rw (run_steps_end run_id p all s) (succeed_run-step_status cmd now run_id p s k)
  run_steps_success run_id p all (step ∷ rest) s k h =
      let here : returns cmd now p step ≡ true = ground arith in
      rw (run_steps_next run_id p all rest step s here) (
        ground (
          arith,
          here,
          run_steps_success run_id p all rest (round cmd now run_id p step s) k,
          round_self cmd now run_id p step s,
          round_other cmd now run_id p step s k,
          eq_iff step.id k,
        ))

  becomes-failed-round :
      (run_id : String) (p : Pipeline) (step : Step) (s : Pipelines) (k : String)
      → becomes failed (step_status k (round cmd now run_id p step s))
        ≡ becomes failed (step_status k s)
  becomes-failed-round run_id p step s k = ground (
    arith,
    eq_iff step.id k,
    round_self cmd now run_id p step s,
    round_other cmd now run_id p step s k,
    becomes_twice failed (if returns cmd now p step then success else failed) (step_status k s),
  )

  -- If one throws, every step of the run that was pending when the run began ends FAILED.
  pub run_steps_failure :
      (run_id : String) (p : Pipeline) (all rest : List Step) (s : Pipelines) (k : String)
      → every (returns cmd now p) rest ≡ false
      → has_pending cmd now k all ≡ true
      → step_status k (run_steps cmd now run_id p all rest s) ≡ becomes failed (step_status k s)
  run_steps_failure run_id p all [] s k h pend = cc
  run_steps_failure run_id p all (step ∷ rest) s k h pend =
      elim (Bool-cases (returns cmd now p step)) [
        | inl succeeded ↦ rw (run_steps_next run_id p all rest step s succeeded) (
            run_steps_failure run_id p all rest (round cmd now run_id p step s) k (ground arith)
              pend
            ∙ becomes-failed-round run_id p step s k)
        | inr stopped ↦ rw (run_steps_stop run_id p all rest step s stopped) (
            ground (
              arith,
              stopped,
              fail_run_pending cmd now run_id p step all (round cmd now run_id p step s) k pend,
              fail_run_self cmd now run_id p step all (round cmd now run_id p step s),
              becomes-failed-round run_id p step s k,
              round_self cmd now run_id p step s,
              eq_iff step.id k,
            ))
      ]

  -- The rows of no step of the run are untouched.
  pub run_steps_other :
      (run_id : String) (p : Pipeline) (all rest : List Step) (s : Pipelines) (k : String)
      → has_id cmd now k all ≡ false
      → has_id cmd now k rest ≡ false
      → step_status k (run_steps cmd now run_id p all rest s) ≡ step_status k s
  run_steps_other run_id p all [] s k out h =
      rw (run_steps_end run_id p all s) (succeed_run-step_status cmd now run_id p s k)
  run_steps_other run_id p all (step ∷ rest) s k out h =
      let other : k ≢ step.id = ground (arith, eq_iff step.id k) in
      let kept = round_other cmd now run_id p step s k other in
      elim (Bool-cases (returns cmd now p step)) [
        | inl succeeded ↦ rw (run_steps_next run_id p all rest step s succeeded) (
            run_steps_other run_id p all rest (round cmd now run_id p step s) k out (ground arith)
            ∙ kept)
        | inr stopped ↦
            rw (run_steps_stop run_id p all rest step s stopped) (
              fail_run_other cmd now run_id p step all (round cmd now run_id p step s) k out ∙ kept)
      ]
