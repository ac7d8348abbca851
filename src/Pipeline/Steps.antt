-- ===== src/Pipeline/Steps.antt =====
-- `executeStep` of pipeline.service.ts: the lines that it logs, and what it returns or throws. The
-- commands that it runs on a server or locally, and the health request, are a parameter: `docker`
-- gives the two outputs of the local command as the code joins them.
use hamyar_ops.Base.{
  ℕ, String, Bool, true, false, ◌||◌, Option, none, some, List, [], ◌∷◌, if◌then◌else◌, ltb, leb,
  or_else, ◌<>◌, truthy, str_eq,
}
use hamyar_ops.Pipeline.State.{
  Strategy, rolling, blue_green, restart, other, BuildMode, remotely, StepName, build, push, deploy,
  verify, roll_back, Pipeline,
}

-- The answer of `executeRemoteCommand`.
pub record RemoteResult : Type 0 where
  pub success : Bool
  pub output : String
  pub failure : Option String

-- `executeRemoteCommand` answers, or throws the message of an error, as for a server that is gone.
pub data Asked : Type 0 where
  answered : RemoteResult → Asked
  refused : String → Asked

-- A returned text, or the message of a thrown error.
pub data Outcome : Type 0 where
  returned : String → Outcome
  thrown : String → Outcome

-- An HTTP status, or the message of a failed request.
pub data Fetched : Type 0 where
  status : ℕ → Fetched
  unreachable : String → Fetched

pub record Commands : Type 0 where
  pub remote : String → String → Asked
  pub docker : List String → Outcome
  pub fetch : String → Fetched
  pub lines : String → List String
  pub decimal : ℕ → String

abbrev pub Logged : Type 0
Logged = List String × Outcome

abbrev join_lines : String → String → String → String
join_lines a b c = a <> ("\n" <> (b <> ("\n" <> c)))

module _ (cmd : Commands) where
  -- `emit(r.output || ''); if (!r.success) throw new Error(r.error ?? message); return r.output`
  abbrev checked : String → Asked → Logged
  checked message (refused e) = ([], thrown e)
  checked message (answered r) =
      (r.output ∷ [], if r.success then returned r.output else thrown (or_else r.failure message))

  abbrev after_line : String → Logged → Logged
  after_line line (more, result) = (line ∷ more, result)

  -- `out.split('\n').forEach(emit); return out`
  abbrev local_output : Outcome → Logged
  local_output (returned out) = (cmd.lines out, returned out)
  local_output (thrown message) = ([], thrown message)

  -- `if (serverId)`
  abbrev on_server : Option String → (String → Logged) → Logged → Logged
  on_server none run without = without
  on_server (some server) run without = if str_eq server "" then without else run server

  abbrev is_remote : BuildMode → Bool
  is_remote remotely = true
  is_remote _ = false

  abbrev context : Pipeline → String
  context p = if truthy p.context_path then or_else p.context_path "." else "."

  unfoldable pub run_build : Pipeline → String → Logged
  run_build p tag =
      let local = local_output (cmd.docker ("build" ∷ "-t" ∷ tag ∷ context p ∷ [])) in
      after_line ("Building image " <> (tag <> "...")) (
        if is_remote p.build_mode
        then on_server p.server_id
            (λ server.
              checked "Remote build failed"
                (cmd.remote server ("docker build -t " <> (tag <> (" " <> context p)))))
            local
        else local)

  unfoldable pub run_push : Pipeline → String → Logged
  run_push p tag = after_line ("Pushing image " <> (tag <> "...")) (
      on_server p.server_id
        (λ server. checked "Push failed" (cmd.remote server ("docker push " <> tag)))
        (local_output (cmd.docker ("push" ∷ tag ∷ []))))

  -- The three commands of a blue-green deployment. The answer of the second one is not checked.
  abbrev with_answer : Asked → (RemoteResult → Logged) → Logged
  with_answer (refused e) next = ([], thrown e)
  with_answer (answered r) next = after_line r.output (next r)

  -- The second command's success is not asked for, but what it throws ends the step.
  unfoldable pub blue_green_deploy : String → String → Logged
  blue_green_deploy server app = after_line "Starting blue-green deployment..." (
      with_answer
        (cmd.remote server (
          "docker compose pull && docker compose up -d --no-deps --scale "
          <> (app <> ("=2 " <> app))))
        λ r1.
          if r1.success
          then after_line "Switching traffic to new instance..." (
              with_answer (cmd.remote server "nginx -s reload 2>/dev/null || true") λ r2.
                with_answer
                  (cmd.remote server
                    ("docker compose up -d --no-deps --scale " <> (app <> ("=1 " <> app))))
                  λ r3. (
                    [],
                    if r3.success
                        then returned (join_lines r1.output r2.output r3.output)
                        else thrown (or_else r3.failure "Blue-green scale-down failed"),
                  ))
          else ([], thrown (or_else r1.failure "Blue-green start failed")))

  unfoldable pub deploy_by : Strategy → String → String → Logged
  unfolding blue_green_deploy
  deploy_by restart app server =
      checked "pm2 reload failed" (cmd.remote server ("pm2 reload " <> (app <> " --update-env")))
  deploy_by rolling app server =
      checked "Rolling deploy failed"
        (cmd.remote server ("docker compose pull && docker compose up -d --no-deps " <> app))
  deploy_by blue_green app server = blue_green_deploy server app
  deploy_by (other s) app server = ([], thrown ("Unknown strategy: " <> s))

  unfoldable pub strategy_text : Strategy → String
  strategy_text restart = "restart"
  strategy_text rolling = "rolling"
  strategy_text blue_green = "blue-green"
  strategy_text (other s) = s

  unfoldable pub run_deploy : Pipeline → String → Logged
  unfolding deploy_by strategy_text
  run_deploy p app =
      after_line ("Deploying " <> (app <> (" using strategy: " <> strategy_text p.strategy))) (
        on_server p.server_id (deploy_by p.strategy app)
          ([], thrown "No server configured for deploy step"))

  -- The thrown status is caught by the same `try`, and is thrown again with the prefix.
  unfoldable pub health_result : Fetched → Logged
  health_result (unreachable message) = ([], thrown ("Health check failed: " <> message))
  health_result (status n) =
      if ltb n 200 || leb 400 n
      then ([], thrown ("Health check failed: Health check returned " <> cmd.decimal n))
      else (
        ("Health check passed: " <> cmd.decimal n) ∷ [],
        returned ("Health check OK: " <> cmd.decimal n),
      )

  unfoldable pub run_verify : Pipeline → String → Logged
  unfolding health_result
  run_verify p app =
      let by_server =
        on_server p.server_id
          (λ server. checked "Verify failed" (
            cmd.remote server (
              "pm2 show "
              <> (app <> (" | grep -E \"status|online\" || docker compose ps " <> app)))))
          ("No health URL or server configured; skipping verify" ∷ [], returned "Skipped") in
      after_line ("Verifying " <> (app <> "...")) (elim p.health_url [
        | none ↦ by_server
        | some url ↦ if str_eq url "" then by_server else health_result (cmd.fetch url)
      ])

  unfoldable pub run_rollback : Pipeline → String → Logged
  run_rollback p app = after_line ("Rolling back " <> (app <> "...")) (
      on_server p.server_id
        (λ server. checked "Rollback failed" (
          cmd.remote server
            ("pm2 reload " <> (app <> (" 2>/dev/null || docker compose up -d --no-deps " <> app)))))
        ([], thrown "No server configured for rollback"))

  unfoldable pub execute_step : StepName → Pipeline → Logged
  unfolding run_build run_push run_deploy run_verify run_rollback
  execute_step name p =
      let tag = or_else p.image_tag (or_else p.app_name "app:latest") in
      let app = or_else p.app_name "app" in
      elim name [
        | build ↦ run_build p tag
        | push ↦ run_push p tag
        | deploy ↦ run_deploy p app
        | verify ↦ run_verify p app
        | roll_back ↦ run_rollback p app
      ]
