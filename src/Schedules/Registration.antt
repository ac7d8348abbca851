-- ===== src/Schedules/Registration.antt =====
-- One repeatable job by its job id: what `registerJob` and `removeJob`, `register` and `unregister`
-- do to a queue.
use hamyar_ops.Base.{String, none, some, is_text, first}
use hamyar_ops.Http.{Handler}
use hamyar_ops.Bull.{Repeatable, JobQueue}

module _ {D : Type 0} ⦃bull : JobQueue⦄ where
  open bull use {Queue, repeatable, add_repeat, remove_repeatable}

  unfoldable pub register : String → String → D → Handler (Queue D) (Unit {0})
  register id cron d = add_repeat "run" d cron (some id)

  unfoldable pub unregister : String → Queue D → Queue D
  unregister id q = elim (first (λ (e : Repeatable D). is_text e.id id) (repeatable q)) [
    | none ↦ q
    | some e ↦ remove_repeatable e.key q
  ]
