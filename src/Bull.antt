-- ===== src/Bull.antt =====
-- What the services use of a BullMQ queue: jobs that are added once, and repeatable jobs. The
-- library is not part of the repository, so its queues are a parameter, with the documented effect
-- of each call on what `getRepeatableJobs` returns and on the jobs that wait.
use hamyar_ops.Http.{Handler}
use hamyar_ops.Base.{String, ◌≡◌, not, Option, List, [], ◌∷◌, ◌++◌, str_eq, keep}

-- An entry of `getRepeatableJobs`, with the data that its jobs carry. What the library makes of a job
-- id in these entries is left open.
pub record Repeatable (D : Type 0) : Type 0 where
  pub key : String
  pub name : String
  pub id : Option String
  pub pattern : String
  pub payload : D

-- The addition of a repeatable job throws on a pattern that is not a cron expression.
pub record JobQueue : Type 1 where
  pub Queue : Type 0 → Type 0
  pub repeatable : {D : Type 0} → Queue D → List (Repeatable D)
  pub waiting : {D : Type 0} → Queue D → List (String × D)
  pub add : {D : Type 0} → String → D → Queue D → Queue D
  pub add_repeat : {D : Type 0} → String → D → String → Option String → Handler (Queue D) (Unit {0})
  pub remove_repeatable : {D : Type 0} → String → Queue D → Queue D
  pub waiting-add :
      {D : Type 0} (n : String) (d : D) (q : Queue D)
      → waiting (add n d q) ≡ waiting q ++ (n, d) ∷ []
  pub repeatable-add :
      {D : Type 0} (n : String) (d : D) (q : Queue D) → repeatable (add n d q) ≡ repeatable q
  pub repeatable-remove :
      {D : Type 0} (k : String) (q : Queue D)
      → repeatable (remove_repeatable k q) ≡ keep (λ e. not (str_eq e.key k)) (repeatable q)
