-- ===== src/Infra/Processes.antt =====
-- The machine that a worker runs programs on, and the lines that it reads from a child process as
-- terraform.service.ts does. `fs`, `path.join`, and `spawn` are parameters; texts are lists of
-- UTF-16 code units.
use hamyar_ops.Base.{ℕ, zero, suc, Bool, not, Option, none, some, List, [], ◌∷◌, ◌++◌, keep, codes}
use hamyar_ops.Base.Chars.Numbers.{decimal}
use hamyar_ops.Base.Chars.{Text, split, is_empty, trim}

pub data Stream : Type 0 where
  stdout : Stream
  stderr : Stream

-- How a child process ends: with a code, by a signal, or it could not be started.
pub data Ended : Type 0 where
  closed : ℕ → Ended
  killed : Ended
  not_started : Text → Ended

-- What a child process has written, in the order and the portions of its `data` events.
pub record Spawned : Type 0 where
  pub chunks : List (Text × Stream)
  pub ended : Ended

-- A call that can throw gives the message of its error, if it does.
pub record Machine : Type 1 where
  pub World : Type 0
  pub join_path : Text → Text → Text
  pub write_file : Text → Text → World → Option Text × World
  pub make_dir : Text → World → Option Text × World
  pub exists : Text → World → Bool
  pub remove_dir : Text → World → World
  pub unlink : Text → World → World
  pub spawn : Text → List Text → World → Spawned × World

-- `text.split('\n').filter((l) => l.trim())`
unfoldable pub lines_of : Text → List Text
lines_of text = keep (λ l. not (is_empty (trim l))) (split b'\n' text)

abbrev pub on_stream : Stream → List Text → List (Text × Stream)
on_stream st [] = []
on_stream st (l ∷ ls) = (l, st) ∷ on_stream st ls

unfoldable pub lines_read : List (Text × Stream) → List (Text × Stream)
unfolding lines_of
lines_read [] = []
lines_read ((text, st) ∷ more) = on_stream st (lines_of text) ++ lines_read more

-- Whether the process succeeded, or the message of the error.
unfoldable pub failure_of : Text → Ended → Option Text
failure_of what (closed zero) = none
failure_of what (closed (suc n)) = some (what ++ codes " exited with code " ++ decimal (suc n))
failure_of what killed = some (what ++ codes " exited with code null")
failure_of what (not_started message) = some message
