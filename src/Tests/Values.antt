-- ===== src/Tests/Values.antt =====
-- Tables and queues as lists, and text operations without Unicode tables.
use hamyar_ops.Base.{
  String, refl, not, Option, none, some, List, [], ◌∷◌, ◌++◌, str_eq, keep, amend, JsText, codes,
  length, ◌+◌, ◌*◌, ◌/◌,
}
use hamyar_ops.Health.Probe.{JsNumber}
use hamyar_ops.Prisma.{Database}
use hamyar_ops.Http.{ok}
use hamyar_ops.Bull.{Repeatable, JobQueue}

instance abbrev pub list_database : Database
list_database = record {
  Table = λ Row. List Row;
  rows = λ t. t;
  create = λ r t. t ++ r ∷ [];
  update_many = λ p f t. amend p f t;
  delete_many = λ p t. keep (λ r. not (p r)) t;
  rows-create = λ r t. refl;
  rows-update_many = λ p f t. refl;
  rows-delete_many = λ p t. refl;
}

instance abbrev pub plain_text : JsText
plain_text = record {
  to_lower_case = λ t. t;
  trim = λ t. t;
  length = λ t. length (codes t);
  replace = λ t p b. t;
}

-- The repeatable jobs, and the jobs that wait.
abbrev pub ListQueue : Type 0 → Type 0
ListQueue D = List (Repeatable D) × List (String × D)

abbrev pub key_of : String → Option String → String → String
key_of n none p = n
key_of n (some i) p = i

abbrev pub entry : {D : Type 0} → String → D → String → Option String → Repeatable D
entry n d p i = record { key = key_of n i p; name = n; id = none; pattern = p; payload = d }

instance abbrev pub list_queue : JobQueue
list_queue = record {
  Queue = ListQueue;
  repeatable = λ q. q.0;
  waiting = λ q. q.1;
  add = λ n d q. (q.0, q.1 ++ (n, d) ∷ []);
  add_repeat = λ n d p i q. (ok tt, (q.0 ++ entry n d p i ∷ [], q.1));
  remove_repeatable = λ k q. (keep (λ e. not (str_eq e.key k)) q.0, q.1);
  waiting-add = λ n d q. refl;
  repeatable-add = λ n d q. refl;
  repeatable-remove = λ k q. refl;
}

-- Percentages, rounded half up.
instance abbrev pub half_up : JsNumber
half_up = record { percent = λ part whole. (200 * part + whole) / (2 * whole) }
