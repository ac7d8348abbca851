-- ===== src/ErrorLogs/Titles.antt =====
-- The regular expressions of error-logs.service.ts: which lines are errors, and their times, routes
-- and titles. `Date.parse` is a parameter.
pub mod Times
use hamyar_ops.Base.{
  ℕ, zero, suc, ◌+◌, ◌-◌, String, Bool, true, false, ◌&&◌, ◌||◌, not, Option, none, some, List, [],
  ◌∷◌, ◌++◌, if◌then◌else◌, any, drop, take, leb, ◌==◌, codes, or_else, length,
}
use hamyar_ops.Base.Chars.{Text, is_space, is_empty, trim, starts_with, strip_prefix, has}
use hamyar_ops.Base.Chars.Numbers.{is_digit}
use hamyar_ops.ErrorLogs.{Patterns}

-- A match that ignores case knows only the letters of ASCII.
abbrev fold : ℕ → ℕ
fold c = if leb b'A' c && leb c b'Z' then c + 32 else c

abbrev fold_all : Text → Text
fold_all [] = []
fold_all (c ∷ s) = fold c ∷ fold_all s

-- `\w`
abbrev is_word : ℕ → Bool
is_word c = is_digit c || (leb b'a' c && leb c b'z') || (leb b'A' c && leb c b'Z') || c == b'_'

abbrev starts_word : Text → Bool
starts_word [] = false
starts_word (c ∷ s) = is_word c

abbrev error_words : List Text
error_words =
    codes "ERROR"
    ∷ codes "Error"
    ∷ codes "ERR"
    ∷ codes "FATAL"
    ∷ codes "fatal"
    ∷ codes "panic"
    ∷ codes "ECONNREFUSED"
    ∷ codes "unhandled"
    ∷ codes "exception"
    ∷ codes "UnhandledPromiseRejection"
    ∷ codes "stack"
    ∷ codes "TypeError"
    ∷ codes "ReferenceError"
    ∷ []

-- What stands behind a word, whatever its case.
abbrev strip_folded : Text → Text → Option Text
strip_folded [] s = some s
strip_folded (c ∷ p) [] = none
strip_folded (c ∷ p) (d ∷ s) =
    let rest = strip_folded p s in if fold d == fold c then rest else none

abbrev ends_word : Option Text → Bool
ends_word none = false
ends_word (some rest) = not (starts_word rest)

-- ERROR_RE.test(line), behind a character of a word or not: `\b` holds between the two kinds.
unfoldable pub has_error : Bool → Text → Bool
has_error behind_word [] = false
has_error behind_word (c ∷ s) =
    (not behind_word && any (λ w. ends_word (strip_folded w (c ∷ s))) error_words)
    || has_error (is_word c) s

unfoldable pub count_while : (ℕ → Bool) → Text → ℕ
count_while p [] = 0
count_while p (c ∷ s) = let n = count_while p s in if p c then suc n else 0

-- One character for each class.
abbrev pub fits : List (ℕ → Bool) → Text → Bool
fits [] s = true
fits (p ∷ ps) [] = false
fits (p ∷ ps) (c ∷ s) = p c && fits ps s

abbrev times : ℕ → (ℕ → Bool) → List (ℕ → Bool)
times zero p = []
times (suc n) p = p ∷ times n p

abbrev is : ℕ → ℕ → Bool
is d c = c == d

-- \d{4}-\d{2}-\d{2}[T ]\d{2}:\d{2}:\d{2}
abbrev pub stamp_shape : List (ℕ → Bool)
stamp_shape =
    times 4 is_digit
    ++ (is b'-'
        ∷ (times 2 is_digit
            ++ (is b'-'
                ∷ (times 2 is_digit
                    ++ ((λ c. c == b'T' || c == b' ')
                        ∷ (times 2 is_digit
                            ++ (is b':' ∷ (times 2 is_digit ++ (is b':' ∷ times 2 is_digit)))))))))

-- (?:\.\d+)?
abbrev fraction : Text → ℕ
unfolding count_while
fraction [] = 0
fraction (c ∷ s) = let n = count_while is_digit s in if c == b'.' && leb 1 n then suc n else 0

abbrev zone : Text → ℕ
zone [] = 0
zone (c ∷ s) = if c == b'Z' then 1 else 0

-- The length of the time that a line begins with, or 0.
unfoldable pub stamp_length : Text → ℕ
unfolding fraction
stamp_length line =
    let n = 19 + fraction (drop 19 line) in
    if fits stamp_shape line then n + zone (drop n line) else 0

-- s.replace(' ', 'T')
abbrev with_t : Text → Text
with_t [] = []
with_t (c ∷ s) = if c == b' ' then b'T' ∷ s else c ∷ with_t s

-- An invalid date counts like none, and the time of the scan is taken.
unfoldable pub parse_when : (Text → Option ℕ) → ℕ → Text → ℕ
unfolding stamp_length
parse_when date_parse now line =
    let n = stamp_length line in
    if n == 0 then now else or_else (date_parse (with_t (take n line))) now

abbrev methods : List Text
methods =
    codes "GET"
    ∷ codes "POST"
    ∷ codes "PUT"
    ∷ codes "PATCH"
    ∷ codes "DELETE"
    ∷ codes "HEAD"
    ∷ codes "OPTIONS"
    ∷ []

-- A slash with at least one further character of a kind.
abbrev slashed : (ℕ → Bool) → Text → Option Text
unfolding count_while
slashed p [] = none
slashed p (c ∷ s) =
    let n = count_while p s in if c == b'/' && leb 1 n then some (take (suc n) (c ∷ s)) else none

abbrev is_quote : ℕ → Bool
is_quote c = c == b'"' || c == b'\''

-- \s+(\/[^\s?"']+) behind a method
abbrev path_behind : Text → Option Text → Option Text
unfolding count_while slashed
path_behind m none = none
path_behind m (some s) =
    let n = count_while is_space s in
    if n == 0
    then none
    else elim (slashed (λ c. not (is_space c || c == b'?' || is_quote c)) (drop n s)) [
      | none ↦ none
      | some path ↦ some (m ++ (b' ' ∷ path))
    ]

abbrev pub either : {A : Type 0} → Option A → Option A → Option A
either none b = b
either (some a) b = some a

abbrev method_route : List Text → Text → Option Text
unfolding path_behind
method_route [] s = none
method_route (m ∷ ms) s = either (path_behind m (strip_prefix m s)) (method_route ms s)

-- The match that begins first: \b(GET|POST|...)\s+(\/[^\s?"']+)
unfoldable pub find_method : Bool → Text → Option Text
unfolding method_route
find_method behind_word [] = none
find_method behind_word (c ∷ s) =
    either (if behind_word then none else method_route methods (c ∷ s)) (find_method (is_word c) s)

-- \s*["']?(\/[^\s"']+) behind the colon
abbrev unquoted : Text → Text
unquoted [] = []
unquoted (c ∷ s) = if is_quote c then s else c ∷ s

abbrev named_path : Option Text → Option Text
unfolding count_while slashed
named_path none = none
named_path (some s) =
    slashed (λ c. not (is_space c || is_quote c)) (unquoted (drop (count_while is_space s) s))

abbrev named_route : Text → Option Text
unfolding named_path
named_route s = either (named_path (strip_folded (codes "path:") s)) (
    either (named_path (strip_folded (codes "route:") s))
      (named_path (strip_folded (codes "url:") s)))

unfoldable pub find_named : Text → Option Text
unfolding named_route
find_named [] = none
find_named (c ∷ s) = either (named_route (c ∷ s)) (find_named s)

unfoldable pub extract_route : Text → Option Text
unfolding find_method find_named
extract_route line = either (find_method false line) (find_named line)

-- s.replace(/…/g, by): `find` gives the length of the match that begins here, or 0; `skip` characters
-- belong to the last match.
unfoldable pub replace_matches : (Bool → Text → ℕ) → Text → Bool → ℕ → Text → Text
replace_matches find by behind_word skip [] = []
replace_matches find by behind_word (suc skip) (c ∷ s) = replace_matches find by (is_word c) skip s
replace_matches find by behind_word zero (c ∷ s) =
    let n = find behind_word (c ∷ s) in
    let rest = replace_matches find by (is_word c) (n - 1) s in
    if n == 0 then c ∷ rest else by ++ rest

abbrev is_hex : ℕ → Bool
is_hex c = is_digit c || (leb b'a' (fold c) && leb (fold c) b'f')

-- [0-9a-f]{8}-[0-9a-f]{4}-[0-9a-f]{4}-[0-9a-f]{4}-[0-9a-f]{12}
abbrev uuid_shape : List (ℕ → Bool)
uuid_shape =
    times 8 is_hex
    ++ (is b'-'
        ∷ (times 4 is_hex
            ++ (is b'-'
                ∷ (times 4 is_hex ++ (is b'-' ∷ (times 4 is_hex ++ (is b'-' ∷ times 12 is_hex)))))))

abbrev uuid_here : Bool → Text → ℕ
uuid_here behind_word s = if fits uuid_shape s then 36 else 0

-- \b\d{4,}\b
abbrev number_here : Bool → Text → ℕ
unfolding count_while
number_here behind_word s =
    let n = count_while is_digit s in
    if not behind_word && leb 4 n && not (starts_word (drop n s)) then n else 0

abbrev spaces_here : Bool → Text → ℕ
unfolding count_while
spaces_here behind_word s = count_while is_space s

-- The time at the beginning goes, with the white space behind it.
unfoldable pub without_stamp : Text → Text
unfolding stamp_length count_while
without_stamp line =
    let n = stamp_length line in
    let rest = drop n line in if n == 0 then line else drop (count_while is_space rest) rest

unfoldable pub normalize_title : Text → Text
unfolding without_stamp replace_matches uuid_here number_here spaces_here trim
normalize_title line =
    let plain = replace_matches uuid_here (codes "<uuid>") false 0 (without_stamp line) in
    let numbered = replace_matches number_here (codes "<n>") false 0 plain in
    take 240 (trim (replace_matches spaces_here (b' ' ∷ []) false 0 numbered))

-- What the scan uses of them, at the time `now`.
abbrev pub patterns : (Text → Option ℕ) → ℕ → Patterns
unfolding has_error extract_route parse_when normalize_title
patterns date_parse now = record {
  is_error = has_error false;
  extract_route = extract_route;
  parse_when = parse_when date_parse now;
  normalize_title = normalize_title;
}
