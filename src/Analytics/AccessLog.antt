-- ===== src/Analytics/AccessLog.antt =====
-- apps/ops-api/src/modules/analytics/log-parser.service.ts: the reading of nginx's access log. The
-- file is a text of bytes, which are its characters as far as it is ASCII; `toLowerCase` and the
-- conversion of the time between the brackets are parameters.
pub mod Resumption
use hamyar_ops.Base.{
  ℕ, zero, suc, ◌+◌, String, Bool, true, false, ◌&&◌, ◌||◌, not, Option, none, some, List, [], ◌∷◌,
  ◌++◌, if◌then◌else◌, keep, length, drop, ltb, leb, ◌==◌, codes, or_else, every,
}
use hamyar_ops.Base.Chars.{
  Text, is_space, is_empty, text_eq, split, trim, cut, strip_prefix, includes,
}
use hamyar_ops.Base.Chars.Numbers.{is_digit, parse_int}
use hamyar_ops.Prisma.{Database}

pub record ParsedLine : Type 0 where
  pub ip : Text
  pub method : Text
  pub url : Text
  pub status : ℕ
  pub size : ℕ
  pub referer : Option Text
  pub user_agent : Option Text
  pub is_bot : Bool
  pub bot_score : ℕ
  pub timestamp : ℕ

infixl 5 ◌>>=◌
abbrev ◌>>=◌ : {A B : Type 0} → Option A → (A → Option B) → Option B
none >>= k = none
some a >>= k = k a

-- The longest part in front of a character that passes, and the rest.
unfoldable pub span_while : (ℕ → Bool) → Text → Text × Text
span_while p [] = ([], [])
span_while p (c ∷ s) =
    let rest = span_while p s in if p c then (c ∷ rest.0, rest.1) else ([], c ∷ s)

abbrev if_some : Text × Text → Option (Text × Text)
if_some (a, rest) = if is_empty a then none else some (a, rest)

-- `\S+` and `\d+`
unfoldable pub word : Text → Option (Text × Text)
unfolding span_while
word s = if_some (span_while (λ c. not (is_space c)) s)

unfoldable pub digits : Text → Option (Text × Text)
unfolding span_while
digits s = if_some (span_while is_digit s)

-- `[^c]+c`
unfoldable pub some_until : ℕ → Text → Option (Text × Text)
unfolding cut
some_until c s = do (a, rest) ← cut c s; if is_empty a then none else some (a, rest)

-- `\d{3}`
unfoldable pub three_digits : Text → Option (Text × Text)
three_digits (a ∷ b ∷ c ∷ s) =
    if is_digit a && is_digit b && is_digit c then some (a ∷ b ∷ c ∷ [], s) else none
three_digits (a ∷ b ∷ []) = none
three_digits (a ∷ []) = none
three_digits [] = none

-- `(\d+|-)`
unfoldable pub size_field : Text → Option (ℕ × Text)
unfolding digits
size_field [] = none
size_field (c ∷ s) =
    if c == b'-' then some (0, s) else (do (ds, rest) ← digits (c ∷ s); some (parse_int ds, rest))

-- The seven groups of the regular expression, which has one way to match.
pub record Fields : Type 0 where
  pub address : Text
  pub time : Text
  pub request : Text
  pub status : Text
  pub size : ℕ
  pub referer : Text
  pub user_agent : Text

-- `"[^"]*"`
abbrev pub quoted : Text → Option (Text × Text)
unfolding cut
quoted s = do rest ← strip_prefix (b'"' ∷ []) s; cut b'"' rest

abbrev pub blank : Text → Option Text
blank = strip_prefix (b' ' ∷ [])

unfoldable pub match_line : Text → Option Fields
unfolding word some_until quoted three_digits size_field
match_line line = do
  (address, s1) ← word line
  s2 ← blank s1
  (ident, s3) ← word s2
  s4 ← blank s3
  (user, s5) ← word s4
  s6 ← strip_prefix (b' ' ∷ b'[' ∷ []) s5
  (time, s7) ← some_until b']' s6
  s8 ← blank s7
  (request, s9) ← quoted s8
  s10 ← blank s9
  (status, s11) ← three_digits s10
  s12 ← blank s11
  (size, s13) ← size_field s12
  s14 ← blank s13
  (referer, s15) ← quoted s14
  s16 ← blank s15
  (user_agent, s17) ← quoted s16
  some (record {
    address = address;
    time = time;
    request = request;
    status = status;
    size = size;
    referer = referer;
    user_agent = user_agent;
  })

-- `requestStr.split(' ')`: the first part, and the second one or '/'.
abbrev first_part : List Text → Text
first_part [] = []
first_part (a ∷ rest) = a

abbrev second_part : List Text → Text
second_part (a ∷ b ∷ rest) = if is_empty b then b'/' ∷ [] else b
second_part (a ∷ []) = b'/' ∷ []
second_part [] = b'/' ∷ []

abbrev unless_dash : Text → Option Text
unless_dash t = if text_eq t (b'-' ∷ []) then none else some t

abbrev pub add_parsed : Option ParsedLine → List ParsedLine → List ParsedLine
add_parsed none later = later
add_parsed (some p) later = p ∷ later

-- The rows of the parsed lines, and the offset behind the last byte that was read.
pub record ReaderState : Type 0 where
  pub requests : List ParsedLine
  pub byte_offset : Option ℕ

-- A file that is smaller than the offset was rotated, and is read from its start.
unfoldable pub offset_in : ℕ → Option ℕ → ℕ
offset_in size offset = let given = or_else offset 0 in if ltb size given then 0 else given

module _ (to_lower_case : Text → Text) (time_of : Text → ℕ) where
  abbrev bot_points : Text → ℕ
  bot_points ua =
      (if text_eq ua (b'-' ∷ []) || is_empty ua then 50 else 0)
      + (if includes (codes "bot") ua
            || includes (codes "crawler") ua
            || includes (codes "spider") ua
          then 100
          else 0)

  unfoldable pub bot_score : Text → ℕ
  bot_score ua = let score = bot_points (to_lower_case ua) in if ltb 100 score then 100 else score

  unfoldable pub is_bot : Text → Bool
  unfolding bot_score
  is_bot ua = leb 60 (bot_score ua)

  unfoldable pub parsed_of : Fields → ParsedLine
  unfolding is_bot split
  parsed_of f = record {
    ip = f.address;
    method = first_part (split b' ' f.request);
    url = second_part (split b' ' f.request);
    status = parse_int f.status;
    size = f.size;
    referer = unless_dash f.referer;
    user_agent = unless_dash f.user_agent;
    is_bot = is_bot f.user_agent;
    bot_score = bot_score f.user_agent;
    timestamp = time_of f.time;
  }

  unfoldable pub parse_nginx_line : Text → Option ParsedLine
  unfolding match_line parsed_of
  parse_nginx_line line = do f ← match_line line; some (parsed_of f)

  unfoldable pub parse_all : List Text → List ParsedLine
  parse_all [] = []
  parse_all (l ∷ ls) = add_parsed (parse_nginx_line l) (parse_all ls)

  unfoldable pub new_requests : Text → List ParsedLine
  unfolding parse_all split trim
  new_requests text = parse_all (keep (λ l. not (is_empty (trim l))) (split b'\n' text))

  abbrev pub read_from : ℕ → Text → ReaderState → ReaderState
  read_from offset content s =
      if offset == length content
      then record s { byte_offset = some (or_else s.byte_offset 0) }
      else record {
        requests = s.requests ++ new_requests (drop offset content);
        byte_offset = some (length content);
      }

  unfoldable pub parse_logs : Option Text → ReaderState → ReaderState
  unfolding offset_in
  parse_logs none s = s
  parse_logs (some content) s = read_from (offset_in (length content) s.byte_offset) content s
