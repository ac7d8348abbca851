-- ===== src/EnvEditor/Written.antt =====
-- What a file that the service has written reads as.
pub mod Comments
use hamyar_ops.Base.{
  ℕ, ◌≡◌, ◌≢◌, refl, sym, ap, ◌∙◌, Bool, true, false, ◌&&◌, ◌||◌, not, Option, none, some, List, [],
  ◌∷◌, ◌++◌, arith, if◌then◌else◌, any, ◌==◌, map, All, Bool-cases, inl, inr, append_assoc,
}
use hamyar_ops.Base.Chars.{
  Text, is_space, is_empty, trim, trim_start, trim_end, starts_with, ends_with, has, split, join,
  cut, drop_first, drop_last, replace_all,
}
use hamyar_ops.Base.Chars.Lines.{
  split-append, split_whole, cut-append, trim_end_last, trim_end-append, drop_last-append,
  ends_with_last, has-replace_all, has-append, has-trim, split_without,
}
use Comments.{IsTrimmed, hash, pend, split-comment_lines, parse_lines-hash, pend-split}
use hamyar_ops.EnvEditor.{
  EnvVar, unquote, add_comment, entry, parse_lines, parse_env, needs_quotes, escape,
  serialize_value, comment_lines, serialize_var, texts_of, serialize_env,
}

-- A variable that one line holds: a key without `=`, a value without line end, which is not
-- already in quotes, and a comment whose lines have no white space at their ends.
pub record IsWritable (v : EnvVar) : Type 0 where
  pub key_trimmed : IsTrimmed v.key
  pub key_no_equals : has b'=' v.key ≡ false
  pub key_one_line : has b'\n' v.key ≡ false
  pub key_no_comment : starts_with (b'#' ∷ []) v.key ≡ false
  pub value_one_line : has b'\n' v.value ≡ false
  pub value_ends : needs_quotes v.value ≡ false → trim_end v.value ≡ v.value
  pub value_plain : needs_quotes v.value ≡ false → unquote v.value ≡ v.value
  pub comment_trimmed : All IsTrimmed (split b'\n' v.comment)
  pub comment_starts : starts_with (b'\n' ∷ []) v.comment ≡ false

-- The value that is read back: a value in quotes keeps the backslashes of its escaped quotes.
abbrev pub read_back : EnvVar → EnvVar
unfolding escape
read_back v = record v { value = if needs_quotes v.value then escape v.value else v.value }

unquote_quoted : (s : Text) → unquote (b'"' ∷ (s ++ b'"' ∷ [])) ≡ s
unfolding unquote
unquote_quoted s = ground (arith, ends_with_last (b'"' ∷ s) b'"', drop_last-append s b'"')

unquote-serialize_value :
    (v : EnvVar) → IsWritable v → unquote (serialize_value v.value) ≡ (read_back v).value
unfolding serialize_value
unquote-serialize_value v w = ground (arith, unquote_quoted (escape v.value), w.value_plain)

trim_end-serialize_value :
    (s : Text) (v : EnvVar)
    → IsWritable v
    → trim_end (s ++ (b'=' ∷ serialize_value v.value)) ≡ s ++ (b'=' ∷ serialize_value v.value)
unfolding serialize_value trim_end is_space
trim_end-serialize_value s v w =
    trim_end-append s (b'=' ∷ serialize_value v.value) refl
      (ground (arith, trim_end_last (b'"' ∷ escape v.value) b'"' refl, w.value_ends))

serialize_value_one_line : (v : EnvVar) → IsWritable v → has b'\n' (serialize_value v.value) ≡ false
unfolding serialize_value escape
serialize_value_one_line v w = ground (
  arith,
  w.value_one_line,
  has-append b'\n' (escape v.value) (b'"' ∷ []),
  has-replace_all b'"' b'\n' (b'\\' ∷ b'"' ∷ []) v.value w.value_one_line refl,
)

starts_with-append :
    (k w : Text)
    → starts_with (b'#' ∷ []) k ≡ false
    → starts_with (b'#' ∷ []) (k ++ (b'=' ∷ w)) ≡ false
starts_with-append [] w h = refl
starts_with-append (c ∷ k) w h = h

parse_lines_step :
    (pending line : Text) (rest : List Text)
    → trim_end line ≡ line
    → starts_with (b'#' ∷ []) line ≡ false
    → is_empty (trim line) ≡ false
    → parse_lines pending (line ∷ rest) ≡ entry pending (cut b'=' line) (parse_lines [] rest)
unfolding parse_lines
parse_lines_step pending line rest t h n =
    let after = λ (b : Bool).
      parse_lines (if b then add_comment pending (trim (drop_first line)) else []) rest in
    ap
      (λ l.
        let later =
          parse_lines
            (if starts_with (b'#' ∷ []) l then add_comment pending (trim (drop_first l)) else [])
            rest in
        if starts_with (b'#' ∷ []) l || is_empty (trim l)
        then later
        else entry pending (cut b'=' l) later)
      t
    ∙ ap
        (λ b.
          if b || is_empty (trim line) then after b else entry pending (cut b'=' line) (after b))
        h
    ∙ ap (λ b. if b then after false else entry pending (cut b'=' line) (after false)) n

-- What the line of a variable adds.
parse_lines-entry :
    (v : EnvVar) (pending : Text) (rest : List Text)
    → IsWritable v
    → parse_lines pending ((v.key ++ (b'=' ∷ serialize_value v.value)) ∷ rest)
      ≡ (record (read_back v) { comment = pending } ∷ parse_lines [] rest)
unfolding is_space trim read_back entry
parse_lines-entry v pending rest w =
    let line = v.key ++ (b'=' ∷ serialize_value v.value) in
    let later = parse_lines [] rest in
    parse_lines_step pending line rest (trim_end-serialize_value v.key v w)
      (starts_with-append v.key (serialize_value v.value) w.key_no_comment)
      (has-trim b'=' line refl
        (ground (arith, has-append b'=' v.key (b'=' ∷ serialize_value v.value))))
    ∙ ap (λ o. entry pending o later)
        (cut-append b'=' v.key (serialize_value v.value) w.key_no_equals)
    ∙ ap
        (λ k.
          record { key = k; value = unquote (serialize_value v.value); comment = pending } ∷ later)
        (ap trim_end w.key_trimmed.1 ∙ w.key_trimmed.0)
    ∙ ap (λ x. record { key = v.key; value = x; comment = pending } ∷ later)
        (unquote-serialize_value v w)

abbrev line_of : EnvVar → Text
line_of v = v.key ++ (b'=' ∷ serialize_value v.value)

split-line_of :
    (v : EnvVar) (rest : Text)
    → IsWritable v
    → split b'\n' (line_of v ++ (b'\n' ∷ rest)) ≡ line_of v ∷ split b'\n' rest
split-line_of v rest w = split-append b'\n' (line_of v) rest (
    ground (
      arith,
      has-append b'\n' v.key (b'=' ∷ serialize_value v.value),
      w.key_one_line,
      serialize_value_one_line v w,
    ))

empty_text : (s : Text) → is_empty s ≡ true → [] ≡ s
empty_text [] e = refl
empty_text (c ∷ s) e = ground (arith, e)

parse_lines-comment :
    (v : EnvVar) (rest : Text)
    → IsWritable v
    → is_empty v.comment ≡ false
    → parse_lines []
        (split b'\n' ((comment_lines (split b'\n' v.comment) ++ line_of v) ++ (b'\n' ∷ rest)))
      ≡ (read_back v ∷ parse_lines [] (split b'\n' rest))
unfolding read_back
parse_lines-comment v rest w n =
    let ls = split b'\n' v.comment in
    ap (λ x. parse_lines [] (split b'\n' x))
      (append_assoc (comment_lines ls) (line_of v) (b'\n' ∷ rest))
    ∙ ap (parse_lines [])
        (split-comment_lines ls (line_of v ++ (b'\n' ∷ rest)) (split_without b'\n' v.comment))
    ∙ parse_lines-hash [] ls (split b'\n' (line_of v ++ (b'\n' ∷ rest))) w.comment_trimmed
    ∙ ap (parse_lines (pend [] ls)) (split-line_of v rest w)
    ∙ parse_lines-entry v (pend [] ls) (split b'\n' rest) w
    ∙ ap (λ c. record (read_back v) { comment = c } ∷ parse_lines [] (split b'\n' rest))
        (pend-split v.comment n w.comment_starts)

parse_lines-serialize_var :
    (v : EnvVar) (rest : Text)
    → IsWritable v
    → parse_lines [] (split b'\n' (serialize_var v ++ (b'\n' ∷ rest)))
      ≡ (read_back v ∷ parse_lines [] (split b'\n' rest))
unfolding serialize_var read_back
parse_lines-serialize_var v rest w = elim (Bool-cases (is_empty v.comment)) [
  | inl e ↦
      ap
        (λ b. parse_lines [] (
          split b'\n' (
            ((if b then [] else comment_lines (split b'\n' v.comment)) ++ line_of v)
            ++ (b'\n' ∷ rest))))
        e
      ∙ ap (parse_lines []) (split-line_of v rest w)
      ∙ parse_lines-entry v [] (split b'\n' rest) w
      ∙ ap (λ c. record (read_back v) { comment = c } ∷ parse_lines [] (split b'\n' rest))
          (empty_text v.comment e)
  | inr e ↦
      ap
        (λ b. parse_lines [] (
          split b'\n' (
            ((if b then [] else comment_lines (split b'\n' v.comment)) ++ line_of v)
            ++ (b'\n' ∷ rest))))
        e
      ∙ parse_lines-comment v rest w e
]

pub parse_env-serialize_env :
    (vs : List EnvVar) → All IsWritable vs → parse_env (serialize_env vs) ≡ map read_back vs
unfolding parse_env serialize_env texts_of join split parse_lines trim trim_start trim_end
parse_env-serialize_env [] ws = refl
parse_env-serialize_env (v ∷ []) ws = parse_lines-serialize_var v [] ws.0
parse_env-serialize_env (v ∷ u ∷ vs) ws =
    ap (λ t. parse_lines [] (split b'\n' t))
      (append_assoc (serialize_var v) (b'\n' ∷ join b'\n' (texts_of (u ∷ vs))) (b'\n' ∷ []))
    ∙ parse_lines-serialize_var v (serialize_env (u ∷ vs)) ws.0
    ∙ ap (◌∷◌ (read_back v)) (parse_env-serialize_env (u ∷ vs) ws.1)
