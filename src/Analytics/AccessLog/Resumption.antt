-- ===== src/Analytics/AccessLog/Resumption.antt =====
-- Reading a log that grows.
use hamyar_ops.Base.{
  ℕ, ◌≤◌, ◌<◌, or_else, ◌≡◌, refl, ap, sym, ◌∙◌, Bool, true, false, ◌||◌, not, Option, none, some,
  List, [], ◌∷◌, ◌++◌, if◌then◌else◌, keep, length, drop, ◌==◌, arith, length-append, append_assoc,
  append-nil, ◌↔◌, codes,
}
use hamyar_ops.Base.Chars.{Text, is_empty, split, trim, trim_start, trim_end, includes, onto_first}
use hamyar_ops.Base.Chars.Lines.{split_cons}
use hamyar_ops.Analytics.AccessLog.{
  ParsedLine, ReaderState, parse_all, new_requests, parse_nginx_line, parse_logs, offset_in,
  read_from, add_parsed, bot_score, is_bot,
}

drop_all : (a b : Text) → drop (length a) (a ++ b) ≡ b
drop_all [] b = refl
drop_all (c ∷ a) b = drop_all a b

abbrev lines : Text → List Text
lines = split b'\n'

abbrev filled : List Text → List Text
filled = keep (λ l. not (is_empty (trim l)))

-- What a character in front does to the lines.
abbrev one_more : ℕ → List Text → List Text
one_more c ls = if c == b'\n' then [] ∷ ls else onto_first c ls

one_more-append :
    (c : ℕ) (l : Text) (ls ys : List Text) → one_more c (l ∷ ls ++ ys) ≡ one_more c (l ∷ ls) ++ ys
one_more-append c l ls ys = choose (c == b'\n')
  where
    choose :
        (b : Bool)
        → (if b then [] ∷ (l ∷ ls ++ ys) else (c ∷ l) ∷ (ls ++ ys))
          ≡ (if b then [] ∷ l ∷ ls else (c ∷ l) ∷ ls) ++ ys
    choose true = refl
    choose false = refl

-- A text up to and with a line end comes apart there.
split-line_end : (a b : Text) → lines (a ++ (b'\n' ∷ b)) ≡ lines a ++ lines b
unfolding split
split-line_end [] b = refl
split-line_end (c ∷ a) b =
    let (l, ls, e) = split_cons b'\n' a in
    ap (one_more c) (split-line_end a b ∙ ap (λ w. w ++ lines b) e)
    ∙ one_more-append c l ls (lines b)
    ∙ ap (λ w. one_more c w ++ lines b) (sym e)

keep-append : (p : Text → Bool) (xs ys : List Text) → keep p (xs ++ ys) ≡ keep p xs ++ keep p ys
keep-append p [] ys = refl
keep-append p (x ∷ xs) ys = ground (arith, keep-append p xs ys)

longer : (p : Text) (c : ℕ) (n : Text) → length p < length (p ++ (c ∷ n))
longer p c n = omega (arith, length-append p (c ∷ n))

not_at_end : (p : Text) (c : ℕ) (n : Text) → (length p == length (p ++ (c ∷ n))) ≡ false
not_at_end p c n = ground (arith, longer p c n)

module _ (low : Text → Text) (time_of : Text → ℕ) where
  add_parsed-append :
      (o : Option ParsedLine) (ps qs : List ParsedLine)
      → add_parsed o (ps ++ qs) ≡ add_parsed o ps ++ qs
  add_parsed-append none ps qs = refl
  add_parsed-append (some p) ps qs = refl

  parse_all-append :
      (xs ys : List Text)
      → parse_all low time_of (xs ++ ys) ≡ parse_all low time_of xs ++ parse_all low time_of ys
  unfolding parse_all
  parse_all-append [] ys = refl
  parse_all-append (x ∷ xs) ys =
      ap (add_parsed (parse_nginx_line low time_of x)) (parse_all-append xs ys)
      ∙ add_parsed-append (parse_nginx_line low time_of x) (parse_all low time_of xs)
          (parse_all low time_of ys)

  blank_end : (a : Text) → filled (lines (a ++ b'\n' ∷ [])) ≡ filled (lines a)
  unfolding split trim trim_end trim_start
  blank_end a =
      ap filled (split-line_end a [])
      ∙ keep-append (λ l. not (is_empty (trim l))) (lines a) (lines [])
      ∙ append-nil (filled (lines a))

  new_requests-line_end :
      (a b : Text)
      → new_requests low time_of (a ++ (b'\n' ∷ b))
        ≡ new_requests low time_of (a ++ b'\n' ∷ []) ++ new_requests low time_of b
  unfolding new_requests
  new_requests-line_end a b =
      ap (λ ls. parse_all low time_of (filled ls)) (split-line_end a b)
      ∙ ap (parse_all low time_of) (keep-append (λ l. not (is_empty (trim l))) (lines a) (lines b))
      ∙ parse_all-append (filled (lines a)) (filled (lines b))
      ∙ ap (λ ls. parse_all low time_of ls ++ parse_all low time_of (filled (lines b)))
          (sym (blank_end a))

  offset_here :
      (size : ℕ) (offset : Option ℕ) (p : Text)
      → or_else offset 0 ≡ length p
      → length p < size
      → offset_in size offset ≡ length p
  unfolding offset_in
  offset_here size offset p h lt = ground arith

  -- What is behind the offset is read, and the offset moves to the end.
  parse_logs_new :
      (p : Text) (c : ℕ) (n : Text) (s : ReaderState)
      → or_else s.byte_offset 0 ≡ length p
      → parse_logs low time_of (some (p ++ (c ∷ n))) s ≡ record {
        requests = s.requests ++ new_requests low time_of (c ∷ n);
        byte_offset = some (length (p ++ (c ∷ n)));
      }
  unfolding parse_logs
  parse_logs_new p c n s h =
      ap (λ (k : ℕ). read_from low time_of k (p ++ (c ∷ n)) s)
        (offset_here (length (p ++ (c ∷ n))) s.byte_offset p h (longer p c n))
      ∙ rw (not_at_end p c n) (rw (drop_all p (c ∷ n)))

  -- A log that was read when it ended at a line end, and is read again when more was written, gives
  -- the same rows and the same offset as a log that is read only then: no line is lost, and none is
  -- read twice, whatever was read before.
  pub parse_logs_resumed :
      (p : Text) (x : ℕ) (a : Text) (y : ℕ) (b : Text) (s : ReaderState)
      → or_else s.byte_offset 0 ≡ length p
      → parse_logs low time_of
          (some ((p ++ (x ∷ a ++ b'\n' ∷ [])) ++ (y ∷ b)))
          (parse_logs low time_of (some (p ++ (x ∷ a ++ b'\n' ∷ []))) s)
        ≡ parse_logs low time_of (some ((p ++ (x ∷ a ++ b'\n' ∷ [])) ++ (y ∷ b))) s
  parse_logs_resumed p x a y b s h =
      let old = x ∷ a ++ b'\n' ∷ [] in
      ap (parse_logs low time_of (some ((p ++ old) ++ (y ∷ b))))
        (parse_logs_new p x (a ++ b'\n' ∷ []) s h)
      ∙ parse_logs_new (p ++ old) y b
          (record {
            requests = s.requests ++ new_requests low time_of old;
            byte_offset = some (length (p ++ old));
          })
          refl
      ∙ ap
          (λ (rs : List ParsedLine). record {
            requests = rs;
            byte_offset = some (length ((p ++ old) ++ (y ∷ b)));
          })
          (append_assoc s.requests (new_requests low time_of old) (new_requests low time_of (y ∷ b))
            ∙ ap (◌++◌ s.requests) (
                sym (new_requests-line_end (x ∷ a) (y ∷ b))
                ∙ ap (new_requests low time_of) (sym (append_assoc (x ∷ a) (b'\n' ∷ []) (y ∷ b)))))
      ∙ sym (
          ap (λ (c : Text). parse_logs low time_of (some c) s) (append_assoc p old (y ∷ b))
          ∙ parse_logs_new p x ((a ++ b'\n' ∷ []) ++ (y ∷ b)) s h
          ∙ ap
              (λ (c : Text). record {
                requests = s.requests ++ new_requests low time_of (old ++ (y ∷ b));
                byte_offset = some (length c);
              })
              (sym (append_assoc p old (y ∷ b))))

  -- The score of a client is at most 100, and it counts as a bot exactly if its lower-case name has
  -- one of the three words in it.
  pub bot_score_bounds :
      (ua : Text)
      → (bot_score low time_of ua ≤ 100)
        × ((is_bot low time_of ua ≡ true) ↔ (
            (includes (codes "bot") (low ua)
              || includes (codes "crawler") (low ua)
              || includes (codes "spider") (low ua))
            ≡ true))
  unfolding bot_score is_bot
  bot_score_bounds ua = ground arith
