-- ===== src/EnvEditor/Written/Comments.antt =====
-- What the comment lines above a variable read as.
use hamyar_ops.Base.{
  ◌≡◌, refl, ap, ◌∙◌, true, false, List, [], ◌∷◌, ◌++◌, arith, All, every, not, append_assoc, map,
}
use hamyar_ops.Base.Chars.{
  Text, is_space, is_empty, trim, trim_start, trim_end, starts_with, has, split, join, drop_first,
}
use hamyar_ops.Base.Chars.Lines.{
  split-append, trim_end-append, split_cons, join-split, join-onto_first, is_empty-append,
}
use hamyar_ops.EnvEditor.{add_comment, parse_lines, comment_lines}

-- A text that `trim` leaves.
abbrev pub IsTrimmed : Text → Type 0
IsTrimmed l = (trim_end l ≡ l) × (trim_start l ≡ l)

abbrev pub hash : Text → Text
hash l = b'#' ∷ b' ' ∷ l

-- The pending comment behind a comment line.
abbrev pub pend : Text → List Text → Text
pend p [] = p
pend p (l ∷ ls) = pend (add_comment p l) ls

pub split-comment_lines :
    (ls : List Text) (rest : Text)
    → every (λ l. not (has b'\n' l)) ls ≡ true
    → split b'\n' (comment_lines ls ++ rest) ≡ map hash ls ++ split b'\n' rest
split-comment_lines [] rest a = refl
split-comment_lines (l ∷ ls) rest a =
    ap (split b'\n') (append_assoc (hash l) (b'\n' ∷ comment_lines ls) rest)
    ∙ split-append b'\n' (hash l) (comment_lines ls ++ rest) (ground arith)
    ∙ ap (◌∷◌ (hash l)) (split-comment_lines ls rest (ground arith))

trim_end-hash : (l : Text) → IsTrimmed l → trim (drop_first (trim_end (hash l))) ≡ l
unfolding trim trim_start trim_end is_space
trim_end-hash [] t = refl
trim_end-hash (c ∷ l) t =
    ap (λ x. trim (drop_first x)) (trim_end-append (b'#' ∷ b' ' ∷ []) (c ∷ l) refl t.0)
    ∙ ap trim_end t.1
    ∙ t.0

starts_with-hash : (l : Text) → starts_with (b'#' ∷ []) (trim_end (hash l)) ≡ true
unfolding trim_end is_space
starts_with-hash l = ground arith

pub parse_lines-hash :
    (p : Text) (ls rest : List Text)
    → All IsTrimmed ls
    → parse_lines p (map hash ls ++ rest) ≡ parse_lines (pend p ls) rest
unfolding parse_lines
parse_lines-hash p [] rest a = refl
parse_lines-hash p (l ∷ ls) rest a =
    ground (
      arith,
      starts_with-hash l,
      trim_end-hash l a.0,
      parse_lines-hash (add_comment p l) ls rest a.1,
    )

pend_more :
    (p l : Text) (ls : List Text)
    → is_empty p ≡ false
    → pend p (l ∷ ls) ≡ p ++ (b'\n' ∷ join b'\n' (l ∷ ls))
unfolding add_comment join
pend_more p l [] n = ground (arith, n)
pend_more p l (m ∷ ls) n = ground (
  arith,
  n,
  pend_more (p ++ (b'\n' ∷ l)) m ls,
  is_empty-append p (b'\n' ∷ l) n,
  append_assoc p (b'\n' ∷ l) (b'\n' ∷ join b'\n' (m ∷ ls)),
)

pend-join :
    (l : Text) (ls : List Text) → is_empty l ≡ false → pend [] (l ∷ ls) ≡ join b'\n' (l ∷ ls)
unfolding add_comment join
pend-join l [] n = refl
pend-join l (m ∷ ls) n = pend_more l m ls n

-- The lines of a comment that does not start with an empty line give the comment.
pub pend-split :
    (c : Text)
    → is_empty c ≡ false
    → starts_with (b'\n' ∷ []) c ≡ false
    → pend [] (split b'\n' c) ≡ c
unfolding split
pend-split [] n h = ground (arith, n)
pend-split (d ∷ c) n h =
    let (l, ls, e) = split_cons b'\n' c in
    ground (arith, e, pend-join (d ∷ l) ls refl, join-split b'\n' c, join-onto_first b'\n' d l ls)
