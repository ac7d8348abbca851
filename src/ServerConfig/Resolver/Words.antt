-- ===== src/ServerConfig/Resolver/Words.antt =====
-- Words with one blank between them, and lines with an end each.
use hamyar_ops.Base.{
  ℕ, ◌≡◌, refl, ap, sym, ◌∙◌, true, false, not, List, [], ◌∷◌, ◌++◌, every, All, arith, ◌==◌,
  ==_iff, Bool-cases, inl, inr, append_assoc, append-nil,
}
use hamyar_ops.Base.Chars.{Text, is_empty, is_space, trim, trim_start, trim_end, split, join, has}
use hamyar_ops.Base.Chars.Lines.{split-append, has-append, trim_end-append, is_empty-append}
use hamyar_ops.ServerConfig.{starts_with_space, split_spaces}

-- A word: not empty, and without white space.
pub record IsWord (w : Text) : Type 0 where
  pub filled : is_empty w ≡ false
  pub no_space : every (λ c. not (is_space c)) w ≡ true

-- Lines that end in a line end each come apart.
unfoldable pub ended : List Text → Text
ended [] = []
ended (l ∷ ls) = l ++ (b'\n' ∷ ended ls)

pub join-ended : (l : Text) (ls : List Text) → join b'\n' (l ∷ ls) ++ b'\n' ∷ [] ≡ ended (l ∷ ls)
unfolding join ended
join-ended l [] = refl
join-ended l (m ∷ ls) =
    append_assoc l (b'\n' ∷ join b'\n' (m ∷ ls)) (b'\n' ∷ [])
    ∙ ap (λ (s : Text). l ++ (b'\n' ∷ s)) (join-ended m ls)

pub split-ended :
    (ls : List Text)
    → All (λ (l : Text). has b'\n' l ≡ false) ls
    → split b'\n' (ended ls) ≡ ls ++ [] ∷ []
unfolding ended
split-ended [] h = unfold split in refl
split-ended (l ∷ ls) (k, h) = split-append b'\n' l (ended ls) k ∙ ap (◌∷◌ l) (split-ended ls h)

pub trim_end_word : (w : Text) → every (λ c. not (is_space c)) w ≡ true → trim_end w ≡ w
unfolding trim_end
trim_end_word [] h = refl
trim_end_word (c ∷ w) h = ground (arith, trim_end_word w)

pub trim_start_word :
    (w s : Text)
    → is_empty w ≡ false
    → every (λ c. not (is_space c)) w ≡ true
    → trim_start (w ++ s) ≡ w ++ s
unfolding trim_start
trim_start_word [] s f h = absurd (cc)
trim_start_word (c ∷ w) s f h = ground arith

pub trim_word : (w : Text) → IsWord w → trim w ≡ w
unfolding trim
trim_word w k =
    ap (λ (s : Text). trim_end (trim_start s)) (sym (append-nil w))
    ∙ ap trim_end (trim_start_word w [] k.filled k.no_space ∙ append-nil w)
    ∙ trim_end_word w k.no_space

-- Words with one blank between them.
abbrev pub AreWords : List Text → Type 0
AreWords = All IsWord

pub join_filled :
    (d : Text) (ds : List Text) → is_empty d ≡ false → is_empty (join b' ' (d ∷ ds)) ≡ false
unfolding join
join_filled d [] f = f
join_filled d (e ∷ ds) f = is_empty-append d (b' ' ∷ join b' ' (e ∷ ds)) f

pub trim_end-join :
    (d : Text) (ds : List Text)
    → AreWords (d ∷ ds)
    → trim_end (join b' ' (d ∷ ds)) ≡ join b' ' (d ∷ ds)
unfolding join
trim_end-join d [] (k, h) = trim_end_word d k.no_space
trim_end-join d (e ∷ ds) (k, (l, h)) = trim_end-append d (b' ' ∷ join b' ' (e ∷ ds)) refl (
    trim_end-append (b' ' ∷ []) (join b' ' (e ∷ ds)) (join_filled e ds l.filled)
      (trim_end-join e ds (l, h)))

pub join_start :
    (d : Text) (ds : List Text) → IsWord d → trim_start (join b' ' (d ∷ ds)) ≡ join b' ' (d ∷ ds)
unfolding join
join_start d [] k =
    ap trim_start (sym (append-nil d)) ∙ trim_start_word d [] k.filled k.no_space ∙ append-nil d
join_start d (e ∷ ds) k = trim_start_word d (b' ' ∷ join b' ' (e ∷ ds)) k.filled k.no_space

pub starts_filled :
    (d s : Text)
    → is_empty d ≡ false
    → every (λ c. not (is_space c)) d ≡ true
    → starts_with_space (d ++ s) ≡ false
starts_filled [] s f h = absurd (cc)
starts_filled (c ∷ d) s f h = ground arith

pub split_spaces_word :
    (w s : Text)
    → every (λ c. not (is_space c)) w ≡ true
    → starts_with_space s ≡ false
    → split_spaces (w ++ (b' ' ∷ s)) ≡ w ∷ split_spaces s
unfolding split_spaces
split_spaces_word [] s h f = unfold is_space in rw f
split_spaces_word (c ∷ w) s h f = ground (arith, split_spaces_word w s)

pub split_spaces_last :
    (w : Text) → every (λ c. not (is_space c)) w ≡ true → split_spaces w ≡ w ∷ []
unfolding split_spaces
split_spaces_last [] h = refl
split_spaces_last (c ∷ w) h = ground (arith, split_spaces_last w)

pub starts-join :
    (d : Text) (ds : List Text) → IsWord d → starts_with_space (join b' ' (d ∷ ds)) ≡ false
unfolding join
starts-join d [] k =
    ap starts_with_space (sym (append-nil d)) ∙ starts_filled d [] k.filled k.no_space
starts-join d (e ∷ ds) k = starts_filled d (b' ' ∷ join b' ' (e ∷ ds)) k.filled k.no_space

pub split_spaces-join :
    (d : Text) (ds : List Text) → AreWords (d ∷ ds) → split_spaces (join b' ' (d ∷ ds)) ≡ d ∷ ds
unfolding join
split_spaces-join d [] (k, h) = split_spaces_last d k.no_space
split_spaces-join d (e ∷ ds) (k, (l, h)) =
    split_spaces_word d (join b' ' (e ∷ ds)) k.no_space (starts-join e ds l)
    ∙ ap (◌∷◌ d) (split_spaces-join e ds (l, h))

pub words_trimmed :
    (d : Text) (ds : List Text) → AreWords (d ∷ ds) → trim (join b' ' (d ∷ ds)) ≡ join b' ' (d ∷ ds)
unfolding trim
words_trimmed d ds (k, h) = ap trim_end (join_start d ds k) ∙ trim_end-join d ds (k, h)

pub line_end_is_space : is_space b'\n' ≡ true
unfolding is_space
line_end_is_space = refl

pub no_space_differs : (c : ℕ) → is_space c ≡ false → (c == b'\n') ≡ false
no_space_differs c h = elim (Bool-cases (c == b'\n')) [
  | inl e ↦ absurd (cc (ap is_space ((==_iff c b'\n').0 e), line_end_is_space))
  | inr e ↦ e
]

pub no_line_end : (w : Text) → every (λ c. not (is_space c)) w ≡ true → has b'\n' w ≡ false
no_line_end [] h = refl
no_line_end (c ∷ w) h = ground (arith, no_space_differs c, no_line_end w)

pub join_no_line_end : (ds : List Text) → AreWords ds → has b'\n' (join b' ' ds) ≡ false
unfolding join
join_no_line_end [] h = refl
join_no_line_end (d ∷ []) (k, h) = no_line_end d k.no_space
join_no_line_end (d ∷ e ∷ ds) (k, h) =
    has-append b'\n' d (b' ' ∷ join b' ' (e ∷ ds))
    ∙ ground (arith, no_line_end d k.no_space, join_no_line_end (e ∷ ds) h)

abbrev pub OneLine : Text → Type 0
OneLine l = has b'\n' l ≡ false
