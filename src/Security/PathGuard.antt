-- ===== src/Security/PathGuard.antt =====
-- common/security/path-guard.ts: paths inside allowed roots, the ids of containers, and absolute
-- paths that a shell may see. `path.resolve`, `path.relative` and `path.isAbsolute` are parameters;
-- texts are lists of UTF-16 code units.
use hamyar_ops.Base.{
  ℕ, ◌≤◌, ◌≡◌, refl, Bool, true, false, ◌&&◌, ◌||◌, not, Option, none, some, List, [], ◌∷◌,
  if◌then◌else◌, any, every, codes, length, leb, ◌==◌, arith,
}
use hamyar_ops.Base.Chars.{Text, is_empty, has, starts_with}

module _ (resolve : Text → Text) (relative : Text → Text → Text) (is_absolute : Text → Bool) where
  -- The path from a root stays inside it.
  abbrev pub is_inside : Text → Text → Bool
  is_inside root resolved =
      let path = relative (resolve root) resolved in
      is_empty path || (not (starts_with (codes "..") path) && not (is_absolute path))

  unfoldable pub is_path_inside_roots : Text → List Text → Option Text
  is_path_inside_roots file_path roots =
      if any (λ root. is_inside root (resolve file_path)) roots
      then some (resolve file_path)
      else none

abbrev pub is_letter_or_digit : ℕ → Bool
is_letter_or_digit c = (leb 97 c && leb c 122) || (leb 65 c && leb c 90) || (leb 48 c && leb c 57)

abbrev pub is_id_char : ℕ → Bool
is_id_char c = is_letter_or_digit c || c == b'_' || c == b'.' || c == b'-'

-- /^[a-zA-Z0-9][a-zA-Z0-9_.-]{0,127}$/
unfoldable pub is_safe_docker_id : Text → Bool
is_safe_docker_id [] = false
is_safe_docker_id (c ∷ s) = is_letter_or_digit c && every is_id_char s && leb (length s) 127

-- The characters that the regular expression of `isSafeAbsolutePath` excludes.
abbrev pub shell_chars : Text
shell_chars = codes ";&|`$<>\\!*?[]{}'\"\n\r\t"

unfoldable pub is_safe_absolute_path : (Text → Bool) → Text → Bool
is_safe_absolute_path is_absolute p =
    not (is_empty p) && not (has 0 p) && is_absolute p && not (any (λ c. has c p) shell_chars)

harmless : (c d : ℕ) → is_id_char c ≡ true → is_id_char d ≡ false → (c == d) ≡ false
harmless c d h k = ground arith

absent : (d : ℕ) (s : Text) → every is_id_char s ≡ true → is_id_char d ≡ false → has d s ≡ false
absent d [] h k = refl
absent d (c ∷ s) h k = ground (arith, absent d s, harmless c d)

-- An id of a container that is accepted has from 1 to 128 characters, does not begin as an option
-- of a command, and has neither a space nor any of the characters that `isSafeAbsolutePath` excludes
-- for the shell.
pub safe_docker_id_plain :
    (id : Text)
    → is_safe_docker_id id ≡ true
    → (1 ≤ length id)
      × (length id ≤ 128)
      × (starts_with (codes "-") id ≡ false)
      × (has b' ' id ≡ false)
      × (any (λ c. has c id) shell_chars ≡ false)
unfolding is_safe_docker_id
safe_docker_id_plain [] h = absurd (ground arith)
safe_docker_id_plain (c ∷ s) h =
    let chars : every is_id_char (c ∷ s) ≡ true = ground arith in
    (
      ground arith,
      ground arith,
      ground arith,
      absent b' ' (c ∷ s) chars refl,
      none_of shell_chars (c ∷ s) chars refl,
    )
  where
    none_of :
        (ds s : Text)
        → every is_id_char s ≡ true
        → any is_id_char ds ≡ false
        → any (λ d. has d s) ds ≡ false
    none_of [] s h k = refl
    none_of (d ∷ ds) s h k = ground (arith, absent d s h, none_of ds s h)
