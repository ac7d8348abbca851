-- ===== src/Interceptors/Redaction.antt =====
-- What the recorded bodies do not show.
use hamyar_ops.Base.{ℕ, suc, Bool, true, false, ◌≡◌, refl, ap, if◌then◌else◌}
use hamyar_ops.Base.Chars.{Text}
use hamyar_ops.Base.Chars.Numbers.{decimal}
use hamyar_ops.Json.{Json, null, bool, num, str, arr, obj, Elems, nil, cons, Props, end, prop}
use hamyar_ops.Interceptors.Sanitizing.{
  redacted, is_sensitive, sanitize_body, sanitize_elems, sanitize_props,
}

module _ (low : Text → Text) where
  mutual
    -- Two values that differ at most in what stands under sensitive keys, at any depth.
    pub data Alike : Json → Json → Type 0 where
      same : (j : Json) → Alike j j
      arrays : (es fs : Elems) → AlikeElems es fs → Alike (arr es) (arr fs)
      objects : (ps qs : Props) → AlikeProps ps qs → Alike (obj ps) (obj qs)

    pub data AlikeElems : Elems → Elems → Type 0 where
      no_elems : AlikeElems nil nil
      elems :
          (v w : Json) (es fs : Elems)
          → Alike v w
          → AlikeElems es fs
          → AlikeElems (cons v es) (cons w fs)

    pub data AlikeProps : Props → Props → Type 0 where
      no_props : AlikeProps end end
      hidden :
          (k : Text) (v w : Json) (ps qs : Props)
          → is_sensitive low k ≡ true
          → AlikeProps ps qs
          → AlikeProps (prop k v ps) (prop k w qs)
      shown :
          (k : Text) (v w : Json) (ps qs : Props)
          → Alike v w
          → AlikeProps ps qs
          → AlikeProps (prop k v ps) (prop k w qs)

  mutual
    unfolding sanitize_body sanitize_elems sanitize_props

    bodies-Alike : {a b : Json} → Alike a b → sanitize_body low a ≡ sanitize_body low b
    bodies-Alike (same j) = refl
    bodies-Alike (arrays es fs h) = ap obj (elems-Alike 0 h)
    bodies-Alike (objects ps qs h) = ap obj (props-Alike h)

    elems-Alike :
        (i : ℕ) {es fs : Elems}
        → AlikeElems es fs
        → sanitize_elems low i es ≡ sanitize_elems low i fs
    elems-Alike i no_elems = refl
    elems-Alike i (elems v w es fs h hs) = rw (bodies-Alike h, elems-Alike (suc i) hs)

    props-Alike : {ps qs : Props} → AlikeProps ps qs → sanitize_props low ps ≡ sanitize_props low qs
    props-Alike no_props = refl
    props-Alike (hidden k v w ps qs s hs) = rw (s, props-Alike hs)
    props-Alike (shown k v w ps qs h hs) = rw (bodies-Alike h, props-Alike hs)

  -- Bodies that differ at most in what stands under sensitive keys, at any depth, are recorded alike:
  -- the record tells nothing about these values.
  pub sanitize_body-Alike : (a b : Json) → Alike a b → sanitize_body low a ≡ sanitize_body low b
  sanitize_body-Alike a b h = bodies-Alike h

  abbrev mutual
    -- Whatever stands under a sensitive key is the mark of redaction, at any depth.
    pub IsRedacted : Json → Type 0
    IsRedacted null = Unit
    IsRedacted (bool b) = Unit
    IsRedacted (num n) = Unit
    IsRedacted (str s) = Unit
    IsRedacted (arr es) = AreRedacted es
    IsRedacted (obj ps) = HasRedacted ps

    pub AreRedacted : Elems → Type 0
    AreRedacted nil = Unit
    AreRedacted (cons v vs) = IsRedacted v × AreRedacted vs

    pub HasRedacted : Props → Type 0
    HasRedacted end = Unit
    HasRedacted (prop k v ps) =
        (is_sensitive low k ≡ true → v ≡ redacted) × IsRedacted v × HasRedacted ps

  redacted-IsRedacted : IsRedacted redacted
  unfolding redacted
  redacted-IsRedacted = tt

  marked : (s : Bool) (v : Json) → s ≡ true → (if s then redacted else v) ≡ redacted
  marked s v e = rw e

  either-IsRedacted : (s : Bool) (v : Json) → IsRedacted v → IsRedacted (if s then redacted else v)
  either-IsRedacted true v h = redacted-IsRedacted
  either-IsRedacted false v h = h

  mutual
    unfolding sanitize_body sanitize_elems sanitize_props

    -- What the sanitizer returns has the mark under every sensitive key, at any depth.
    pub sanitize_body-IsRedacted : (j : Json) → IsRedacted (sanitize_body low j)
    sanitize_body-IsRedacted null = tt
    sanitize_body-IsRedacted (bool b) = tt
    sanitize_body-IsRedacted (num n) = tt
    sanitize_body-IsRedacted (str s) = tt
    sanitize_body-IsRedacted (arr es) = sanitize_elems-HasRedacted 0 es
    sanitize_body-IsRedacted (obj ps) = sanitize_props-HasRedacted ps

    sanitize_elems-HasRedacted : (i : ℕ) (es : Elems) → HasRedacted (sanitize_elems low i es)
    sanitize_elems-HasRedacted i nil = tt
    sanitize_elems-HasRedacted i (cons v vs) = (
      marked (is_sensitive low (decimal i)) (sanitize_body low v),
      either-IsRedacted (is_sensitive low (decimal i)) (sanitize_body low v)
          (sanitize_body-IsRedacted v),
      sanitize_elems-HasRedacted (suc i) vs,
    )

    sanitize_props-HasRedacted : (ps : Props) → HasRedacted (sanitize_props low ps)
    sanitize_props-HasRedacted end = tt
    sanitize_props-HasRedacted (prop k v ps) = (
      marked (is_sensitive low k) (sanitize_body low v),
      either-IsRedacted (is_sensitive low k) (sanitize_body low v) (sanitize_body-IsRedacted v),
      sanitize_props-HasRedacted ps,
    )

  sanitize_twice_one :
      (s : Bool) (v : Json)
      → sanitize_body low (sanitize_body low v) ≡ sanitize_body low v
      → (if s then redacted else sanitize_body low (if s then redacted else sanitize_body low v))
        ≡ (if s then redacted else sanitize_body low v)
  sanitize_twice_one true v h = refl
  sanitize_twice_one false v h = h

  mutual
    unfolding sanitize_body sanitize_elems sanitize_props

    -- Sanitizing what is sanitized changes nothing.
    pub sanitize_twice : (j : Json) → sanitize_body low (sanitize_body low j) ≡ sanitize_body low j
    sanitize_twice null = refl
    sanitize_twice (bool b) = refl
    sanitize_twice (num n) = refl
    sanitize_twice (str s) = refl
    sanitize_twice (arr es) = ap obj (elems_twice 0 es)
    sanitize_twice (obj ps) = ap obj (props_twice ps)

    elems_twice :
        (i : ℕ) (es : Elems)
        → sanitize_props low (sanitize_elems low i es) ≡ sanitize_elems low i es
    elems_twice i nil = refl
    elems_twice i (cons v vs) = λ t.
        prop (decimal i) (sanitize_twice_one (is_sensitive low (decimal i)) v (sanitize_twice v) t)
          (elems_twice (suc i) vs t)

    props_twice : (ps : Props) → sanitize_props low (sanitize_props low ps) ≡ sanitize_props low ps
    props_twice end = refl
    props_twice (prop k v ps) = λ t.
        prop k (sanitize_twice_one (is_sensitive low k) v (sanitize_twice v) t) (props_twice ps t)
