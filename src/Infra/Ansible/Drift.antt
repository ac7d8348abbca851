-- ===== src/Infra/Ansible/Drift.antt =====
-- The lines of the drift check that ansible.service.ts reads, with their regular expression written
-- as a search.
use hamyar_ops.Base.{Bool, true, false, Option, none, some, List, [], ◌∷◌, if◌then◌else◌, codes}
use hamyar_ops.Base.Chars.{Text, is_empty, starts_with, strip_prefix, cut}
use hamyar_ops.Infra.Ansible.{DriftCheck}

-- `([^|]+)\|`
abbrev field_of : Option (Text × Text) → Option (Text × Text)
field_of none = none
field_of (some (f, rest)) = if is_empty f then none else some (f, rest)

abbrev flag : Text → Option Bool
flag s =
    if starts_with (codes "true") s
    then some true
    else if starts_with (codes "false") s
    then some false
    else none

abbrev with_flag : Text → Text → Text → Option Bool → Option DriftCheck
with_flag name expected actual none = none
with_flag name expected actual (some drift) =
    some (record { name = name; expected = expected; actual = actual; drift = drift })

abbrev third_field : Text → Text → Option (Text × Text) → Option DriftCheck
third_field name expected none = none
third_field name expected (some (actual, rest)) = with_flag name expected actual (flag rest)

abbrev second_field : Text → Option (Text × Text) → Option DriftCheck
second_field name none = none
second_field name (some (expected, rest)) = third_field name expected (field_of (cut b'|' rest))

abbrev first_field : Option (Text × Text) → Option DriftCheck
first_field none = none
first_field (some (name, rest)) = second_field name (field_of (cut b'|' rest))

abbrev marked : Option Text → Option DriftCheck
marked none = none
marked (some rest) = first_field (field_of (cut b'|' rest))

-- /DRIFT:([^|]+)\|([^|]+)\|([^|]+)\|(true|false)/, at the first place where it matches.
unfoldable pub parse_drift : Text → Option DriftCheck
parse_drift [] = none
parse_drift (c ∷ s) =
    let later = parse_drift s in
    elim (marked (strip_prefix (codes "DRIFT:") (c ∷ s))) [ none ↦ later | some d ↦ some d ]

abbrev push_check : Option DriftCheck → List DriftCheck → List DriftCheck
push_check none ds = ds
push_check (some d) ds = d ∷ ds

abbrev pub drift_checks : List Text → List DriftCheck
unfolding parse_drift
drift_checks [] = []
drift_checks (l ∷ ls) = push_check (parse_drift l) (drift_checks ls)
