-- ===== src/Security/RolesGuard.antt =====
-- common/guards/roles.guard.ts: the roles that a route asks for, and that of the user.
use hamyar_ops.Base.{
  String, Bool, true, Option, none, some, List, [], ◌∷◌, if◌then◌else◌, any, str_eq, truthy, ◌||◌,
  not,
}
use hamyar_ops.Http.{forbidden, Result, ok, err}

abbrev has_role : List String → Option String → Result Bool
has_role required none = err (forbidden "Insufficient permissions")
has_role required (some role) =
    if not (truthy (some role)) || not (any (str_eq role) required)
    then err (forbidden "Insufficient permissions")
    else ok true

-- `user_role` is `user?.role` of the request.
unfoldable pub can_activate : Option (List String) → Option String → Result Bool
can_activate none user_role = ok true
can_activate (some []) user_role = ok true
can_activate (some (r ∷ rs)) user_role = has_role (r ∷ rs) user_role
