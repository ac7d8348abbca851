-- ===== src/Interceptors.antt =====
-- apps/ops-api/src/common/interceptors/api-events.interceptor.ts and audit.interceptor.ts, with
-- events.service.ts of modules/events: what is recorded of a request. `toLowerCase` and the table of
-- events are parameters; the duration, the client's address and the broadcast are left out.
pub mod Sanitizing
pub mod Events
pub mod Redaction
pub mod Recorded
use hamyar_ops.Base.{
  ℕ, zero, suc, String, Bool, true, false, ◌&&◌, ◌||◌, not, Option, none, some, List, [], ◌∷◌, ◌++◌,
  if◌then◌else◌, any, codes, or_else,
}
use hamyar_ops.Base.Chars.{Text, text_eq, includes, split}
use hamyar_ops.Base.Chars.Numbers.{decimal}
use hamyar_ops.Json.{
  Json, null, bool, num, str, arr, obj, Elems, nil, cons, Props, end, prop, get, is_truthy,
  either_of,
}
use hamyar_ops.Prisma.{Database}
use hamyar_ops.Interceptors.Events.{
  Request, Event, Outcome, answered, failed, event_of, is_recorded, is_mutating, request_line,
}

-- `AuditLog`
pub record AuditEntry : Type 0 where
  pub user_id : String
  pub action : Text
  pub resource_type : Option Text
  pub resource_id : Option Text

-- `const [, , resourceType, resourceId] = url.split('/')`
abbrev third_of : List Text → Option Text
third_of (a ∷ b ∷ c ∷ rest) = some c
third_of (a ∷ b ∷ []) = none
third_of (a ∷ []) = none
third_of [] = none

abbrev fourth_of : List Text → Option Text
fourth_of (a ∷ rest) = third_of rest
fourth_of [] = none

module _ ⦃db : Database⦄ where
  open db use {Table, create}

  pub record Journal : Type 0 where
    pub events : Table Event
    pub audit_logs : Table AuditEntry

  unfoldable pub record_event : (Text → Text) → Request → Outcome → Journal → Journal
  unfolding event_of
  record_event low r o s =
      if is_recorded r then record s { events = create (event_of low r o) s.events } else s

  abbrev pub audit_by : Request → Option String → Journal → Journal
  unfolding request_line split
  audit_by r none s = s
  audit_by r (some user) s =
      let parts = split b'/' r.url in
      record s {
        audit_logs =
            create
              (record {
                user_id = user;
                action = request_line r;
                resource_type = third_of parts;
                resource_id = fourth_of parts;
              })
              s.audit_logs;
      }

  -- Only requests that were answered are audited, and only those of a user.
  unfoldable pub audit : Request → Outcome → Journal → Journal
  unfolding audit_by
  audit r (failed message status) s = s
  audit r (answered answer) s = if is_mutating r.method then audit_by r r.user_id s else s

  -- Both interceptors, as a request passes them.
  unfoldable pub journal : (Text → Text) → Request → Outcome → Journal → Journal
  unfolding record_event audit
  journal low r o s = audit r o (record_event low r o s)
