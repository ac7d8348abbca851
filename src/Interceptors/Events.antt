-- ===== src/Interceptors/Events.antt =====
-- apps/ops-api/src/common/interceptors/api-events.interceptor.ts: the event that records a request.
-- The duration, the client's address and the broadcast are left out.
use hamyar_ops.Base.{ℕ, String, Bool, ◌||◌, Option, none, some, ◌∷◌, ◌++◌, if◌then◌else◌, codes}
use hamyar_ops.Base.Chars.{Text, text_eq, includes}
use hamyar_ops.Json.{Json, num, str, obj, end, prop, get, is_truthy, either_of}
use hamyar_ops.Interceptors.Sanitizing.{sanitize_body}

pub record Request : Type 0 where
  pub method : Text
  pub url : Text
  pub user_id : Option String
  pub body : Json
  pub param_name : Option Text

abbrev pub is_mutating : Text → Bool
is_mutating m =
    text_eq (codes "POST") m
    || text_eq (codes "PUT") m
    || text_eq (codes "PATCH") m
    || text_eq (codes "DELETE") m

abbrev url_has : String → Request → Bool
url_has part r = includes (codes part) r.url

-- A request that the interceptor of events does not let pass unrecorded.
unfoldable pub is_recorded : Request → Bool
is_recorded r = is_mutating r.method || url_has "/auth/login" r || url_has "/auth/logout" r

unfoldable pub event_type : Request → Text
event_type r =
    if url_has "/auth/login" r
    then codes "SYSTEM"
    else if url_has "/auth/logout" r
    then codes "SYSTEM"
    else if url_has "/env" r
    then codes "FILE_OP"
    else if url_has "/nginx" r
    then codes "SERVER_CONFIG"
    else if url_has "/server-firewall" r
    then codes "FIREWALL"
    else if url_has "/applications" r
    then codes "APP_EVENT"
    else if url_has "/servers" r
    then codes "SERVER_CMD"
    else codes "SYSTEM"

abbrev with_method : String → Text → Text
with_method title m = codes title ++ (codes " (" ++ (m ++ codes ")"))

-- `${method} ${url}`
unfoldable pub request_line : Request → Text
request_line r = r.method ++ (b' ' ∷ r.url)

abbrev is_method : String → Request → Bool
is_method m r = text_eq (codes m) r.method

-- The later assignments win.
unfoldable pub application_title : Request → Text
unfolding request_line
application_title r =
    if url_has "/restore" r
    then codes "App Restoration / Rollback"
    else if url_has "/restart" r
    then codes "Restart Application"
    else if url_has "/deploy" r
    then codes "Trigger App Deployment"
    else if is_method "DELETE" r
    then codes "Delete Application"
    else if is_method "POST" r
    then codes "Create Application"
    else request_line r

unfoldable pub server_title : Request → Text
unfolding request_line
server_title r =
    if is_method "DELETE" r
    then codes "Delete Remote Server"
    else if is_method "POST" r
    then codes "Add Remote Server"
    else request_line r

unfoldable pub event_title : Request → Text
unfolding application_title server_title request_line
event_title r =
    if url_has "/auth/login" r
    then codes "User Login"
    else if url_has "/auth/logout" r
    then codes "User Logout"
    else if url_has "/env" r
    then with_method "Edit Environment Variables" r.method
    else if url_has "/nginx" r
    then with_method "Nginx Config Modification" r.method
    else if url_has "/server-firewall" r
    then with_method "Firewall Rule Edit" r.method
    else if url_has "/applications" r
    then application_title r
    else if url_has "/servers" r
    then server_title r
    else request_line r

pub data Severity : Type 0 where
  info success warning error : Severity

-- `Event`, with the request's body and the answer of its metadata.
pub record Event : Type 0 where
  pub type : Text
  pub title : Text
  pub description : Text
  pub request_body : Json
  pub response : Json
  pub app_name : Option Json
  pub server_name : Option Json
  pub user_id : Option String
  pub severity : Severity

abbrev named : Option Text → Option Json → Option Json
named none given = given
named (some n) given = some (str n)

abbrev app_name_of : Request → Option Json
app_name_of r =
    let given = either_of (get (codes "name") r.body) (get (codes "appName") r.body) in
    named r.param_name (if is_truthy given then given else none)

abbrev server_name_of : Request → Option Json
server_name_of r =
    let given = either_of (get (codes "serverName") r.body) (get (codes "host") r.body) in
    if is_truthy given then given else none

-- What came of the request: the answer, or the status and the message of the exception.
pub data Outcome : Type 0 where
  answered : Json → Outcome
  failed : Text → ℕ → Outcome

abbrev pub response_of : Outcome → Json
response_of (answered answer) = answer
response_of (failed message status) =
    obj (prop (codes "error") (str message) (prop (codes "status") (num status) end))

abbrev severity_of : Outcome → Severity
severity_of (answered answer) = success
severity_of (failed message status) = error

unfoldable pub event_of : (Text → Text) → Request → Outcome → Event
unfolding event_type event_title request_line sanitize_body
event_of low r o = record {
  type = event_type r;
  title = event_title r;
  description = codes "API Request: " ++ request_line r;
  request_body = sanitize_body low r.body;
  response = sanitize_body low (response_of o);
  app_name = app_name_of r;
  server_name = server_name_of r;
  user_id = r.user_id;
  severity = severity_of o;
}
