-- ===== src/Tests/Journals.antt =====
-- Examples of the journal of requests.
use hamyar_ops.Base.{◌≡◌, refl, true, none, some, [], All, codes}
use hamyar_ops.Base.Chars.{Text}
use hamyar_ops.Json.{Json, str, obj, end, prop}
use hamyar_ops.Interceptors.{Journal, journal}
use hamyar_ops.Interceptors.Sanitizing.{is_sensitive, sensitive_keys, sanitize_body}
use hamyar_ops.Interceptors.Events.{Request, answered}
use hamyar_ops.Interceptors.Redaction.{objects, no_props, hidden, same, shown, sanitize_body-Alike}
use hamyar_ops.Interceptors.Recorded.{ShowsNoSecret, journal-ShowsNoSecret}
use hamyar_ops.Tests.Values.{list_database}

abbrev same_letters : Text → Text
same_letters t = t

abbrev credentials : Text → Json
credentials password = obj (
    prop (codes "name") (str (codes "ada"))
      (prop (codes "login") (obj (prop (codes "password") (str password) end)) end))

password_hidden : is_sensitive same_letters (codes "password") ≡ true
unfolding is_sensitive sensitive_keys
password_hidden = refl

sanitize_body-Alike_example :
    sanitize_body same_letters (credentials (codes "first"))
    ≡ sanitize_body same_letters (credentials (codes "second"))
sanitize_body-Alike_example =
    sanitize_body-Alike same_letters (credentials (codes "first")) (credentials (codes "second")) (
      objects _ _ (
        shown _ _ _ _ _ (same (str (codes "ada"))) (
          shown _ _ _ _ _
            (objects _ _ (
              hidden (codes "password") (str (codes "first")) (str (codes "second")) end end
                password_hidden no_props))
            no_props)))

abbrev user_request : Request
user_request = record {
  method = codes "POST";
  url = codes "/api/users";
  user_id = some "u1";
  body = credentials (codes "first");
  param_name = none;
}

abbrev no_journal : Journal ⦃db = list_database⦄
no_journal = record { events = []; audit_logs = [] }

journal-ShowsNoSecret_example :
    All
      (ShowsNoSecret ⦃db = list_database⦄ same_letters)
      (journal same_letters user_request
        (answered (credentials (codes "second")))
        no_journal).events
journal-ShowsNoSecret_example =
    journal-ShowsNoSecret same_letters user_request (answered (credentials (codes "second")))
      no_journal tt
