-- ===== src/Backups/Archives/Machine.antt =====
-- backups.service.ts: what the making of an archive uses of the machine and of JavaScript.
use hamyar_ops.Base.{ℕ, String, Bool, Option, none, some, List, if◌then◌else◌, str_eq}
use hamyar_ops.Http.{Exception, ok, err, Handler}

-- What a backup uses of the machine; each of these may fail.
pub record Effects (World : Type 0) : Type 0 where
  pub exec : String → List String → Handler World String
  pub make_temp_dir : String → Handler World String
  pub make_dir : String → Handler World (Unit {0})
  pub make_dirs : String → Handler World (Unit {0})
  pub write_file : String → String → Handler World (Unit {0})
  pub copy_file : String → String → Handler World (Unit {0})
  pub remove_tree : String → Handler World (Unit {0})
  pub file_size : String → Handler World ℕ
  pub upload : String → String → String → Handler World (Unit {0})
  pub remove : String → Handler World (Unit {0})
  pub exists : String → World → Bool
  pub split : String → String → List String
  pub join : String → String → String
  pub dirname : String → String
  pub basename : String → String
  pub volumes_of : String → Handler World (List String)
  pub json : List (String × Option String) → String
  pub json_indented : List (String × Option String) → String
  pub json_with_volumes : String → List String → String

-- a || b
abbrev pub text_or : Option String → String → String
text_or none b = b
text_or (some a) b = if str_eq a "" then b else a

module _ {World : Type 0} where
  -- try { … } catch {}
  abbrev pub attempt : Handler World (Unit {0}) → Handler World (Unit {0})
  attempt m w = (ok tt, (m w).1)

  abbrev pub when : Bool → Handler World (Unit {0}) → Handler World (Unit {0})
  when b m w = if b then m w else (ok tt, w)

  -- if (!b) throw e
  abbrev pub unless : Exception → Bool → Handler World (Unit {0}) → Handler World (Unit {0})
  unless e b m w = if b then m w else (err e, w)
