-- ===== src/ServerConfig/Names.antt =====
-- Which names reach the shell.
use hamyar_ops.Base.{◌≡◌, ◌⊎◌, inl, inr, refl, String, true, every, arith, Bool-cases, [], ◌∷◌}
use hamyar_ops.Base.Chars.{Text}
use hamyar_ops.Prisma.{Database}
use hamyar_ops.Http.{bad_request, Result, err}
use hamyar_ops.Supervisor.Commands.{Machine}
use hamyar_ops.ServerConfig.{is_hostname, is_name_char, set_hostname}

hostname_chars : (name : Text) → is_hostname name ≡ true → every is_name_char name ≡ true
unfolding is_hostname
hostname_chars [] h = refl
hostname_chars (c ∷ s) h = ground arith

-- A name that is given as a hostname is refused, and nothing runs, or each of its characters is a
-- letter, a digit, a dash or a dot: none of them ends the quotes that it is put into.
pub set_hostname_guarded :
    ⦃db : Database⦄ (World : Type 0) (exec : Text → World → Result Text × World)
    (base64 : Text → Text) (key_file : Text) (id : String) (name : Text) (m : Machine World exec)
    → (set_hostname World exec base64 key_file id name m
        ≡ (err (bad_request "Invalid hostname format"), m))
      ⊎ (every is_name_char name ≡ true)
unfolding set_hostname
set_hostname_guarded World exec base64 key_file id name m = elim (Bool-cases (is_hostname name)) [
  | inl e ↦ inr (hostname_chars name e)
  | inr e ↦ inl (rw e)
]
