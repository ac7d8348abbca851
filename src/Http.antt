-- ===== src/Http.antt =====
-- The exceptions that the handlers throw, and the handlers' monad: a handler takes the state
-- to a result and the state at the moment of the return or of the throw.
pub mod Invariants
use hamyar_ops.Base.{ℕ, String, ◌≡◌, refl}

-- `error` is a plain `Error`, which the exception filter answers with status 500;
-- `unique_violation` and `record_missing` are Prisma's errors P2002 and P2025. The number of
-- `too_many_requests` is the waiting time in seconds that its message names.
pub data Exception : Type 0 where
  bad_request unauthorized forbidden not_found conflict error : String → Exception
  unique_violation record_missing : Exception
  too_many_requests : ℕ → Exception

pub data Result {ℓ} (A : Type ℓ) : Type ℓ where
  ok : A → Result A
  err : Exception → Result A

abbrev pub Handler : Type 0 → Type 0 → Type 0
Handler S A = S → Result A × S

abbrev pub pure : {S A : Type 0} → A → Handler S A
pure a s = (ok a, s)

abbrev pub throw : {S A : Type 0} → Exception → Handler S A
throw e s = (err e, s)

abbrev pub gets : {S A : Type 0} → (S → A) → Handler S A
gets f s = (ok (f s), s)

abbrev pub modify : {S : Type 0} → (S → S) → Handler S (Unit {0})
modify f s = (ok tt, f s)

abbrev resume : {S A B : Type 0} → Result A → (A → Handler S B) → Handler S B
resume (ok a) f s = f a s
resume (err e) f s = (err e, s)

infixl 5 ◌>>=◌ ◌>>◌
abbrev pub ◌>>=◌ : {S A B : Type 0} → Handler S A → (A → Handler S B) → Handler S B
◌>>=◌ m f s = resume (m s).0 f (m s).1

abbrev pub ◌>>◌ : {S B : Type 0} → Handler S (Unit {0}) → Handler S B → Handler S B
m >> n = m >>= λ _. n

-- What holds before and after each part holds after both.
pub resume-keeps :
    {S A B : Type 0} (P : S → Type 0) (r : Result A) (f : A → Handler S B) (s : S)
    → P s
    → ((a : A) (t : S) → P t → P (f a t).1)
    → P (resume r f s).1
resume-keeps P (ok a) f s h next = next a s h
resume-keeps P (err e) f s h next = h

pub resume-ok :
    {S A B : Type 0} (r : Result A) (f : A → Handler S B) (s : S) (a : A)
    → r ≡ ok a
    → resume r f s ≡ f a s
resume-ok r f s a h = rw h

resume-eq-ok :
    {S A B : Type 0} (r : Result A × S) (f : A → Handler S B) {b : B} {s'' : S}
    → resume r.0 f r.1 ≡ (ok b, s'')
    → (a : A) × (s' : S) × (r ≡ (ok a, s')) × (f a s' ≡ (ok b, s''))
resume-eq-ok (ok a, s) f h = (a, s, refl, h)
resume-eq-ok (err e, s) f h = cc

-- What a handler that returns has done before its last part.
pub >>=-eq-ok :
    {S A B : Type 0} (m : Handler S A) (f : A → Handler S B) {s : S} {b : B} {s'' : S}
    → (m >>= f) s ≡ (ok b, s'')
    → (a : A) × (s' : S) × (m s ≡ (ok a, s')) × (f a s' ≡ (ok b, s''))
>>=-eq-ok m f {s} h = resume-eq-ok (m s) f h
