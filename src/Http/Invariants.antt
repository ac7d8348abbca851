-- ===== src/Http/Invariants.antt =====
-- Handlers that keep what holds of their state, whether they return or throw.
use hamyar_ops.Http.{Result, ok, err, Handler, ◌>>=◌}

module _ {S : Type 0} (I : S → Type 0) where
  abbrev pub Keeps : {A : Type 0} → Handler S A → Type 0
  Keeps m = (s : S) → I s → I (m s).1

  resumed :
      {A B : Type 0} (x : Result A × S) (f : A → Handler S B) (s : S)
      → I x.1
      → ((a : A) → Keeps (f a))
      → I (((λ (t : S). x) >>= f) s).1
  resumed (ok a, s') f s h k = k a s' h
  resumed (err e, s') f s h k = h

  pub bind :
      {A B : Type 0} (m : Handler S A) (f : A → Handler S B)
      → Keeps m
      → ((a : A) → Keeps (f a))
      → Keeps (m >>= f)
  bind m f h k s a = resumed (m s) f s (h s a) k
