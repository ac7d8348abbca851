-- ===== src/Auth/Users/Taken.antt =====
-- Whether another user has a requested name or address.
use hamyar_ops.Base.{
  ◌≡◌, refl, String, Bool, false, ◌&&◌, ◌||◌, not, none, some, List, [], ◌∷◌, arith, str_eq, any,
  eq_iff, true, Option, truthy, is_text,
}
use hamyar_ops.Auth.State.{User}
use hamyar_ops.Auth.Users.{UpdateUser}

pub any-or-false :
    {A : Type 0} (p q : A → Bool) (xs : List A)
    → any (λ x. p x || q x) xs ≡ false
    → (any p xs ≡ false) × (any q xs ≡ false)
any-or-false p q [] h = (refl, refl)
any-or-false p q (x ∷ xs) h = ground (arith, any-or-false p q xs)

pub any_free :
    {A : Type 0} (a b c : A → Bool) (xs : List A)
    → any (λ x. not (a x) && (b x || c x)) xs ≡ false
    → (any (λ x. b x && not (a x)) xs ≡ false) × (any (λ x. c x && not (a x)) xs ≡ false)
any_free a b c [] h = (refl, refl)
any_free a b c (x ∷ xs) h = ground (arith, any_free a b c xs)

-- A request names a text, which is not empty, that a row has.
abbrev asks_for : Option String → String → Bool
asks_for none text = false
asks_for (some wanted) text = not (str_eq wanted "") && str_eq text wanted

-- Another user's row has the name or the address of a request.
abbrev pub is_taken : String → UpdateUser → User → Bool
is_taken id dto u =
    not (str_eq u.id id) && (asks_for dto.username u.username || asks_for dto.email u.email)

asked :
    (o : Option String) (text : String)
    → asks_for o text ≡ true
    → (truthy o ≡ true) × (is_text o text ≡ true)
asked none text h = absurd (ground (arith, h))
asked (some wanted) text h = ground (arith, eq_iff text wanted, eq_iff wanted text)

pub any_taken :
    (id : String) (username email : Option String) (xs : List User)
    → any (λ u. not (str_eq u.id id) && (asks_for username u.username || asks_for email u.email)) xs
      ≡ true
    → ((truthy username || truthy email) ≡ true)
      × (any
            (λ u.
              not (str_eq u.id id)
              && ((truthy username && is_text username u.username)
                  || (truthy email && is_text email u.email)))
            xs
          ≡ true)
any_taken id username email [] h = absurd (ground (arith, h))
any_taken id username email (x ∷ xs) h =
    ground (arith, any_taken id username email xs, asked username x.username, asked email x.email)
