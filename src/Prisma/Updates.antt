-- ===== src/Prisma/Updates.antt =====
-- A row that is found by its id is found again behind updates by that id.
use hamyar_ops.Base.{String, ◌≡◌, sym, ap, ◌∙◌, Bool, some, first, amend, str_eq, eq_iff}
use hamyar_ops.Base.Rows.{first-true, first-amend_found}
use hamyar_ops.Prisma.{Database, find_first}

module _ ⦃db : Database⦄ {A : Type 0} (id : A → String) where
  open db use {Table, rows, update_many}

  abbrev has_id : String → A → Bool
  has_id i x = str_eq (id x) i

  pub found_id : (i : String) (r : A) (t : Table A) → find_first (has_id i) t ≡ some r → id r ≡ i
  found_id i r t found = (eq_iff (id r) i).0 (first-true (has_id i) (rows t) r found)

  pub find_first-update_many :
      (i : String) (r : A) (f : A → A) (t : Table A)
      → find_first (has_id i) t ≡ some r
      → ((x : A) → id (f x) ≡ id x)
      → find_first (has_id i) (update_many (has_id (id r)) f t) ≡ some (f r)
  find_first-update_many i r f t found same =
      ap (first (has_id i)) (db.rows-update_many (has_id (id r)) f t)
      ∙ ap (λ j. first (has_id i) (amend (has_id j) f (rows t))) (found_id i r t found)
      ∙ first-amend_found (has_id i) f (rows t) r (λ x. ap (λ j. str_eq j i) (same x)) found

  pub find_first-update_twice :
      (i : String) (r : A) (f g : A → A) (t : Table A)
      → find_first (has_id i) t ≡ some r
      → ((x : A) → id (f x) ≡ id x)
      → ((x : A) → id (g x) ≡ id x)
      → find_first (has_id i) (update_many (has_id (id r)) g (update_many (has_id (id r)) f t))
        ≡ some (g (f r))
  find_first-update_twice i r f g t found same same' =
      ap (λ j. find_first (has_id i) (update_many (has_id j) g (update_many (has_id (id r)) f t)))
        (sym (same r))
      ∙ find_first-update_many i (f r) g (update_many (has_id (id r)) f t)
          (find_first-update_many i r f t found same) same'
