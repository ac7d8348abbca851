-- ===== src/Prisma.antt =====
-- What the handlers use of the Prisma client: a table of a model's rows. The client is not part
-- of the repository, so its tables are a parameter, with the documented effect of each call on
-- the rows that a later `findMany` returns.
pub mod Updates
use hamyar_ops.Base.{Bool, ◌≡◌, Option, List, [], ◌∷◌, ◌++◌, first, keep, amend, not}

pub record Database : Type 1 where
  pub Table : Type 0 → Type 0
  pub rows : {Row : Type 0} → Table Row → List Row
  pub create : {Row : Type 0} → Row → Table Row → Table Row
  pub update_many : {Row : Type 0} → (Row → Bool) → (Row → Row) → Table Row → Table Row
  pub delete_many : {Row : Type 0} → (Row → Bool) → Table Row → Table Row
  pub rows-create : {Row : Type 0} (r : Row) (t : Table Row) → rows (create r t) ≡ rows t ++ r ∷ []
  pub rows-update_many :
      {Row : Type 0} (p : Row → Bool) (f : Row → Row) (t : Table Row)
      → rows (update_many p f t) ≡ amend p f (rows t)
  pub rows-delete_many :
      {Row : Type 0} (p : Row → Bool) (t : Table Row)
      → rows (delete_many p t) ≡ keep (λ r. not (p r)) (rows t)

module _ ⦃db : Database⦄ where
  open db use {Table, rows}

  -- findFirst, findUnique
  abbrev pub find_first : {Row : Type 0} → (Row → Bool) → Table Row → Option Row
  find_first p t = first p (rows t)
