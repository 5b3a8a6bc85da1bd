-- ===== src/Prelude/Table.antt =====
-- A table of the database behind its client library, which is not part of this repository: the
-- calls that the backend makes of it, with the documented behaviour that the backend relies on.
use Prim.Native.Nat.{ℕ, ◌≤◌}
use mathlib.Core.Path.{◌≡◌}
use mathlib.Core.Logic.{◌↔◌}
use mathlib.Core.Bool.{Bool, true, false}
use mathlib.Core.Option.{Option, none, some}
use mathlib.Core.List.{List, [], ◌∷◌, map}
use xander.Prelude.Lists.{In, All, count_if}
use xander.Prelude.Tests.{if◌then◌else◌}

-- What `updateMany` does to one row.
abbrev pub patch {ℓ} : {A : Type ℓ} → (A → Bool) → (A → A) → A → A
patch p f r = if p r then f r else r

-- Ordered by a key, the largest first.
abbrev pub IsDescending {ℓ} : {A : Type ℓ} → (A → ℕ) → List A → Type 0
IsDescending key [] = Unit
IsDescending key (x ∷ xs) = All (λ y. key y ≤ key x) xs × IsDescending key xs

-- `rows` lists what the table holds, in some order; it is used in statements only.
pub record Table (Row : Type 0) : Type 1 where
  pub Db : Type 0
  pub rows : Db → List Row
  -- `findMany({ where, orderBy: desc })`
  pub find_many : (Row → Bool) → (Row → ℕ) → Db → List Row
  -- `findUnique({ where })`
  pub find_unique : (Row → Bool) → Db → Option Row
  -- `count({ where })`
  pub count : (Row → Bool) → Db → ℕ
  -- `updateMany({ where, data })`, with the number of rows that it changed
  pub update_many : (Row → Bool) → (Row → Row) → Db → ℕ × Db
  -- `create({ data })`
  pub create : Row → Db → Db
  pub find_many-In :
      (p : Row → Bool) (key : Row → ℕ) (db : Db) (r : Row)
      → In r (find_many p key db) ↔ (In r (rows db) × (p r ≡ true))
  pub find_many-IsDescending :
      (p : Row → Bool) (key : Row → ℕ) (db : Db) → IsDescending key (find_many p key db)
  pub find_unique-some :
      (p : Row → Bool) (db : Db) (r : Row)
      → find_unique p db ≡ some r
      → In r (rows db) × (p r ≡ true)
  pub find_unique-none :
      (p : Row → Bool) (db : Db) → find_unique p db ≡ none → All (λ r. p r ≡ false) (rows db)
  pub count-rows : (p : Row → Bool) (db : Db) → count p db ≡ count_if p (rows db)
  pub update_many-count :
      (p : Row → Bool) (f : Row → Row) (db : Db) → (update_many p f db).0 ≡ count_if p (rows db)
  pub update_many-rows :
      (p : Row → Bool) (f : Row → Row) (db : Db)
      → rows (update_many p f db).1 ≡ map (patch p f) (rows db)
  pub create-rows : (r : Row) (db : Db) → rows (create r db) ≡ r ∷ rows db
