-- ===== src/Sql/Statements.antt =====
-- SELECT, UPDATE and COUNT over a list of rows.
use lotus_report.Prelude.{
  ℕ, ◌+◌, ◌≤◌, String, Bool, false, ◌||◌, Option, none, some, List, [], ◌∷◌, leb, str_eq,
  if◌then◌else◌,
}

module _ {ℓ} {A : Type ℓ} where
  -- SELECT * FROM t WHERE p
  unfoldable pub select : (A → Bool) → List A → List A
  select p [] = []
  select p (r ∷ rs) = let rest = select p rs in if p r then r ∷ rest else rest

  -- UPDATE t SET f WHERE p
  unfoldable pub update : (A → Bool) → (A → A) → List A → List A
  update p f [] = []
  update p f (r ∷ rs) = (if p r then f r else r) ∷ update p f rs

  -- `cursor.rowcount` of an UPDATE with this WHERE clause, and SELECT COUNT(*)
  unfoldable pub rowcount : (A → Bool) → List A → ℕ
  rowcount p [] = 0
  rowcount p (r ∷ rs) = (if p r then 1 else 0) + rowcount p rs

  -- `.fetchone()`: the first row that passes
  unfoldable pub fetchone : (A → Bool) → List A → Option A
  fetchone p [] = none
  fetchone p (r ∷ rs) = let rest = fetchone p rs in if p r then some r else rest

  unfoldable pub insert_by : (A → ℕ) → A → List A → List A
  insert_by key r [] = r ∷ []
  insert_by key r (s ∷ ss) = if leb (key r) (key s) then r ∷ s ∷ ss else s ∷ insert_by key r ss

  -- ORDER BY key; rows with equal keys keep their order in the table
  unfoldable pub order_by : (A → ℕ) → List A → List A
  unfolding insert_by
  order_by key [] = []
  order_by key (r ∷ rs) = insert_by key r (order_by key rs)

  unfoldable pub insert_row : (A → A → Bool) → A → List A → List A
  insert_row le r [] = r ∷ []
  insert_row le r (s ∷ ss) = if le r s then r ∷ s ∷ ss else s ∷ insert_row le r ss

  -- ORDER BY several columns, compared by `le`
  unfoldable pub sort_rows : (A → A → Bool) → List A → List A
  unfolding insert_row
  sort_rows le [] = []
  sort_rows le (r ∷ rs) = insert_row le r (sort_rows le rs)

-- column IN (...)
unfoldable pub is_in : List String → String → Bool
is_in [] k = false
is_in (i ∷ is) k = str_eq k i || is_in is k

-- A PRIMARY KEY or UNIQUE column: no value stands in two rows.
abbrev pub IsUnique {ℓ} : {A : Type ℓ} → (A → String) → List A → Type 0
IsUnique key rs = (k : String) → rowcount (λ r. str_eq (key r) k) rs ≤ 1
