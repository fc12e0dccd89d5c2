-- ===== src/Sql/Laws.antt =====
-- What SELECT and UPDATE keep of a predicate on rows, and what they leave alone.
use lotus_report.Prelude.{
  if◌then◌else◌, ℕ, ◌≡◌, refl, ◌≢◌, ap, subst, inl, inr, Bool, true, false, some, List, [], ◌∷◌,
  map, arith, All, Bool-cases, leb,
}
use lotus_report.Sql.Statements.{
  select, update, rowcount, fetchone, insert_by, order_by, insert_row, sort_rows,
}

module _ {ℓ} {A : Type ℓ} (p : A → Bool) (s : A) (rs : List A) where
  fetched : {r : A} → p s ≡ true → fetchone p (s ∷ rs) ≡ some r → s ≡ r
  unfolding fetchone
  fetched t e = ground arith

  passed : {r : A} → p s ≡ false → fetchone p (s ∷ rs) ≡ some r → fetchone p rs ≡ some r
  unfolding fetchone
  passed t e = ground arith

  counted : p s ≡ true → rowcount p (s ∷ rs) ≢ 0
  unfolding rowcount
  counted t e = ground arith

  skipped : p s ≡ false → rowcount p (s ∷ rs) ≡ 0 → rowcount p rs ≡ 0
  unfolding rowcount
  skipped t e = ground arith

module _ {ℓ κ} {A : Type ℓ} (P : A → Type κ) where
  -- An UPDATE keeps what it keeps of the rows that it writes.
  pub All-update :
      (p : A → Bool) (f : A → A) (rs : List A)
      → ((r : A) → P r → p r ≡ true → P (f r))
      → All P rs
      → All P (update p f rs)
  unfolding update
  All-update p f [] keep h = tt
  All-update p f (r ∷ rs) keep h = elim (Bool-cases (p r)) [
    | inl e ↦ rw e (keep r h.0 e, All-update p f rs keep h.1)
    | inr e ↦ rw e (h.0, All-update p f rs keep h.1)
  ]

  -- The same where a second fact is known of each row.
  pub All-update_with {μ} :
      (Q : A → Type μ) (p : A → Bool) (f : A → A) (rs : List A)
      → ((r : A) → P r → Q r → p r ≡ true → P (f r))
      → All P rs
      → All Q rs
      → All P (update p f rs)
  unfolding update
  All-update_with Q p f [] keep h k = tt
  All-update_with Q p f (r ∷ rs) keep h k = elim (Bool-cases (p r)) [
    | inl e ↦ rw e (keep r h.0 k.0 e, All-update_with Q p f rs keep h.1 k.1)
    | inr e ↦ rw e (h.0, All-update_with Q p f rs keep h.1 k.1)
  ]

  pub All-select :
      (p : A → Bool) (rs : List A) → All P rs → All (λ r. P r × (p r ≡ true)) (select p rs)
  unfolding select
  All-select p [] h = tt
  All-select p (r ∷ rs) h = elim (Bool-cases (p r)) [
    | inl e ↦ rw e ((h.0, e), All-select p rs h.1)
    | inr e ↦ rw e (All-select p rs h.1)
  ]

  -- The rows that an UPDATE wrote, read back by the same WHERE clause.
  pub All-select_update {μ} :
      (Q : A → Type μ) (p : A → Bool) (f : A → A) (rs : List A)
      → ((r : A) → p (f r) ≡ p r)
      → ((r : A) → P r → p r ≡ true → Q (f r))
      → All P rs
      → All Q (select p (update p f rs))
  unfolding select update
  All-select_update Q p f [] same step h = tt
  All-select_update Q p f (r ∷ rs) same step h = elim (Bool-cases (p r)) [
    | inl e ↦ rw (e, same r) (rw e (step r h.0 e, All-select_update Q p f rs same step h.1))
    | inr e ↦ rw e (rw e (All-select_update Q p f rs same step h.1))
  ]

  pub All-fetchone :
      (p : A → Bool) (rs : List A) {r : A} → All P rs → fetchone p rs ≡ some r → P r × (p r ≡ true)
  unfolding fetchone
  All-fetchone p [] h e = cc
  All-fetchone p (s ∷ rs) {r} h e = elim (Bool-cases (p s)) [
    | inl t ↦ subst (λ x. P x × (p x ≡ true)) (fetched p s rs t e) (h.0, t)
    | inr t ↦ All-fetchone p rs h.1 (passed p s rs t e)
  ]

  All-insert_by : (key : A → ℕ) (r : A) (rs : List A) → P r → All P rs → All P (insert_by key r rs)
  unfolding insert_by
  All-insert_by key r [] h hs = (h, tt)
  All-insert_by key r (s ∷ ss) h hs = elim (Bool-cases (leb (key r) (key s))) [
    | inl e ↦ rw e (h, hs)
    | inr e ↦ rw e (hs.0, All-insert_by key r ss h hs.1)
  ]

  All-insert_row :
      (le : A → A → Bool) (r : A) (rs : List A) → P r → All P rs → All P (insert_row le r rs)
  unfolding insert_row
  All-insert_row le r [] h hs = (h, tt)
  All-insert_row le r (s ∷ ss) h hs = elim (Bool-cases (le r s)) [
    | inl e ↦ rw e (h, hs)
    | inr e ↦ rw e (hs.0, All-insert_row le r ss h hs.1)
  ]

  pub All-sort_rows : (le : A → A → Bool) (rs : List A) → All P rs → All P (sort_rows le rs)
  unfolding sort_rows
  All-sort_rows le [] h = tt
  All-sort_rows le (r ∷ rs) h = All-insert_row le r (sort_rows le rs) h.0 (All-sort_rows le rs h.1)

  pub All-order_by : (key : A → ℕ) (rs : List A) → All P rs → All P (order_by key rs)
  unfolding order_by
  All-order_by key [] h = tt
  All-order_by key (r ∷ rs) h = All-insert_by key r (order_by key rs) h.0 (All-order_by key rs h.1)

module _ {ℓ} {A : Type ℓ} where
  pub All-true : (rs : List A) → All (λ r. Unit {0}) rs
  All-true [] = tt
  All-true (r ∷ rs) = (tt, All-true rs)

  -- An UPDATE that counts no row changes no row.
  pub update-rowcount_zero :
      (p : A → Bool) (f : A → A) (rs : List A) → rowcount p rs ≡ 0 → update p f rs ≡ rs
  unfolding update rowcount
  update-rowcount_zero p f [] h = refl
  update-rowcount_zero p f (r ∷ rs) h = elim (Bool-cases (p r)) [
    | inl e ↦ absurd (counted p r rs e h)
    | inr e ↦ rw e (ap (λ t. r ∷ t) (update-rowcount_zero p f rs (skipped p r rs e h)))
  ]

  -- A column that the SET clause does not name keeps its values.
  pub map-update {κ} :
      {B : Type κ} (column : A → B) (p : A → Bool) (f : A → A) (rs : List A)
      → ((r : A) → column (f r) ≡ column r)
      → map column (update p f rs) ≡ map column rs
  unfolding update
  map-update column p f [] same = refl
  map-update column p f (r ∷ rs) same = elim (Bool-cases (p r)) [
    | inl e ↦ rw (e, same r) (ap (λ t. column r ∷ t) (map-update column p f rs same))
    | inr e ↦ rw e (ap (λ t. column r ∷ t) (map-update column p f rs same))
  ]

module _ {A : Type 0} (P : A → Type 0) where
  -- What holds of what an UPDATE makes of each row holds of each row that it leaves.
  pub All-update_each :
      (p : A → Bool) (f : A → A) (rs : List A)
      → All (λ r. P (if p r then f r else r)) rs
      → All P (update p f rs)
  unfolding update
  All-update_each p f [] h = tt
  All-update_each p f (r ∷ rs) h = (h.0, All-update_each p f rs h.1)
