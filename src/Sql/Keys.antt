-- ===== src/Sql/Keys.antt =====
-- Rows found by the values of a unique column.
use mathlib.Core.Option
use lotus_report.Prelude.{
  Bool-cases, ◌++◌, none, some, subst, false, if◌then◌else◌, ℕ, zero, suc, ◌+◌, ◌≤◌, String, ◌≡◌,
  refl, ap, Bool, true, false, ◌||◌, inl, inr, List, [], ◌∷◌, map, arith, All, In, take, str_eq,
  eq_iff, eq_refl, length,
}
use lotus_report.Sql.Statements.{
  fetchone, select, update, rowcount, insert_by, order_by, is_in, IsUnique,
}

module _ {ℓ} {A : Type ℓ} where
  -- A count of rows by a column that the SET clause does not write.
  pub rowcount-update :
      (q p : A → Bool) (f : A → A) (rs : List A)
      → ((r : A) → q (f r) ≡ q r)
      → rowcount q (update p f rs) ≡ rowcount q rs
  unfolding rowcount update
  rowcount-update q p f [] same = refl
  rowcount-update q p f (r ∷ rs) same = ground (arith, same r, rowcount-update q p f rs same)

  pub IsUnique-update :
      (key : A → String) (p : A → Bool) (f : A → A) (rs : List A)
      → ((r : A) → key (f r) ≡ key r)
      → IsUnique key rs
      → IsUnique key (update p f rs)
  IsUnique-update key p f rs same h k =
      rw (rowcount-update (λ r. str_eq (key r) k) p f rs (λ r. ap (λ s. str_eq s k) (same r))) (h k)

  pub rowcount-or :
      (p q : A → Bool) (rs : List A) → rowcount (λ r. p r || q r) rs ≤ rowcount p rs + rowcount q rs
  unfolding rowcount
  rowcount-or p q [] = omega arith
  rowcount-or p q (r ∷ rs) = ground (arith, rowcount-or p q rs)

  rowcount-false : (rs : List A) → rowcount (λ r. false) rs ≡ 0
  unfolding rowcount
  rowcount-false [] = refl
  rowcount-false (r ∷ rs) = rw (rowcount-false rs)

  -- At most one row stands behind each listed key.
  pub rowcount-is_in :
      (key : A → String) (ids : List String) (rs : List A)
      → IsUnique key rs
      → rowcount (λ r. is_in ids (key r)) rs ≤ length ids
  unfolding is_in
  rowcount-is_in key [] rs u = omega (arith, rowcount-false rs)
  rowcount-is_in key (i ∷ is) rs u = omega (
    arith,
    rowcount-or (λ r. str_eq (key r) i) (λ r. is_in is (key r)) rs,
    u i,
    rowcount-is_in key is rs u,
  )

  pub rowcount_mono :
      (p q : A → Bool) (rs : List A)
      → ((r : A) → p r ≡ true → q r ≡ true)
      → rowcount p rs ≤ rowcount q rs
  unfolding rowcount
  rowcount_mono p q [] f = omega arith
  rowcount_mono p q (r ∷ rs) f = ground (arith, f r, rowcount_mono p q rs f)

  pub length-select : (p : A → Bool) (rs : List A) → length (select p rs) ≡ rowcount p rs
  unfolding select rowcount
  length-select p [] = refl
  length-select p (r ∷ rs) = ground (arith, length-select p rs)

  length-insert_by : (k : A → ℕ) (r : A) (rs : List A) → length (insert_by k r rs) ≡ suc (length rs)
  unfolding insert_by
  length-insert_by k r [] = refl
  length-insert_by k r (s ∷ ss) = ground (arith, length-insert_by k r ss)

  pub length-order_by : (k : A → ℕ) (rs : List A) → length (order_by k rs) ≡ length rs
  unfolding order_by
  length-order_by k [] = refl
  length-order_by k (r ∷ rs) =
      ground (arith, length-insert_by k r (order_by k rs), length-order_by k rs)

module _ {ℓ} {A : Type ℓ} where
  rowcount-append :
      (p : A → Bool) (rs ss : List A) → rowcount p (rs ++ ss) ≡ rowcount p rs + rowcount p ss
  unfolding rowcount
  rowcount-append p [] ss = omega arith
  rowcount-append p (r ∷ rs) ss = omega (arith, rowcount-append p rs ss)

  fetchone-none-rowcount :
      (p q : A → Bool) (rs : List A)
      → ((r : A) → p r ≡ false → q r ≡ false)
      → fetchone p rs ≡ none
      → rowcount q rs ≡ 0
  unfolding fetchone rowcount
  fetchone-none-rowcount p q [] weaker h = refl
  fetchone-none-rowcount p q (r ∷ rs) weaker h =
      ground (arith, weaker r, fetchone-none-rowcount p q rs weaker)

  -- INSERT of a row that no row conflicts with.
  pub IsUnique-insert :
      (key : A → String) (p : A → Bool) (new : A) (rs : List A)
      → ((r : A) → p r ≡ false → str_eq (key r) (key new) ≡ false)
      → fetchone p rs ≡ none
      → IsUnique key rs
      → IsUnique key (rs ++ new ∷ [])
  unfolding rowcount
  IsUnique-insert key p new rs stronger h u k = elim (Bool-cases (str_eq (key new) k)) [
    | inl e ↦
        let none_yet : rowcount (λ r. str_eq (key r) k) rs ≡ 0 =
          subst (λ j. rowcount (λ r. str_eq (key r) j) rs ≡ 0) ((eq_iff (key new) k).0 e)
            (fetchone-none-rowcount p (λ r. str_eq (key r) (key new)) rs stronger h) in
        ground (arith, rowcount-append (λ r. str_eq (key r) k) rs (new ∷ []))
    | inr e ↦ ground (arith, rowcount-append (λ r. str_eq (key r) k) rs (new ∷ []), u k)
  ]

  -- A row found before an UPDATE that does not touch the columns of the test is found after it.
  pub fetchone-update :
      (q p : A → Bool) (f : A → A) (rs : List A)
      → ((r : A) → q (f r) ≡ q r)
      → fetchone q (update p f rs) ≡ Option.map (λ r. if p r then f r else r) (fetchone q rs)
  unfolding fetchone update
  fetchone-update q p f [] same = refl
  fetchone-update q p f (r ∷ rs) same = ground (arith, same r, fetchone-update q p f rs same)

  pub fetchone-append :
      (q : A → Bool) (rs ss : List A) (r : A)
      → fetchone q rs ≡ some r
      → fetchone q (rs ++ ss) ≡ some r
  unfolding fetchone
  fetchone-append q [] ss r h = cc
  fetchone-append q (s ∷ rs) ss r h = ground (arith, fetchone-append q rs ss r)

  pub fetchone-append_none :
      (q : A → Bool) (rs ss : List A) → fetchone q rs ≡ none → fetchone q (rs ++ ss) ≡ fetchone q ss
  unfolding fetchone
  fetchone-append_none q [] ss h = refl
  fetchone-append_none q (s ∷ rs) ss h = ground (arith, fetchone-append_none q rs ss)

module _ (A : Type 0) (key : A → String) where
  pub In-rowcount : (s : A) (rs : List A) → In s rs → 1 ≤ rowcount (λ r. str_eq (key r) (key s)) rs
  unfolding rowcount
  In-rowcount s [] h = absurd h
  In-rowcount s (r ∷ rs) (inl e) = rw (← e) (rw (eq_refl (key s)) (omega arith))
  In-rowcount s (r ∷ rs) (inr m) = ground (arith, In-rowcount s rs m)

  pub is_in-rowcount :
      (q : A → Bool) (k : String) (rs : List A)
      → is_in (map key (select q rs)) k ≡ true
      → 1 ≤ rowcount (λ r. str_eq (key r) k) rs
  unfolding rowcount is_in select
  is_in-rowcount q k [] h = cc
  is_in-rowcount q k (r ∷ rs) h =
      ground (arith, is_in-rowcount q k rs, eq_iff k (key r), eq_iff (key r) k)

  IsUnique-tail : (r : A) (rs : List A) → IsUnique key (r ∷ rs) → IsUnique key rs
  unfolding rowcount
  IsUnique-tail r rs u k = ground (arith, u k)

  -- A row whose unique key was selected was itself selected.
  pub selected_by_key :
      (q : A → Bool) (rs : List A)
      → IsUnique key rs
      → (s : A) → In s rs
      → is_in (map key (select q rs)) (key s) ≡ true
      → q s ≡ true
  unfolding select rowcount is_in
  selected_by_key q [] u s h i = absurd h
  selected_by_key q (r ∷ rs) u s (inl e) i =
      ground (arith, u (key r), is_in-rowcount q (key r) rs, eq_refl (key r), eq_refl (key s))
  selected_by_key q (r ∷ rs) u s (inr m) i = ground (
    arith,
    u (key s),
    In-rowcount s rs m,
    eq_iff (key s) (key r),
    eq_iff (key r) (key s),
    selected_by_key q rs (IsUnique-tail r rs u) s m,
  )

module _ {A : Type 0} where
  pub All-of_In : {P : A → Type 0} (rs : List A) → ((s : A) → In s rs → P s) → All P rs
  All-of_In [] f = tt
  All-of_In (r ∷ rs) f = (f r (inl refl), All-of_In rs (λ s m. f s (inr m)))

  pub is_in-take :
      (key : A → String) (k : String) (n : ℕ) (rs : List A)
      → is_in (map key (take n rs)) k ≡ true
      → is_in (map key rs) k ≡ true
  unfolding is_in
  is_in-take key k zero rs h = cc
  is_in-take key k (suc n) [] h = h
  is_in-take key k (suc n) (r ∷ rs) h = ground (arith, is_in-take key k n rs)

  is_in-insert_by :
      (key : A → String) (k : String) (order : A → ℕ) (r : A) (rs : List A)
      → is_in (map key (insert_by order r rs)) k ≡ (str_eq k (key r) || is_in (map key rs) k)
  unfolding is_in insert_by
  is_in-insert_by key k order r [] = refl
  is_in-insert_by key k order r (s ∷ ss) = ground (arith, is_in-insert_by key k order r ss)

  pub is_in-order_by :
      (key : A → String) (k : String) (order : A → ℕ) (rs : List A)
      → is_in (map key (order_by order rs)) k ≡ is_in (map key rs) k
  unfolding is_in order_by
  is_in-order_by key k order [] = refl
  is_in-order_by key k order (r ∷ rs) =
      ground
        (arith, is_in-insert_by key k order r (order_by order rs), is_in-order_by key k order rs)
