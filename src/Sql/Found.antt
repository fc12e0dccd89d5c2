-- ===== src/Sql/Found.antt =====
-- The row that a unique column finds: how many rows pass a further test, and what an UPDATE makes
-- of it.
use lotus_report.Prelude.{
  ◌∙◌, sym, ap, ◌≢◌, false, none, subst, ◌≤◌, String, ◌≡◌, refl, inl, inr, Bool, true, ◌&&◌, some,
  List, [], ◌∷◌, arith, In, str_eq, eq_iff, Bool-cases, if◌then◌else◌,
}
use lotus_report.Sql.Keys.{In-rowcount}
use lotus_report.Sql.Statements.{update, select, rowcount, fetchone, IsUnique}

module _ {A : Type 0} (key : A → String) where
  none_left :
      (k : String) (q : A → Bool) (rs : List A)
      → rowcount (λ s. str_eq (key s) k) rs ≡ 0
      → rowcount (λ s. str_eq (key s) k && q s) rs ≡ 0
  unfolding rowcount
  none_left k q [] h = refl
  none_left k q (r ∷ rs) h = ground (arith, none_left k q rs)

  pub rowcount_of_unique :
      (k : String) (q : A → Bool) (rs : List A) (r : A)
      → IsUnique key rs
      → fetchone (λ s. str_eq (key s) k) rs ≡ some r
      → rowcount (λ s. str_eq (key s) k && q s) rs ≡ (if q r then 1 else 0)
  unfolding rowcount fetchone
  rowcount_of_unique k q [] r u h = cc
  rowcount_of_unique k q (s ∷ rs) r u h = elim (Bool-cases (str_eq (key s) k)) [
    | inl e ↦
        let rest : rowcount (λ t. str_eq (key t) k) rs ≡ 0 = ground (arith, u k) in
        let same : s ≡ r = ground arith in ground (arith, none_left k q rs rest)
    | inr e ↦ ground (arith, rowcount_of_unique k q rs r (λ j. ground (arith, u j)))
  ]

  -- At most one row has the key, so any row of the table that has it is the one found.
  pub found_of_In :
      (k : String) (rs : List A) (s : A)
      → IsUnique key rs
      → In s rs
      → key s ≡ k
      → fetchone (λ t. str_eq (key t) k) rs ≡ some s
  unfolding rowcount fetchone
  found_of_In k [] s u m e = absurd m
  found_of_In k (r ∷ rs) s u (inl p) e = ground (arith, eq_iff (key r) k)
  found_of_In k (r ∷ rs) s u (inr m) e = elim (Bool-cases (str_eq (key r) k)) [
    | inl t ↦
        let again : 1 ≤ rowcount (λ t. str_eq (key t) k) rs =
          subst (λ j. 1 ≤ rowcount (λ t. str_eq (key t) j) rs) e (In-rowcount A key s rs m) in
        ground (arith, u k)
    | inr f ↦ rw f (found_of_In k rs s (λ j. ground (arith, u j)) m e)
  ]

module _ {ℓ} {A : Type ℓ} where
  -- The row that a test finds passes it.
  pub fetchone-true : (q : A → Bool) (rs : List A) (r : A) → fetchone q rs ≡ some r → q r ≡ true
  unfolding fetchone
  fetchone-true q [] r h = cc
  fetchone-true q (s ∷ rs) r h = elim (Bool-cases (q s)) [
    | inl e ↦ let same : s ≡ r = ground arith in rw (← same) e
    | inr e ↦ fetchone-true q rs r (ground arith)
  ]

module _ {A : Type 0} (key : A → String) where
  absent :
      (k : String) (q : A → Bool) (rs : List A)
      → rowcount (λ s. str_eq (key s) k) rs ≡ 0
      → fetchone (λ s. str_eq (key s) k && q s) rs ≡ none
  unfolding rowcount fetchone
  absent k q [] h = refl
  absent k q (r ∷ rs) h = ground (arith, absent k q rs)

  -- Where the one row with the key fails a further test, no row passes both.
  pub fetchone_of_unique :
      (k : String) (q : A → Bool) (rs : List A) (r : A)
      → IsUnique key rs
      → fetchone (λ s. str_eq (key s) k) rs ≡ some r
      → q r ≡ false
      → fetchone (λ s. str_eq (key s) k && q s) rs ≡ none
  unfolding rowcount fetchone
  fetchone_of_unique k q [] r u h f = cc
  fetchone_of_unique k q (s ∷ rs) r u h f = elim (Bool-cases (str_eq (key s) k)) [
    | inl e ↦
        let rest : rowcount (λ t. str_eq (key t) k) rs ≡ 0 = ground (arith, u k) in
        let one : s ≡ r = ground arith in rw (e, one, f) (absent k q rs rest)
    | inr e ↦ rw e (fetchone_of_unique k q rs r (λ j. ground (arith, u j)) (ground arith) f)
  ]

module _ {A : Type 0} where
  -- The row that a test finds is found by a narrower test that it passes.
  pub fetchone-narrower :
      (p q : A → Bool) (rs : List A) (r : A)
      → fetchone p rs ≡ some r
      → q r ≡ true
      → fetchone (λ s. p s && q s) rs ≡ some r
  unfolding fetchone
  fetchone-narrower p q [] r h t = absurd (ground arith)
  fetchone-narrower p q (x ∷ rs) r h t = elim (Bool-cases (p x)) [
    | inl e ↦ let same : x ≡ r = ground arith in rw (e, same, t) refl
    | inr e ↦ rw e (fetchone-narrower p q rs r (ground arith) t)
  ]

  -- A row that a test finds is found, or an earlier one is, by any test that it passes.
  pub fetchone-weaker :
      (q p : A → Bool) (rs : List A) (r : A)
      → fetchone q rs ≡ some r
      → p r ≡ true
      → (s : A) × (fetchone p rs ≡ some s)
  unfolding fetchone
  fetchone-weaker q p [] r h t = absurd (ground arith)
  fetchone-weaker q p (x ∷ rs) r h t = elim (Bool-cases (p x)) [
    | inl e ↦ (x, rw e refl)
    | inr e ↦ let (s, k) = fetchone-weaker q p rs r (ground arith) t in (s, rw e k)
  ]

  pub select-none : (p : A → Bool) (rs : List A) → ((r : A) → p r ≡ false) → select p rs ≡ []
  unfolding select
  select-none p [] h = refl
  select-none p (r ∷ rs) h = rw (h r) (select-none p rs h)

module _ {A : Type 0} (key : A → String) where
  -- An UPDATE of rows with one key is not seen under another.
  pub fetchone-update_other :
      (k i : String) (p : A → Bool) (f : A → A) (rs : List A)
      → ((x : A) → key (f x) ≡ key x)
      → ((x : A) → p x ≡ true → str_eq (key x) i ≡ true)
      → k ≢ i
      → fetchone (λ x. str_eq (key x) k) (update p f rs) ≡ fetchone (λ x. str_eq (key x) k) rs
  unfolding fetchone update
  fetchone-update_other k i p f [] same own ne = refl
  fetchone-update_other k i p f (r ∷ rs) same own ne =
      let rest = fetchone-update_other k i p f rs same own ne in
      elim (Bool-cases (str_eq (key r) k)) [
        | inr e ↦ ground (arith, e, ap (λ j. str_eq j k) (same r), rest)
        | inl e ↦ elim (Bool-cases (p r)) [
          | inl t ↦ absurd (ne (sym ((eq_iff (key r) k).0 e) ∙ (eq_iff (key r) i).0 (own r t)))
          | inr t ↦ rw t (rw e refl)
        ]
      ]
