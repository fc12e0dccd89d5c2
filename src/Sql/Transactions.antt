-- ===== src/Sql/Transactions.antt =====
-- `with self._connect() as connection:` commits when its body returns and rolls back when it raises.
use lotus_report.Prelude.{◌≡◌, refl, arith}

-- A value, or the exception that a call raises.
pub data Result {ℓ κ} (E : Type ℓ) (A : Type κ) : Type (ℓ ⊔ κ) where
  ok : A → Result E A
  err : E → Result E A

-- A body that reads and writes the tables of `D`, and returns or raises.
abbrev pub Tx {ℓ} : Type ℓ → Type ℓ → Type ℓ → Type ℓ
Tx D E A = D → Result E (A × D)

module _ {ℓ} {D E A : Type ℓ} where
  abbrev pub return : A → Tx D E A
  return a d = ok (a, d)

  abbrev pub raise : E → Tx D E A
  raise e d = err e

  abbrev pub lift : Result E A → Tx D E A
  lift r d = elim r [ ok a ↦ ok (a, d) | err e ↦ err e ]

module _ {ℓ} {D E A B : Type ℓ} where
  infixl 5 ◌>>=◌
  abbrev pub ◌>>=◌ : Tx D E A → (A → Tx D E B) → Tx D E B
  ◌>>=◌ m f d = elim (m d) [ ok (a, d') ↦ f a d' | err e ↦ err e ]

module _ {ℓ} {D E B : Type ℓ} where
  infixl 5 ◌>>◌
  abbrev pub ◌>>◌ : {A : Type ℓ} → Tx D E A → Tx D E B → Tx D E B
  m >> k = m >>= λ _. k

  -- the caller's result, and the tables after the commit or the rollback
  unfoldable pub connect : Tx D E B → D → Result E B × D
  connect body d = elim (body d) [ ok (a, d') ↦ (ok a, d') | err e ↦ (err e, d) ]

  pub error_rolls_back :
      (body : Tx D E B) (d : D) (e : E) → (connect body d).0 ≡ err e → (connect body d).1 ≡ d
  unfolding connect
  error_rolls_back body d e h = ground arith

  -- What a committed body establishes, and a rollback keeps.
  pub connect_keeps {κ} :
      (P : D → Type κ) (body : Tx D E B) (d : D)
      → ((b : B) (d' : D) → body d ≡ ok (b, d') → P d')
      → P d
      → P (connect body d).1
  unfolding connect
  connect_keeps P body d made kept = go (body d) refl
    where
      go :
          (r : Result E (B × D))
          → body d ≡ r
          → P (
              let c : Result E B × D = elim r [ ok (a, d') ↦ (ok a, d') | err e ↦ (err e, d) ] in
              c.1)
      go (ok (b, d')) e = made b d' e
      go (err e') e = kept

module _ {ℓ} {D E A B : Type ℓ} where
  pub bind-ok :
      (m : Tx D E A) (f : A → Tx D E B) (d : D) {b : B} {d' : D}
      → (m >>= f) d ≡ ok (b, d')
      → (a : A) × (c : D) × (m d ≡ ok (a, c)) × (f a c ≡ ok (b, d'))
  bind-ok m f d {b} {d'} h = go (m d) refl h
    where
      go :
          (r : Result E (A × D))
          → m d ≡ r
          → (let s : Result E (B × D) = elim r [ ok (a, c) ↦ f a c | err e ↦ err e ] in
              s ≡ ok (b, d'))
          → (a : A) × (c : D) × (m d ≡ ok (a, c)) × (f a c ≡ ok (b, d'))
      go (ok (a, c)) e k = (a, c, e, k)
      go (err e') e k = cc

  -- A body that starts with a step that returns goes on from there.
  pub bind_step :
      (m : Tx D E A) (f : A → Tx D E B) (d : D) (a : A) (c : D)
      → m d ≡ ok (a, c)
      → (m >>= f) d ≡ f a c
  bind_step m f d a c h = ground arith

module _ {ℓ} {D E B : Type ℓ} where
  pub connect-returned :
      (body : Tx D E B) (d : D) (b : B) (d' : D) → body d ≡ ok (b, d') → connect body d ≡ (ok b, d')
  unfolding connect
  connect-returned body d b d' h = ground arith

  pub returned-connect :
      (body : Tx D E B) (d : D) (b : B)
      → (connect body d).0 ≡ ok b
      → body d ≡ ok (b, (connect body d).1)
  unfolding connect
  returned-connect body d b h = ground arith
