-- ===== src/Sql/Steps.antt =====
-- What a body keeps when it returns, and bodies that only read.
use lotus_report.Prelude.{Bool, true, false, ◌≡◌, ◌∙◌, subst, sym, arith, if◌then◌else◌}
use lotus_report.Sql.Transactions.{
  err, ◌>>◌, ok, Tx, return, raise, ◌>>=◌, connect, connect_keeps, bind-ok,
}

module _ {ℓ} {D E : Type ℓ} where
  abbrev pub Keeps {κ} : (D → Type κ) → {A : Type ℓ} → Tx D E A → Type (ℓ ⊔ κ)
  Keeps P {A} m = (d : D) (a : A) (d' : D) → m d ≡ ok (a, d') → P d → P d'

  abbrev pub Reads : {A : Type ℓ} → Tx D E A → Type ℓ
  Reads {A} m = (d : D) (a : A) (d' : D) → m d ≡ ok (a, d') → d' ≡ d

  module _ {A B : Type ℓ} where
    pub Keeps-bind {κ} :
        (P : D → Type κ) (m : Tx D E A) (f : A → Tx D E B)
        → Keeps P m
        → ((a : A) → Keeps P (f a))
        → Keeps P (m >>= f)
    Keeps-bind P m f h k d b d' e p =
        let (a, c, e1, e2) = bind-ok m f d e in k a c b d' e2 (h d a c e1 p)

    pub Reads-bind :
        (m : Tx D E A) (f : A → Tx D E B) → Reads m → ((a : A) → Reads (f a)) → Reads (m >>= f)
    Reads-bind m f h k d b d' e = let (a, c, e1, e2) = bind-ok m f d e in k a c b d' e2 ∙ h d a c e1

  module _ {A : Type ℓ} where
    pub Reads-return : (a : A) → Reads (return a)
    Reads-return a d b d' e = ground arith

    pub Reads-raise : (x : E) → Reads {A = A} (raise x)
    Reads-raise x d b d' e = cc

    pub Reads-if : (b : Bool) (m k : Tx D E A) → Reads m → Reads k → Reads (if b then m else k)
    Reads-if true m k h j = h
    Reads-if false m k h j = j

    pub Keeps-if {κ} :
        (P : D → Type κ) (b : Bool) (m k : Tx D E A)
        → Keeps P m
        → Keeps P k
        → Keeps P (if b then m else k)
    Keeps-if P true m k h j = h
    Keeps-if P false m k h j = j

    pub Keeps-reads {κ} : (P : D → Type κ) (m : Tx D E A) → Reads m → Keeps P m
    Keeps-reads P m h d a d' e p = subst P (sym (h d a d' e)) p

    pub Keeps-connect {κ} :
        (P : D → Type κ) (m : Tx D E A) (d : D) → Keeps P m → P d → P (connect m d).1
    Keeps-connect P m d h p = connect_keeps P m d (λ a d' e. h d a d' e p) p

module _ {ℓ} {D E A : Type ℓ} where
  -- A step for its effect alone, before a value.
  pub step-ok :
      (m : Tx D E (Unit {ℓ})) (a b : A) (d d' : D)
      → (m >> return a) d ≡ ok (b, d')
      → m d ≡ ok (tt, d')
  step-ok m a b d d' h = ground arith

  -- A body whose first step raises, raises.
  pub bind_raised :
      {B : Type ℓ} (m : Tx D E A) (f : A → Tx D E B) (d : D) (e : E)
      → m d ≡ err e
      → (m >>= f) d ≡ err e
  bind_raised m f d e h = ground arith

  pub connect-raised :
      (body : Tx D E A) (d : D) (e : E) → body d ≡ err e → connect body d ≡ (err e, d)
  unfolding connect
  connect-raised body d e h = ground arith
