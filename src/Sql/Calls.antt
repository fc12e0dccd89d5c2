-- ===== src/Sql/Calls.antt =====
-- A body of several calls that each commit on their own: an exception leaves what they wrote.
use lotus_report.Prelude.{◌⊎◌, inl, inr, ap, arith, ◌≡◌, refl}
use lotus_report.Sql.Transactions.{Result, ok, err}

abbrev pub Call {ℓ} : Type ℓ → Type ℓ → Type ℓ → Type ℓ
Call W E A = W → Result E A × W

-- The rest of a body after a call that returned, and none after one that raised.
abbrev pub after {ℓ} : {W E A B : Type ℓ} → Result E A × W → (A → Call W E B) → Result E B × W
after (ok a, w) f = f a w
after (err e, w) f = (err e, w)

-- What every call of a body keeps, the body keeps.
pub after_keeps {ℓ κ} :
    {W E A B : Type ℓ} (P : W → Type κ) (m : Result E A × W) (f : A → Call W E B)
    → P m.1
    → ((a : A) (w : W) → P w → P (f a w).1)
    → P (after m f).1
after_keeps P (ok a, w) f h k = k a w h
after_keeps P (err e, w) f h k = h

-- A body that returns has returned from its first call.
pub after-ok {ℓ} :
    {W E A B : Type ℓ} (m : Result E A × W) (f : A → Call W E B) (b : B)
    → (after m f).0 ≡ ok b
    → (a : A) × (m.0 ≡ ok a) × ((f a m.1).0 ≡ ok b)
after-ok (ok a, w) f b h = (a, refl, h)
after-ok (err e, w) f b h = cc

pub ok_injective {ℓ} : {E A : Type ℓ} {a b : A} → Path (Result E A) (ok a) (ok b) → a ≡ b
ok_injective e = ground arith

-- After a call that returned, the body goes on from what it wrote.
pub after-returned {ℓ} :
    {W E A B : Type ℓ} (m : Result E A × W) (f : A → Call W E B) (a : A)
    → m.0 ≡ ok a
    → after m f ≡ f a m.1
after-returned (ok b, w) f a h = ap (λ c. f c w) (ok_injective h)
after-returned (err e, w) f a h = cc

pub Result-cases {ℓ} :
    {E A : Type ℓ} (r : Result E A) → ((e : E) × (r ≡ err e)) ⊎ ((a : A) × (r ≡ ok a))
Result-cases (ok a) = inr (a, refl)
Result-cases (err e) = inl (e, refl)

-- After a call that raised, the body has raised.
pub after-raised {ℓ} :
    {W E A B : Type ℓ} (m : Result E A × W) (f : A → Call W E B) (e : E)
    → m.0 ≡ err e
    → after m f ≡ (err e, m.1)
after-raised (ok a, w) f e h = cc
after-raised (err x, w) f e h = ground arith
