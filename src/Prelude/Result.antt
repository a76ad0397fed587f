-- ===== src/Prelude/Result.antt =====
-- `Result<T, String>`.
use ultramem.Prelude.Texts.{Text}
use mathlib.Core.Path.{◌≡◌, refl, ap}
use mathlib.Core.Logic.{◌⊎◌, inl, inr, ◌≢◌}

pub data Result {ℓ} (A : Type ℓ) : Type ℓ where
  ok : A → Result A
  err : Text → Result A

-- `unwrap_or_default`.
abbrev pub or_default {ℓ} : {A : Type ℓ} → Result A → A → A
or_default (ok a) d = a
or_default (err e) d = d

pub Result-cases {ℓ} :
    {A : Type ℓ} (r : Result A) → ((a : A) × (r ≡ ok a)) ⊎ ((e : Text) × (r ≡ err e))
Result-cases (ok a) = inl (a, refl)
Result-cases (err e) = inr (e, refl)

pub err≢ok {ℓ} : {A : Type ℓ} {e : Text} {a : A} → err e ≢ ok a
err≢ok h = cc

pub ok_inj {ℓ} : {A : Type ℓ} {a b : A} → ok a ≡ ok b → a ≡ b
ok_inj {a = a} h = ap (λ r. or_default r a) h
