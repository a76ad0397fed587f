-- ===== src/Prelude/Keys.antt =====
-- Lists of texts without repetition, and the membership test on them.
use mathlib.Core.Path.{◌≡◌, sym}
use mathlib.Core.Logic.{inl, inr}
use mathlib.Core.Bool.{true, false}
use mathlib.Core.List.Memᴰ as Mem
use mathlib.Core.List.{List, [], ◌∷◌, ◌++◌, Memᴰ}
use native.Mathlib.Omega.{arith}
use ultramem.Prelude.Tests.{Bool-cases, ||_split}
use ultramem.Prelude.Texts.{Text, same, same_iff, same_refl, contains}

pub contains-Mem : (xs : List Text) (a : Text) → contains xs a ≡ true → Memᴰ a xs
unfolding contains
contains-Mem [] a h = cc
contains-Mem (x ∷ xs) a h = elim (||_split (same x a) (contains xs a) h) [
  | inl e ↦ Memᴰ.head (sym ((same_iff x a).0 e))
  | inr r ↦ Memᴰ.tail (contains-Mem xs a r)
]

pub contains_intro : {a : Text} (xs : List Text) → Memᴰ a xs → contains xs a ≡ true
unfolding contains
contains_intro [] m = elim m [ ]
contains_intro {a} (x ∷ xs) (Memᴰ.head e) = rw e (rw same_refl)
contains_intro {a} (x ∷ xs) (Memᴰ.tail m) = ground (arith, contains_intro xs m)

pub not-contains : (xs : List Text) (a : Text) → contains xs a ≡ false → ¬ Memᴰ a xs
not-contains xs a h = λ m. cc (contains_intro xs m)

pub not-contains_intro : (xs : List Text) (a : Text) → ¬ Memᴰ a xs → contains xs a ≡ false
not-contains_intro xs a h = elim (Bool-cases (contains xs a)) [
  | inl e ↦ absurd (h (contains-Mem xs a e))
  | inr e ↦ e
]

-- No text occurs twice.
module _ {ℓ} {A : Type ℓ} where
  abbrev pub Distinct : List A → Type ℓ
  Distinct [] = Unit
  Distinct (x ∷ xs) = (¬ Memᴰ x xs) × Distinct xs

  pub Distinct-concat : (xs : List A) (a : A) → Distinct xs → ¬ Memᴰ a xs → Distinct (xs ++ a ∷ [])
  Distinct-concat [] a d n = (Mem.not-nil, tt)
  Distinct-concat (x ∷ xs) a (fresh, d) n = (
    λ m. elim (Mem.append_cases xs m) [
      | inl k ↦ fresh k
      | inr k ↦ n (Memᴰ.head (sym (Mem.eq_of_singleton k)))
    ],
    Distinct-concat xs a d (λ m. n (Memᴰ.tail m)),
  )
