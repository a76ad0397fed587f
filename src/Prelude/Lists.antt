-- ===== src/Prelude/Lists.antt =====
-- Lists measured and tested by native numbers and Booleans, under the library's names.
use Prim.Native.Nat.{ℕ, zero, suc, ◌+◌, ◌-◌, ◌≤◌, min}
use mathlib.Core.Path.{◌≡◌, refl, ap, subst⁻¹}
use mathlib.Core.Logic.{inl, inr}
use mathlib.Core.Bool.{Bool, true, false, ◌&&◌, ◌||◌}
use mathlib.Core.List.Memᴰ as Mem
use mathlib.Core.List.{List, [], ◌∷◌, ◌++◌, Memᴰ}
use mathlib.Core.Option.{Option, none, some}
use native.Mathlib.Omega.{arith}
use ultramem.Prelude.Tests.{if◌then◌else◌, Bool-cases}

module _ {ℓ} {A : Type ℓ} where
  abbrev pub length : List A → ℕ
  length [] = 0
  length (x ∷ xs) = suc (length xs)

  abbrev pub get_elem? : List A → ℕ → Option A
  get_elem? [] i = none
  get_elem? (x ∷ xs) zero = some x
  get_elem? (x ∷ xs) (suc i) = get_elem? xs i

  abbrev pub set : List A → ℕ → A → List A
  set [] i v = []
  set (x ∷ xs) zero v = v ∷ xs
  set (x ∷ xs) (suc i) v = x ∷ set xs i v

  abbrev pub take : ℕ → List A → List A
  take zero xs = []
  take (suc n) [] = []
  take (suc n) (x ∷ xs) = x ∷ take n xs

  abbrev pub drop : ℕ → List A → List A
  drop zero xs = xs
  drop (suc n) [] = []
  drop (suc n) (x ∷ xs) = drop n xs

  abbrev pub replicate : ℕ → A → List A
  replicate zero a = []
  replicate (suc n) a = a ∷ replicate n a

  abbrev pub head? : List A → Option A
  head? [] = none
  head? (x ∷ xs) = some x

  abbrev pub is_empty : List A → Bool
  is_empty [] = true
  is_empty (x ∷ xs) = false

  -- `Iterator::any`, `Iterator::all`, `Iterator::filter` (and `Vec::retain`), `Iterator::find`.
  abbrev pub any : (A → Bool) → List A → Bool
  any p [] = false
  any p (x ∷ xs) = p x || any p xs

  abbrev pub all : (A → Bool) → List A → Bool
  all p [] = true
  all p (x ∷ xs) = p x && all p xs

  abbrev pub filter : (A → Bool) → List A → List A
  filter p [] = []
  filter p (x ∷ xs) = if p x then x ∷ filter p xs else filter p xs

  abbrev pub find : (A → Bool) → List A → Option A
  find p [] = none
  find p (x ∷ xs) = if p x then some x else find p xs

module _ {ℓ κ} {A : Type ℓ} (P : A → Type κ) where
  abbrev pub All : List A → Type κ
  All [] = Unit
  All (x ∷ xs) = P x × All xs

  pub All-append : (xs ys : List A) → All xs → All ys → All (xs ++ ys)
  All-append [] ys h k = k
  All-append (x ∷ xs) ys (p, h) k = (p, All-append xs ys h k)

  pub All-Mem : {a : A} (xs : List A) → All xs → Memᴰ a xs → P a
  All-Mem [] h m = elim m [ ]
  All-Mem (x ∷ xs) (p, h) (Memᴰ.head e) = subst⁻¹ P e p
  All-Mem (x ∷ xs) (p, h) (Memᴰ.tail m) = All-Mem xs h m

  pub All-of_Mem : (xs : List A) → ((a : A) → Memᴰ a xs → P a) → All xs
  All-of_Mem [] h = tt
  All-of_Mem (x ∷ xs) h = (h x (Memᴰ.head refl), All-of_Mem xs (λ a m. h a (Memᴰ.tail m)))

-- Membership in what the Boolean combinators build.
module _ {ℓ} {A : Type ℓ} (p : A → Bool) where
  pub Mem-filter : {a : A} (xs : List A) → Memᴰ a (filter p xs) → Memᴰ a xs × (p a ≡ true)
  Mem-filter (x ∷ xs) m = elim (Bool-cases (p x)) [
    | inl e ↦ elim (Mem.cases_cons (rw e at m)) [
      | inl q ↦ (Memᴰ.head q, rw q e)
      | inr n ↦ let (k, t) = Mem-filter xs n in (Memᴰ.tail k, t)
    ]
    | inr e ↦ let (k, t) = Mem-filter xs (rw e at m) in (Memᴰ.tail k, t)
  ]
  Mem-filter [] m = absurd (Mem.not-nil m)

  pub Mem-filter_intro : {a : A} (xs : List A) → Memᴰ a xs → p a ≡ true → Memᴰ a (filter p xs)
  Mem-filter_intro [] m t = elim m [ ]
  Mem-filter_intro (x ∷ xs) (Memᴰ.head e) t = rw (rw e at t) (Memᴰ.head e)
  Mem-filter_intro (x ∷ xs) (Memᴰ.tail m) t = elim (Bool-cases (p x)) [
    | inl e ↦ rw e (Memᴰ.tail (Mem-filter_intro xs m t))
    | inr e ↦ rw e (Mem-filter_intro xs m t)
  ]

  pub any-Mem : (xs : List A) → any p xs ≡ true → (a : A) × Memᴰ a xs × (p a ≡ true)
  any-Mem [] h = cc
  any-Mem (x ∷ xs) h = elim (Bool-cases (p x)) [
    | inl e ↦ (x, Memᴰ.head refl, e)
    | inr e ↦ let (a, m, t) = any-Mem xs (rw e at h) in (a, Memᴰ.tail m, t)
  ]

  pub any_intro : {a : A} (xs : List A) → Memᴰ a xs → p a ≡ true → any p xs ≡ true
  any_intro [] m t = elim m [ ]
  any_intro (x ∷ xs) (Memᴰ.head e) t = rw (rw e at t)
  any_intro (x ∷ xs) (Memᴰ.tail m) t = ground (arith, any_intro xs m t)

  pub find-Mem : {a : A} (xs : List A) → find p xs ≡ some a → Memᴰ a xs × (p a ≡ true)
  find-Mem [] h = cc
  find-Mem {a} (x ∷ xs) h = elim (Bool-cases (p x)) [
    | inl e ↦ let q : a ≡ x = cc (rw e at h) in (Memᴰ.head q, rw q e)
    | inr e ↦ let (m, t) = find-Mem xs (rw e at h) in (Memᴰ.tail m, t)
  ]

  pub any-append : (xs ys : List A) → any p (xs ++ ys) ≡ (any p xs || any p ys)
  any-append [] ys = refl
  any-append (x ∷ xs) ys = ground (arith, any-append xs ys)

  pub all-append : (xs ys : List A) → all p (xs ++ ys) ≡ (all p xs && all p ys)
  all-append [] ys = refl
  all-append (x ∷ xs) ys = ground (arith, all-append xs ys)

  pub length-filter-le : (xs : List A) → length (filter p xs) ≤ length xs
  length-filter-le [] = omega arith
  length-filter-le (x ∷ xs) = ground (arith, length-filter-le xs)

  pub filter_idem : (xs : List A) → filter p (filter p xs) ≡ filter p xs
  filter_idem [] = refl
  filter_idem (x ∷ xs) = elim (Bool-cases (p x)) [
    | inl e ↦ rw (e, e) (ap (◌∷◌ x) (filter_idem xs))
    | inr e ↦ rw e (filter_idem xs)
  ]

  pub filter-append : (xs ys : List A) → filter p (xs ++ ys) ≡ filter p xs ++ filter p ys
  filter-append [] ys = refl
  filter-append (x ∷ xs) ys = ground (arith, filter-append xs ys)

module _ {ℓ} {A : Type ℓ} where
  pub length-append : (xs ys : List A) → length (xs ++ ys) ≡ length xs + length ys
  length-append [] ys = omega arith
  length-append (x ∷ xs) ys = omega (arith, length-append xs ys)

  pub length-take : (n : ℕ) (xs : List A) → length (take n xs) ≡ min n (length xs)
  length-take zero xs = omega arith
  length-take (suc n) [] = omega arith
  length-take (suc n) (x ∷ xs) = omega (arith, length-take n xs)

  pub length-drop : (n : ℕ) (xs : List A) → length (drop n xs) ≡ length xs - n
  length-drop zero xs = omega arith
  length-drop (suc n) [] = omega arith
  length-drop (suc n) (x ∷ xs) = omega (arith, length-drop n xs)

  pub take-append-drop : (n : ℕ) (xs : List A) → take n xs ++ drop n xs ≡ xs
  take-append-drop zero xs = refl
  take-append-drop (suc n) [] = refl
  take-append-drop (suc n) (x ∷ xs) = ap (◌∷◌ x) (take-append-drop n xs)

  pub Mem-take : {a : A} (n : ℕ) (xs : List A) → Memᴰ a (take n xs) → Memᴰ a xs
  Mem-take zero xs m = absurd (Mem.not-nil m)
  Mem-take (suc n) [] m = m
  Mem-take (suc n) (x ∷ xs) m = elim (Mem.cases_cons m) [
    | inl e ↦ Memᴰ.head e
    | inr k ↦ Memᴰ.tail (Mem-take n xs k)
  ]
