-- ===== src/Prelude/Sort.antt =====
-- `sort_by_key` and `sort_by`: a stable sort by a Boolean order.
use Prim.Native.Nat.{ℕ, zero, suc}
use mathlib.Core.Path.{◌≡◌, refl, ap}
use mathlib.Core.Logic.{inl, inr}
use mathlib.Core.Bool.{Bool, true, false}
use mathlib.Core.List.Memᴰ as Mem
use mathlib.Core.List.Perm
use mathlib.Core.List.{List, [], ◌∷◌, map, Memᴰ, Perm}
use ultramem.Prelude.Tests.{if◌then◌else◌, Bool-cases}
use ultramem.Prelude.Lists.{filter, All, All-Mem, All-of_Mem, Mem-take, take}

module _ {ℓ} {A : Type ℓ} (le : A → A → Bool) where
  unfoldable pub insert_sorted : A → List A → List A
  insert_sorted x [] = x ∷ []
  insert_sorted x (y ∷ ys) = if le x y then x ∷ y ∷ ys else y ∷ insert_sorted x ys

  unfoldable pub sort_by : List A → List A
  sort_by [] = []
  sort_by (x ∷ xs) = insert_sorted x (sort_by xs)

  abbrev pub IsSorted : List A → Type 0
  IsSorted [] = Unit
  IsSorted (x ∷ xs) = All (λ y. le x y ≡ true) xs × IsSorted xs

  insert_sorted-perm : (x : A) (ys : List A) → Perm (insert_sorted x ys) (x ∷ ys)
  unfolding insert_sorted
  insert_sorted-perm x [] = Perm.refl _
  insert_sorted-perm x (y ∷ ys) = elim (Bool-cases (le x y)) [
    | inl e ↦ rw e (Perm.refl _)
    | inr e ↦ rw e (Perm.trans (Perm.cons y (insert_sorted-perm x ys)) (Perm.swap x y ys))
  ]

  pub sort_by-perm : (xs : List A) → Perm (sort_by xs) xs
  unfolding sort_by
  sort_by-perm [] = Perm.refl []
  sort_by-perm (x ∷ xs) =
      Perm.trans (insert_sorted-perm x (sort_by xs)) (Perm.cons x (sort_by-perm xs))

  insert_sorted-Mem : {a : A} (x : A) (ys : List A) → Memᴰ a (insert_sorted x ys) → Memᴰ a (x ∷ ys)
  unfolding insert_sorted
  insert_sorted-Mem x [] m = m
  insert_sorted-Mem x (y ∷ ys) m = elim (Bool-cases (le x y)) [
    | inl e ↦ rw e at m
    | inr e ↦ elim (Mem.cases_cons (rw e at m)) [
      | inl q ↦ Memᴰ.tail (Memᴰ.head q)
      | inr n ↦ elim (Mem.cases_cons (insert_sorted-Mem x ys n)) [
        | inl q ↦ Memᴰ.head q
        | inr k ↦ Memᴰ.tail (Memᴰ.tail k)
      ]
    ]
  ]

  pub sort_by-Mem : {a : A} (xs : List A) → Memᴰ a (sort_by xs) → Memᴰ a xs
  unfolding sort_by
  sort_by-Mem [] m = m
  sort_by-Mem (x ∷ xs) m = elim (Mem.cases_cons (insert_sorted-Mem x (sort_by xs) m)) [
    | inl e ↦ Memᴰ.head e
    | inr k ↦ Memᴰ.tail (sort_by-Mem xs k)
  ]

  insert_sorted-Mem_intro :
      {a : A} (x : A) (ys : List A) → Memᴰ a (x ∷ ys) → Memᴰ a (insert_sorted x ys)
  unfolding insert_sorted
  insert_sorted-Mem_intro x [] m = m
  insert_sorted-Mem_intro x (y ∷ ys) m = elim (Bool-cases (le x y)) [
    | inl e ↦ rw e m
    | inr e ↦ rw e (elim (Mem.cases_cons m) [
      | inl q ↦ Memᴰ.tail (insert_sorted-Mem_intro x ys (Memᴰ.head q))
      | inr k ↦ elim (Mem.cases_cons k) [
        | inl q ↦ Memᴰ.head q
        | inr n ↦ Memᴰ.tail (insert_sorted-Mem_intro x ys (Memᴰ.tail n))
      ]
    ])
  ]

  pub sort_by-Mem_intro : {a : A} (xs : List A) → Memᴰ a xs → Memᴰ a (sort_by xs)
  unfolding sort_by
  sort_by-Mem_intro [] m = m
  sort_by-Mem_intro (x ∷ xs) m =
      insert_sorted-Mem_intro x (sort_by xs) (elim (Mem.cases_cons m) [
        | inl e ↦ Memᴰ.head e
        | inr k ↦ Memᴰ.tail (sort_by-Mem_intro xs k)
      ])

  -- The order is total and transitive.
  pub record IsOrder : Type ℓ where
    pub total : (a b : A) → le a b ≡ false → le b a ≡ true
    pub trans : (a b c : A) → le a b ≡ true → le b c ≡ true → le a c ≡ true

  module _ (o : IsOrder) where
    insert_sorted-IsSorted : (x : A) (ys : List A) → IsSorted ys → IsSorted (insert_sorted x ys)
    unfolding insert_sorted
    insert_sorted-IsSorted x [] h = (tt, tt)
    insert_sorted-IsSorted x (y ∷ ys) (first, rest) = elim (Bool-cases (le x y)) [
      | inl e ↦
          rw e
            (((e, All-of_Mem _ ys (λ a m. o.trans x y a e (All-Mem _ ys first m))), (first, rest)))
      | inr e ↦ rw e (
          (
            All-of_Mem _ (insert_sorted x ys) (λ a m.
                elim (Mem.cases_cons (insert_sorted-Mem x ys m)) [
                  | inl q ↦ rw q (o.total x y e)
                  | inr k ↦ All-Mem _ ys first k
                ]),
            insert_sorted-IsSorted x ys rest,
          ))
    ]

    pub sort_by-IsSorted : (xs : List A) → IsSorted (sort_by xs)
    unfolding sort_by
    sort_by-IsSorted [] = tt
    sort_by-IsSorted (x ∷ xs) = insert_sorted-IsSorted x (sort_by xs) (sort_by-IsSorted xs)

  -- What `truncate` leaves of a sorted list is sorted.
  pub take-IsSorted : (n : ℕ) (xs : List A) → IsSorted xs → IsSorted (take n xs)
  take-IsSorted zero xs h = tt
  take-IsSorted (suc n) [] h = tt
  take-IsSorted (suc n) (x ∷ xs) (first, rest) = (
    All-of_Mem _ (take n xs) (λ a m. All-Mem _ xs first (Mem-take n xs m)),
    take-IsSorted n xs rest,
  )

-- A map that the order and the test do not see goes through the sort and the filter.
module _ {ℓ} {A : Type ℓ} (le : A → A → Bool) (f : A → A) where
  abbrev Unseen : Type ℓ
  Unseen = (a b : A) → le (f a) (f b) ≡ le a b

  map-insert_sorted :
      (a : A) (xs : List A)
      → Unseen
      → insert_sorted le (f a) (map f xs) ≡ map f (insert_sorted le a xs)
  unfolding insert_sorted
  map-insert_sorted a [] h = refl
  map-insert_sorted a (x ∷ xs) h = elim (Bool-cases (le a x)) [
    | inl e ↦ rw (h a x, e)
    | inr e ↦ rw (h a x, e) (ap (◌∷◌ (f x)) (map-insert_sorted a xs h))
  ]

  pub map-sort_by :
      (xs : List A)
      → ((a b : A) → le (f a) (f b) ≡ le a b)
      → sort_by le (map f xs) ≡ map f (sort_by le xs)
  unfolding sort_by
  map-sort_by [] h = refl
  map-sort_by (x ∷ xs) h = rw (map-sort_by xs h) (map-insert_sorted x (sort_by le xs) h)

module _ {ℓ} {A : Type ℓ} (p : A → Bool) (f : A → A) where
  pub map-filter :
      (xs : List A)
      → ((a : A) → Memᴰ a xs → p (f a) ≡ p a)
      → filter p (map f xs) ≡ map f (filter p xs)
  map-filter [] h = refl
  map-filter (x ∷ xs) h =
      let rest = map-filter xs (λ a m. h a (Memᴰ.tail m)) in
      elim (Bool-cases (p x)) [
        | inl e ↦ rw (h x (Memᴰ.head refl), e) (ap (◌∷◌ (f x)) rest)
        | inr e ↦ rw (h x (Memᴰ.head refl), e) rest
      ]

pub map-take {ℓ κ} :
    {A : Type ℓ} {B : Type κ} (g : A → B) (n : ℕ) (xs : List A)
    → map g (take n xs) ≡ take n (map g xs)
map-take g zero xs = refl
map-take g (suc n) [] = refl
map-take g (suc n) (x ∷ xs) = ap (◌∷◌ (g x)) (map-take g n xs)
