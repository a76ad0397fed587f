-- ===== src/Db/Memories/Reads.antt =====
-- The rows of memories_as_of: which are read, and which a limit leaves out.
use ultramem.Prelude.{
  ℕ, zero, suc, ◌≤◌, ℤ, ◌≤ℤ◌, leb_ℤ→le, clamp_nonneg, pos, ltb_ℤ, Text, codes, List, [], ◌∷◌,
  length, length-take, take, take-IsSorted, Mem-take, IsSorted, All, All-Mem, ◌≡◌, refl, ap, subst,
  ◌↔◌, ◌⊎◌, inl, inr, Memᴰ, Bool-cases, arith,
}
use mathlib.Core.List.Memᴰ as Mem
use ultramem.Prelude.Result.{ok, err≢ok, ok_inj}
use ultramem.World.{World, Env}
use ultramem.Db.Statement.{statement-ok}
use ultramem.Db.Rows.{MemoryRow}
use ultramem.Db.Memories.{NewestFirst, newest_memory, known_at, memories_as_of}
use ultramem.Db.Memories.History.{IsKnown, known_at-Mem}

module _ {F : Type 0} where
  -- A known row that the limit left out: there are as many rows as it allows, none of them older.
  abbrev pub IsLeftOut :
      Text → ℤ → ℕ → List (MemoryRow F) → List (MemoryRow F) → MemoryRow F → Type 0
  IsLeftOut tag t n table rows m =
      IsKnown tag t table m × (length rows ≡ n) × All (λ r. m.learned_at ≤ℤ r.learned_at) rows

  -- What a read as of `t` with a limit of `n` rows gives.
  abbrev pub IsReadAt : Text → ℤ → ℕ → List (MemoryRow F) → List (MemoryRow F) → Type 0
  IsReadAt tag t n table rows =
      ((m : MemoryRow F) → IsKnown tag t table m ↔ (Memᴰ m rows ⊎ IsLeftOut tag t n table rows m))
      × IsSorted newest_memory rows
      × (length rows ≤ n)

  take-split :
      (n : ℕ) (rows : List (MemoryRow F)) (m : MemoryRow F)
      → IsSorted newest_memory rows
      → Memᴰ m rows
      → Memᴰ m (take n rows)
        ⊎ ((length (take n rows) ≡ n) × All (λ r. m.learned_at ≤ℤ r.learned_at) (take n rows))
  take-split zero rows m s k = inr (refl, tt)
  take-split (suc n) [] m s k = absurd (Mem.not-nil k)
  take-split (suc n) (r ∷ rows) m (first, s) k = elim (Mem.cases_cons k) [
    | inl e ↦ inl (Memᴰ.head e)
    | inr j ↦ elim (take-split n rows m s j) [
      | inl i ↦ inl (Memᴰ.tail i)
      | inr (e, older) ↦
          inr (ap suc e, (leb_ℤ→le m.learned_at r.learned_at (All-Mem _ rows first j), older))
    ]
  ]

  -- The first rows of all the known ones in order.
  pub take-IsReadAt :
      (tag : Text) (t : ℤ) (n : ℕ) (table rows : List (MemoryRow F))
      → IsSorted newest_memory rows
      → ((m : MemoryRow F) → Memᴰ m rows ↔ IsKnown tag t table m)
      → IsReadAt tag t n table (take n rows)
  take-IsReadAt tag t n table rows s h = (
    (λ m. (
      λ k. elim (take-split n rows m s ((h m).1 k)) [
        | inl i ↦ inl i
        | inr (e, older) ↦ inr (k, e, older)
      ],
      λ c. elim c [ inl i ↦ (h m).0 (Mem-take n rows i) | inr o ↦ o.0 ],
    )),
    take-IsSorted newest_memory n rows s,
    omega (arith, length-take n rows),
  )

module _ {F V : Type 0} (env : Env) (newest : NewestFirst F) where
  -- A read that succeeds has, newest first and within the limit, the memories of the namespace that
  -- were known at `t`, and no others; it leaves one out only behind as many rows as the limit allows,
  -- none of them older than the one left out.
  pub memories_as_of-IsReadAt :
      (tag : Text) (t limit : ℤ) (w : World F V) {rows : List (MemoryRow F)}
      → (memories_as_of env newest tag t limit w).0 ≡ ok rows
      → IsReadAt tag t (clamp_nonneg limit) w.tables.memories rows
  unfolding memories_as_of
  memories_as_of-IsReadAt tag t limit w h =
      let known = known_at tag t w.tables.memories in
      let k = statement-ok env (codes "memories_as_of") _ w h in
      let read =
        take-IsReadAt tag t (clamp_nonneg limit) w.tables.memories (newest.order known)
          (newest.order-IsSorted known)
          (λ m.
            let (a, b) = newest.order-Mem known m in
            let (c, d) = known_at-Mem tag t w.tables.memories m in
            ((λ i. c (a i)), λ i. b (d i))) in
      elim (Bool-cases (ltb_ℤ limit (pos 0))) [
        | inl e ↦ absurd (err≢ok (rw e at k))
        | inr e ↦
            subst (IsReadAt tag t (clamp_nonneg limit) w.tables.memories)
              (ap (λ x. x.0) (ok_inj (rw e at k))) read
      ]
