-- ===== src/Db/Memories/History.antt =====
-- The bitemporal read of memories, `memories_as_of`, and what a supersession does to it.
use ultramem.Prelude.{
  IsOrder, leb_ℤ_total, leb_ℤ_trans, ℤ, ◌≤ℤ◌, ◌<ℤ◌, leb_ℤ→le, Text, same, same_iff, true, false,
  List, [], ◌∷◌, map, Mem-filter, Mem-filter_intro, map-filter, Option, none, some, some_inj, ◌≡◌,
  refl, sym, ap, subst, ◌∙◌, ◌↔◌, Memᴰ, &&_split, &&_intro, arith, Bool-cases, inl, inr,
}
use ultramem.Prelude.Mem
use ultramem.Db.Rows.{MemoryRow}
use ultramem.Db.Memories.{
  after_time, superseded_row, supersede, is_known_at, newest_memory, known_at,
}

after_time_iff : (t : ℤ) (o : Option ℤ) → (after_time t o ≡ true) ↔ ((s : ℤ) → o ≡ some s → t <ℤ s)
after_time_iff t none = (λ h s e. cc, λ h. refl)
after_time_iff t (some r) =
    (λ h s e. subst (λ x. t <ℤ x) (some_inj e) (ground (arith, h)), λ h. ground (arith, h r refl))

module _ {F : Type 0} where
  -- What was known at `t`: learned by then, not superseded by then, valid then, and reviewed.
  pub record WasKnown (m : MemoryRow F) (t : ℤ) : Type 0 where
    pub reviewed : m.needs_review ≡ false
    pub learned : m.learned_at ≤ℤ t
    pub current : (s : ℤ) → m.superseded_at ≡ some s → t <ℤ s
    pub valid : (v : ℤ) → m.valid_until ≡ some v → t <ℤ v

  -- The row is of the namespace and was known at `t`.
  abbrev pub IsKnown : Text → ℤ → List (MemoryRow F) → MemoryRow F → Type 0
  IsKnown tag t table m = Memᴰ m table × (m.container_tag ≡ tag) × WasKnown m t

  pub is_known_at_iff :
      (tag : Text) (t : ℤ) (m : MemoryRow F)
      → (is_known_at tag t m ≡ true) ↔ ((m.container_tag ≡ tag) × WasKnown m t)
  unfolding is_known_at
  is_known_at_iff tag t m = (
    λ h.
        let (h₁, v) = &&_split _ _ h in
        let (h₂, s) = &&_split _ _ h₁ in
        let (h₃, l) = &&_split _ _ h₂ in
        let (c, r) = &&_split _ _ h₃ in
        (
          (same_iff m.container_tag tag).0 c,
          record {
            reviewed = ground (arith, r);
            learned = leb_ℤ→le m.learned_at t l;
            current = (after_time_iff t m.superseded_at).0 s;
            valid = (after_time_iff t m.valid_until).0 v;
          },
        ),
    λ r.
        &&_intro _ _
          (&&_intro _ _
            (&&_intro _ _ (&&_intro _ _ ((same_iff m.container_tag tag).1 r.0) (rw (r.1).reviewed))
              (ground (arith, (r.1).learned)))
            ((after_time_iff t m.superseded_at).1 (r.1).current))
          ((after_time_iff t m.valid_until).1 (r.1).valid),
  )

  pub newest_memory-IsOrder : IsOrder (newest_memory {F = F})
  newest_memory-IsOrder = record {
    total = λ a b h. leb_ℤ_total b.learned_at a.learned_at h;
    trans = λ a b c h k. leb_ℤ_trans c.learned_at b.learned_at a.learned_at k h;
  }

  pub known_at-Mem :
      (tag : Text) (t : ℤ) (rows : List (MemoryRow F)) (m : MemoryRow F)
      → Memᴰ m (known_at tag t rows) ↔ IsKnown tag t rows m
  unfolding known_at
  known_at-Mem tag t rows m = (
    λ k.
        let (r, e) = Mem-filter (is_known_at tag t) rows k in
        let (c, w) = (is_known_at_iff tag t m).0 e in (r, c, w),
    λ q. Mem-filter_intro (is_known_at tag t) rows q.0 ((is_known_at_iff tag t m).1 (q.1, q.2)),
  )

  -- The loop of `mark_superseded` on the rows.
  unfoldable pub supersede_all : List (Text × Text) → ℤ → List (MemoryRow F) → List (MemoryRow F)
  supersede_all [] ts rows = rows
  supersede_all ((old_id, new_id) ∷ pairs) ts rows =
      supersede_all pairs ts (supersede old_id new_id ts rows)

  -- No row that is superseded now had been superseded by `t`.
  abbrev pub WereCurrent : List (Text × Text) → ℤ → List (MemoryRow F) → Type 0
  WereCurrent pairs t rows =
      (m : MemoryRow F)
      → Memᴰ m rows
      → Memᴰ m.id (map (λ (p : Text × Text). p.0) pairs)
      → (s : ℤ) → m.superseded_at ≡ some s
      → t <ℤ s

  known_before :
      (tag old new : Text) (ts t : ℤ) (m : MemoryRow F)
      → t <ℤ ts
      → (m.id ≡ old → (s : ℤ) → m.superseded_at ≡ some s → t <ℤ s)
      → is_known_at tag t (superseded_row old new ts m) ≡ is_known_at tag t m
  unfolding is_known_at
  known_before tag old new ts t m h c = elim (Bool-cases (same m.id old)) [
    | inl e ↦
        rw (e, (after_time_iff t m.superseded_at).1 (c ((same_iff m.id old).0 e)))
          (ground (arith, h))
    | inr e ↦ rw e
  ]

  known_at-superseded_row :
      (tag old new : Text) (ts t : ℤ) (rows : List (MemoryRow F))
      → t <ℤ ts
      → ((m : MemoryRow F) → Memᴰ m rows → m.id ≡ old → (s : ℤ) → m.superseded_at ≡ some s → t <ℤ s)
      → known_at tag t (supersede old new ts rows) ≡ supersede old new ts (known_at tag t rows)
  unfolding known_at supersede
  known_at-superseded_row tag old new ts t rows h c =
      map-filter (is_known_at tag t) (superseded_row old new ts) rows
        (λ m k. known_before tag old new ts t m h (c m k))

  supersede-Mem :
      (old new : Text) (ts : ℤ) (rows : List (MemoryRow F)) {m : MemoryRow F}
      → Memᴰ m (supersede old new ts rows)
      → (r : MemoryRow F) × Memᴰ r rows × (m ≡ superseded_row old new ts r)
  unfolding supersede
  supersede-Mem old new ts [] k = absurd (Mem.not-nil k)
  supersede-Mem old new ts (r ∷ rows) (Memᴰ.head e) = (r, Memᴰ.head refl, e)
  supersede-Mem old new ts (r ∷ rows) (Memᴰ.tail k) =
      let (q, j, e) = supersede-Mem old new ts rows k in (q, Memᴰ.tail j, e)

  WereCurrent-supersede :
      (old new : Text) (pairs : List (Text × Text)) (ts t : ℤ) (rows : List (MemoryRow F))
      → t <ℤ ts
      → WereCurrent ((old, new) ∷ pairs) t rows
      → WereCurrent pairs t (supersede old new ts rows)
  WereCurrent-supersede old new pairs ts t rows h c m k j s e =
      let (r, q, d) = supersede-Mem old new ts rows k in
      elim (Bool-cases (same r.id old)) [
        | inl u ↦ subst (λ x. t <ℤ x) (some_inj (rw (sym e, d, u))) h
        | inr u ↦
            let eq : m ≡ r = d ∙ rw u in
            c r q
              (Memᴰ.tail (
                subst (λ (x : MemoryRow F). Memᴰ x.id (map (λ (p : Text × Text). p.0) pairs)) eq j))
              s (sym (ap (λ x. x.superseded_at) eq) ∙ e)
      ]

  -- A supersession at `ts` and the selection of the memories known at an earlier `t` commute, when no
  -- memory that it marks had been superseded by `t`: the same memories are known, with its marks.
  pub known_at-supersede_all :
      (tag : Text) (pairs : List (Text × Text)) (ts t : ℤ) (rows : List (MemoryRow F))
      → t <ℤ ts
      → WereCurrent pairs t rows
      → known_at tag t (supersede_all pairs ts rows) ≡ supersede_all pairs ts (known_at tag t rows)
  unfolding supersede_all
  known_at-supersede_all tag [] ts t rows h c = refl
  known_at-supersede_all tag ((old, new) ∷ pairs) ts t rows h c =
      known_at-supersede_all tag pairs ts t (supersede old new ts rows) h
        (WereCurrent-supersede old new pairs ts t rows h c)
      ∙ ap (supersede_all pairs ts)
          (known_at-superseded_row tag old new ts t rows h (λ m k e. c m k (Memᴰ.head e)))
