-- ===== src/Db/Mock/Agrees.antt =====
-- crates/ultramem-core/src/db/mock.rs beside crates/ultramem-core/src/db/pg.rs: where a statement of
-- the PostgreSQL store succeeds, the in-memory store answers and stores the same.
use ultramem.Prelude.{
  ℤ, ◌↔◌, clamp_nonneg, sort_by, sort_by-Mem, sort_by-Mem_intro, sort_by-IsSorted, Text, same,
  same_iff, Bool, true, false, not, ◌&&◌, List, [], ◌∷◌, any, filter, find, map, is_some, none, ◌≡◌,
  refl, sym, ap, ap₂, subst, ◌∙◌, Distinct, Memᴰ, Bool-cases, inl, inr, if◌then◌else◌, true-false,
  arith,
}
use ultramem.Prelude.Result.{ok}
use ultramem.World.{Tables, World, Env}
use ultramem.Db.Rows.{MemoryRow, EvidenceRow}
use ultramem.Db.Memories.{
  owned, delete_memory_rows, delete_evidence_rows, newest_memory, known_at, is_known_at,
}
use ultramem.Db.Memories.History.{known_at-Mem, newest_memory-IsOrder}
use ultramem.Db.Memories.Reads.{IsReadAt, take-IsReadAt}
use ultramem.Db.Memories as Pg
use ultramem.Db.Memories.Erasure.{delete_memory-ok}
use ultramem.Db.Mock as Mock
use ultramem.Db.Mock.{keep_if}

module _ {F : Type 0} (id tag : Text) where
  abbrev in_tag : MemoryRow F → Bool
  in_tag m = same m.container_tag tag

  abbrev has_id : MemoryRow F → Bool
  has_id m = same m.id id

  -- Where the id does not occur, no row is found and none is deleted.
  elsewhere :
      (m : MemoryRow F) (rows : List (MemoryRow F))
      → same m.id id ≡ true
      → ¬ Memᴰ m.id (map (λ m. m.id) rows)
      → ¬ Memᴰ id (map (λ m. m.id) rows)
  elsewhere m rows e n = subst (λ x. ¬ Memᴰ x (map (λ m. m.id) rows)) ((same_iff m.id id).0 e) n

  absent :
      (rows : List (MemoryRow F))
      → ¬ Memᴰ id (map (λ m. m.id) rows)
      → (any (owned id tag) rows ≡ false) × (find (owned id tag) rows ≡ none)
  unfolding owned
  absent [] n = (refl, refl)
  absent (m ∷ rows) n = elim (Bool-cases (same m.id id)) [
    | inl e ↦ absurd (n (Memᴰ.head (sym ((same_iff m.id id).0 e))))
    | inr e ↦ rw e (absent rows (λ k. n (Memᴰ.tail k)))
  ]

  unaffected :
      (rows : List (MemoryRow F))
      → ¬ Memᴰ id (map (λ m. m.id) rows)
      → (delete_memory_rows id tag rows ≡ rows) × (filter (λ m. not (same m.id id)) rows ≡ rows)
  unfolding owned delete_memory_rows
  unaffected [] n = (refl, refl)
  unaffected (m ∷ rows) n = elim (Bool-cases (same m.id id)) [
    | inl e ↦ absurd (n (Memᴰ.head (sym ((same_iff m.id id).0 e))))
    | inr e ↦
        let (a, b) = unaffected rows (λ k. n (Memᴰ.tail k)) in rw e (ap (◌∷◌ m) a, ap (◌∷◌ m) b)
  ]

  -- The row of an id, if the namespace has it, is the one row that both stores find.
  found_alike :
      (rows : List (MemoryRow F))
      → Distinct (map (λ m. m.id) rows)
      → (any (owned id tag) rows ≡ is_some (keep_if in_tag (find has_id rows)))
        × (find (owned id tag) rows ≡ keep_if in_tag (find has_id rows))
  unfolding owned
  found_alike [] d = (refl, refl)
  found_alike (m ∷ rows) (fresh, d) = elim (Bool-cases (same m.id id)) [
    | inl e ↦
        let (a, b) = absent rows (elsewhere m rows e fresh) in
        elim (Bool-cases (same m.container_tag tag)) [
          | inl t ↦ rw (e, t) (refl, refl)
          | inr t ↦ rw (e, t) (a, b)
        ]
    | inr e ↦ rw e (found_alike rows d)
  ]

  deleted_alike :
      (rows : List (MemoryRow F))
      → Distinct (map (λ m. m.id) rows)
      → any (owned id tag) rows ≡ true
      → delete_memory_rows id tag rows ≡ filter (λ m. not (same m.id id)) rows
  unfolding owned delete_memory_rows
  deleted_alike [] d h = refl
  deleted_alike (m ∷ rows) (fresh, d) h = elim (Bool-cases (same m.id id)) [
    | inl e ↦
        let n = elsewhere m rows e fresh in
        elim (Bool-cases (same m.container_tag tag)) [
          | inl t ↦ rw (e, t) ((unaffected rows n).0 ∙ sym (unaffected rows n).1)
          | inr t ↦ absurd (true-false (rw (e, t) at h) (absent rows n).0)
        ]
    | inr e ↦ rw e (ap (◌∷◌ m) (deleted_alike rows d (rw e at h)))
  ]

-- The evidence that a deletion takes with it, if there is a memory to delete.
evidence_alike :
    (id : Text) (b : Bool) (rows : List EvidenceRow)
    → filter (λ e. not (same e.memory_id id && b)) rows
      ≡ (if b then filter (λ e. not (same e.memory_id id)) rows else rows)
evidence_alike id b [] = elim (Bool-cases b) [ inl h ↦ rw h | inr h ↦ rw h ]
evidence_alike id b (e ∷ rows) = ground (arith, evidence_alike id b rows)

not_deleted :
    {A : Type 0} (p : A → Bool) (rows : List A)
    → any p rows ≡ false
    → filter (λ r. not (p r)) rows ≡ rows
not_deleted p [] h = refl
not_deleted p (r ∷ rows) h = ground (arith, not_deleted p rows)

module _ {F V : Type 0} (env : Env) where
  -- Where the ids of the memories are distinct, a deletion of a memory that succeeds in PostgreSQL
  -- answers what the in-memory store answers and leaves the tables that it leaves.
  pub delete_memory-agrees :
      (id tag : Text) (w : World F V) {b : Bool}
      → Distinct (map (λ m. m.id) w.tables.memories)
      → (Pg.delete_memory env id tag w).0 ≡ ok b
      → (b, (Pg.delete_memory env id tag w).1.tables) ≡ Mock.delete_memory w.tables id tag
  unfolding Mock.delete_memory delete_memory_rows delete_evidence_rows
  delete_memory-agrees id tag w d h =
      let (a, t) = delete_memory-ok env id tag w h in
      let (f, g) = found_alike id tag w.tables.memories d in
      let T = w.tables in
      let owns = any (owned id tag) T.memories in
      let quotes = evidence_alike id owns T.evidence in
      let deletion = λ (x : Bool).
        if x
        then (
          true,
          record T {
            memories = filter (λ m. not (same m.id id)) T.memories;
            evidence = filter (λ e. not (same e.memory_id id)) T.evidence;
          },
        )
        else (false, T) in
      let taken = λ (x : Bool).
        if x then filter (λ q. not (same q.memory_id id)) T.evidence else T.evidence in
      let leave : List (MemoryRow F) → List EvidenceRow → Tables F =
        λ ms es. record T { memories = ms; evidence = es } in
      elim (Bool-cases (any (owned id tag) w.tables.memories)) [
        | inl e ↦
            ap₂ (λ x y. (x, y)) (a ∙ e)
              (t ∙ ap₂ leave (deleted_alike id tag T.memories d e) (quotes ∙ ap taken e))
            ∙ sym (ap deletion (sym f ∙ e))
        | inr e ↦
            ap₂ (λ x y. (x, y)) (a ∙ e)
              (t ∙ ap₂ leave (not_deleted (owned id tag) T.memories e) (quotes ∙ ap taken e))
            ∙ sym (ap deletion (sym f ∙ e))
      ]

module _ {F : Type 0} (values : List (MemoryRow F) → List (MemoryRow F))
    (values-Mem : (rows : List (MemoryRow F)) (m : MemoryRow F)
      → Memᴰ m (values rows) ↔ Memᴰ m rows) where
  -- In whatever order the map is iterated, the in-memory store's read as of a time meets what the
  -- read of the PostgreSQL store meets: newest first and within the limit, the memories of the
  -- namespace known at the time, one left out only behind as many as the limit allows, none of them
  -- older. A negative limit counts as zero.
  pub memories_as_of-agrees :
      (table : Tables F) (tag : Text) (t limit : ℤ)
      → IsReadAt tag t
          (clamp_nonneg limit)
          table.memories
          (Mock.memories_as_of table values tag t limit)
  unfolding Mock.memories_as_of known_at is_known_at
  memories_as_of-agrees table tag t limit =
      let known = known_at tag t (values table.memories) in
      take-IsReadAt tag t (clamp_nonneg limit) table.memories (sort_by newest_memory known)
        (sort_by-IsSorted newest_memory newest_memory-IsOrder known)
        (λ m.
          let (c, d) = known_at-Mem tag t (values table.memories) m in
          let (a, b) = values-Mem table.memories m in
          (
            (λ i. let (k, o, x) = c (sort_by-Mem newest_memory known i) in (a k, o, x)),
            λ i. sort_by-Mem_intro newest_memory known (d (let (k, o, x) = i in (b k, o, x))),
          ))
