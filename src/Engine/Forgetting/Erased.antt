-- ===== src/Engine/Forgetting/Erased.antt =====
-- `forget_memory`: what it erases, for whom, and in which order.
use ultramem.Prelude.{
  not-contains_intro, ◌↔◌, Mem-filter_intro, Text, codes, contains, contains_intro, Bool, true,
  false, not, List, [], ◌∷◌, any, Mem-filter, Option, none, some, is_none, ◌≡◌, ◌≢◌, refl, sym, ap,
  subst, ◌∙◌, Memᴰ, Bool-cases, inl, inr, arith, true-false, if◌then◌else◌, ◌⊎◌,
}
use ultramem.Prelude.Mem
use ultramem.Prelude.Result.{Result, ok, err, err≢ok, ok_inj}
use ultramem.World.{
  Tables, Collections, World, Env, Exec, pure, fail, bind-cases, bind-ok, Keeps, bind-Keeps, ◌>>=◌,
  ◌>>◌,
}
use ultramem.Db.Rows.{MemoryRow, EvidenceRow}
use ultramem.Db.Memories.{
  owned, get_memory, delete_memory, delete_memory_rows, delete_evidence_rows,
}
use ultramem.Db.Memories.Erasure.{
  IsOwned, Owns, delete_memory-ok, delete_memory_rows-Mem, delete_evidence_rows-Mem,
}
use ultramem.Store.Point.{Point}
use ultramem.Store.Points.{delete_by_ids}
use ultramem.Engine.{Engine, store_write, audit}
use ultramem.Engine.Steps.{
  store_write-tables, store_write-ok, store_write-err, audit-collections, audit-tables,
}
use ultramem.Engine.Forgetting.{no_forget_store, erase_point, erase, forget_memory}
use ultramem.Engine.Forgetting.Reads.{
  find-none, delete_memory-collections, get_memory-ok, get_memory-tables, get_memory-collections,
}

module _ {F V : Type 0} (env : Env) (engine : Engine) (tag memory_id : Text) (w : World F V) where
  gate : Option (MemoryRow F) → Exec F V Bool
  gate found = if is_none found then pure false else erase env engine tag memory_id

  abbrev after : World F V
  after = (forget_memory env engine tag memory_id w).1

  -- What follows the erasure of the point.
  finish : Exec F V Bool
  finish = do
    delete_memory env memory_id tag
    audit env engine tag (codes "forget") (some memory_id)
    pure true

  Untouched : Type 0
  Untouched =
      ((forget_memory env engine tag memory_id w).0 ≢ ok true)
      × (after.tables ≡ w.tables)
      × (after.collections ≡ w.collections)

  Erasing : Type 0
  Erasing =
      (w₁ : World F V) × (w₁.tables ≡ w.tables)
      × (w₁.collections ≡ erase_point memory_id w.collections)
      × (any (owned memory_id tag) w.tables.memories ≡ true)
      × (forget_memory env engine tag memory_id w ≡ finish w₁)

  ends :
      {r : Result Bool × World F V}
      → forget_memory env engine tag memory_id w ≡ r
      → r.0 ≢ ok true
      → r.1.tables ≡ w.tables
      → r.1.collections ≡ w.collections
      → Untouched
  unfolding Untouched
  ends q n t c = (
    λ k. n (sym (ap (λ x. x.0) q) ∙ k),
    ap (λ x. x.1.tables) q ∙ t,
    ap (λ x. x.1.collections) q ∙ c,
  )

  erase-cases :
      (v : World F V)
      → v.tables ≡ w.tables
      → v.collections ≡ w.collections
      → any (owned memory_id tag) w.tables.memories ≡ true
      → forget_memory env engine tag memory_id w ≡ erase env engine tag memory_id v
      → Untouched ⊎ Erasing
  unfolding Erasing finish
  erase-cases v t c o q =
      elim (bind-cases (store_write env (erase_point memory_id)) (λ _. finish) v) [
        | inl (x, d, k) ↦ inl (
            ends (q ∙ k) err≢ok (store_write-tables env (erase_point memory_id) v ∙ t)
              (store_write-err env (erase_point memory_id) v d ∙ c))
        | inr (u, d, k) ↦ inr (
            (
              (store_write env (erase_point memory_id) v).1,
              store_write-tables env (erase_point memory_id) v ∙ t,
              store_write-ok env (erase_point memory_id) v d ∙ ap (erase_point memory_id) c,
              o,
              q ∙ k,
            ))
      ]

  forget_memory-cases : Untouched ⊎ Erasing
  unfolding forget_memory gate
  forget_memory-cases = elim (Bool-cases engine.db) [
    | inr e ↦ inl (ends {r = (err no_forget_store, w)} (rw e) err≢ok refl refl)
    | inl e ↦
        let t = get_memory-tables env memory_id tag w in
        let c = get_memory-collections env memory_id tag w in
        let v = (get_memory env memory_id tag w).1 in
        let run : forget_memory env engine tag memory_id w
            ≡ (get_memory env memory_id tag >>= gate) w =
          ap (λ b. (if b then get_memory env memory_id tag >>= gate else fail no_forget_store) w)
            e in
        elim (bind-cases (get_memory env memory_id tag) gate w) [
          | inl (x, d, q) ↦ inl (ends {r = (err x, v)} (run ∙ q) err≢ok t c)
          | inr (none, d, q) ↦ inl (ends {r = (ok false, v)} (run ∙ q) (λ k. cc (ok_inj k)) t c)
          | inr (some m, d, q) ↦ elim (Bool-cases (any (owned memory_id tag) w.tables.memories)) [
            | inl o ↦ erase-cases v t c o (run ∙ q)
            | inr o ↦ absurd (
                cc (
                  get_memory-ok env memory_id tag w d
                  ∙ find-none (owned memory_id tag) w.tables.memories o))
          ]
        ]
  ]

  -- A namespace that does not have the memory erases nothing, and is told so or gets an error.
  pub forget_memory-not_owned :
      any (owned memory_id tag) w.tables.memories ≡ false
      → ((forget_memory env engine tag memory_id w).0 ≢ ok true)
        × (after.tables ≡ w.tables)
        × (after.collections ≡ w.collections)
  unfolding Untouched Erasing
  forget_memory-not_owned h = elim forget_memory-cases [
    | inl u ↦ u
    | inr (v, t, c, o, q) ↦ absurd (true-false o h)
  ]

  finish-collections : Keeps (λ v. v.collections) finish
  unfolding finish
  finish-collections =
      bind-Keeps (λ v. v.collections) (delete_memory env memory_id tag) _
        (delete_memory-collections env memory_id tag)
        (λ _.
          bind-Keeps (λ v. v.collections) (audit env engine tag (codes "forget") (some memory_id)) _
            (audit-collections env engine tag (codes "forget") (some memory_id)) (λ _ v. refl))

  -- However the call ends, a memory row is gone only when the memory's point is gone from the index,
  -- so that a failure in between can not leave a point of an erased memory.
  pub forget_memory-point_first :
      (m : MemoryRow F) (p : Point V)
      → Memᴰ m w.tables.memories
      → ¬ Memᴰ m after.tables.memories
      → Memᴰ p after.collections.fact_points
      → p.id ≢ memory_id
  unfolding Untouched Erasing delete_by_ids contains
  forget_memory-point_first m p k n j = elim forget_memory-cases [
    | inl (_, t, c) ↦ absurd (n (subst (λ (x : Tables F). Memᴰ m x.memories) (sym t) k))
    | inr (v, t, c, o, q) ↦
        let same_points : after.collections ≡ erase_point memory_id w.collections =
          ap (λ x. x.1.collections) q ∙ finish-collections v ∙ c in
        let (i, h) =
          Mem-filter (λ (p : Point V). not (contains (memory_id ∷ []) p.id))
            w.collections.fact_points
            (subst (λ (x : Collections V). Memᴰ p x.fact_points) same_points j) in
        λ e. true-false (contains_intro (memory_id ∷ []) (Memᴰ.head e)) (ground (arith, h))
  ]

  forget_memory-leaves :
      (forget_memory env engine tag memory_id w).0 ≡ ok true
      → (after.tables.memories ≡ delete_memory_rows memory_id tag w.tables.memories)
        × (after.tables.evidence
            ≡ delete_evidence_rows memory_id tag w.tables.memories w.tables.evidence)
        × (after.collections ≡ erase_point memory_id w.collections)
        × (any (owned memory_id tag) w.tables.memories ≡ true)
  unfolding Untouched Erasing finish
  forget_memory-leaves h = elim forget_memory-cases [
    | inl (no_erasure, _, _) ↦ absurd (no_erasure h)
    | inr (v, t, c, o, q) ↦
        let (b, d, k) =
          bind-ok (delete_memory env memory_id tag)
            (λ _. audit env engine tag (codes "forget") (some memory_id) >>= λ _. pure true) v
            (sym (ap (λ x. x.0) q) ∙ h) in
        let (_, r) = delete_memory-ok env memory_id tag v d in
        let u = (delete_memory env memory_id tag v).1 in
        let tail_memories =
          bind-Keeps (λ x. x.tables.memories)
            (audit env engine tag (codes "forget") (some memory_id)) (λ _. pure true)
            (audit-tables env (λ (t : Tables F). t.memories) (λ t a. refl) engine tag
              (codes "forget") (some memory_id))
            (λ _ v. refl) u in
        let tail_evidence =
          bind-Keeps (λ x. x.tables.evidence)
            (audit env engine tag (codes "forget") (some memory_id)) (λ _. pure true)
            (audit-tables env (λ (t : Tables F). t.evidence) (λ t a. refl) engine tag
              (codes "forget") (some memory_id))
            (λ _ v. refl) u in
        (
          ap (λ x. x.1.tables.memories) (q ∙ k)
              ∙ tail_memories
              ∙ ap (λ (x : Tables F). x.memories) r
              ∙ ap (λ (x : Tables F). delete_memory_rows memory_id tag x.memories) t,
          ap (λ x. x.1.tables.evidence) (q ∙ k)
              ∙ tail_evidence
              ∙ ap (λ (x : Tables F). x.evidence) r
              ∙ ap (λ (x : Tables F). delete_evidence_rows memory_id tag x.memories x.evidence) t,
          ap (λ x. x.1.collections) q ∙ finish-collections v ∙ c,
          o,
        )
  ]

  delete_by_ids-Mem :
      (pts : List (Point V)) (p : Point V)
      → Memᴰ p (delete_by_ids (memory_id ∷ []) pts) ↔ (Memᴰ p pts × (p.id ≢ memory_id))
  unfolding delete_by_ids contains
  delete_by_ids-Mem pts p = (
    λ k.
        let (i, h) = Mem-filter (λ (p : Point V). not (contains (memory_id ∷ []) p.id)) pts k in
        (i, λ e. true-false (contains_intro (memory_id ∷ []) (Memᴰ.head e)) (ground (arith, h))),
    λ q.
        Mem-filter_intro (λ (p : Point V). not (contains (memory_id ∷ []) p.id)) pts q.0
          (rw (not-contains_intro (memory_id ∷ []) p.id (λ m. q.1 (Mem.eq_of_singleton m)))),
  )

  -- When the call reports the erasure, the namespace had the memory; and of the memories, the
  -- evidence and the points of facts exactly those of that memory are gone.
  pub forget_memory-erases :
      (forget_memory env engine tag memory_id w).0 ≡ ok true
      → Owns memory_id tag w.tables.memories
        × ((m : MemoryRow F)
            → Memᴰ m after.tables.memories
              ↔ (Memᴰ m w.tables.memories × (¬ IsOwned memory_id tag m)))
        × ((e : EvidenceRow)
            → Memᴰ e after.tables.evidence ↔ (Memᴰ e w.tables.evidence × (e.memory_id ≢ memory_id)))
        × ((p : Point V)
            → Memᴰ p after.collections.fact_points
              ↔ (Memᴰ p w.collections.fact_points × (p.id ≢ memory_id)))
  forget_memory-erases h =
      let (rows, quotes, c, o) = forget_memory-leaves h in
      (
        o,
        λ m.
            subst (λ x. Memᴰ m x ↔ (Memᴰ m w.tables.memories × (¬ IsOwned memory_id tag m)))
              (sym rows) (delete_memory_rows-Mem memory_id tag w.tables.memories m),
        λ e.
            let (d, u) =
              delete_evidence_rows-Mem memory_id tag w.tables.memories w.tables.evidence e in
            (
              λ k. let (i, n) = d (subst (Memᴰ e) quotes k) in (i, λ q. n (q, o)),
              λ q. subst (Memᴰ e) (sym quotes) (u (q.0, λ r. q.1 r.0)),
            ),
        λ p.
            subst (λ x. Memᴰ p x ↔ (Memᴰ p w.collections.fact_points × (p.id ≢ memory_id)))
              (sym (ap (λ x. x.fact_points) c)) (delete_by_ids-Mem w.collections.fact_points p),
      )
