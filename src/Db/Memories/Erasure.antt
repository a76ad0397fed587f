-- ===== src/Db/Memories/Erasure.antt =====
-- `delete_memory`: what is erased with a memory, and what another namespace can not erase.
use ultramem.Prelude.{
  Text, codes, same, same_iff, Bool, true, false, not, ◌&&◌, List, any, Mem-filter,
  Mem-filter_intro, ◌≡◌, sym, ap, ◌∙◌, ◌↔◌, Memᴰ, &&_split, &&_intro, Bool-cases, inl, inr,
  filter_idem, arith, true-false,
}
use ultramem.Prelude.Result.{Result, ok, ok_inj}
use ultramem.World.{Tables, World, Env, bind-ok}
use ultramem.Db.Rows.{MemoryRow, EvidenceRow}
use ultramem.Db.Memories.{owned, delete_memory, delete_memory_rows, delete_evidence_rows}
use ultramem.Db.Statement.{statement, statement-ok}

not-true : {b : Bool} → not b ≡ true → b ≡ false
not-true {b} h = ground (arith, h)

not_false : {b : Bool} → ¬ (b ≡ true) → not b ≡ true
not_false {b} h = elim (Bool-cases b) [ inl e ↦ absurd (h e) | inr e ↦ rw e ]

module _ {F : Type 0} where
  abbrev pub IsOwned : Text → Text → MemoryRow F → Type 0
  IsOwned id tag m = (m.id ≡ id) × (m.container_tag ≡ tag)

  owned_iff : (id tag : Text) (m : MemoryRow F) → (owned id tag m ≡ true) ↔ IsOwned id tag m
  unfolding owned
  owned_iff id tag m = (
    λ h.
        let (a, b) = &&_split _ _ h in ((same_iff m.id id).0 a, (same_iff m.container_tag tag).0 b),
    λ r. &&_intro _ _ ((same_iff m.id id).1 r.0) ((same_iff m.container_tag tag).1 r.1),
  )

  pub delete_memory_rows-Mem :
      (id tag : Text) (rows : List (MemoryRow F)) (m : MemoryRow F)
      → Memᴰ m (delete_memory_rows id tag rows) ↔ (Memᴰ m rows × (¬ IsOwned id tag m))
  unfolding delete_memory_rows
  delete_memory_rows-Mem id tag rows m = (
    λ k.
        let (r, e) = Mem-filter (λ m. not (owned id tag m)) rows k in
        (r, λ o. true-false ((owned_iff id tag m).1 o) (not-true e)),
    λ q.
        Mem-filter_intro (λ m. not (owned id tag m)) rows q.0
          (not_false (λ h. q.1 ((owned_iff id tag m).0 h))),
  )

  -- The namespace has the memory.
  abbrev pub Owns : Text → Text → List (MemoryRow F) → Type 0
  Owns id tag rows = any (owned id tag) rows ≡ true

  pub delete_evidence_rows-Mem :
      (id tag : Text) (memories : List (MemoryRow F)) (rows : List EvidenceRow) (e : EvidenceRow)
      → Memᴰ e (delete_evidence_rows id tag memories rows)
        ↔ (Memᴰ e rows × (¬ ((e.memory_id ≡ id) × Owns id tag memories)))
  unfolding delete_evidence_rows
  delete_evidence_rows-Mem id tag memories rows e = (
    λ k.
        let (r, h) =
          Mem-filter (λ e. not (same e.memory_id id && any (owned id tag) memories)) rows k in
        (r, λ o. true-false (&&_intro _ _ ((same_iff e.memory_id id).1 o.0) o.1) (not-true h)),
    λ q.
        Mem-filter_intro (λ e. not (same e.memory_id id && any (owned id tag) memories)) rows q.0
          (not_false
            (λ h. q.1 (let (a, b) = &&_split _ _ h in ((same_iff e.memory_id id).0 a, b)))),
  )

module _ {F : Type 0} (id tag : Text) where
  -- What the two statements of `delete_memory` do.
  abbrev erase_evidence : Tables F → Result (Unit {0} × Tables F)
  erase_evidence t =
      ok (tt, record t { evidence = delete_evidence_rows id tag t.memories t.evidence })

  abbrev erase_memory : Tables F → Result (Bool × Tables F)
  erase_memory t = ok (
    any (owned id tag) t.memories,
    record t {
      memories = delete_memory_rows id tag t.memories;
      evidence = delete_evidence_rows id tag t.memories t.evidence;
    },
  )

  delete_evidence_rows_idem :
      (memories : List (MemoryRow F)) (rows : List EvidenceRow)
      → delete_evidence_rows id tag memories (delete_evidence_rows id tag memories rows)
        ≡ delete_evidence_rows id tag memories rows
  unfolding delete_evidence_rows
  delete_evidence_rows_idem memories rows = filter_idem _ rows

module _ {F V : Type 0} (env : Env) where
  -- When `delete_memory` reports no error, it reports whether the namespace has the memory, and the
  -- tables have lost that memory and its evidence, and nothing else.
  pub delete_memory-ok :
      (id tag : Text) (w : World F V) {b : Bool}
      → (delete_memory env id tag w).0 ≡ ok b
      → (b ≡ any (owned id tag) w.tables.memories)
        × ((delete_memory env id tag w).1.tables ≡ record w.tables {
          memories = delete_memory_rows id tag w.tables.memories;
          evidence = delete_evidence_rows id tag w.tables.memories w.tables.evidence;
        })
  unfolding delete_memory
  delete_memory-ok id tag w h =
      let m = statement env (codes "delete_memory (evidence)") (erase_evidence {F = F} id tag) in
      let n = statement env (codes "delete_memory") (erase_memory {F = F} id tag) in
      let (a, e, k) = bind-ok {V = V} m (λ _. n) w h in
      let t =
        ap (λ x. x.1)
          (ok_inj
            (statement-ok env (codes "delete_memory (evidence)") (erase_evidence id tag) w e)) in
      let d = ok_inj (
        statement-ok env (codes "delete_memory") (erase_memory id tag) (m w).1
          (sym (ap (λ x. x.0) k) ∙ h)) in
      (
        sym (ap (λ x. x.0) d) ∙ ap (λ (t : Tables F). any (owned id tag) t.memories) (sym t),
        ap (λ x. x.1.tables) k
            ∙ sym (ap (λ x. x.1) d)
            ∙ ap
                (λ (u : Tables F). record u {
                  memories = delete_memory_rows id tag u.memories;
                  evidence = delete_evidence_rows id tag u.memories u.evidence;
                })
                (sym t)
            ∙ ap
                (λ rows. record w.tables {
                  memories = delete_memory_rows id tag w.tables.memories;
                  evidence = rows;
                })
                (delete_evidence_rows_idem id tag w.tables.memories w.tables.evidence),
      )
