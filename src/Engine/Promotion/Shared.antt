-- ===== src/Engine/Promotion/Shared.antt =====
-- `promote_memory`: what it needs of the principal's own namespace, and what it shares.
use ultramem.Prelude.{
  suc, ℤ, same, false, some_inj, ◌++◌, Text, codes, same_iff, true, List, [], ◌∷◌, find-Mem, Option,
  none, some, ◌≡◌, refl, sym, ap, subst, ◌∙◌, Memᴰ, Bool-cases, inl, inr, &&_split, if◌then◌else◌,
}
use ultramem.Prelude.Result.{Result, ok, err≢ok, ok_inj}
use ultramem.World.{
  Collections, World, Env, fail, pure, attempt, bind-ok, bind-Keeps, Keeps, new_uuid, read_clock,
  ◌>>=◌,
}
use ultramem.Prelude.Table.{lookup}
use ultramem.Store.Point.{Point, str, bool, as_i64}
use ultramem.Store.Points.{upsert}
use ultramem.Db.Rows.{MemoryRow}
use ultramem.Db.Statement.{statement, and_tables, statement-collections}
use ultramem.Db.Memories.{owned, get_memory, insert_memories, insert_memory_row}
use ultramem.Engine.{Engine, store_write, audit}
use ultramem.Engine.Steps.{store_write-ok, audit-collections}
use ultramem.Engine.Deletion.{pass}
use ultramem.Engine.Forgetting.Reads.{get_memory-ok, get_memory-collections}
use ultramem.Engine.Promotion.{
  no_promotion_store, promoted_point, promoted_row, as_i64-json_time, first_vector, add_fact,
  record_promotion, share, embed_and_share, promote_found, promote_memory,
}

module _ {V : Type 0} where
  first_vector_inv :
      (vecs : List V) {vec : V} → first_vector vecs ≡ ok vec → (rest : List V) × (vecs ≡ vec ∷ rest)
  first_vector_inv [] h = absurd (err≢ok h)
  first_vector_inv (v ∷ vecs) h = (vecs, ap (λ x. x ∷ vecs) (ok_inj h))

module _ {F V : Type 0} (env : Env) where
  insert_memories-collections :
      (rows : List (MemoryRow F))
      → Keeps {F = F} {V = V} (λ w. w.collections) (insert_memories env rows)
  unfolding insert_memories
  insert_memories-collections [] w = refl
  insert_memories-collections (m ∷ rows) w =
      bind-Keeps (λ w. w.collections)
        (statement env (codes "insert_memories") (λ t.
          and_tables (λ rows. record t { memories = rows })
            (insert_memory_row m t.documents t.memories)))
        (λ _. insert_memories env rows)
        (λ v. statement-collections env (codes "insert_memories") _ v)
        (λ _. insert_memories-collections rows) w

module _ {F V : Type 0} (env : Env) (engine : Engine) (embed : List Text → Result (List V)) where
  record_promotion-collections :
      (new_id : Text) (now : ℤ) (to_scope : Text) (src : MemoryRow F)
      → Keeps {F = F} {V = V}
          (λ w. w.collections)
          (record_promotion env engine embed new_id now to_scope src)
  record_promotion-collections new_id now to_scope src =
      bind-Keeps (λ w. w.collections)
        (attempt (insert_memories env (promoted_row new_id now to_scope src ∷ [])))
        (λ _. audit env engine to_scope (codes "promote") (some new_id) >>= λ _. pure (some new_id))
        (insert_memories-collections env (promoted_row new_id now to_scope src ∷ []))
        (λ _.
          bind-Keeps (λ w. w.collections)
            (audit env engine to_scope (codes "promote") (some new_id)) (λ _. pure (some new_id))
            (audit-collections env engine to_scope (codes "promote") (some new_id)) (λ _ w. refl))

  -- The point is the copy of a memory in a shared scope, under an id and with the vector of its
  -- statement: the latest memory of the scope, with where it comes from.
  pub record IsCopy (from_tag to_scope : Text) (src : MemoryRow F) (new_id : Text) (p : Point V)
      : Type 0 where
    pub id : p.id ≡ new_id
    pub rest : List V
    pub vector : embed (src.statement ∷ []) ≡ ok (p.vector ∷ rest)
    pub fact : lookup (codes "fact") p.payload ≡ some (str src.statement)
    pub kind : lookup (codes "kind") p.payload ≡ some (str src.kind)
    pub doc_id : lookup (codes "doc_id") p.payload ≡ some (str src.document_id)
    pub scope : lookup (codes "container_tag") p.payload ≡ some (str to_scope)
    pub promoted_from : lookup (codes "promoted_from") p.payload ≡ some (str src.id)
    pub promoted_from_scope : lookup (codes "promoted_from_scope") p.payload ≡ some (str from_tag)
    pub is_latest : lookup (codes "is_latest") p.payload ≡ some (bool true)
    pub needs_review : lookup (codes "needs_review") p.payload ≡ some (bool false)
    pub valid_until : as_i64 (lookup (codes "valid_until") p.payload) ≡ src.valid_until

  -- The collections with the copy of a memory behind the facts.
  abbrev pub Copied : Text → Text → MemoryRow F → Text → Collections V → Collections V → Type 0
  Copied from_tag to_scope src new_id c d =
      (p : Point V) × IsCopy from_tag to_scope src new_id p
      × (d ≡ record c { fact_points = c.fact_points ++ p ∷ [] })

  promoted_point-IsCopy :
      (from_tag to_scope : Text) (src : MemoryRow F) (new_id : Text) (vec : V) (rest : List V)
      → embed (src.statement ∷ []) ≡ ok (vec ∷ rest)
      → IsCopy from_tag to_scope src new_id (promoted_point new_id from_tag to_scope src vec)
  unfolding lookup same
  promoted_point-IsCopy from_tag to_scope src new_id vec rest h = record {
    id = refl;
    rest = rest;
    vector = h;
    fact = refl;
    kind = refl;
    doc_id = refl;
    scope = refl;
    promoted_from = refl;
    promoted_from_scope = refl;
    is_latest = refl;
    needs_review = refl;
    valid_until = as_i64-json_time src.valid_until;
  }

  -- The id answered is that of the copy.
  record_promotion-answer :
      (new_id : Text) (now : ℤ) (to_scope : Text) (src : MemoryRow F) (w : World F V)
      {o : Option Text}
      → (record_promotion env engine embed new_id now to_scope src w).0 ≡ ok o
      → o ≡ some new_id
  record_promotion-answer new_id now to_scope src w h =
      let m = attempt (insert_memories env (promoted_row new_id now to_scope src ∷ [])) in
      let n = audit env engine to_scope (codes "promote") (some new_id) in
      let (a, d, k) = bind-ok m (λ _. n >>= λ _. pure (some new_id)) w h in
      let (b, e, j) = bind-ok n (λ _. pure (some new_id)) (m w).1 (sym (ap (λ x. x.0) k) ∙ h) in
      sym (ok_inj (sym (ap (λ x. x.0) (k ∙ j)) ∙ h))

  share-Copied :
      (from_tag to_scope : Text) (src : MemoryRow F) (new_id : Text) (now : ℤ) (vec : V)
      (w : World F V) {o : Option Text}
      → {rest : List V} → embed (src.statement ∷ []) ≡ ok (vec ∷ rest)
      → (share env engine embed from_tag to_scope src new_id now vec w).0 ≡ ok o
      → (o ≡ some new_id)
        × Copied from_tag to_scope src new_id w.collections
            (share env engine embed from_tag to_scope src new_id now vec w).1.collections
  unfolding upsert
  share-Copied from_tag to_scope src new_id now vec w {rest = rest} v h =
      let p = promoted_point new_id from_tag to_scope src vec in
      let (a, d, k) =
        bind-ok (store_write env (add_fact p))
          (λ _. record_promotion env engine embed new_id now to_scope src) w h in
      (
        record_promotion-answer new_id now to_scope src (store_write env (add_fact p) w).1
            (sym (ap (λ x. x.0) k) ∙ h),
        (
          p,
          promoted_point-IsCopy from_tag to_scope src new_id vec rest v,
          ap (λ x. x.1.collections) k
              ∙ record_promotion-collections new_id now to_scope src
                  (store_write env (add_fact p) w).1
              ∙ store_write-ok env (add_fact p) w d,
        ),
      )

  embed-Copied :
      (from_tag to_scope : Text) (src : MemoryRow F) (new_id : Text) (now : ℤ) (w : World F V)
      {o : Option Text}
      → (embed_and_share env engine embed from_tag to_scope src new_id now w).0 ≡ ok o
      → (o ≡ some new_id)
        × Copied from_tag to_scope src new_id w.collections
            (embed_and_share env engine embed from_tag to_scope src new_id now w).1.collections
  embed-Copied from_tag to_scope src new_id now w h =
      let (vecs, d, k) =
        bind-ok (pass (embed (src.statement ∷ [])))
          (λ vecs.
            pass (first_vector vecs) >>= share env engine embed from_tag to_scope src new_id now)
          w h in
      let (vec, e, j) =
        bind-ok (pass (first_vector vecs)) (share env engine embed from_tag to_scope src new_id now)
          w (sym (ap (λ x. x.0) k) ∙ h) in
      let (rest, q) = first_vector_inv vecs e in
      let (o, c) =
        share-Copied from_tag to_scope src new_id now vec w (d ∙ ap ok q)
          (sym (ap (λ x. x.0) (k ∙ j)) ∙ h) in
      (
        o,
        subst (λ x. Copied from_tag to_scope src new_id w.collections x.1.collections) (sym (k ∙ j))
            c,
      )

  owned_inv :
      (id tag : Text) (m : MemoryRow F)
      → owned id tag m ≡ true
      → (m.id ≡ id) × (m.container_tag ≡ tag)
  unfolding owned
  owned_inv id tag m h =
      let (a, b) = &&_split _ _ h in ((same_iff m.id id).0 a, (same_iff m.container_tag tag).0 b)

  promote_found-Copied :
      (from_tag to_scope : Text) (o : Option (MemoryRow F)) (w : World F V) {new_id : Text}
      → (promote_found env engine embed from_tag to_scope o w).0 ≡ ok (some new_id)
      → (src : MemoryRow F) × (o ≡ some src)
        × Copied from_tag to_scope src new_id w.collections
            (promote_found env engine embed from_tag to_scope o w).1.collections
  unfolding new_uuid read_clock
  promote_found-Copied from_tag to_scope none w h = cc (ok_inj h)
  promote_found-Copied from_tag to_scope (some src) w {new_id = new_id} h =
      let v = record w { calls = suc (suc w.calls) } in
      let (e, c) =
        embed-Copied from_tag to_scope src (env.uuid w.calls) (env.now (suc w.calls)) v h in
      (
        src,
        refl,
        subst
            (λ x.
              Copied from_tag to_scope src x w.collections
                (promote_found env engine embed from_tag to_scope (some src) w).1.collections)
            (sym (some_inj e)) c,
      )

  -- When a promotion reports a new memory, the principal's own namespace has the memory asked for,
  -- and of the collections exactly the facts have changed: behind them is its copy, under the id
  -- reported, in the shared scope, with the vector of its statement and where it comes from.
  pub promote_memory-Copied :
      (from_tag memory_id to_scope new_id : Text) (w : World F V)
      → (promote_memory env engine embed from_tag memory_id to_scope w).0 ≡ ok (some new_id)
      → (src : MemoryRow F) × Memᴰ src w.tables.memories
        × (src.id ≡ memory_id)
        × (src.container_tag ≡ from_tag)
        × Copied from_tag to_scope src new_id w.collections
            (promote_memory env engine embed from_tag memory_id to_scope w).1.collections
  unfolding promote_memory
  promote_memory-Copied from_tag memory_id to_scope new_id w h = elim (Bool-cases engine.db) [
    | inr e ↦ absurd (
        err≢ok (
          sym (
            ap
              (λ b.
                ((if b
                    then get_memory env memory_id from_tag
                      >>= promote_found env engine embed from_tag to_scope
                    else fail no_promotion_store)
                  w).0)
              e)
          ∙ h))
    | inl e ↦
        let m = get_memory env memory_id from_tag in
        let run : promote_memory env engine embed from_tag memory_id to_scope w
            ≡ (m >>= promote_found env engine embed from_tag to_scope) w =
          ap
            (λ b.
              (if b
                  then m >>= promote_found env engine embed from_tag to_scope
                  else fail no_promotion_store)
                w)
            e in
        let (o, d, k) =
          bind-ok m (promote_found env engine embed from_tag to_scope) w
            (sym (ap (λ x. x.0) run) ∙ h) in
        let (src, f, c) =
          promote_found-Copied from_tag to_scope o (m w).1 (sym (ap (λ x. x.0) (run ∙ k)) ∙ h) in
        let (there, mine) =
          find-Mem (owned memory_id from_tag) w.tables.memories
            (sym (get_memory-ok env memory_id from_tag w d) ∙ f) in
        let (a, b) = owned_inv memory_id from_tag src mine in
        (
          src,
          there,
          a,
          b,
          subst
              (λ x.
                Copied from_tag to_scope src new_id x
                  (promote_memory env engine embed from_tag memory_id to_scope w).1.collections)
              (get_memory-collections env memory_id from_tag w)
              (subst (λ x. Copied from_tag to_scope src new_id (m w).1.collections x.1.collections)
                (sym (run ∙ k)) c),
        )
  ]
