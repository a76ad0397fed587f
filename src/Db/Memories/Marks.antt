-- ===== src/Db/Memories/Marks.antt =====
-- What a successful mark_superseded does to each row of the memories.
use ultramem.Prelude.{
  ℤ, Text, same, same_iff, false, true-false, List, [], ◌∷◌, map, some, ◌≡◌, refl, sym, ap, subst,
  ◌∙◌, ◌⊎◌, inl, inr, codes, Memᴰ, Bool-cases,
}
use mathlib.Core.List.Memᴰ as Mem
use ultramem.Prelude.Result.{ok, ok_inj}
use ultramem.World.{Tables, World, Env, bind-ok}
use ultramem.Db.Statement.{statement, statement-ok}
use ultramem.Db.Rows.{MemoryRow}
use ultramem.Db.Memories.{superseded_row, supersede, mark_superseded}
use ultramem.Db.Memories.History.{supersede_all}

module _ {F : Type 0} (pairs : List (Text × Text)) (ts : ℤ) where
  -- A row that no pair names is as it was; one that a pair names is no longer the latest, and has the
  -- time and a memory that supersedes it.
  abbrev pub IsMarked : MemoryRow F → MemoryRow F → Type 0
  IsMarked before after =
      ((¬ Memᴰ before.id (map (λ (p : Text × Text). p.0) pairs)) × (after ≡ before))
      ⊎ ((new_id : Text) × Memᴰ (before.id, new_id) pairs
          × (after ≡ record before {
            is_latest = false;
            superseded_by = some new_id;
            superseded_at = some ts;
          }))

  abbrev pub AllMarked : List (MemoryRow F) → List (MemoryRow F) → Type 0
  AllMarked [] [] = Unit
  AllMarked (m ∷ before) (r ∷ after) = IsMarked m r × AllMarked before after
  AllMarked _ _ = ⊥

module _ {F : Type 0} (ts : ℤ) where
  -- A pair before the others.
  IsMarked-cons :
      (old new : Text) (pairs : List (Text × Text)) (m r : MemoryRow F)
      → IsMarked pairs ts (superseded_row old new ts m) r
      → IsMarked ((old, new) ∷ pairs) ts m r
  IsMarked-cons old new pairs m r h = elim (Bool-cases (same m.id old)) [
    | inr e ↦ elim (rw e at h) [
      | inl (n, q) ↦ inl (
        (λ k. elim (Mem.cases_cons k) [
          | inl o ↦ true-false ((same_iff m.id old).1 o) e
          | inr j ↦ n j
        ]),
        q,
      )
      | inr (x, k, q) ↦ inr (x, Memᴰ.tail k, q)
    ]
    | inl e ↦ elim (rw e at h) [
      | inl (n, q) ↦ inr (new, Memᴰ.head (ap (λ x. (x, new)) ((same_iff m.id old).0 e)), q)
      | inr (x, k, q) ↦ inr (x, Memᴰ.tail k, q)
    ]
  ]

  AllMarked-cons :
      (old new : Text) (pairs : List (Text × Text)) (rows after : List (MemoryRow F))
      → AllMarked pairs ts (supersede old new ts rows) after
      → AllMarked ((old, new) ∷ pairs) ts rows after
  unfolding supersede
  AllMarked-cons old new pairs [] [] h = tt
  AllMarked-cons old new pairs [] (r ∷ after) h = absurd h
  AllMarked-cons old new pairs (m ∷ rows) [] h = absurd h
  AllMarked-cons old new pairs (m ∷ rows) (r ∷ after) (h, hs) =
      (IsMarked-cons old new pairs m r h, AllMarked-cons old new pairs rows after hs)

  AllMarked-refl : (rows : List (MemoryRow F)) → AllMarked [] ts rows rows
  AllMarked-refl [] = tt
  AllMarked-refl (m ∷ rows) = (inl (Mem.not-nil, refl), AllMarked-refl rows)

  supersede_all-AllMarked :
      (pairs : List (Text × Text)) (rows : List (MemoryRow F))
      → AllMarked pairs ts rows (supersede_all pairs ts rows)
  unfolding supersede_all
  supersede_all-AllMarked [] rows = AllMarked-refl rows
  supersede_all-AllMarked ((old, new) ∷ pairs) rows =
      AllMarked-cons old new pairs rows (supersede_all pairs ts (supersede old new ts rows))
        (supersede_all-AllMarked pairs (supersede old new ts rows))

module _ {F V : Type 0} (env : Env) where
  mark_superseded-ok :
      (pairs : List (Text × Text)) (ts : ℤ) (w : World F V)
      → (mark_superseded env pairs ts w).0 ≡ ok tt
      → (mark_superseded env pairs ts w).1.tables
        ≡ record w.tables { memories = supersede_all pairs ts w.tables.memories }
  unfolding mark_superseded supersede_all
  mark_superseded-ok [] ts w h = refl
  mark_superseded-ok ((old, new) ∷ pairs) ts w h =
      let m =
        statement env (codes "mark_superseded")
          (λ t. ok (tt, record t { memories = supersede old new ts t.memories })) in
      let (a, e, k) = bind-ok m (λ _. mark_superseded env pairs ts) w h in
      let d = statement-ok env (codes "mark_superseded") _ w e in
      ap (λ x. x.1.tables) k
      ∙ mark_superseded-ok pairs ts (m w).1 (sym (ap (λ x. x.0) k) ∙ h)
      ∙ ap (λ (t : Tables F). record t { memories = supersede_all pairs ts t.memories })
          (sym (ap (λ x. x.1) (ok_inj d)))

  -- When mark_superseded reports no error, every row that a pair names is marked and no other row is
  -- changed, added, removed or moved; the other tables are as they were.
  pub mark_superseded-AllMarked :
      (pairs : List (Text × Text)) (ts : ℤ) (w : World F V)
      → (mark_superseded env pairs ts w).0 ≡ ok tt
      → AllMarked pairs ts w.tables.memories (mark_superseded env pairs ts w).1.tables.memories
        × ((mark_superseded env pairs ts w).1.tables
            ≡ record w.tables { memories = (mark_superseded env pairs ts w).1.tables.memories })
  mark_superseded-AllMarked pairs ts w h =
      let e = mark_superseded-ok pairs ts w h in
      (
        subst (AllMarked pairs ts w.tables.memories) (sym (ap (λ (t : Tables F). t.memories) e))
            (supersede_all-AllMarked ts pairs w.tables.memories),
        e ∙ ap (λ x. record w.tables { memories = x }) (sym (ap (λ (t : Tables F). t.memories) e)),
      )
