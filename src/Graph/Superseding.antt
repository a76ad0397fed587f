-- ===== src/Graph/Superseding.antt =====
-- crates/ultramem-core/src/engine/graph.rs: which edges a new one supersedes, and when it is the
-- latest of its group.
use ultramem.Prelude.{
  leb_ℤ, leb_ℤ→le, ◌≤ℤ◌, Text, true, false, List, [], ◌∷◌, ◌++◌, ◌≡◌, ◌↔◌, ◌⊎◌, inl, inr, refl, sym,
  subst, true-false, ap, ◌∙◌, arith, Bool-cases, Memᴰ,
}
use mathlib.Core.List.Memᴰ as Mem
use ultramem.Graph.{
  Edge, StoredEdge, Weighing, eq_ignore_ascii_case, weigh, weigh_all, supersession,
}

-- The existing edge is the latest one, of another value, and no newer than the new one.
abbrev pub IsOutdated : Edge → StoredEdge → Type 0
IsOutdated new ex =
    (ex.is_latest ≡ true)
    × (eq_ignore_ascii_case ex.edge.object new.object ≡ false)
    × (ex.edge.valid_from ≤ℤ new.valid_from)

-- What one turn of the loop does, for the three kinds of existing edge.
weigh-cases :
    (new : Edge) (ex : StoredEdge) (v : Weighing)
    → (IsOutdated new ex × (weigh new ex v ≡ (v.0 ++ ex.id ∷ [], v.1)))
      ⊎ (((ex.is_latest ≡ false) × (weigh new ex v ≡ v))
          ⊎ ((ex.is_latest ≡ true) × (¬ IsOutdated new ex) × (weigh new ex v ≡ (v.0, false))))
unfolding weigh
weigh-cases new ex v = elim (Bool-cases ex.is_latest) [
  | inr e ↦ inr (inl (e, rw e))
  | inl e ↦ elim (Bool-cases (eq_ignore_ascii_case ex.edge.object new.object)) [
    | inl f ↦ inr (inr (e, (λ o. let (a, b, h) = o in cc), rw (e, f)))
    | inr f ↦ elim (Bool-cases (leb_ℤ ex.edge.valid_from new.valid_from)) [
      | inl g ↦ inl ((e, f, leb_ℤ→le ex.edge.valid_from new.valid_from g), rw (e, f, g))
      | inr g ↦ inr (inr (e, (λ o. let (a, b, h) = o in ground arith), rw (e, f, g)))
    ]
  ]
]

module _ (new : Edge) where
  -- The ids after the loop are those before it and those of the outdated edges.
  weigh_all-Mem :
      (id : Text) (existing : List StoredEdge) (v : Weighing)
      → Memᴰ id (weigh_all new existing v).0
      → Memᴰ id v.0 ⊎ ((ex : StoredEdge) × Memᴰ ex existing × IsOutdated new ex × (id ≡ ex.id))
  unfolding weigh_all
  weigh_all-Mem id [] v m = inl m
  weigh_all-Mem id (ex ∷ existing) v m = elim (weigh_all-Mem id existing (weigh new ex v) m) [
    | inr (x, k, o, e) ↦ inr (x, Memᴰ.tail k, o, e)
    | inl k ↦ elim (weigh-cases new ex v) [
      | inl (o, q) ↦ elim (Mem.append_cases v.0 (rw q at k)) [
        | inl j ↦ inl j
        | inr j ↦ inr (ex, Memᴰ.head refl, o, Mem.eq_of_singleton j)
      ]
      | inr (inl (e, q)) ↦ inl (rw q at k)
      | inr (inr (e, n, q)) ↦ inl (rw q at k)
    ]
  ]

  weigh_all-keeps :
      (id : Text) (existing : List StoredEdge) (v : Weighing)
      → Memᴰ id v.0
      → Memᴰ id (weigh_all new existing v).0
  unfolding weigh_all
  weigh_all-keeps id [] v m = m
  weigh_all-keeps id (ex ∷ existing) v m =
      weigh_all-keeps id existing (weigh new ex v) (elim (weigh-cases new ex v) [
        | inl (o, q) ↦ rw q (Mem.append_left (ex.id ∷ []) m)
        | inr (inl (e, q)) ↦ rw q m
        | inr (inr (e, n, q)) ↦ rw q m
      ])

  weigh_adds : (ex : StoredEdge) (v : Weighing) → IsOutdated new ex → Memᴰ ex.id (weigh new ex v).0
  weigh_adds ex v o = elim (weigh-cases new ex v) [
    | inl (p, q) ↦ rw q (Mem.append_right v.0 (Memᴰ.head refl))
    | inr (inl (e, q)) ↦ absurd (true-false o.0 e)
    | inr (inr (e, n, q)) ↦ absurd (n o)
  ]

  weigh_all-Mem_intro :
      (ex : StoredEdge) (existing : List StoredEdge) (v : Weighing)
      → Memᴰ ex existing
      → IsOutdated new ex
      → Memᴰ ex.id (weigh_all new existing v).0
  unfolding weigh_all
  weigh_all-Mem_intro ex [] v m o = absurd (Mem.not-nil m)
  weigh_all-Mem_intro ex (x ∷ existing) v m o = elim (Mem.cases_cons m) [
    | inl e ↦ rw e (
        weigh_all-keeps x.id existing (weigh new x v) (weigh_adds x v (subst (IsOutdated new) e o)))
    | inr k ↦ weigh_all-Mem_intro ex existing (weigh new x v) k o
  ]

  -- The new edge is the latest unless it was not before the loop or an edge that is the latest is
  -- not outdated.
  weigh_all-latest :
      (existing : List StoredEdge) (v : Weighing)
      → (weigh_all new existing v).1 ≡ true
      → (v.1 ≡ true)
        × ((ex : StoredEdge) → Memᴰ ex existing → ex.is_latest ≡ true → IsOutdated new ex)
  unfolding weigh_all
  weigh_all-latest [] v h = (h, λ ex m. absurd (Mem.not-nil m))
  weigh_all-latest (x ∷ existing) v h =
      let (now, rest) = weigh_all-latest existing (weigh new x v) h in
      elim (weigh-cases new x v) [
        | inl (o, q) ↦ (
          sym (ap (λ y. y.1) q) ∙ now,
          λ ex m l. elim (Mem.cases_cons m) [
            | inl e ↦ subst (IsOutdated new) (sym e) o
            | inr k ↦ rest ex k l
          ],
        )
        | inr (inl (f, q)) ↦ (
          sym (ap (λ y. y.1) q) ∙ now,
          λ ex m l. elim (Mem.cases_cons m) [
            | inl e ↦ absurd (true-false l (ap (λ y. y.is_latest) e ∙ f))
            | inr k ↦ rest ex k l
          ],
        )
        | inr (inr (f, n, q)) ↦ absurd (true-false now (ap (λ y. y.1) q))
      ]

  weigh_all-latest_intro :
      (existing : List StoredEdge) (v : Weighing)
      → v.1 ≡ true
      → ((ex : StoredEdge) → Memᴰ ex existing → ex.is_latest ≡ true → IsOutdated new ex)
      → (weigh_all new existing v).1 ≡ true
  unfolding weigh_all
  weigh_all-latest_intro [] v h k = h
  weigh_all-latest_intro (x ∷ existing) v h k =
      weigh_all-latest_intro existing (weigh new x v)
        (elim (weigh-cases new x v) [
          | inl (o, q) ↦ ap (λ y. y.1) q ∙ h
          | inr (inl (f, q)) ↦ ap (λ y. y.1) q ∙ h
          | inr (inr (f, n, q)) ↦ absurd (n (k x (Memᴰ.head refl) f))
        ])
        (λ ex m. k ex (Memᴰ.tail m))

  -- A new state supersedes exactly the outdated edges of its group, and is the latest one exactly if
  -- every edge that was the latest is outdated.
  pub supersession-IsOutdated :
      (existing : List StoredEdge)
      → new.singular ≡ true
      → ((id : Text)
          → Memᴰ id (supersession new existing).0
            ↔ ((ex : StoredEdge) × Memᴰ ex existing × IsOutdated new ex × (id ≡ ex.id)))
        × (((supersession new existing).1 ≡ true)
            ↔ ((ex : StoredEdge) → Memᴰ ex existing → ex.is_latest ≡ true → IsOutdated new ex))
  unfolding supersession
  supersession-IsOutdated existing e = rw e (
    λ id. (
      λ m. elim (weigh_all-Mem id existing ([], true) m) [
        | inl k ↦ absurd (Mem.not-nil k)
        | inr r ↦ r
      ],
      λ r. let (ex, m, o, q) = r in rw q (weigh_all-Mem_intro ex existing ([], true) m o),
    ),
    (
      λ h. (weigh_all-latest existing ([], true) h).1,
      λ k. weigh_all-latest_intro existing ([], true) refl k,
    ),
  )
