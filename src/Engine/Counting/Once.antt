-- ===== src/Engine/Counting/Once.antt =====
-- The instances of an event: each of its edges counts, and no object counts twice.
use ultramem.Prelude.{
  ℤ, Text, ◌↔◌, All, All-of_Mem, contains, contains-Mem, not-contains, to_lower, Unicode, Distinct,
  false, List, [], ◌∷◌, map, ◌≡◌, ◌∙◌, refl, sym, ap, subst, ◌⊎◌, inl, inr, Bool-cases, true-false,
  Memᴰ,
}
use mathlib.Core.List.Memᴰ as Mem
use ultramem.Graph.{StoredEdge}
use ultramem.Graph.Resolve.{GroupKey, group_key, same_group_key}
use ultramem.Graph.Order.{same_group_key_iff}
use ultramem.Engine.Counting.{event_instances}

module _ (u : Unicode) where
  abbrev pub objects : List (Text × ℤ) → List Text
  objects = map (λ i. to_lower u i.0)

  objects-Mem :
      (out : List (Text × ℤ)) (x : Text)
      → Memᴰ x (objects out)
      → (i : Text × ℤ) × Memᴰ i out × (x ≡ to_lower u i.0)
  objects-Mem [] x m = absurd (Mem.not-nil m)
  objects-Mem (j ∷ out) x m = elim (Mem.cases_cons m) [
    | inl e ↦ (j, Memᴰ.head refl, e)
    | inr k ↦ let (i, n, e) = objects-Mem out x k in (i, Memᴰ.tail n, e)
  ]

module _ (u : Unicode) (key : GroupKey) where
  -- The instance is an edge of the group.
  abbrev pub IsInstance : List StoredEdge → Text × ℤ → Type 0
  IsInstance edges i =
      (se : StoredEdge) × Memᴰ se edges
      × (group_key se.edge ≡ key)
      × (i ≡ (se.edge.object, se.edge.valid_from))

  record IsCounted (seen : List Text) (edges : List StoredEdge) (out : List (Text × ℤ))
      : Type 0 where
    fresh : (x : Text) → Memᴰ x (objects u out) → ¬ Memᴰ x seen
    once : Distinct (objects u out)
    complete :
        (se : StoredEdge)
        → Memᴰ se edges
        → group_key se.edge ≡ key
        → Memᴰ (to_lower u se.edge.object) seen ⊎ Memᴰ (to_lower u se.edge.object) (objects u out)
    sound : (i : Text × ℤ) → Memᴰ i out → IsInstance edges i

  later :
      (edges : List StoredEdge) (se : StoredEdge) (i : Text × ℤ)
      → IsInstance edges i
      → IsInstance (se ∷ edges) i
  later edges se i (x, m, g, q) = (x, Memᴰ.tail m, g, q)

  event_instances-IsCounted :
      (seen : List Text) (edges : List StoredEdge)
      → IsCounted seen edges (event_instances u key seen edges)
  unfolding event_instances
  event_instances-IsCounted seen [] = record {
    fresh = λ x m. absurd (Mem.not-nil m);
    once = tt;
    complete = λ se m. absurd (Mem.not-nil m);
    sound = λ i m. absurd (Mem.not-nil m);
  }
  event_instances-IsCounted seen (se ∷ edges) =
      let rest = event_instances-IsCounted seen edges in
      let object = to_lower u se.edge.object in
      elim (Bool-cases (same_group_key (group_key se.edge) key)) [
        | inr g ↦
            rw (event_instances, g)
              (record {
                fresh = rest.fresh;
                once = rest.once;
                complete = λ x m q. elim (Mem.cases_cons m) [
                  | inl e ↦ absurd (
                      true-false
                        ((same_group_key_iff (group_key se.edge) key).1
                          (subst (λ y. group_key y.edge ≡ key) e q))
                        g)
                  | inr k ↦ rest.complete x k q
                ];
                sound = λ i m. later edges se i (rest.sound i m);
              })
        | inl g ↦ elim (Bool-cases (contains seen object)) [
          | inl c ↦
              rw (event_instances, g, c)
                (record {
                  fresh = rest.fresh;
                  once = rest.once;
                  complete = λ x m q. elim (Mem.cases_cons m) [
                    | inl e ↦ inl (
                        subst (λ y. Memᴰ (to_lower u y.edge.object) seen) (sym e)
                          (contains-Mem seen object c))
                    | inr k ↦ rest.complete x k q
                  ];
                  sound = λ i m. later edges se i (rest.sound i m);
                })
          | inr c ↦
              rw (event_instances, g, c)
                (counted seen se edges c ((same_group_key_iff (group_key se.edge) key).0 g)
                  (event_instances-IsCounted (object ∷ seen) edges))
        ]
      ]
    where
      counted :
          (seen : List Text) (se : StoredEdge) (edges : List StoredEdge)
          → contains seen (to_lower u se.edge.object) ≡ false
          → group_key se.edge ≡ key
          → {out : List (Text × ℤ)} → IsCounted (to_lower u se.edge.object ∷ seen) edges out
          → IsCounted seen (se ∷ edges) ((se.edge.object, se.edge.valid_from) ∷ out)
      counted seen se edges c g h = record {
        fresh = λ x m. elim (Mem.cases_cons m) [
          | inl e ↦
              λ k. not-contains seen (to_lower u se.edge.object) c (subst (λ y. Memᴰ y seen) e k)
          | inr j ↦ λ k. h.fresh x j (Memᴰ.tail k)
        ];
        once = ((λ m. h.fresh (to_lower u se.edge.object) m (Memᴰ.head refl)), h.once);
        complete = λ x m q. elim (Mem.cases_cons m) [
          | inl e ↦ inr (Memᴰ.head (ap (λ y. to_lower u y.edge.object) e))
          | inr k ↦ elim (h.complete x k q) [
            | inr j ↦ inr (Memᴰ.tail j)
            | inl j ↦ elim (Mem.cases_cons j) [ inl e ↦ inr (Memᴰ.head e) | inr n ↦ inl n ]
          ]
        ];
        sound = λ i m. elim (Mem.cases_cons m) [
          | inl e ↦ (se, Memᴰ.head refl, g, e)
          | inr k ↦ later edges se i (h.sound i k)
        ];
      }

  -- The object of an edge of the group, its letters lowered.
  abbrev pub IsObject : List StoredEdge → Text → Type 0
  IsObject edges x =
      (se : StoredEdge) × Memᴰ se edges
      × (group_key se.edge ≡ key)
      × (x ≡ to_lower u se.edge.object)

  -- The instances have each object of the group's edges once, up to the case of its letters, and no
  -- other; every instance is one of these edges with its date.
  pub event_instances_once :
      (edges : List StoredEdge)
      → Distinct (objects u (event_instances u key [] edges))
        × ((x : Text) → Memᴰ x (objects u (event_instances u key [] edges)) ↔ IsObject edges x)
        × All (IsInstance edges) (event_instances u key [] edges)
  event_instances_once edges =
      let out = event_instances u key [] edges in
      let h = event_instances-IsCounted [] edges in
      (
        h.once,
        (λ x. (
          (λ m.
              let (i, k, e) = objects-Mem u out x m in
              let (se, n, g, q) = h.sound i k in (se, n, g, e ∙ ap (λ j. to_lower u j.0) q)),
          λ o.
              let (se, n, g, q) = o in
              elim (h.complete se n g) [
                | inl j ↦ absurd (Mem.not-nil j)
                | inr j ↦ subst (λ y. Memᴰ y (objects u out)) (sym q) j
              ],
        )),
        All-of_Mem _ out h.sound,
      )
