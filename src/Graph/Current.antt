-- ===== src/Graph/Current.antt =====
-- crates/ultramem-core/src/engine/graph.rs: what resolve gives as the value at a time.
use ultramem.Prelude.{
  ℤ, leb_ℤ, leb_ℤ→le, le→leb_ℤ, not-leb_ℤ→lt, ◌≤ℤ◌, ◌<ℤ◌, leb_ℤ_total, leb_ℤ_trans, Bool, true,
  false, List, [], ◌∷◌, sort_by, IsSorted, IsOrder, sort_by-IsSorted, sort_by-Mem, Mem-filter_intro,
  sort_by-Mem_intro, ◌≡◌, ◌⊎◌, refl, sym, ap, subst, ◌∙◌, inl, inr, some, none, Bool-cases,
  Option-cases, some_inj, true-false, All-Mem, Memᴰ, arith,
}
use mathlib.Core.List.Memᴰ as Mem
use ultramem.Graph.{StoredEdge, Resolved}
use ultramem.Graph.Resolve.{
  GroupKey, Groups, group_key, group_edges, by_valid_from, rfind, or_first, resolved_of,
  resolve_groups, resolve,
}
use ultramem.Graph.Order.{same_group_key_iff}
use ultramem.Graph.Groups.{edges_with, group_edges-edges_with, group_edges-Mem}

abbrev from_of : StoredEdge → ℤ
from_of e = e.edge.valid_from

-- Of some edges this one holds at the time: it is the newest that is not later, or, if all are
-- later, the earliest.
abbrev pub IsValueAt : ℤ → List StoredEdge → StoredEdge → Type 0
IsValueAt as_of members e =
    Memᴰ e members
    × (((e.edge.valid_from ≤ℤ as_of)
          × ((x : StoredEdge)
              → Memᴰ x members
              → x.edge.valid_from ≤ℤ as_of
              → x.edge.valid_from ≤ℤ e.edge.valid_from))
        ⊎ ((x : StoredEdge)
            → Memᴰ x members
            → (as_of <ℤ x.edge.valid_from) × (e.edge.valid_from ≤ℤ x.edge.valid_from)))

at_once : (e : StoredEdge) → by_valid_from e e ≡ true
at_once e = ground arith

module _ (p : StoredEdge → Bool) where
  rfind-none :
      (xs : List StoredEdge) → rfind p xs ≡ none → (x : StoredEdge) → Memᴰ x xs → p x ≡ false
  unfolding rfind
  rfind-none [] h x m = absurd (Mem.not-nil m)
  rfind-none (y ∷ ys) h x m = elim (Option-cases (rfind p ys)) [
    | inr (z, e) ↦ cc (rw e at h)
    | inl e ↦ elim (Mem.cases_cons m) [
      | inl q ↦ elim (Bool-cases (p y)) [ inl t ↦ cc (rw (e, t) at h) | inr t ↦ rw q t ]
      | inr k ↦ rfind-none ys e x k
    ]
  ]

  rfind-some :
      (xs : List StoredEdge) (e : StoredEdge)
      → IsSorted by_valid_from xs
      → rfind p xs ≡ some e
      → Memᴰ e xs
        × (p e ≡ true)
        × ((x : StoredEdge) → Memᴰ x xs → p x ≡ true → by_valid_from x e ≡ true)
  unfolding rfind
  rfind-some [] e s h = cc
  rfind-some (y ∷ ys) e (first, s) h = elim (Option-cases (rfind p ys)) [
    | inr (z, q) ↦
        let same : z ≡ e = some_inj (rw q at h) in
        let (m, t, best) = rfind-some ys e s (q ∙ ap some same) in
        (
          Memᴰ.tail m,
          t,
          λ x n d. elim (Mem.cases_cons n) [
            | inl k ↦ rw k (All-Mem _ ys first m)
            | inr k ↦ best x k d
          ],
        )
    | inl q ↦ elim (Bool-cases (p y)) [
      | inr t ↦ cc (rw (q, t) at h)
      | inl t ↦
          let same : y ≡ e = some_inj (rw (q, t) at h) in
          (
            Memᴰ.head (sym same),
            subst (λ x. p x ≡ true) same t,
            λ x n d. elim (Mem.cases_cons n) [
              | inl k ↦ rw (k ∙ same) (at_once e)
              | inr k ↦ absurd (true-false d (rfind-none ys q x k))
            ],
          )
    ]
  ]

order : IsOrder by_valid_from
order = record {
  total = λ a b. leb_ℤ_total (from_of a) (from_of b);
  trans = λ a b c. leb_ℤ_trans (from_of a) (from_of b) (from_of c);
}

current_of_sorted :
    (as_of : ℤ) (first : StoredEdge) (rest : List StoredEdge)
    → IsSorted by_valid_from (first ∷ rest)
    → IsValueAt as_of
        (first ∷ rest)
        (or_first (rfind (λ e. leb_ℤ e.edge.valid_from as_of) (first ∷ rest)) first)
current_of_sorted as_of first rest s =
    let past = λ (e : StoredEdge). leb_ℤ e.edge.valid_from as_of in
    elim (Option-cases (rfind past (first ∷ rest))) [
      | inr (e, q) ↦
          let (m, t, best) = rfind-some past (first ∷ rest) e s q in
          rw q (
            (
              m,
              inl (
                leb_ℤ→le (from_of e) as_of t,
                λ x n d. leb_ℤ→le (from_of x) (from_of e) (best x n (le→leb_ℤ (from_of x) as_of d)),
              ),
            ))
      | inl q ↦ rw q (
          (
            Memᴰ.head refl,
            inr (λ x n. (
              not-leb_ℤ→lt (from_of x) as_of (rfind-none past (first ∷ rest) q x n),
              elim (Mem.cases_cons n) [
                | inl k ↦ rw k (leb_ℤ→le (from_of first) (from_of first) (at_once first))
                | inr k ↦ leb_ℤ→le (from_of first) (from_of x) (All-Mem _ rest s.0 k)
              ],
            )),
          ))
    ]

sorted_current :
    (as_of : ℤ) (xs ys : List StoredEdge) (e : StoredEdge)
    → ((x : StoredEdge) → Memᴰ x xs → Memᴰ x ys)
    → ((x : StoredEdge) → Memᴰ x ys → Memᴰ x xs)
    → IsValueAt as_of xs e
    → IsValueAt as_of ys e
sorted_current as_of xs ys e f g (m, inl (t, best)) = (f e m, inl (t, λ x n d. best x (g x n) d))
sorted_current as_of xs ys e f g (m, inr h) = (f e m, inr (λ x n. h x (g x n)))

resolved_of-IsValueAt :
    (key : GroupKey) (as_of : ℤ) (members : List StoredEdge) (r : Resolved)
    → IsSorted by_valid_from members
    → Memᴰ r (resolved_of key as_of members)
    → ((r.subject, r.predicate) ≡ key)
      × ((e : StoredEdge) × (e.edge.object ≡ r.current)
          × (e.edge.valid_from ≡ r.current_from)
          × IsValueAt as_of members e)
resolved_of-IsValueAt key as_of [] r s m = absurd (Mem.not-nil m)
resolved_of-IsValueAt key as_of (first ∷ rest) r s m =
    let q = Mem.eq_of_singleton m in
    rw q (refl, (_, refl, refl, current_of_sorted as_of first rest s))

module _ (as_of : ℤ) where
  resolve_groups-Mem :
      (r : Resolved) (gs : Groups)
      → Memᴰ r (resolve_groups as_of gs)
      → (key : GroupKey) × (members : List StoredEdge) × Memᴰ (key, members) gs
        × Memᴰ r (resolved_of key as_of (sort_by by_valid_from members))
  unfolding resolve_groups
  resolve_groups-Mem r [] m = absurd (Mem.not-nil m)
  resolve_groups-Mem r ((key, members) ∷ gs) m =
      elim (Mem.append_cases (resolved_of key as_of (sort_by by_valid_from members)) m) [
        | inl k ↦ (key, members, Memᴰ.head refl, k)
        | inr k ↦ let (j, ms, n, l) = resolve_groups-Mem r gs k in (j, ms, Memᴰ.tail n, l)
      ]

  -- The value that resolve gives for a subject and a predicate is of an edge of these that holds at
  -- the time: the newest one that is not later, or the earliest one if all are later.
  pub resolve-IsValueAt :
      (edges : List StoredEdge) (r : Resolved)
      → Memᴰ r (resolve edges as_of)
      → (e : StoredEdge) × (e.edge.object ≡ r.current)
        × (e.edge.valid_from ≡ r.current_from)
        × IsValueAt as_of (edges_with (r.subject, r.predicate) edges) e
  unfolding resolve
  resolve-IsValueAt edges r m =
      let (key, members, n, l) = resolve_groups-Mem r (group_edges [] edges) m in
      let sorted = sort_by by_valid_from members in
      let (q, (e, o, t, c)) =
        resolved_of-IsValueAt key as_of sorted r (sort_by-IsSorted by_valid_from order members) l in
      let same : members ≡ edges_with (r.subject, r.predicate) edges =
        subst (λ k. members ≡ edges_with k edges) (sym q)
          (group_edges-edges_with edges key members n) in
      (
        e,
        o,
        t,
        subst (λ ms. IsValueAt as_of ms e) same
            (sorted_current as_of sorted members e (λ x k. sort_by-Mem by_valid_from members k)
              (λ x k. sort_by-Mem_intro by_valid_from members k) c),
      )

  resolved_some :
      (key : GroupKey) (members : List StoredEdge) (e : StoredEdge)
      → Memᴰ e members
      → (r : Resolved) × Memᴰ r (resolved_of key as_of members) × ((r.subject, r.predicate) ≡ key)
  resolved_some key [] e m = absurd (Mem.not-nil m)
  resolved_some key (first ∷ members) e m = (_, Memᴰ.head refl, refl)

  resolve_groups-Mem_intro :
      (gs : Groups) (key : GroupKey) (members : List StoredEdge) (e : StoredEdge)
      → Memᴰ (key, members) gs
      → Memᴰ e members
      → (r : Resolved) × Memᴰ r (resolve_groups as_of gs) × ((r.subject, r.predicate) ≡ key)
  unfolding resolve_groups
  resolve_groups-Mem_intro [] key members e m n = absurd (Mem.not-nil m)
  resolve_groups-Mem_intro ((k, ms) ∷ gs) key members e m n = elim (Mem.cases_cons m) [
    | inl q ↦
        let here : Memᴰ e ms = subst (Memᴰ e) (ap (λ x. x.1) q) n in
        let (r, i, l) =
          resolved_some k (sort_by by_valid_from ms) e (sort_by-Mem_intro by_valid_from ms here) in
        (r, Mem.append_left _ i, l ∙ sym (ap (λ x. x.0) q))
    | inr j ↦
        let (r, i, l) = resolve_groups-Mem_intro gs key members e j n in
        (r, Mem.append_right (resolved_of k as_of (sort_by by_valid_from ms)) i, l)
  ]

  -- Every edge's subject and predicate are resolved.
  pub resolve-covers :
      (edges : List StoredEdge) (e : StoredEdge)
      → Memᴰ e edges
      → (r : Resolved) × Memᴰ r (resolve edges as_of)
        × ((r.subject, r.predicate) ≡ group_key e.edge)
  unfolding resolve
  resolve-covers edges e m =
      resolve_groups-Mem_intro (group_edges [] edges) (group_key e.edge) _ e
        (group_edges-Mem edges e m)
        (Mem-filter_intro _ edges m
          ((same_group_key_iff (group_key e.edge) (group_key e.edge)).1 refl))
