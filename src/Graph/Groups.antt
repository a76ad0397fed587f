-- ===== src/Graph/Groups.antt =====
-- crates/ultramem-core/src/engine/graph.rs: the groups of resolve are the edges parted by their keys,
-- one group for a key, in the order of the keys.
use ultramem.Prelude.{
  Bool, true, false, List, [], ◌∷◌, ◌++◌, append_assoc, append-nil, filter, Mem-filter,
  Mem-filter_intro, ◌≡◌, refl, sym, ap, subst, ◌∙◌, inl, inr, Bool-cases, true-false, if◌then◌else◌,
  All, All-Mem, Memᴰ,
}
use mathlib.Core.List.Memᴰ as Mem
use ultramem.Graph.{StoredEdge}
use ultramem.Graph.Resolve.{
  GroupKey, Groups, group_key, same_group_key, lt_key, members_of, push_member, group_edges,
}
use ultramem.Graph.Order.{same_group_key_iff, lt_key_irrefl, lt_key_trans, lt_key_total}

-- The keys ascend.
abbrev pub IsAscending : Groups → Type 0
IsAscending [] = Unit
IsAscending ((k, ms) ∷ gs) = All (λ g. lt_key k g.0 ≡ true) gs × IsAscending gs

-- The edges of a key.
abbrev pub edges_with : GroupKey → List StoredEdge → List StoredEdge
edges_with key = filter (λ e. same_group_key key (group_key e.edge))

not_same : (a b : GroupKey) → lt_key a b ≡ true → same_group_key a b ≡ false
not_same a b h = elim (Bool-cases (same_group_key a b)) [
  | inl e ↦ absurd (
      true-false (subst (λ x. lt_key a x ≡ true) (sym ((same_group_key_iff a b).0 e)) h)
        (lt_key_irrefl a))
  | inr e ↦ e
]

not_same_back : (a b : GroupKey) → lt_key a b ≡ true → same_group_key b a ≡ false
not_same_back a b h = elim (Bool-cases (same_group_key b a)) [
  | inl e ↦ absurd (
      true-false (subst (λ x. lt_key a x ≡ true) ((same_group_key_iff b a).0 e) h)
        (lt_key_irrefl a))
  | inr e ↦ e
]

All-push_member :
    (P : GroupKey → Type 0) (key : GroupKey) (e : StoredEdge) (gs : Groups)
    → P key
    → All (λ g. P g.0) gs
    → All (λ g. P g.0) (push_member key e gs)
unfolding push_member
All-push_member P key e [] p h = (p, tt)
All-push_member P key e ((k, ms) ∷ gs) p (q, h) = elim (Bool-cases (same_group_key key k)) [
  | inl s ↦ rw s (q, h)
  | inr s ↦ elim (Bool-cases (lt_key key k)) [
    | inl l ↦ rw (s, l) (p, (q, h))
    | inr l ↦ rw (s, l) (q, All-push_member P key e gs p h)
  ]
]

All-above :
    (key k : GroupKey) (gs : Groups)
    → lt_key key k ≡ true
    → All (λ g. lt_key k g.0 ≡ true) gs
    → All (λ g. lt_key key g.0 ≡ true) gs
All-above key k [] l h = tt
All-above key k ((j, ms) ∷ gs) l (q, h) = (lt_key_trans key k j l q, All-above key k gs l h)

push_member-IsAscending :
    (key : GroupKey) (e : StoredEdge) (gs : Groups)
    → IsAscending gs
    → IsAscending (push_member key e gs)
unfolding push_member
push_member-IsAscending key e [] h = (tt, tt)
push_member-IsAscending key e ((k, ms) ∷ gs) (q, h) = elim (Bool-cases (same_group_key key k)) [
  | inl s ↦ rw s (q, h)
  | inr s ↦ elim (Bool-cases (lt_key key k)) [
    | inl l ↦ rw (s, l) ((l, All-above key k gs l q), (q, h))
    | inr l ↦
        rw (s, l)
          (
            All-push_member (λ j. lt_key k j ≡ true) key e gs (lt_key_total key k l s) q,
            push_member-IsAscending key e gs h,
          )
  ]
]

members_of_above :
    (key : GroupKey) (gs : Groups) → All (λ g. lt_key key g.0 ≡ true) gs → members_of key gs ≡ []
unfolding members_of
members_of_above key [] h = refl
members_of_above key ((k, ms) ∷ gs) (q, h) = rw (not_same key k q) (members_of_above key gs h)

members_of-push_member :
    (j key : GroupKey) (e : StoredEdge) (gs : Groups)
    → IsAscending gs
    → members_of j (push_member key e gs)
      ≡ members_of j gs ++ (if same_group_key j key then e ∷ [] else [])
unfolding members_of push_member
members_of-push_member j key e [] h = refl
members_of-push_member j key e ((k, ms) ∷ gs) (q, h) = elim (Bool-cases (same_group_key key k)) [
  | inl s ↦ rw s (
      rw ((same_group_key_iff key k).0 s)
        (elim (Bool-cases (same_group_key j k)) [ inl f ↦ rw f | inr f ↦ rw (f, append-nil) ]))
  | inr s ↦ elim (Bool-cases (lt_key key k)) [
    | inl l ↦
        rw (s, l)
          (elim (Bool-cases (same_group_key j key)) [
            | inl f ↦
                let here : j ≡ key = (same_group_key_iff j key).0 f in
                let other : same_group_key j k ≡ false = rw here s in
                let later : members_of j gs ≡ [] =
                  rw here (members_of_above key gs (All-above key k gs l q)) in
                rw (f, other, later)
            | inr f ↦ rw (f, append-nil)
          ])
    | inr l ↦
        rw (s, l)
          (elim (Bool-cases (same_group_key j k)) [
            | inl f ↦
                let here : j ≡ k = (same_group_key_iff j k).0 f in
                rw (f, apart j here s, append-nil)
            | inr f ↦ rw f (members_of-push_member j key e gs h)
          ])
  ]
]
  where
    apart : (j : GroupKey) → j ≡ k → same_group_key key k ≡ false → same_group_key j key ≡ false
    apart j here s = elim (Bool-cases (same_group_key j key)) [
      | inr f ↦ f
      | inl f ↦ absurd (
          true-false ((same_group_key_iff key k).1 (sym ((same_group_key_iff j key).0 f) ∙ here)) s)
    ]

group_edges-IsAscending :
    (gs : Groups) (edges : List StoredEdge) → IsAscending gs → IsAscending (group_edges gs edges)
unfolding group_edges
group_edges-IsAscending gs [] h = h
group_edges-IsAscending gs (e ∷ edges) h =
    group_edges-IsAscending (push_member (group_key e.edge) e gs) edges
      (push_member-IsAscending (group_key e.edge) e gs h)

members_of-group_edges :
    (key : GroupKey) (gs : Groups) (edges : List StoredEdge)
    → IsAscending gs
    → members_of key (group_edges gs edges) ≡ members_of key gs ++ edges_with key edges
unfolding group_edges
members_of-group_edges key gs [] h = sym (append-nil (members_of key gs))
members_of-group_edges key gs (e ∷ edges) h =
    let gs' = push_member (group_key e.edge) e gs in
    members_of-group_edges key gs' edges (push_member-IsAscending (group_key e.edge) e gs h)
    ∙ (ap (λ x. x ++ edges_with key edges) (members_of-push_member key (group_key e.edge) e gs h)
        ∙ (append_assoc (members_of key gs) _ (edges_with key edges)
            ∙ ap (◌++◌ (members_of key gs)) (first (same_group_key key (group_key e.edge)))))
  where
    first :
        (b : Bool)
        → (if b then e ∷ [] else []) ++ edges_with key edges
          ≡ (if b then e ∷ edges_with key edges else edges_with key edges)
    first true = refl
    first false = refl

Mem-members_of :
    (key : GroupKey) (ms : List StoredEdge) (gs : Groups)
    → IsAscending gs
    → Memᴰ (key, ms) gs
    → members_of key gs ≡ ms
unfolding members_of
Mem-members_of key ms [] h m = absurd (Mem.not-nil m)
Mem-members_of key ms ((k, ns) ∷ gs) (q, h) m = elim (Mem.cases_cons m) [
  | inl e ↦ rw ((same_group_key_iff key k).1 (ap (λ x. x.0) e)) (sym (ap (λ x. x.1) e))
  | inr n ↦
      let later : lt_key k key ≡ true = All-Mem _ gs q n in
      rw (not_same_back k key later) (Mem-members_of key ms gs h n)
]

Mem-members_of_intro :
    (key : GroupKey) (e : StoredEdge) (gs : Groups)
    → Memᴰ e (members_of key gs)
    → Memᴰ (key, members_of key gs) gs
unfolding members_of
Mem-members_of_intro key e [] m = absurd (Mem.not-nil m)
Mem-members_of_intro key e ((k, ms) ∷ gs) m = elim (Bool-cases (same_group_key key k)) [
  | inl f ↦ rw f (Memᴰ.head (ap (λ x. (x, ms)) ((same_group_key_iff key k).0 f)))
  | inr f ↦ rw f (Memᴰ.tail (Mem-members_of_intro key e gs (rw f at m)))
]

-- The members of a group are the edges of its key.
pub group_edges-edges_with :
    (edges : List StoredEdge) (key : GroupKey) (members : List StoredEdge)
    → Memᴰ (key, members) (group_edges [] edges)
    → members ≡ edges_with key edges
unfolding members_of
group_edges-edges_with edges key members m =
    sym (Mem-members_of key members (group_edges [] edges) (group_edges-IsAscending [] edges tt) m)
    ∙ members_of-group_edges key [] edges tt

-- An edge has its group.
pub group_edges-Mem :
    (edges : List StoredEdge) (e : StoredEdge)
    → Memᴰ e edges
    → Memᴰ (group_key e.edge, edges_with (group_key e.edge) edges) (group_edges [] edges)
unfolding members_of
group_edges-Mem edges e m =
    let key = group_key e.edge in
    let same = members_of-group_edges key [] edges tt in
    subst (λ x. Memᴰ (key, x) (group_edges [] edges)) same
      (Mem-members_of_intro key e (group_edges [] edges)
        (rw same (Mem-filter_intro _ edges m ((same_group_key_iff key key).1 refl))))

-- One group for a key, in the order of the keys.
pub groups-IsAscending : (edges : List StoredEdge) → IsAscending (group_edges [] edges)
groups-IsAscending edges = group_edges-IsAscending [] edges tt

-- The members of a key are stored edges with that key.
pub members_of-Mem :
    (edges : List StoredEdge) (key : GroupKey) (e : StoredEdge)
    → Memᴰ e (members_of key (group_edges [] edges))
    → Memᴰ e edges × (key ≡ group_key e.edge)
unfolding members_of
members_of-Mem edges key e m =
    let (k, h) =
      Mem-filter (λ x. same_group_key key (group_key x.edge)) edges
        (rw (members_of-group_edges key [] edges tt) at m) in
    (k, (same_group_key_iff key (group_key e.edge)).0 h)

-- The stored edges with a key are the members of it.
pub members_of-Mem_intro :
    (edges : List StoredEdge) (key : GroupKey) (e : StoredEdge)
    → Memᴰ e edges
    → key ≡ group_key e.edge
    → Memᴰ e (members_of key (group_edges [] edges))
unfolding members_of
members_of-Mem_intro edges key e m h = rw (members_of-group_edges key [] edges tt) (
    Mem-filter_intro (λ x. same_group_key key (group_key x.edge)) edges m
      ((same_group_key_iff key (group_key e.edge)).1 h))
