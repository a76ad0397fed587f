-- ===== src/Engine/Results/Distinct.antt =====
-- The results of group_chunk_hits: no document twice, and no more than the limit.
use ultramem.Prelude.{
  ℕ, zero, suc, ◌≤◌, Text, same, same_iff, Distinct, Distinct-concat, true, false, List, [], ◌∷◌,
  map, length, length-take, is_empty, take, Mem-take, none, some, is_some, unwrap_or, Bool-cases,
  Option-cases, ◌≡◌, ◌≢◌, refl, sym, ap, ◌∙◌, subst, inl, inr, arith, Memᴰ, if◌then◌else◌,
  true-false,
}
use mathlib.Core.List.Memᴰ as Mem
use ultramem.Prelude.Table.{lookup, lookup-insert}
use ultramem.Engine.Indexing.{Hit}
use ultramem.Engine.Results.{
  SearchResult, Grouping, ungrouped, remove, is_repeated, reference_of, doc_id_of, push_chunk,
  result_of, add_to_result, group_hit, group_hits, take_results, group_chunk_hits,
}

none≢some {ℓ} : {A : Type ℓ} {a : A} → none ≢ some a
none≢some h = cc

lookup-remove {ℓ} :
    {A : Type ℓ} (k j : Text) (m : List (Text × A))
    → lookup j (remove k m) ≡ (if same k j then none else lookup j m)
unfolding lookup remove
lookup-remove k j [] = ground arith
lookup-remove k j ((i, w) ∷ m) =
    ground (arith, same_iff k j, same_iff i k, same_iff i j, lookup-remove k j m)

remove-lookup {ℓ} :
    {A : Type ℓ} (k j : Text) (m : List (Text × A)) {r : A}
    → lookup j (remove k m) ≡ some r
    → lookup j m ≡ some r
remove-lookup k j m h = elim (Bool-cases (same k j)) [
  | inl e ↦ absurd (none≢some (rw (lookup-remove k j m, e) at h))
  | inr e ↦ rw (lookup-remove k j m, e) at h
]

Distinct-take : (n : ℕ) (xs : List Text) → Distinct xs → Distinct (take n xs)
Distinct-take zero xs d = tt
Distinct-take (suc n) [] d = tt
Distinct-take (suc n) (x ∷ xs) (fresh, d) = (λ m. fresh (Mem-take n xs m), Distinct-take n xs d)

module _ {S : Type 0} where
  abbrev pub document_ids : List (SearchResult S) → List Text
  document_ids = map (λ r. r.document_id)

  -- A result is that of its key.
  abbrev IsNamed : List (Text × SearchResult S) → Type 0
  IsNamed results =
      (id : Text) (r : SearchResult S) → lookup id results ≡ some r → r.document_id ≡ id

  take_results-Mem :
      (ids : List Text) (results : List (Text × SearchResult S))
      → IsNamed results
      → (id : Text) → Memᴰ id (document_ids (take_results ids results))
      → Memᴰ id ids
  unfolding take_results
  take_results-Mem [] results h id m = m
  take_results-Mem (i ∷ ids) results h id m = elim (Option-cases (lookup i results)) [
    | inl e ↦ Memᴰ.tail (take_results-Mem ids results h id (rw (take_results, e) at m))
    | inr (r, e) ↦ elim (Mem.cases_cons (rw (take_results, e) at m)) [
      | inl q ↦ Memᴰ.head (q ∙ h i r e)
      | inr k ↦ Memᴰ.tail (
          take_results-Mem ids (remove i results) (λ j s f. h j s (remove-lookup i j results f)) id
            k)
    ]
  ]

  take_results-Distinct :
      (ids : List Text) (results : List (Text × SearchResult S))
      → IsNamed results
      → Distinct ids
      → Distinct (document_ids (take_results ids results))
  unfolding take_results
  take_results-Distinct [] results h d = tt
  take_results-Distinct (i ∷ ids) results h (fresh, d) = elim (Option-cases (lookup i results)) [
    | inl e ↦ rw (take_results, e) (take_results-Distinct ids results h d)
    | inr (r, e) ↦
        let named : IsNamed (remove i results) = λ j s f. h j s (remove-lookup i j results f) in
        rw (take_results, e)
          ((
            (λ m. fresh (
                subst (λ x. Memᴰ x ids) (h i r e)
                  (take_results-Mem ids (remove i results) named r.document_id m))),
            take_results-Distinct ids (remove i results) named d,
          ))
  ]

  take_results-le :
      (ids : List Text) (results : List (Text × SearchResult S))
      → length (take_results ids results) ≤ length ids
  unfolding take_results
  take_results-le [] results = omega arith
  take_results-le (i ∷ ids) results = elim (Option-cases (lookup i results)) [
    | inl e ↦ rw (take_results, e) (omega (arith, take_results-le ids results))
    | inr (r, e) ↦ rw (take_results, e) (omega (arith, take_results-le ids (remove i results)))
  ]

  -- The order has every document once, and each has its own result.
  record IsGrouped (g : Grouping S) : Type 0 where
    once : Distinct g.order
    held : (id : Text) → Memᴰ id g.order → is_some (lookup id g.results) ≡ true
    named : IsNamed g.results

  -- A name found for a hit is its own or that of a new result.
  named_result :
      (id : Text) (hit : Hit S) (results : List (Text × SearchResult S))
      → IsNamed results
      → (unwrap_or (lookup id results) (result_of id hit.payload)).document_id ≡ id
  named_result id hit results h = elim (Option-cases (lookup id results)) [
    | inl e ↦ rw e
    | inr (r, e) ↦ rw e (h id r e)
  ]

  add_to_result-IsGrouped :
      (id : Text) (hit : Hit S) (g : Grouping S) → IsGrouped g → IsGrouped (add_to_result id hit g)
  add_to_result-IsGrouped id hit g h = record {
    once = elim (Bool-cases (is_some (lookup id g.results))) [
      | inl e ↦ rw e h.once
      | inr e ↦ rw e (Distinct-concat g.order id h.once (λ m. true-false (h.held id m) e))
    ];
    held = λ j m. elim (Bool-cases (same id j)) [
      | inl s ↦ rw (lookup-insert id j added g.results, s) refl
      | inr s ↦ rw (lookup-insert id j added g.results, s) (h.held j (older j s m))
    ];
    named = λ j r e. elim (Bool-cases (same id j)) [
      | inl s ↦
          sym (
            ap (λ o. (unwrap_or o added).document_id)
              (rw (lookup-insert id j added g.results, s) at e))
          ∙ named_result id hit g.results h.named
          ∙ (same_iff id j).0 s
      | inr s ↦ h.named j r (rw (lookup-insert id j added g.results, s) at e)
    ];
  }
    where
      added : SearchResult S
      added = push_chunk hit (unwrap_or (lookup id g.results) (result_of id hit.payload))

      older :
          (j : Text) → same id j ≡ false → Memᴰ j (add_to_result id hit g).order → Memᴰ j g.order
      older j s m = elim (Bool-cases (is_some (lookup id g.results))) [
        | inl e ↦ rw e at m
        | inr e ↦ elim (Mem.append_cases g.order (rw e at m)) [
          | inl k ↦ k
          | inr k ↦ absurd (true-false ((same_iff id j).1 (sym (Mem.eq_of_singleton k))) s)
        ]
      ]

  group_hit-IsGrouped : (hit : Hit S) (g : Grouping S) → IsGrouped g → IsGrouped (group_hit hit g)
  unfolding group_hit
  group_hit-IsGrouped hit g h =
      let id = doc_id_of hit.payload in
      elim (Bool-cases (is_empty id)) [
        | inl e ↦ rw e h
        | inr e ↦
            elim (Bool-cases (
              is_repeated (reference_of hit.payload) (is_some (lookup id g.results)) g.seen_refs)) [
                | inl f ↦ rw (e, f) h
                | inr f ↦ rw (e, f) (add_to_result-IsGrouped id hit g h)
              ]
      ]

  group_hits-IsGrouped :
      (hits : List (Hit S)) (g : Grouping S) → IsGrouped g → IsGrouped (group_hits hits g)
  unfolding group_hits
  group_hits-IsGrouped [] g h = h
  group_hits-IsGrouped (hit ∷ hits) g h =
      group_hits-IsGrouped hits (group_hit hit g) (group_hit-IsGrouped hit g h)

  -- The results have no document twice, and they are no more than the limit.
  pub group_chunk_hits-Distinct :
      (hits : List (Hit S)) (limit : ℕ)
      → Distinct (document_ids (group_chunk_hits hits limit))
        × (length (group_chunk_hits hits limit) ≤ limit)
  unfolding group_chunk_hits lookup
  group_chunk_hits-Distinct hits limit =
      let g = group_hits hits ungrouped in
      let h = group_hits-IsGrouped hits ungrouped (record {
        once = tt;
        held = λ id m. absurd (Mem.not-nil m);
        named = λ id r e. absurd (none≢some e);
      }) in
      (
        take_results-Distinct (take limit g.order) g.results h.named
            (Distinct-take limit g.order h.once),
        omega (arith, take_results-le (take limit g.order) g.results, length-take limit g.order),
      )
