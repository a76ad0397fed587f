-- ===== src/Engine/Listing/Once.antt =====
-- The registry of documents that the scroll of the chunks gives.
use ultramem.Prelude.{
  ℤ, Text, codes, contains, not-contains, Distinct, List, [], ◌∷◌, map, Option, refl, subst, Memᴰ,
  Bool-cases, Option-cases, inl, inr,
}
use ultramem.Prelude.Mem
use ultramem.Prelude.Table.{lookup}
use ultramem.Store.Point.{Point, as_str}
use ultramem.Engine.Listing.{Listed, too_late, time_of, registry}

abbrev doc_ids : List Listed → List Text
doc_ids = map (λ (l : Listed). l.doc_id)

module _ {V : Type 0} (before : Option ℤ) where
  OnceAfter : List Text → List (Point V) → Type 0
  OnceAfter seen points =
      ((id : Text) → Memᴰ id (doc_ids (registry before seen points)) → ¬ Memᴰ id seen)
      × Distinct (doc_ids (registry before seen points))

  registry-OnceAfter : (seen : List Text) (points : List (Point V)) → OnceAfter seen points
  unfolding registry OnceAfter
  registry-OnceAfter seen [] = (λ id m. absurd (Mem.not-nil m), tt)
  registry-OnceAfter seen (p ∷ points) =
      elim (Option-cases (as_str (lookup (codes "doc_id") p.payload))) [
        | inl e ↦ rw (registry, e) (registry-OnceAfter seen points)
        | inr (d, e) ↦ elim (Bool-cases (contains seen d)) [
          | inl s ↦ rw (registry, e, s) (registry-OnceAfter seen points)
          | inr s ↦
              let (fresh, once) = registry-OnceAfter (d ∷ seen) points in
              elim (Bool-cases (too_late before (time_of p.payload))) [
                | inl t ↦ rw (registry, e, s, t) ((λ id m k. fresh id m (Memᴰ.tail k), once))
                | inr t ↦
                    rw (registry, e, s, t)
                      ((
                        (λ id m. elim (Mem.cases_cons m) [
                          | inl q ↦ λ k. not-contains seen d s (subst (λ x. Memᴰ x seen) q k)
                          | inr j ↦ λ k. fresh id j (Memᴰ.tail k)
                        ]),
                        ((λ m. fresh d m (Memᴰ.head refl)), once),
                      ))
              ]
        ]
      ]

  -- No document is listed twice.
  pub registry-Distinct :
      (points : List (Point V))
      → Distinct (map (λ (l : Listed). l.doc_id) (registry before [] points))
  unfolding OnceAfter
  registry-Distinct points = (registry-OnceAfter [] points).1
