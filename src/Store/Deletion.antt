-- ===== src/Store/Deletion.antt =====
-- crates/ultramem-core/src/engine/mod.rs: what the deletion of a document within a namespace removes,
-- and what it leaves.
use ultramem.Prelude.{
  Text, codes, not, true, false, List, [], ◌∷◌, some, ◌≡◌, sym, ◌∙◌, ◌↔◌, Memᴰ, Mem-filter,
  Mem-filter_intro, &&_split, &&_intro, not-true, true-false, arith, Bool, refl,
}
use ultramem.Prelude.Table.{lookup}
use ultramem.Store.Point.{str, Payload, Point, Filter, match_value, filter_matches, cond_matches}
use ultramem.Store.Filters.{empty_filter, doc_delete_filter}
use ultramem.Store.Points.{delete_by_filter}
use ultramem.Store.Isolation.{InTag, tag_test_iff, tagged_filter-eq, holds_str, holds_str_intro}

-- A payload of the document within the namespace.
abbrev pub IsOfDoc : Text → Text → Payload → Type 0
IsOfDoc doc_id tag payload =
    (lookup (codes "doc_id") payload ≡ some (str doc_id)) × InTag payload tag

abbrev doc_filter : Text → Filter
doc_filter doc_id = record empty_filter { must = match_value (codes "doc_id") (str doc_id) ∷ [] }

doc_filter_iff :
    (payload : Payload) (doc_id : Text)
    → (filter_matches payload (doc_filter doc_id) ≡ true)
      ↔ (lookup (codes "doc_id") payload ≡ some (str doc_id))
unfolding cond_matches filter_matches
doc_filter_iff payload doc_id = (
  λ h. holds_str (lookup (codes "doc_id") payload) doc_id (ground (arith, h)),
  λ e. ground (arith, holds_str_intro (lookup (codes "doc_id") payload) doc_id e),
)

pub doc_delete_filter_iff :
    (payload : Payload) (doc_id tag : Text)
    → (filter_matches payload (doc_delete_filter doc_id tag) ≡ true) ↔ IsOfDoc doc_id tag payload
unfolding doc_delete_filter
doc_delete_filter_iff payload doc_id tag = (
  λ h.
      let (d, t) =
        &&_split _ _ (sym (tagged_filter-eq payload (some (doc_filter doc_id)) tag refl) ∙ h) in
      ((doc_filter_iff payload doc_id).0 d, (tag_test_iff payload tag).0 t),
  λ r.
      tagged_filter-eq payload (some (doc_filter doc_id)) tag refl
      ∙ &&_intro _ _ ((doc_filter_iff payload doc_id).1 r.0) ((tag_test_iff payload tag).1 r.1),
)

not_cases : (b : Bool) → not b ≡ true → b ≡ false
not_cases b h = ground arith

-- The deletion keeps exactly the points that are not of the document within the namespace: all of
-- the document's go, and no point of another document or another namespace.
pub delete_by_filter-Mem :
    {V : Type 0} (doc_id tag : Text) (pts : List (Point V)) (p : Point V)
    → Memᴰ p (delete_by_filter (doc_delete_filter doc_id tag) pts)
      ↔ (Memᴰ p pts × ¬ IsOfDoc doc_id tag p.payload)
unfolding delete_by_filter
delete_by_filter-Mem doc_id tag pts p = (sound, complete)
  where
    sound :
        Memᴰ p (delete_by_filter (doc_delete_filter doc_id tag) pts)
        → Memᴰ p pts × ¬ IsOfDoc doc_id tag p.payload
    sound m =
        let (k, t) = Mem-filter _ pts m in
        (
          k,
          λ r.
              true-false ((doc_delete_filter_iff p.payload doc_id tag).1 r)
                (not_cases (filter_matches p.payload (doc_delete_filter doc_id tag)) t),
        )

    complete :
        Memᴰ p pts × ¬ IsOfDoc doc_id tag p.payload
        → Memᴰ p (delete_by_filter (doc_delete_filter doc_id tag) pts)
    complete (k, n) = Mem-filter_intro _ pts k (
        rw (
          not-true (filter_matches p.payload (doc_delete_filter doc_id tag))
            (λ h. n ((doc_delete_filter_iff p.payload doc_id tag).0 h))))
