-- ===== src/Graph/Order.antt =====
-- crates/ultramem-core/src/engine/graph.rs: the order of the keys in the `BTreeMap` of resolve.
use ultramem.Prelude.{
  Text, same, same_iff, same_refl, true, false, &&_split, [], ◌∷◌, ◌≡◌, refl, arith, ap₂, ◌↔◌,
}
use ultramem.Graph.Resolve.{GroupKey, lt_text, lt_key, same_group_key}

lt_text_trans : (a b c : Text) → lt_text a b ≡ true → lt_text b c ≡ true → lt_text a c ≡ true
unfolding lt_text
lt_text_trans [] [] c h k = cc
lt_text_trans [] (y ∷ b) [] h k = cc
lt_text_trans [] (y ∷ b) (z ∷ c) h k = refl
lt_text_trans (x ∷ a) [] c h k = cc
lt_text_trans (x ∷ a) (y ∷ b) [] h k = cc
lt_text_trans (x ∷ a) (y ∷ b) (z ∷ c) h k = ground (arith, lt_text_trans a b c)

lt_text_irrefl : (a : Text) → lt_text a a ≡ false
unfolding lt_text
lt_text_irrefl [] = refl
lt_text_irrefl (x ∷ a) = ground (arith, lt_text_irrefl a)

lt_text_total : (a b : Text) → lt_text a b ≡ false → same a b ≡ false → lt_text b a ≡ true
unfolding lt_text same
lt_text_total [] [] h k = cc
lt_text_total [] (y ∷ b) h k = cc
lt_text_total (x ∷ a) [] h k = refl
lt_text_total (x ∷ a) (y ∷ b) h k = ground (arith, lt_text_total a b)

pub same_group_key_iff : (a b : GroupKey) → (same_group_key a b ≡ true) ↔ (a ≡ b)
unfolding same_group_key
same_group_key_iff a b = (
  λ h.
      let (p, q) = &&_split (same a.0 b.0) (same a.1 b.1) h in
      ap₂ (λ x y. (x, y)) ((same_iff a.0 b.0).0 p) ((same_iff a.1 b.1).0 q),
  λ e. rw e (rw (same_refl, same_refl)),
)

pub lt_key_irrefl : (a : GroupKey) → lt_key a a ≡ false
unfolding lt_key
lt_key_irrefl a = rw (lt_text_irrefl, lt_text_irrefl) (rw same_refl)

pub lt_key_trans : (a b c : GroupKey) → lt_key a b ≡ true → lt_key b c ≡ true → lt_key a c ≡ true
unfolding lt_key
lt_key_trans a b c h k = ground (
  arith,
  same_iff a.0 b.0,
  same_iff b.0 c.0,
  same_iff a.0 c.0,
  lt_text_trans a.0 b.0 c.0,
  lt_text_trans a.1 b.1 c.1,
)

pub lt_key_total :
    (a b : GroupKey) → lt_key a b ≡ false → same_group_key a b ≡ false → lt_key b a ≡ true
unfolding lt_key same_group_key
lt_key_total a b h k =
    ground (arith, same_iff a.0 b.0, same_iff b.0 a.0, lt_text_total a.0 b.0, lt_text_total a.1 b.1)
