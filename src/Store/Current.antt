-- ===== src/Store/Current.antt =====
-- crates/ultramem-core/src/engine/mod.rs: which facts a search takes for current.
use ultramem.Prelude.{
  ℤ, ◌≤ℤ◌, codes, Bool, true, false, not, ◌&&◌, ◌||◌, all, any, any-append, is_empty, Option, none,
  some, some_inj, ◌≡◌, ◌≢◌, refl, sym, subst, ◌∙◌, ◌↔◌, true-false, not-true, arith,
}
use ultramem.Prelude.Table.{lookup}
use ultramem.Store.Point.{
  Value, null, bool, int, str, Payload, same_value, Filter, holds_value, in_bounds, as_i64,
  cond_matches, filter_matches,
}
use ultramem.Store.Filters.{below, or_empty, active_facts_filter}
use ultramem.Store.Isolation.{filter_matches-eq}

-- A fact is current: not superseded, not expired, not held for review. A field that is missing
-- excludes nothing.
pub record IsCurrent (payload : Payload) (now : ℤ) : Type 0 where
  pub latest : lookup (codes "is_latest") payload ≢ some (bool false)
  pub valid : (n : ℤ) → lookup (codes "valid_until") payload ≡ some (int n) → now ≤ℤ n
  pub reviewed : lookup (codes "needs_review") payload ≢ some (bool true)

held_false : (o : Option Value) → (holds_value o (bool false) ≡ true) ↔ (o ≡ some (bool false))
unfolding same_value
held_false none = (λ h. cc, λ e. cc)
held_false (some null) = (λ h. cc, λ e. cc)
held_false (some (bool true)) = (λ h. cc, λ e. cc)
held_false (some (bool false)) = (λ h. refl, λ e. refl)
held_false (some (int n)) = (λ h. cc, λ e. cc)
held_false (some (str t)) = (λ h. cc, λ e. cc)

held_true : (o : Option Value) → (holds_value o (bool true) ≡ true) ↔ (o ≡ some (bool true))
unfolding same_value
held_true none = (λ h. cc, λ e. cc)
held_true (some null) = (λ h. cc, λ e. cc)
held_true (some (bool true)) = (λ h. refl, λ e. refl)
held_true (some (bool false)) = (λ h. cc, λ e. cc)
held_true (some (int n)) = (λ h. cc, λ e. cc)
held_true (some (str t)) = (λ h. cc, λ e. cc)

int_inj : {m n : ℤ} → int m ≡ int n → m ≡ n
int_inj h = cc

expired_iff :
    (o : Option Value) (now : ℤ)
    → (in_bounds (below now) (as_i64 o) ≡ false) ↔ ((n : ℤ) → o ≡ some (int n) → now ≤ℤ n)
expired_iff none now = (λ h n e. cc, λ h. refl)
expired_iff (some null) now = (λ h n e. cc, λ h. refl)
expired_iff (some (bool b)) now = (λ h n e. cc, λ h. refl)
expired_iff (some (str t)) now = (λ h n e. cc, λ h. refl)
expired_iff (some (int m)) now = (
  λ h n e. subst (λ x. now ≤ℤ x) (int_inj (some_inj e)) (ground (arith, h)),
  λ h. ground (arith, h m refl),
)

exclude :
    (m n s x y z : Bool)
    → (m && not (n || (x || (y || (z || false)))) && s)
      ≡ (m && not n && s && not x && not y && not z)
exclude m n s x y z = ground arith

active_facts_filter-eq :
    (payload : Payload) (base : Option Filter) (now : ℤ)
    → filter_matches payload (active_facts_filter base now) ≡ (
        filter_matches payload (or_empty base)
        && not (holds_value (lookup (codes "is_latest") payload) (bool false))
        && not (in_bounds (below now) (as_i64 (lookup (codes "valid_until") payload)))
        && not (holds_value (lookup (codes "needs_review") payload) (bool true)))
unfolding active_facts_filter cond_matches
active_facts_filter-eq payload base now =
    simp (filter_matches-eq, any-append)
      (exclude (all (cond_matches payload) (or_empty base).must)
        (any (cond_matches payload) (or_empty base).must_not)
        (is_empty (or_empty base).should || any (cond_matches payload) (or_empty base).should)
        (holds_value (lookup (codes "is_latest") payload) (bool false))
        (in_bounds (below now) (as_i64 (lookup (codes "valid_until") payload)))
        (holds_value (lookup (codes "needs_review") payload) (bool true)))

and_nots :
    (b x y z : Bool)
    → (b && not x && not y && not z) ≡ true
    → (b ≡ true) × ((x ≡ false) × (y ≡ false) × (z ≡ false))
and_nots b x y z h = ground arith

and_nots_intro :
    (b x y z : Bool)
    → b ≡ true
    → x ≡ false
    → y ≡ false
    → z ≡ false
    → (b && not x && not y && not z) ≡ true
and_nots_intro b x y z h i j k = ground arith

-- A search for facts lets a payload through exactly if the filter that it extends does and the fact
-- is current: not superseded, not expired, not held for review.
pub active_facts_iff :
    (payload : Payload) (base : Option Filter) (now : ℤ)
    → (filter_matches payload (active_facts_filter base now) ≡ true)
      ↔ ((filter_matches payload (or_empty base) ≡ true) × IsCurrent payload now)
active_facts_iff payload base now = (sound, complete)
  where
    stale : Bool
    stale = holds_value (lookup (codes "is_latest") payload) (bool false)

    expired : Bool
    expired = in_bounds (below now) (as_i64 (lookup (codes "valid_until") payload))

    held : Bool
    held = holds_value (lookup (codes "needs_review") payload) (bool true)

    sound :
        filter_matches payload (active_facts_filter base now) ≡ true
        → (filter_matches payload (or_empty base) ≡ true) × IsCurrent payload now
    sound h =
        let all_of = sym (active_facts_filter-eq payload base now) ∙ h in
        let (b, parts) =
          and_nots (filter_matches payload (or_empty base)) stale expired held all_of in
        (
          b,
          record {
            latest = λ e. true-false ((held_false _).1 e) parts.0;
            valid = (expired_iff _ now).0 parts.1;
            reviewed = λ e. true-false ((held_true _).1 e) parts.2;
          },
        )

    complete :
        (filter_matches payload (or_empty base) ≡ true) × IsCurrent payload now
        → filter_matches payload (active_facts_filter base now) ≡ true
    complete (b, c) =
        active_facts_filter-eq payload base now
        ∙ and_nots_intro (filter_matches payload (or_empty base)) stale expired held b
            (not-true stale (λ e. c.latest ((held_false _).0 e))) ((expired_iff _ now).1 c.valid)
            (not-true held (λ e. c.reviewed ((held_true _).0 e)))
