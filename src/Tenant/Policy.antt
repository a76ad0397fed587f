-- ===== src/Tenant/Policy.antt =====
-- crates/ultramem-server/src/tenant.rs: what a policy resolves a requested tag to.
use ultramem.Prelude.{
  ◌<◌, Text, contains, contains-Mem, not-contains, Unicode, length, Bool-cases, [], ◌∷◌, Option,
  none, some, some_inj, ◌≡◌, ◌≢◌, refl, ◌↔◌, inl, inr, Memᴰ, arith,
}
use ultramem.Tenant.{
  TagPolicy, any_tag, only, ok, tag_denied, panic, asked_tag, resolve_asked, resolve_tag,
}

-- An `only` policy lists a tag.
abbrev pub IsWellFormed : TagPolicy → Type 0
IsWellFormed any_tag = Unit
IsWellFormed (only tags) = 0 < length tags

-- The tags that a policy is meant to allow.
abbrev pub Permits : TagPolicy → Text → Type 0
Permits any_tag t = Unit
Permits (only tags) t = Memᴰ t tags

resolve_asked-Permits :
    (p : TagPolicy) (asked : Option Text) (t : Text)
    → IsWellFormed p
    → resolve_asked p asked ≡ ok t
    → Permits p t
resolve_asked-Permits any_tag asked t w h = tt
resolve_asked-Permits (only []) none t w h = absurd (omega arith)
resolve_asked-Permits (only (x ∷ tags)) none t w h = Memᴰ.head (ground arith)
resolve_asked-Permits (only tags) (some s) t w h = elim (Bool-cases (contains tags s)) [
  | inl e ↦ rw (ok_same s t (rw e at h)) at (contains-Mem tags s e)
  | inr e ↦ cc (rw e at h)
]
  where
    ok_same : (a b : Text) → ok a ≡ ok b → a ≡ b
    ok_same a b q = cc

resolve_asked-panic :
    (p : TagPolicy) (asked : Option Text) → IsWellFormed p → resolve_asked p asked ≢ panic
resolve_asked-panic any_tag none w h = cc
resolve_asked-panic any_tag (some s) w h = cc
resolve_asked-panic (only []) none w h = absurd (omega arith)
resolve_asked-panic (only (x ∷ tags)) none w h = cc
resolve_asked-panic (only tags) (some s) w h = ground (arith, h)

-- Under a well-formed policy the tag that a request acts under is one that the policy permits, and
-- resolving never panics.
pub resolve_tag-Permits :
    (u : Unicode) (p : TagPolicy) (requested : Option Text)
    → IsWellFormed p
    → ((t : Text) → resolve_tag u p requested ≡ ok t → Permits p t)
      × (resolve_tag u p requested ≢ panic)
unfolding resolve_tag
resolve_tag-Permits u p requested w = (
  λ t h. resolve_asked-Permits p (asked_tag u requested) t w h,
  resolve_asked-panic p (asked_tag u requested) w,
)

resolve_asked-denied :
    (p : TagPolicy) (asked : Option Text)
    → (resolve_asked p asked ≡ tag_denied) ↔ ((s : Text) × (asked ≡ some s) × ¬ Permits p s)
resolve_asked-denied any_tag none = (λ h. cc, λ r. cc (r.1))
resolve_asked-denied any_tag (some s) = (λ h. cc, λ r. absurd (r.2 tt))
resolve_asked-denied (only []) none = (λ h. cc, λ r. cc (r.1))
resolve_asked-denied (only (x ∷ tags)) none = (λ h. cc, λ r. cc (r.1))
resolve_asked-denied (only tags) (some s) = elim (Bool-cases (contains tags s)) [
  | inl e ↦ (λ h. cc (rw e at h), λ r. absurd (r.2 (rw (some_inj r.1) at (contains-Mem tags s e))))
  | inr e ↦ (λ h. (s, refl, not-contains tags s e), λ r. rw e)
]

-- A request is denied exactly if it asks, by a tag that is not blank, for one that the policy does
-- not permit.
pub resolve_tag-denied_iff :
    (u : Unicode) (p : TagPolicy) (requested : Option Text)
    → (resolve_tag u p requested ≡ tag_denied)
      ↔ ((s : Text) × (asked_tag u requested ≡ some s) × ¬ Permits p s)
unfolding resolve_tag
resolve_tag-denied_iff u p requested = resolve_asked-denied p (asked_tag u requested)
