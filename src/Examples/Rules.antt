-- ===== src/Examples/Rules.antt =====
-- Grants, policies, filters and the reconciliation at concrete inputs.
use mathlib.Core.List.{Perm}
use ultramem.Prelude.{
  ℕ, zero, suc, Text, codes, ascii, same, ap, ap₂, sym, leb, split_once, split, trim_matches,
  insert_sorted, ascii_lowercase, drop, Bool, true, false, List, [], ◌∷◌, map, Option, none, some,
  ◌≡◌, ◌≢◌, refl, ◌↔◌, Memᴰ, arith, replicate, ◌++◌,
}
use ultramem.Prelude.Table.{lookup, insert}
use ultramem.Prelude.Result.{Result, ok}
use ultramem.Examples.{alice, team, reader, of_doc}
use ultramem.Store.Point.{filter_matches}
use ultramem.Store.Filters.{or_empty, SearchPlan, scope_filter, build_filter}
use ultramem.Store.Isolation.{InTag, read_isolation_iff}
use ultramem.Scope.{visible_scopes, can_read, can_promote}
use ultramem.Tenant.{
  parse_entry, TagPolicy, any_tag, only, Resolution, panic, tag_denied, asked_tag, resolve_tag,
  AuthConfig, build, resolve, spec_entries, entry_tags,
}
use ultramem.Tenant as Tenant
use ultramem.Tenant.Bytes.{ct_eq, ct_eq_iff, AreBytes}
use ultramem.Tenant.Policy.{IsWellFormed, Permits, resolve_tag-Permits}
use ultramem.Tenant.Config.{Utf8, build-IsWellFormed}
use ultramem.Memory.{
  update, duplicate, needs_review, high, Neighbor, Classification, Action, Verdict, action_for,
  reconcile,
}
use ultramem.Memory.Policy.{Supersedes, action_for-policy}
use ultramem.Memory.Batch.{IsOffered, reconcile-Perm, reconcile-IsOffered}

abbrev plan : SearchPlan
plan = record {
  query = codes "tea";
  source = some (codes "web");
  after = none;
  before = none;
  listy = false;
}

read_isolation_iff_example :
    (filter_matches
        (of_doc team)
        (scope_filter (build_filter plan) (visible_scopes alice (reader ∷ [])))
      ≡ true)
    ↔ ((filter_matches (of_doc team) (or_empty (build_filter plan)) ≡ true)
        × ((scope : Text) × (can_read alice scope (reader ∷ []) ≡ true)
            × InTag (of_doc team) scope))
read_isolation_iff_example = read_isolation_iff alice (reader ∷ []) plan (of_doc team)

promotes : can_promote alice team (reader ∷ []) ≡ true
unfolding can_promote same
promotes = refl

ct_eq_iff_example : (ct_eq (codes "key") (codes "kez") ≡ true) ↔ (codes "key" ≡ codes "kez")
ct_eq_iff_example = ct_eq_iff (codes "key") (codes "kez") bytes bytes'
  where
    bytes : AreBytes (codes "key")
    bytes = (omega arith, (omega arith, (omega arith, tt)))

    bytes' : AreBytes (codes "kez")
    bytes' = (omega arith, (omega arith, (omega arith, tt)))

abbrev policy : TagPolicy
policy = only (alice ∷ [])

resolve_tag-Permits_example :
    ((t : Text) → resolve_tag ascii policy (some alice) ≡ Tenant.ok t → Permits policy t)
    × (resolve_tag ascii policy (some alice) ≢ panic)
resolve_tag-Permits_example = resolve_tag-Permits ascii policy (some alice) (omega arith)

abbrev tenants : Option Text
tenants = some (codes "k1=alice;k2=*")

registered_only : lookup (codes "k1") (build ascii tenants none false).keys ≡ some policy
unfolding build lookup split parse_entry split_once trim_matches ascii same insert
registered_only = refl

build-IsWellFormed_example : IsWellFormed policy
build-IsWellFormed_example =
    build-IsWellFormed ascii tenants none false (codes "k1") policy registered_only

registered_any : lookup (codes "k2") (build ascii tenants none false).keys ≡ some any_tag
unfolding build lookup split parse_entry split_once trim_matches ascii same insert
registered_any = refl

-- A coding of texts that is injective: every character in unary, closed by a zero.
abbrev unary : Text → List ℕ
unary [] = []
unary (c ∷ s) = replicate c 1 ++ 0 ∷ unary s

units : (n : ℕ) (xs : List ℕ) → AreBytes xs → AreBytes (replicate n 1 ++ 0 ∷ xs)
units zero xs h = (omega arith, h)
units (suc n) xs h = (omega arith, units n xs h)

unary-bytes : (s : Text) → AreBytes (unary s)
unary-bytes [] = tt
unary-bytes (c ∷ s) = units c (unary s) (unary-bytes s)

peel :
    (m n : ℕ) (xs ys : List ℕ)
    → replicate m 1 ++ 0 ∷ xs ≡ replicate n 1 ++ 0 ∷ ys
    → (m ≡ n) × (xs ≡ ys)
peel zero zero xs ys h = (refl, ap (drop 1) h)
peel zero (suc n) xs ys h = cc
peel (suc m) zero xs ys h = cc
peel (suc m) (suc n) xs ys h = let (e, q) = peel m n xs ys (ap (drop 1) h) in (ap suc e, q)

no_unit : (c : ℕ) (xs : List ℕ) → [] ≢ (replicate c 1 ++ 0 ∷ xs)
no_unit zero xs h = cc
no_unit (suc c) xs h = cc

unary-injective : (s t : Text) → unary s ≡ unary t → s ≡ t
unary-injective [] [] h = refl
unary-injective [] (c ∷ t) h = absurd (no_unit c (unary t) h)
unary-injective (c ∷ s) [] h = absurd (no_unit c (unary s) (sym h))
unary-injective (c ∷ s) (d ∷ t) h =
    let (e, q) = peel c d (unary s) (unary t) h in ap₂ (◌∷◌) e (unary-injective s t q)

abbrev coding : Utf8
coding = record { as_bytes = unary; bytes = unary-bytes; injective = unary-injective }

abbrev config : AuthConfig
config = record { keys = (codes "k1", policy) ∷ []; dev = false }

-- The scores are numbers, 7 and above reach the threshold.
abbrev reaches : ℕ → Bool
reaches n = leb 7 n

abbrev neighbor : Neighbor ℕ
neighbor = record { memory_id = codes "m1"; fact = codes "uses Adidas"; score = 9 }

abbrev verdict : Verdict
verdict = record {
  i = some 1;
  relation = some (codes "update");
  reference = some 1;
  confidence = some (codes "high");
}

abbrev parsed : Text → Option (List Verdict)
parsed s = some (verdict ∷ [])

abbrev answer : List (Text × List (Neighbor ℕ)) → Result Text
answer cs = ok (codes "[{}]")

abbrev facts : List (Text × List (Neighbor ℕ))
facts = (codes "switched to Puma", neighbor ∷ []) ∷ (codes "likes tea", []) ∷ []

reconcile-Perm_example :
    Perm
      (map (λ (a : Action). a.fact) (reconcile reaches leb parsed true answer facts))
      (map (λ c. c.0) facts)
reconcile-Perm_example = reconcile-Perm reaches leb parsed true answer facts

abbrev puma : Action
puma = record {
  fact = codes "switched to Puma";
  relation = update;
  supersedes = some (codes "m1");
  extends = none;
}

made : Memᴰ puma (reconcile reaches leb parsed true answer facts)
unfolding reconcile insert_sorted same ascii_lowercase
made = Memᴰ.tail (Memᴰ.head refl)

reconcile-IsOffered_example :
    IsOffered reaches leb parsed (codes "switched to Puma") (codes "m1") facts
reconcile-IsOffered_example =
    reconcile-IsOffered reaches leb parsed true answer facts puma (codes "m1") made refl

abbrev sure : Classification
sure = record { relation = update; reference = 1; confidence = high }

action_for-policy_example :
    ((id : Text)
      → ((action_for (codes "f") (neighbor ∷ []) sure).supersedes ≡ some id)
        ↔ Supersedes id (neighbor ∷ []) sure)
    × (((action_for (codes "f") (neighbor ∷ []) sure).relation ≡ duplicate)
        ↔ ((sure.relation ≡ duplicate) × (sure.confidence ≡ high)))
    × (((action_for (codes "f") (neighbor ∷ []) sure).relation ≡ needs_review)
        ↔ ((sure.relation ≡ update) × (¬ ((id : Text) × Supersedes id (neighbor ∷ []) sure))))
    × ((action_for (codes "f") (neighbor ∷ []) sure).fact ≡ codes "f")
action_for-policy_example = action_for-policy (codes "f") (neighbor ∷ []) sure (λ e. cc)
