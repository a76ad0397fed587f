-- ===== src/Store/Point.antt =====
-- The points of the vector store and their payloads, and the payload filters that the engine builds
-- and that crates/ultramem-core/src/providers/mock.rs evaluates. Of JSON this has the values that
-- payloads and filters hold; an array that a filter lacks is the empty one, which `filter_matches`
-- reads alike.
use ultramem.Prelude.{
  ℤ, ltb_ℤ, leb_ℤ, Text, same, Bool, true, false, ◌&&◌, not, List, all, any, is_empty, Option, none,
  some, if◌then◌else◌,
}
use ultramem.Prelude.Table.{lookup}

pub data Value : Type 0 where
  null : Value
  bool : Bool → Value
  int : ℤ → Value
  str : Text → Value

abbrev pub Payload : Type 0
Payload = List (Text × Value)

pub record Point (V : Type 0) : Type 0 where
  pub id : Text
  pub vector : V
  pub payload : Payload

-- `==` on the values.
unfoldable pub same_value : Value → Value → Bool
same_value null null = true
same_value (bool true) (bool true) = true
same_value (bool false) (bool false) = true
same_value (int a) (int b) = leb_ℤ a b && leb_ℤ b a
same_value (str a) (str b) = same a b
same_value _ _ = false

-- `as_str`, `as_i64`, `as_bool` of what a key may hold.
abbrev pub as_str : Option Value → Option Text
as_str (some (str s)) = some s
as_str _ = none

abbrev pub as_i64 : Option Value → Option ℤ
as_i64 (some (int n)) = some n
as_i64 _ = none

abbrev pub as_bool : Option Value → Option Bool
as_bool (some (bool b)) = some b
as_bool _ = none

pub record Bounds : Type 0 where
  pub lt : Option ℤ
  pub lte : Option ℤ
  pub gt : Option ℤ
  pub gte : Option ℤ

pub data Condition : Type 0 where
  match_value : Text → Value → Condition
  range : Text → Bounds → Condition
  is_empty_key : Text → Condition

pub record Filter : Type 0 where
  pub must : List Condition
  pub should : List Condition
  pub must_not : List Condition

abbrev pub bound_holds : Option ℤ → (ℤ → Bool) → Bool
bound_holds none f = true
bound_holds (some b) f = f b

abbrev pub in_bounds : Bounds → Option ℤ → Bool
in_bounds r none = false
in_bounds r (some v) =
    bound_holds r.lt (λ x. ltb_ℤ v x)
    && bound_holds r.lte (λ x. leb_ℤ v x)
    && bound_holds r.gt (λ x. ltb_ℤ x v)
    && bound_holds r.gte (λ x. leb_ℤ x v)

abbrev pub holds_value : Option Value → Value → Bool
holds_value none v = false
holds_value (some w) v = same_value w v

abbrev pub is_null : Option Value → Bool
is_null none = true
is_null (some null) = true
is_null (some _) = false

unfoldable pub cond_matches : Payload → Condition → Bool
unfolding same_value
cond_matches payload (match_value key v) = holds_value (lookup key payload) v
cond_matches payload (range key r) = in_bounds r (as_i64 (lookup key payload))
cond_matches payload (is_empty_key key) = is_null (lookup key payload)

unfoldable pub filter_matches : Payload → Filter → Bool
filter_matches payload f =
    if not (all (cond_matches payload) f.must)
    then false
    else if any (cond_matches payload) f.must_not
    then false
    else if not (is_empty f.should) && not (any (cond_matches payload) f.should)
    then false
    else true
