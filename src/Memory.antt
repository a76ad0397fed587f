-- ===== src/Memory.antt =====
-- crates/ultramem-core/src/engine/memory.rs: the reconciliation of new facts with stored memories.
pub mod Policy
pub mod Batch
pub mod Expiry
use ultramem.Prelude.{
  ℕ, zero, suc, ◌-◌, ◌==◌, ltb, Text, codes, same, ascii_upper, ascii_lower, ascii_lowercase, Bool,
  true, false, not, ◌&&◌, ◌||◌, List, [], ◌∷◌, ◌++◌, map, filter, take, drop, length, is_empty,
  replicate, set, get_elem?, sort_by, Option, none, some, unwrap_or, if◌then◌else◌,
}
use ultramem.Prelude.Result.{Result, ok, err}

pub data Relation : Type 0 where
  new : Relation
  duplicate : Relation
  update : Relation
  extend : Relation
  needs_review : Relation

pub data Confidence : Type 0 where
  high : Confidence
  low : Confidence

-- `S` is the type of a score.
pub record Neighbor (S : Type 0) : Type 0 where
  pub memory_id : Text
  pub fact : Text
  pub score : S

pub record Classification : Type 0 where
  pub relation : Relation
  pub reference : ℕ
  pub confidence : Confidence

pub record Action : Type 0 where
  pub fact : Text
  pub relation : Relation
  pub supersedes : Option Text
  pub extends : Option Text

abbrev pub plain_new : Text → Action
plain_new fact = record { fact = fact; relation = new; supersedes = none; extends = none }

-- `Classification` of a fact that the classifier says nothing about.
abbrev pub unclassified : Classification
unclassified = record { relation = new; reference = 0; confidence = low }

unfoldable pub reconcile_topk : ℕ
reconcile_topk = 5

abbrev pub decide : Text → Relation → Confidence → Option Text → Action
decide fact update high (some id) = record {
  fact = fact;
  relation = update;
  supersedes = some id;
  extends = none;
}
decide fact update high none = record {
  fact = fact;
  relation = needs_review;
  supersedes = none;
  extends = none;
}
decide fact update low r = record {
  fact = fact;
  relation = needs_review;
  supersedes = none;
  extends = none;
}
decide fact duplicate high r = record {
  fact = fact;
  relation = duplicate;
  supersedes = none;
  extends = none;
}
decide fact duplicate low r = plain_new fact
decide fact extend c (some id) = record {
  fact = fact;
  relation = extend;
  supersedes = none;
  extends = some id;
}
decide fact extend c none = plain_new fact
decide fact new c r = plain_new fact
decide fact needs_review c r = plain_new fact

module _ {S : Type 0} where
  abbrev pub id_of : Option (Neighbor S) → Option Text
  id_of none = none
  id_of (some n) = some n.memory_id

  -- `checked_sub(1)` and then the neighbor at that index.
  abbrev pub referenced : ℕ → List (Neighbor S) → Option Text
  referenced zero neighbors = none
  referenced (suc i) neighbors = id_of (get_elem? neighbors i)

  unfoldable pub action_for : Text → List (Neighbor S) → Classification → Action
  action_for fact neighbors c =
      decide fact c.relation c.confidence (referenced c.reference neighbors)

-- One object of the classifier's array: `as_u64` and `as_str` of its members.
pub record Verdict : Type 0 where
  pub i : Option ℕ
  pub relation : Option Text
  pub reference : Option ℕ
  pub confidence : Option Text

-- `to_ascii_uppercase`.
abbrev pub ascii_uppercase : Text → Text
ascii_uppercase = map (λ c. if ascii_lower c then c - 32 else c)

abbrev pub relation_of : Text → Relation
relation_of name =
    if same name (codes "DUPLICATE")
    then duplicate
    else if same name (codes "UPDATE")
    then update
    else if same name (codes "EXTEND")
    then extend
    else new

abbrev pub confidence_of : Text → Confidence
confidence_of name = if same name (codes "high") then high else low

abbrev pub classification_of : Verdict → Classification
classification_of v = record {
  relation = relation_of (ascii_uppercase (unwrap_or v.relation (codes "NEW")));
  reference = unwrap_or v.reference 0;
  confidence = confidence_of (map ascii_lowercase (unwrap_or v.confidence (codes "low")));
}

-- One turn of the loop over the array.
abbrev pub classify : ℕ → Verdict → List Classification → List Classification
classify n v out =
    let idx = unwrap_or v.i 0 in
    if (idx == 0) || ltb n idx then out else set out (idx - 1) (classification_of v)

unfoldable pub classify_all : ℕ → List Verdict → List Classification → List Classification
classify_all n [] out = out
classify_all n (v ∷ verdicts) out = classify_all n verdicts (classify n v out)

infixl 5 ◌>>=◌
abbrev ◌>>=◌ : {A B : Type 0} → Option A → (A → Option B) → Option B
none >>= f = none
(some a) >>= f = f a

-- `find` and `rfind` of a character.
unfoldable pub find_char : ℕ → Text → Option ℕ
find_char c [] = none
find_char c (x ∷ xs) =
    let rest = find_char c xs in
    if x == c then some 0 else elim rest [ some i ↦ some (suc i) | none ↦ none ]

unfoldable pub rfind_char : ℕ → Text → Option ℕ
rfind_char c [] = none
rfind_char c (x ∷ xs) =
    let rest = rfind_char c xs in
    elim rest [ some i ↦ some (suc i) | none ↦ if x == c then some 0 else none ]

-- The text from the first `[` to the last `]`.
unfoldable pub array_text : Text → Option Text
unfolding find_char rfind_char
array_text raw = do
  start ← find_char 91 raw
  end ← rfind_char 93 raw
  if ltb end start then none else some (take (suc end - start) (drop start raw))

-- `from_str` is the JSON parser: the array's objects, or nothing.
unfoldable pub parse_classifications :
    (Text → Option (List Verdict)) → Text → ℕ → Option (List Classification)
unfolding array_text classify_all
parse_classifications from_str raw n = do
  text ← array_text raw
  verdicts ← from_str text
  some (classify_all n verdicts (replicate n unclassified))

-- `reaches` is the comparison of a score with the threshold, `total_cmp` the order of the scores
-- (not less than). `chat` is the answer of the model to the prompt on the candidates.
module _ {S : Type 0} (reaches : S → Bool) (total_cmp : S → S → Bool)
    (from_str : Text → Option (List Verdict)) where
  unfoldable pub shortlist : List (Neighbor S) → List (Neighbor S)
  unfolding sort_by reconcile_topk
  shortlist neighbors =
      take reconcile_topk
        (sort_by (λ a b. total_cmp a.score b.score) (filter (λ n. reaches n.score) neighbors))

  -- The first loop: the facts that are new at once, and the candidates.
  unfoldable pub clear_new : List (Text × List (Neighbor S)) → List Action
  unfolding shortlist
  clear_new [] = []
  clear_new ((fact, neighbors) ∷ facts) =
      let rest = clear_new facts in
      if is_empty (shortlist neighbors) then plain_new fact ∷ rest else rest

  unfoldable pub candidates : List (Text × List (Neighbor S)) → List (Text × List (Neighbor S))
  unfolding shortlist
  candidates [] = []
  candidates ((fact, neighbors) ∷ facts) =
      let rest = candidates facts in
      if is_empty (shortlist neighbors) then rest else (fact, shortlist neighbors) ∷ rest

  abbrev pub all_new : List (Text × List (Neighbor S)) → List Action
  all_new = map (λ c. plain_new c.0)

  -- The loop that takes the classifications in order.
  unfoldable pub act_on : List (Text × List (Neighbor S)) → List Classification → List Action
  unfolding action_for
  act_on [] cls = []
  act_on ((fact, neighbors) ∷ cs) [] = action_for fact neighbors unclassified ∷ act_on cs []
  act_on ((fact, neighbors) ∷ cs) (c ∷ cls) = action_for fact neighbors c ∷ act_on cs cls

  abbrev pub classified : Result Text → ℕ → Option (List Classification)
  classified (ok raw) n = parse_classifications from_str raw n
  classified (err e) n = none

  abbrev pub act : List (Text × List (Neighbor S)) → Option (List Classification) → List Action
  act cs (some cls) = act_on cs cls
  act cs none = all_new cs

  unfoldable pub reconcile :
      Bool
      → (List (Text × List (Neighbor S)) → Result Text)
      → List (Text × List (Neighbor S))
      → List Action
  unfolding clear_new candidates act_on parse_classifications
  reconcile is_ready chat facts =
      let cs = candidates facts in
      if is_empty cs || not is_ready
      then clear_new facts ++ all_new cs
      else clear_new facts ++ act cs (classified (chat cs) (length cs))
