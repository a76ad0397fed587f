-- ===== src/Memory/Policy.antt =====
-- The safety policy of the reconciliation: what may supersede a memory, and what may be dropped.
use ultramem.Prelude.{Text, List, Option, none, some, ◌≡◌, ◌≢◌, refl, ◌↔◌}
use ultramem.Memory.{
  Relation, new, duplicate, update, extend, needs_review, Confidence, high, low, Neighbor,
  Classification, referenced, decide, action_for,
}

-- What a verdict must be for the fact to supersede the memory `id`.
abbrev pub Supersedes : {S : Type 0} → Text → List (Neighbor S) → Classification → Type 0
Supersedes id neighbors c =
    (c.relation ≡ update) × (c.confidence ≡ high) × (referenced c.reference neighbors ≡ some id)

pub decide-supersedes :
    (fact : Text) (r : Relation) (c : Confidence) (o : Option Text) (id : Text)
    → ((decide fact r c o).supersedes ≡ some id) ↔ ((r ≡ update) × (c ≡ high) × (o ≡ some id))
decide-supersedes fact update high (some i) id = ((λ h. (refl, refl, h)), λ q. q.2)
decide-supersedes fact update high none id = ((λ h. cc), λ (a, b, e). cc)
decide-supersedes fact update low o id = ((λ h. cc), λ (a, b, e). cc)
decide-supersedes fact duplicate high o id = ((λ h. cc), λ (a, b, e). cc)
decide-supersedes fact duplicate low o id = ((λ h. cc), λ (a, b, e). cc)
decide-supersedes fact extend c (some i) id = ((λ h. cc), λ (a, b, e). cc)
decide-supersedes fact extend c none id = ((λ h. cc), λ (a, b, e). cc)
decide-supersedes fact new c o id = ((λ h. cc), λ (a, b, e). cc)
decide-supersedes fact needs_review c o id = ((λ h. cc), λ (a, b, e). cc)

decide-drops :
    (fact : Text) (r : Relation) (c : Confidence) (o : Option Text)
    → ((decide fact r c o).relation ≡ duplicate) ↔ ((r ≡ duplicate) × (c ≡ high))
decide-drops fact update high (some i) = ((λ h. cc), λ (a, b). cc)
decide-drops fact update high none = ((λ h. cc), λ (a, b). cc)
decide-drops fact update low o = ((λ h. cc), λ (a, b). cc)
decide-drops fact duplicate high o = ((λ h. (refl, refl)), λ q. refl)
decide-drops fact duplicate low o = ((λ h. cc), λ (a, b). cc)
decide-drops fact extend c (some i) = ((λ h. cc), λ (a, b). cc)
decide-drops fact extend c none = ((λ h. cc), λ (a, b). cc)
decide-drops fact new c o = ((λ h. cc), λ (a, b). cc)
decide-drops fact needs_review c o = ((λ h. cc), λ (a, b). cc)

decide-quarantine :
    (fact : Text) (r : Relation) (c : Confidence) (o : Option Text)
    → (r ≢ needs_review)
    → ((decide fact r c o).relation ≡ needs_review)
      ↔ ((r ≡ update) × (¬ ((c ≡ high) × ((id : Text) × (o ≡ some id)))))
decide-quarantine fact update high (some i) n = ((λ h. cc), λ (a, b). absurd (b (refl, (i, refl))))
decide-quarantine fact update high none n = ((λ h. (refl, λ (a, b). cc (b.1))), λ q. refl)
decide-quarantine fact update low o n = ((λ h. (refl, λ (a, b). cc)), λ q. refl)
decide-quarantine fact duplicate high o n = ((λ h. cc), λ (a, b). cc)
decide-quarantine fact duplicate low o n = ((λ h. cc), λ (a, b). cc)
decide-quarantine fact extend c (some i) n = ((λ h. cc), λ (a, b). cc)
decide-quarantine fact extend c none n = ((λ h. cc), λ (a, b). cc)
decide-quarantine fact new c o n = ((λ h. cc), λ (a, b). cc)
decide-quarantine fact needs_review c o n = absurd (n refl)

pub decide-fact :
    (fact : Text) (r : Relation) (c : Confidence) (o : Option Text)
    → (decide fact r c o).fact ≡ fact
decide-fact fact update high (some i) = refl
decide-fact fact update high none = refl
decide-fact fact update low o = refl
decide-fact fact duplicate high o = refl
decide-fact fact duplicate low o = refl
decide-fact fact extend c (some i) = refl
decide-fact fact extend c none = refl
decide-fact fact new c o = refl
decide-fact fact needs_review c o = refl

module _ {S : Type 0} (fact : Text) (neighbors : List (Neighbor S)) (c : Classification) where
  -- For a verdict that is not itself the quarantine: the action supersedes a memory exactly on a
  -- high-confidence update that points at it among the neighbors; it drops the fact exactly on a
  -- high-confidence duplicate; it quarantines the fact exactly on an update that has not both; and
  -- it is about the fact itself.
  pub action_for-policy :
      c.relation ≢ needs_review
      → ((id : Text)
          → ((action_for fact neighbors c).supersedes ≡ some id) ↔ Supersedes id neighbors c)
        × (((action_for fact neighbors c).relation ≡ duplicate)
            ↔ ((c.relation ≡ duplicate) × (c.confidence ≡ high)))
        × (((action_for fact neighbors c).relation ≡ needs_review)
            ↔ ((c.relation ≡ update) × (¬ ((id : Text) × Supersedes id neighbors c))))
        × ((action_for fact neighbors c).fact ≡ fact)
  unfolding action_for
  action_for-policy n = (
    decide-supersedes fact c.relation c.confidence (referenced c.reference neighbors),
    decide-drops fact c.relation c.confidence (referenced c.reference neighbors),
    (let q = decide-quarantine fact c.relation c.confidence (referenced c.reference neighbors) n in
        (
          λ h. let (u, v) = q.0 h in (u, λ (id, k). v (k.1, (id, k.2))),
          λ (u, v). q.1 (u, λ (b, k). v (k.0, (u, b, k.1))),
        )),
    decide-fact fact c.relation c.confidence (referenced c.reference neighbors),
  )
