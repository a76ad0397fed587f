-- ===== src/Memory/Batch.antt =====
-- The batch of facts that `reconcile` goes through: no fact is lost, and what may be superseded.
use mathlib.Core.List.Perm
use mathlib.Core.List.{Perm, perm_middle}
use ultramem.Prelude.{
  ℕ, zero, suc, Text, Bool, true, not, ◌||◌, List, [], ◌∷◌, ◌++◌, map, filter, length, is_empty,
  Mem-take, Mem-filter, sort_by-Mem, Option, none, some, some_inj, ◌≡◌, ◌≢◌, refl, sym, ap, subst,
  ◌∙◌, Memᴰ, Bool-cases, inl, inr,
}
use ultramem.Prelude.Mem
use ultramem.Prelude.Result.{Result}
use ultramem.Memory.{
  Neighbor, Classification, Action, reconcile_topk, referenced, action_for, Verdict, shortlist,
  clear_new, candidates, all_new, act_on, classified, act, reconcile,
}
use ultramem.Memory.Policy.{decide-supersedes, decide-fact}

referenced-Mem :
    {S : Type 0} (i : ℕ) (ns : List (Neighbor S)) (id : Text)
    → referenced i ns ≡ some id
    → (n : Neighbor S) × Memᴰ n ns × (n.memory_id ≡ id)
referenced-Mem zero ns id h = cc
referenced-Mem (suc i) [] id h = cc
referenced-Mem (suc zero) (n ∷ ns) id h = (n, Memᴰ.head refl, some_inj h)
referenced-Mem (suc (suc i)) (n ∷ ns) id h =
    let (m, k, e) = referenced-Mem (suc i) ns id h in (m, Memᴰ.tail k, e)

module _ {S : Type 0} (reaches : S → Bool) (total_cmp : S → S → Bool)
    (from_str : Text → Option (List Verdict)) where
  shortlist-Mem :
      (ns : List (Neighbor S)) {n : Neighbor S}
      → Memᴰ n (shortlist reaches total_cmp from_str ns)
      → Memᴰ n ns × (reaches n.score ≡ true)
  unfolding shortlist
  shortlist-Mem ns {n} m =
      Mem-filter (λ n. reaches n.score) ns
        (sort_by-Mem (λ a b. total_cmp a.score b.score) (filter (λ n. reaches n.score) ns)
          (Mem-take reconcile_topk _ m))

  facts_of : List (Text × List (Neighbor S)) → List Text
  facts_of = map (λ c. c.0)

  said : List Action → List Text
  said = map (λ (a : Action). a.fact)

  said-append : (xs ys : List Action) → said (xs ++ ys) ≡ said xs ++ said ys
  unfolding said
  said-append [] ys = refl
  said-append (a ∷ xs) ys = ap (◌∷◌ a.fact) (said-append xs ys)

  said-all_new :
      (cs : List (Text × List (Neighbor S)))
      → said (all_new reaches total_cmp from_str cs) ≡ facts_of cs
  unfolding said facts_of
  said-all_new [] = refl
  said-all_new ((f, ns) ∷ cs) = ap (◌∷◌ f) (said-all_new cs)

  said-act_on :
      (cs : List (Text × List (Neighbor S))) (cls : List Classification)
      → said (act_on reaches total_cmp from_str cs cls) ≡ facts_of cs
  unfolding said facts_of act_on action_for
  said-act_on [] cls = refl
  said-act_on ((f, ns) ∷ cs) [] = ap (◌∷◌ f) (said-act_on cs [])
  said-act_on ((f, ns) ∷ cs) (c ∷ cls) =
      rw (decide-fact f c.relation c.confidence (referenced c.reference ns))
        (ap (◌∷◌ f) (said-act_on cs cls))

  said-act :
      (cs : List (Text × List (Neighbor S))) (o : Option (List Classification))
      → said (act reaches total_cmp from_str cs o) ≡ facts_of cs
  said-act cs none = said-all_new cs
  said-act cs (some cls) = said-act_on cs cls

  split-Perm :
      (facts : List (Text × List (Neighbor S)))
      → Perm
          (said (clear_new reaches total_cmp from_str facts)
            ++ facts_of (candidates reaches total_cmp from_str facts))
          (facts_of facts)
  unfolding said facts_of clear_new candidates
  split-Perm [] = Perm.refl []
  split-Perm ((f, ns) ∷ facts) =
      elim (Bool-cases (is_empty (shortlist reaches total_cmp from_str ns))) [
        | inl e ↦ rw e (Perm.cons f (split-Perm facts))
        | inr e ↦ rw e (
            Perm.trans
              (perm_middle (said (clear_new reaches total_cmp from_str facts))
                (facts_of (candidates reaches total_cmp from_str facts)))
              (Perm.cons f (split-Perm facts)))
      ]

  -- Whatever the model answers, the actions are about the facts that came in, each as often as it
  -- came in: no fact is lost and none is made up.
  pub reconcile-Perm :
      (is_ready : Bool) (chat : List (Text × List (Neighbor S)) → Result Text)
      (facts : List (Text × List (Neighbor S)))
      → Perm
          (map (λ (a : Action). a.fact) (reconcile reaches total_cmp from_str is_ready chat facts))
          (map (λ c. c.0) facts)
  unfolding reconcile said facts_of
  reconcile-Perm is_ready chat facts =
      let cs = candidates reaches total_cmp from_str facts in
      let clear = clear_new reaches total_cmp from_str facts in
      elim (Bool-cases (is_empty cs || not is_ready)) [
        | inl e ↦
            rw (e, said-append clear (all_new reaches total_cmp from_str cs), said-all_new cs)
              (split-Perm facts)
        | inr e ↦
            let o = classified reaches total_cmp from_str (chat cs) (length cs) in
            rw (e, said-append clear (act reaches total_cmp from_str cs o), said-act cs o)
              (split-Perm facts)
      ]

  -- A memory that was offered with the fact of the action, and whose score reaches the threshold.
  unfoldable pub IsOffered : Text → Text → List (Text × List (Neighbor S)) → Type 0
  IsOffered fact id facts =
      (ns : List (Neighbor S)) × Memᴰ (fact, ns) facts
      × ((n : Neighbor S) × Memᴰ n ns × (reaches n.score ≡ true) × (n.memory_id ≡ id))

  act_on-IsOffered :
      (facts cs : List (Text × List (Neighbor S))) (cls : List Classification) (a : Action)
      (id : Text)
      → ((fact : Text) (ns : List (Neighbor S)) (n : Neighbor S)
          → Memᴰ (fact, ns) cs
          → Memᴰ n ns
          → IsOffered fact n.memory_id facts)
      → Memᴰ a (act_on reaches total_cmp from_str cs cls)
      → a.supersedes ≡ some id
      → IsOffered a.fact id facts
  unfolding act_on action_for
  act_on-IsOffered facts [] cls a id h m e = absurd (Mem.not-nil m)
  act_on-IsOffered facts ((f, ns) ∷ cs) [] a id h (Memᴰ.head q) e = cc
  act_on-IsOffered facts ((f, ns) ∷ cs) [] a id h (Memᴰ.tail m) e =
      act_on-IsOffered facts cs [] a id (λ f ns n k. h f ns n (Memᴰ.tail k)) m e
  act_on-IsOffered facts ((f, ns) ∷ cs) (c ∷ cls) a id h (Memᴰ.head q) e =
      let r = referenced c.reference ns in
      let p =
        (decide-supersedes f c.relation c.confidence r id).0
          (sym (ap (λ (x : Action). x.supersedes) q) ∙ e) in
      let (n, k, d) = referenced-Mem c.reference ns id p.2 in
      let same_fact = ap (λ (x : Action). x.fact) q ∙ decide-fact f c.relation c.confidence r in
      subst (λ x. IsOffered x id facts) (sym same_fact)
        (subst (λ x. IsOffered f x facts) d (h f ns n (Memᴰ.head refl) k))
  act_on-IsOffered facts ((f, ns) ∷ cs) (c ∷ cls) a id h (Memᴰ.tail m) e =
      act_on-IsOffered facts cs cls a id (λ f ns n k. h f ns n (Memᴰ.tail k)) m e

  candidates-IsOffered :
      (facts : List (Text × List (Neighbor S))) (fact : Text) (ns : List (Neighbor S))
      (n : Neighbor S)
      → Memᴰ (fact, ns) (candidates reaches total_cmp from_str facts)
      → Memᴰ n ns
      → IsOffered fact n.memory_id facts
  unfolding IsOffered candidates
  candidates-IsOffered [] fact ns n m k = absurd (Mem.not-nil m)
  candidates-IsOffered ((f, ms) ∷ facts) fact ns n m k =
      let later : Memᴰ (fact, ns) (candidates reaches total_cmp from_str facts)
          → IsOffered fact n.memory_id ((f, ms) ∷ facts) =
        λ j. let (os, u, v) = candidates-IsOffered facts fact ns n j k in (os, Memᴰ.tail u, v) in
      elim (Bool-cases (is_empty (shortlist reaches total_cmp from_str ms))) [
        | inl e ↦ later (rw e at m)
        | inr e ↦ elim (Mem.cases_cons (rw e at m)) [
          | inl q ↦
              let (j, r) = shortlist-Mem ms (subst (λ xs. Memᴰ n xs) (ap (λ x. x.1) q) k) in
              (ms, Memᴰ.head (ap (λ x. (x.0, ms)) q), (n, j, r, refl))
          | inr j ↦ later j
        ]
      ]

  plain-supersedes :
      (cs : List (Text × List (Neighbor S))) (a : Action) (id : Text)
      → Memᴰ a (all_new reaches total_cmp from_str cs)
      → a.supersedes ≢ some id
  plain-supersedes [] a id m e = absurd (Mem.not-nil m)
  plain-supersedes ((f, ns) ∷ cs) a id (Memᴰ.head q) e = cc
  plain-supersedes ((f, ns) ∷ cs) a id (Memᴰ.tail m) e = plain-supersedes cs a id m e

  clear-supersedes :
      (facts : List (Text × List (Neighbor S))) (a : Action) (id : Text)
      → Memᴰ a (clear_new reaches total_cmp from_str facts)
      → a.supersedes ≢ some id
  unfolding clear_new
  clear-supersedes [] a id m e = absurd (Mem.not-nil m)
  clear-supersedes ((f, ns) ∷ facts) a id m e =
      elim (Bool-cases (is_empty (shortlist reaches total_cmp from_str ns))) [
        | inl d ↦ elim (Mem.cases_cons (rw d at m)) [
          | inl q ↦ cc
          | inr j ↦ clear-supersedes facts a id j e
        ]
        | inr d ↦ clear-supersedes facts a id (rw d at m) e
      ]

  act-IsOffered :
      (facts : List (Text × List (Neighbor S))) (o : Option (List Classification)) (a : Action)
      (id : Text)
      → Memᴰ a (act reaches total_cmp from_str (candidates reaches total_cmp from_str facts) o)
      → a.supersedes ≡ some id
      → IsOffered a.fact id facts
  act-IsOffered facts none a id m e = absurd (plain-supersedes _ a id m e)
  act-IsOffered facts (some cls) a id m e =
      act_on-IsOffered facts _ cls a id (candidates-IsOffered facts) m e

  -- Whatever the model answers, an action supersedes only a memory that was offered with its fact,
  -- among the neighbors whose score reaches the threshold.
  pub reconcile-IsOffered :
      (is_ready : Bool) (chat : List (Text × List (Neighbor S)) → Result Text)
      (facts : List (Text × List (Neighbor S))) (a : Action) (id : Text)
      → Memᴰ a (reconcile reaches total_cmp from_str is_ready chat facts)
      → a.supersedes ≡ some id
      → IsOffered a.fact id facts
  unfolding reconcile
  reconcile-IsOffered is_ready chat facts a id m e =
      let cs = candidates reaches total_cmp from_str facts in
      elim (Bool-cases (is_empty cs || not is_ready)) [
        | inl h ↦ elim (Mem.append_cases (clear_new reaches total_cmp from_str facts) (rw h at m)) [
          | inl j ↦ absurd (clear-supersedes facts a id j e)
          | inr j ↦ absurd (plain-supersedes cs a id j e)
        ]
        | inr h ↦ elim (Mem.append_cases (clear_new reaches total_cmp from_str facts) (rw h at m)) [
          | inl j ↦ absurd (clear-supersedes facts a id j e)
          | inr j ↦ act-IsOffered facts _ a id j e
        ]
      ]
