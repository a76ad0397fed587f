-- ===== src/Engine/Indexing/Flip.antt =====
-- crates/ultramem-core/src/engine/mod.rs: in index_memories a memory that supersedes another one is
-- written only after the other one is demoted.
use ultramem.Prelude.{
  ℕ, zero, suc, ◌+◌, ◌<◌, Text, codes, contains, same, true, false, List, [], ◌∷◌, ◌++◌, is_empty,
  some, ◌≡◌, ◌↔◌, ◌⊎◌, refl, ap, subst, ◌∙◌, inl, inr, arith, Bool-cases, true-false, Memᴰ,
}
use ultramem.Prelude.Result.{Result, ok, err, err≢ok, ok_inj}
use ultramem.Prelude.Table.{lookup, lookup-insert}
use ultramem.World.{Collections, World, Env, outside}
use ultramem.Store.Point.{Payload, Point, bool}
use mathlib.Core.List.Memᴰ as Mem
use ultramem.Store.Points.{set_payload, merge, upsert}
use ultramem.Engine.{store_write}
use ultramem.Engine.Steps.{store_write-ok, store_write-err}
use ultramem.Engine.Indexing.Writes.{not_latest, add_facts, demote_facts, flip, write_superseding}
use ultramem.Engine.Indexing.Planning.{Plan}

module _ {F V : Type 0} (env : Env) where
  store_write-calls :
      (f : Collections V → Collections V) (w : World F V)
      → (store_write env f w).1.calls ≡ suc w.calls
  unfolding store_write outside
  store_write-calls f w = elim (Bool-cases (env.fails w.calls)) [ inl e ↦ rw e | inr e ↦ rw e ]

  store_write-fails :
      (f : Collections V → Collections V) (w : World F V)
      → (((store_write env f w).0 ≡ ok tt) × (env.fails w.calls ≡ false))
        ⊎ ((x : Text) × ((store_write env f w).0 ≡ err x) × (env.fails w.calls ≡ true))
  unfolding store_write outside
  store_write-fails f w = elim (Bool-cases (env.fails w.calls)) [
    | inl e ↦ inr (env.failure w.calls, rw e, e)
    | inr e ↦ inl (rw e, e)
  ]

  -- The attempts end with the old memories demoted, or with an error and the points as they were.
  flip-cases :
      (n : ℕ) (ids : List Text) (last_err : Text) (w : World F V)
      → (((flip env n ids last_err w).0 ≡ ok (ok tt))
          × ((flip env n ids last_err w).1.collections ≡ demote_facts ids w.collections))
        ⊎ ((e : Text) × ((flip env n ids last_err w).0 ≡ ok (err e))
            × ((flip env n ids last_err w).1.collections ≡ w.collections))
  unfolding flip
  flip-cases zero ids last_err w = inr (last_err, refl, refl)
  flip-cases (suc n) ids last_err w = elim (store_write-fails (demote_facts ids) w) [
    | inl (e, f) ↦ inl (rw e, rw (flip, e) (store_write-ok env (demote_facts ids) w e))
    | inr (x, e, f) ↦
        let w1 = (store_write env (demote_facts ids) w).1 in
        let same : w1.collections ≡ w.collections = store_write-err env (demote_facts ids) w e in
        rw (flip, e)
          (elim (flip-cases n ids x w1) [
            | inl (a, b) ↦ inl (a, b ∙ ap (demote_facts ids) same)
            | inr (y, a, b) ↦ inr (y, a, b ∙ same)
          ])
  ]

  -- One of `n` attempts succeeds exactly if one of the `n` next calls does.
  pub flip-succeeds :
      (n : ℕ) (ids : List Text) (last_err : Text) (w : World F V)
      → ((flip env n ids last_err w).0 ≡ ok (ok tt))
        ↔ ((i : ℕ) × (i < n) × (env.fails (w.calls + i) ≡ false))
  unfolding flip
  flip-succeeds zero ids last_err w =
      (λ h. absurd (err≢ok (ok_inj h)), λ h. let (i, k, e) = h in absurd (omega arith))
  flip-succeeds (suc n) ids last_err w = elim (store_write-fails (demote_facts ids) w) [
    | inl (e, f) ↦
        (λ h. (0, omega arith, subst (λ k. env.fails k ≡ false) (omega arith) f), λ h. rw (flip, e))
    | inr (x, e, f) ↦
        let w1 = (store_write env (demote_facts ids) w).1 in
        let next : w1.calls ≡ suc w.calls = store_write-calls (demote_facts ids) w in
        let (from, to) = flip-succeeds n ids x w1 in
        (
          λ h.
              let (i, k, g) = from (rw (flip, e) at h) in
              (suc i, omega arith, subst (λ x. env.fails x ≡ false) (omega arith) g),
          λ h. let (i, k, g) = h in rw (flip, e) (to (later w1.calls w.calls n i f next k g)),
        )
  ]
    where
      later :
          (c d n i : ℕ)
          → env.fails d ≡ true
          → c ≡ suc d
          → i < suc n
          → env.fails (d + i) ≡ false
          → (j : ℕ) × (j < n) × (env.fails (c + j) ≡ false)
      later c d n zero f q k g =
          absurd (true-false f (subst (λ x. env.fails x ≡ false) (omega arith) g))
      later c d n (suc i) f q k g =
          (i, omega arith, subst (λ x. env.fails x ≡ false) (omega arith) g)

marked :
    (payload : Payload) → lookup (codes "is_latest") (merge payload not_latest) ≡ some (bool false)
unfolding merge same
marked payload = lookup-insert (codes "is_latest") (codes "is_latest") (bool false) payload

-- A demoted point is not the latest.
demoted :
    {V : Type 0} (ids : List Text) (points : List (Point V)) (p : Point V)
    → Memᴰ p (set_payload ids not_latest points)
    → contains ids p.id ≡ true
    → lookup (codes "is_latest") p.payload ≡ some (bool false)
unfolding set_payload
demoted ids [] p m h = absurd (Mem.not-nil m)
demoted ids (q ∷ points) p m h = elim (Mem.cases_cons m) [
  | inr n ↦ demoted ids points p n h
  | inl e ↦ elim (Bool-cases (contains ids q.id)) [
    | inl f ↦
        let here : p ≡ record q { payload = merge q.payload not_latest } = rw f at e in
        ap (λ x. lookup (codes "is_latest") x.payload) here ∙ marked q.payload
    | inr f ↦ absurd (true-false h (let here : p ≡ q = rw f at e in rw here f))
  ]
]

-- All the memories to supersede are demoted and the new ones are written behind them, or the call
-- fails and no new one is written.
abbrev pub IsFlipped :
    {F V : Type 0} → Plan F V → World F V → Result (Unit {0}) × World F V → Type 0
IsFlipped {V = V} plan w (r, w') =
    let before = w.collections.fact_points in
    let after = w'.collections.fact_points in
    let flipped = set_payload plan.superseded not_latest before in
    ((r ≡ ok tt)
      × (after ≡ flipped ++ plan.supersede_points)
      × ((p : Point V)
          → Memᴰ p flipped
          → contains plan.superseded p.id ≡ true
          → lookup (codes "is_latest") p.payload ≡ some (bool false)))
    ⊎ ((e : Text) × (r ≡ err e) × ((after ≡ before) ⊎ (after ≡ flipped)))

module _ {F V : Type 0} (env : Env) (decimal : ℕ → Text) where
  -- Where there are memories to supersede, either all of them are demoted and the new ones are
  -- written behind them, or the call fails and no new one is written.
  pub write_superseding-IsFlipped :
      (plan : Plan F V) (w : World F V)
      → is_empty plan.superseded ≡ false
      → IsFlipped plan w (write_superseding env decimal plan w)
  unfolding write_superseding upsert
  write_superseding-IsFlipped plan w h = elim (flip-cases env 3 plan.superseded [] w) [
    | inl (a, b) ↦
        let w1 = (flip env 3 plan.superseded [] w).1 in
        let add = add_facts plan.supersede_points in
        rw (h, a)
          (elim (store_write-fails env add w1) [
            | inl (e, f) ↦ inl (
              e,
              ap (λ c. c.fact_points) (store_write-ok env add w1 e ∙ ap add b),
              demoted plan.superseded w.collections.fact_points,
            )
            | inr (x, e, f) ↦
                inr (x, e, inr (ap (λ c. c.fact_points) (store_write-err env add w1 e ∙ b)))
          ])
    | inr (x, a, b) ↦ rw (h, a) (inr (_, refl, inl (ap (λ c. c.fact_points) b)))
  ]
