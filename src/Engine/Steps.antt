-- ===== src/Engine/Steps.antt =====
-- What the calls of the stores and the audit leave as it is.
use ultramem.Prelude.{Text, codes, List, Option, ◌≡◌, sym, ap, ◌∙◌, Bool-cases, ◌⊎◌, inl, inr}
use ultramem.Prelude.Result.{ok, err, err≢ok, ok_inj}
use ultramem.World.{Tables, Collections, World, Env, outside, Keeps, read_clock}
use ultramem.Db.Rows.{AuditEvent}
use ultramem.Db.Statement.{statement-collections, statement-keeps}
use ultramem.Db.Journal.{insert_audit}
use ultramem.Engine.{Engine, store_write, store_read, audit}

module _ {F V : Type 0} (env : Env) where
  pub store_write-tables :
      (f : Collections V → Collections V) → Keeps {F = F} (λ w. w.tables) (store_write env f)
  unfolding store_write outside
  store_write-tables f w = elim (Bool-cases (env.fails w.calls)) [ inl e ↦ rw e | inr e ↦ rw e ]

  pub store_write-ok :
      (f : Collections V → Collections V) (w : World F V)
      → (store_write env f w).0 ≡ ok tt
      → (store_write env f w).1.collections ≡ f w.collections
  unfolding store_write outside
  store_write-ok f w h = elim (Bool-cases (env.fails w.calls)) [
    | inl e ↦ absurd (err≢ok (rw e at h))
    | inr e ↦ rw e
  ]

  pub store_write-cases :
      (f : Collections V → Collections V) (w : World F V)
      → ((store_write env f w).1.collections ≡ w.collections)
        ⊎ ((store_write env f w).1.collections ≡ f w.collections)
  unfolding store_write outside
  store_write-cases f w = elim (Bool-cases (env.fails w.calls)) [
    | inl e ↦ inl (rw e)
    | inr e ↦ inr (rw e)
  ]

  -- A call that fails wrote nothing.
  pub store_write-err :
      (f : Collections V → Collections V) (w : World F V) {e : Text}
      → (store_write env f w).0 ≡ err e
      → (store_write env f w).1.collections ≡ w.collections
  unfolding store_write outside
  store_write-err f w h = elim (Bool-cases (env.fails w.calls)) [
    | inl e ↦ rw e
    | inr e ↦ absurd (err≢ok (sym (rw e at h)))
  ]

  pub audit-collections :
      (engine : Engine) (tag action : Text) (target : Option Text)
      → Keeps {F = F} {V = V} (λ w. w.collections) (audit env engine tag action target)
  unfolding audit insert_audit read_clock
  audit-collections engine tag action target w = elim (Bool-cases engine.db) [
    | inl e ↦ rw e (statement-collections env (codes "insert_audit") _ _)
    | inr e ↦ rw e
  ]

  -- The audit writes no table but its own.
  pub audit-tables :
      {X : Type 0} (g : Tables F → X)
      → ((t : Tables F) (audits : List AuditEvent) → g (record t { audits = audits }) ≡ g t)
      → (engine : Engine) (tag action : Text) (target : Option Text)
      → Keeps {F = F} {V = V} (λ w. g w.tables) (audit env engine tag action target)
  unfolding audit insert_audit read_clock
  audit-tables g h engine tag action target w = elim (Bool-cases engine.db) [
    | inl e ↦ rw e (
        statement-keeps env (codes "insert_audit") _ _ g
          (λ a t q. sym (ap (λ x. g x.1) (ok_inj q)) ∙ h w.tables _))
    | inr e ↦ rw e
  ]

  pub store_read-tables :
      {A : Type 0} (f : Collections V → A) → Keeps {F = F} (λ w. w.tables) (store_read env f)
  unfolding store_read outside
  store_read-tables f w = elim (Bool-cases (env.fails w.calls)) [ inl e ↦ rw e | inr e ↦ rw e ]

  pub store_read-collections :
      {A : Type 0} (f : Collections V → A) → Keeps {F = F} (λ w. w.collections) (store_read env f)
  unfolding store_read outside
  store_read-collections f w = elim (Bool-cases (env.fails w.calls)) [ inl e ↦ rw e | inr e ↦ rw e ]

  pub store_read-ok :
      {A : Type 0} (f : Collections V → A) (w : World F V) {a : A}
      → (store_read env f w).0 ≡ ok a
      → a ≡ f w.collections
  unfolding store_read outside
  store_read-ok f w h = elim (Bool-cases (env.fails w.calls)) [
    | inl e ↦ absurd (err≢ok (rw e at h))
    | inr e ↦ sym (ok_inj (rw e at h))
  ]
