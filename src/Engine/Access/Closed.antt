-- ===== src/Engine/Access/Closed.antt =====
-- Access at the engine: it fails closed, and a grant and a revocation take effect.
use ultramem.Prelude.{
  suc, pos, ◌↔◌, Text, codes, contains-Mem, same, same_iff, true, List, [], ◌∷◌, filter, head?,
  Mem-filter_intro, some, ◌≡◌, refl, sym, ap, subst, ◌∙◌, ◌⊎◌, Memᴰ, Bool-cases, inl, inr,
}
use ultramem.Prelude.Mem
use ultramem.Prelude.Result.{ok, Result-cases, err≢ok, ok_inj, or_default}
use ultramem.World.{World, Env, read_clock}
use ultramem.Db.Statement.{query, statement-ok}
use ultramem.Db.Rows.{AclEntry}
use ultramem.Db.Access.{grant_acl, revoke_acl, insert_grant, delete_grant, acls_for_principal}
use ultramem.Db.Access.Grants.{GrantsSame, HasGrant, HasGrant-insert_grant, HasGrant-delete_grant}
use ultramem.Scope.{capabilities, is_valid_capability, visible_scopes}
use ultramem.Scope.Visible.{Grants, can_read_iff, can_read-Mem, visible_scopes-Distinct}
use ultramem.Engine.{Engine}
use ultramem.Engine.Access.{visible_scopes_for, acl_grant, acl_revoke}

module _ {F V : Type 0} (env : Env) where
  -- The grants to a principal, in the tables.
  abbrev pub acls_to : Text → World F V → List AclEntry
  acls_to tag w = filter (λ a. same a.principal tag) w.tables.acls

  acls_for_principal-ok :
      (tag : Text) (w : World F V) (acls : List AclEntry)
      → (acls_for_principal env tag w).0 ≡ ok acls
      → acls ≡ acls_to tag w
  unfolding acls_for_principal query
  acls_for_principal-ok tag w acls h = sym (
      ap (λ x. x.0)
        (ok_inj (
          statement-ok env (codes "acls_for_principal")
            (λ t. ok (filter (λ (a : AclEntry). same a.principal tag) t.acls, t)) w h)))

  granted-cases :
      (tag : Text) (w : World F V)
      → (or_default (acls_for_principal env tag w).0 [] ≡ acls_to tag w)
        ⊎ (or_default (acls_for_principal env tag w).0 [] ≡ [])
  granted-cases tag w = elim (Result-cases (acls_for_principal env tag w).0) [
    | inl (acls, e) ↦ inl (ap (λ r. or_default r []) e ∙ acls_for_principal-ok tag w acls e)
    | inr (x, e) ↦ inr (ap (λ r. or_default r []) e)
  ]

  Closed : Text → World F V → List Text → Type 0
  Closed tag w scopes =
      (head? scopes ≡ some tag)
      × ((scope : Text) → Memᴰ scope scopes → (scope ≡ tag) ⊎ Grants scope (acls_to tag w))

  scopes-Closed :
      (tag : Text) (w : World F V) (acls : List AclEntry)
      → (acls ≡ acls_to tag w) ⊎ (acls ≡ [])
      → Closed tag w (visible_scopes tag acls)
  unfolding Closed
  scopes-Closed tag w acls h = (
    (visible_scopes-Distinct tag acls).0,
    λ scope m. elim ((can_read_iff tag scope acls).0 ((can_read-Mem tag scope acls).1 m)) [
      | inl e ↦ inl e
      | inr g ↦ elim h [
        | inl e ↦ inr (subst (Grants scope) e g)
        | inr e ↦ absurd (Mem.not-nil ((subst (Grants scope) e g).1))
      ]
    ],
  )

  -- The engine always answers with scopes that begin with the namespace itself, and beyond it only
  -- with scopes on which the tables hold a grant of a recognised capability to it, also when the
  -- relational store fails or is not there.
  pub visible_scopes_for-closed :
      (engine : Engine) (tag : Text) (w : World F V)
      → (scopes : List Text) × ((visible_scopes_for env engine tag w).0 ≡ ok scopes)
        × (head? scopes ≡ some tag)
        × ((scope : Text) → Memᴰ scope scopes → (scope ≡ tag) ⊎ Grants scope (acls_to tag w))
  unfolding visible_scopes_for Closed
  visible_scopes_for-closed engine tag w = elim (Bool-cases engine.db) [
    | inl e ↦
        let acls = or_default (acls_for_principal env tag w).0 [] in
        let (h, k) = scopes-Closed tag w acls (granted-cases tag w) in
        (visible_scopes tag acls, rw e, h, k)
    | inr e ↦ (tag ∷ [], rw e, refl, λ scope m. inl (Mem.eq_of_singleton m))
  ]

  -- What `acl_grant` grants at the call.
  abbrev pub granted_entry : Text → Text → Text → World F V → AclEntry
  granted_entry principal scope capability w = record {
    principal = principal;
    scope = scope;
    capability = capability;
    created_at = env.now w.calls;
  }

  acl_grant-ok :
      (engine : Engine) (principal scope capability : Text) (w : World F V)
      → (acl_grant env engine principal scope capability w).0 ≡ ok tt
      → (is_valid_capability capability ≡ true)
        × ((acl_grant env engine principal scope capability w).1.tables.acls
            ≡ insert_grant (granted_entry principal scope capability w) w.tables.acls)
  unfolding acl_grant grant_acl read_clock
  acl_grant-ok engine principal scope capability w h =
      let e = granted_entry principal scope capability w in
      elim (Bool-cases (is_valid_capability capability)) [
        | inr failed ↦ absurd (err≢ok (rw failed at h))
        | inl valid ↦ elim (Bool-cases engine.db) [
          | inr failed ↦ absurd (err≢ok (rw (valid, failed) at h))
          | inl db ↦ (
            valid,
            rw (valid, db)
                (ap (λ x. x.1.acls)
                  (sym (
                    ok_inj (
                      statement-ok env (codes "grant_acl")
                        (λ t. ok (tt, record t { acls = insert_grant e t.acls }))
                        (record w { calls = suc w.calls }) (rw (valid, db) at h))))),
          )
        ]
      ]

  -- After a grant that succeeded, a lookup of the principal's grants that succeeds shows the scope
  -- to it.
  pub acl_grant-visible :
      (engine : Engine) (principal scope capability : Text) (w : World F V) (acls : List AclEntry)
      → (acl_grant env engine principal scope capability w).0 ≡ ok tt
      → (acls_for_principal env principal (acl_grant env engine principal scope capability w).1).0
        ≡ ok acls
      → Memᴰ scope (visible_scopes principal acls)
  unfolding is_valid_capability
  acl_grant-visible engine principal scope capability w acls h k =
      let w' = (acl_grant env engine principal scope capability w).1 in
      let e = granted_entry principal scope capability w in
      let (valid, t) = acl_grant-ok engine principal scope capability w h in
      let (a, m, (p, s, c)) =
        (HasGrant-insert_grant e e w.tables.acls).1 (inr (refl, refl, refl)) in
      let there =
        Mem-filter_intro (λ (a : AclEntry). same a.principal principal) w'.tables.acls
          (subst (Memᴰ a) (sym t) m) ((same_iff a.principal principal).1 p) in
      (can_read-Mem principal scope acls).0 (
        (can_read_iff principal scope acls).1 (
          inr (
            (
              a,
              subst (Memᴰ a) (sym (acls_for_principal-ok principal w' acls k)) there,
              s,
              subst (λ x. Memᴰ x capabilities) (sym c) (contains-Mem capabilities capability valid),
            ))))

  -- A revocation that succeeded takes away that grant, and no other.
  pub acl_revoke-HasGrant :
      (engine : Engine) (q : AclEntry) (principal scope capability : Text) (w : World F V)
      → (acl_revoke env engine principal scope capability w).0 ≡ ok tt
      → HasGrant q (acl_revoke env engine principal scope capability w).1.tables.acls ↔ (
          HasGrant q w.tables.acls
          × (¬ ((principal ≡ q.principal) × (scope ≡ q.scope) × (capability ≡ q.capability))))
  unfolding acl_revoke revoke_acl
  acl_revoke-HasGrant engine q principal scope capability w h =
      let e : AclEntry = record {
        principal = principal;
        scope = scope;
        capability = capability;
        created_at = pos 0;
      } in
      elim (Bool-cases engine.db) [
        | inr failed ↦ absurd (err≢ok (rw failed at h))
        | inl db ↦ rw db (
            subst (λ x. HasGrant q x ↔ (HasGrant q w.tables.acls × (¬ GrantsSame q e)))
              (ap (λ x. x.1.acls)
                (ok_inj (
                  statement-ok env (codes "revoke_acl")
                    (λ t. ok (tt, record t { acls = delete_grant e t.acls })) w (rw db at h))))
              (HasGrant-delete_grant e q w.tables.acls))
      ]
