-- ===== src/Scope/Visible.antt =====
-- What `visible_scopes`, `can_read` and `can_promote` decide.
use ultramem.Prelude.{
  Text, codes, same, same_iff, same_refl, same_comm, ◌∙◌, contains, contains-Mem, contains_intro,
  not-contains, Distinct, Distinct-concat, true, ◌&&◌, not, List, [], ◌∷◌, ◌++◌, head?, some,
  any-Mem, any_intro, ◌≡◌, refl, sym, ap, subst, ◌↔◌, ◌⊎◌, inl, inr, Memᴰ, Bool-cases, &&_false,
  &&_split, ||_split, if◌then◌else◌, arith,
}
use ultramem.Prelude.Mem
use ultramem.Db.Rows.{AclEntry}
use ultramem.Scope.{
  capabilities, is_valid_capability, grants_read, principal_reads_here, visible_from,
  visible_scopes, can_read, confers_promote, can_promote,
}

-- A grant on the scope with a capability that the system recognises.
abbrev pub Grants : Text → List AclEntry → Type 0
Grants scope acls =
    (a : AclEntry) × Memᴰ a acls × (a.scope ≡ scope) × Memᴰ a.capability capabilities

-- A grant to the principal, on the scope, of the capability `promote` or `admin`.
abbrev pub GrantsPromote : Text → Text → List AclEntry → Type 0
GrantsPromote principal scope acls =
    (a : AclEntry) × Memᴰ a acls
    × (a.principal ≡ principal)
    × (a.scope ≡ scope)
    × ((a.capability ≡ codes "promote") ⊎ (a.capability ≡ codes "admin"))

-- The capabilities that grant reading are those that the admin boundary accepts.
grants_read-eq : (c : Text) → grants_read c ≡ is_valid_capability c
unfolding grants_read is_valid_capability contains
grants_read-eq c = ground (
  arith,
  same_comm c (codes "read"),
  same_comm c (codes "write"),
  same_comm c (codes "promote"),
  same_comm c (codes "admin"),
)

reads-Mem : (a : AclEntry) → principal_reads_here a ≡ true → Memᴰ a.capability capabilities
unfolding principal_reads_here is_valid_capability
reads-Mem a h = contains-Mem capabilities a.capability (sym (grants_read-eq a.capability) ∙ h)

reads_intro : (a : AclEntry) → Memᴰ a.capability capabilities → principal_reads_here a ≡ true
unfolding principal_reads_here is_valid_capability
reads_intro a m = grants_read-eq a.capability ∙ contains_intro capabilities m

widen :
    (scope : Text) (a : AclEntry) (acls : List AclEntry)
    → Grants scope acls
    → Grants scope (a ∷ acls)
widen scope a acls (b, m, e, c) = (b, Memᴰ.tail m, e, c)

-- The loop adds only scopes with a reading grant.
visible_from_sound :
    (scope : Text) (out : List Text) (acls : List AclEntry)
    → Memᴰ scope (visible_from out acls)
    → Memᴰ scope out ⊎ Grants scope acls
unfolding visible_from
visible_from_sound scope out [] m = inl m
visible_from_sound scope out (a ∷ acls) m =
    elim (Bool-cases (principal_reads_here a && not (contains out a.scope))) [
      | inl e ↦ elim (visible_from_sound scope (out ++ a.scope ∷ []) acls (rw e at m)) [
        | inl k ↦ elim (Mem.append_cases out k) [
          | inl old ↦ inl old
          | inr new ↦
              inr
                ((a, Memᴰ.head refl, sym (Mem.eq_of_singleton new), reads-Mem a (&&_split _ _ e).0))
        ]
        | inr g ↦ inr (widen scope a acls g)
      ]
      | inr e ↦ elim (visible_from_sound scope out acls (rw e at m)) [
        | inl k ↦ inl k
        | inr g ↦ inr (widen scope a acls g)
      ]
    ]

-- The loop keeps what it has found.
visible_from-keeps :
    (scope : Text) (out : List Text) (acls : List AclEntry)
    → Memᴰ scope out
    → Memᴰ scope (visible_from out acls)
unfolding visible_from
visible_from-keeps scope out [] m = m
visible_from-keeps scope out (a ∷ acls) m =
    elim (Bool-cases (principal_reads_here a && not (contains out a.scope))) [
      | inl e ↦ rw e (visible_from-keeps scope (out ++ a.scope ∷ []) acls (Mem.append_left _ m))
      | inr e ↦ rw e (visible_from-keeps scope out acls m)
    ]

-- The loop misses no scope with a reading grant.
visible_from-complete :
    (scope : Text) (out : List Text) (acls : List AclEntry)
    → Grants scope acls
    → Memᴰ scope (visible_from out acls)
unfolding visible_from
visible_from-complete scope out [] (b, m, e, c) = elim m [ ]
visible_from-complete scope out (a ∷ acls) (b, Memᴰ.tail m, e, c) =
    visible_from-complete scope
      (if principal_reads_here a && not (contains out a.scope) then out ++ a.scope ∷ [] else out)
      acls (b, m, e, c)
visible_from-complete scope out (a ∷ acls) (b, Memᴰ.head q, e, c) =
    elim (Bool-cases (contains out a.scope)) [
      | inl old ↦ visible_from-keeps scope _ acls (
          rw (old, &&_false (principal_reads_here a))
            (subst (λ s. Memᴰ s out) here (contains-Mem out a.scope old)))
      | inr new ↦
          visible_from-keeps scope _ acls
            (rw (new, reads_intro a granted) (Mem.append_right out (Memᴰ.head (sym here))))
    ]
  where
    here : a.scope ≡ scope
    here = ap (λ (x : AclEntry). x.scope) (sym q) ∙ e

    granted : Memᴰ a.capability capabilities
    granted = subst (λ (x : AclEntry). Memᴰ x.capability capabilities) q c

visible_from-Distinct :
    (out : List Text) (acls : List AclEntry) → Distinct out → Distinct (visible_from out acls)
unfolding visible_from
visible_from-Distinct out [] d = d
visible_from-Distinct out (a ∷ acls) d =
    elim (Bool-cases (principal_reads_here a && not (contains out a.scope))) [
      | inl e ↦ rw e (
          visible_from-Distinct (out ++ a.scope ∷ []) acls
            (Distinct-concat out a.scope d (not-contains out a.scope (ground arith))))
      | inr e ↦ rw e (visible_from-Distinct out acls d)
    ]

visible_from-head :
    (own : Text) (out : List Text) (acls : List AclEntry)
    → (rest : List Text) × (visible_from (own ∷ out) acls ≡ own ∷ rest)
unfolding visible_from
visible_from-head own out [] = (out, refl)
visible_from-head own out (a ∷ acls) =
    elim (Bool-cases (principal_reads_here a && not (contains (own ∷ out) a.scope))) [
      | inl e ↦ rw e (visible_from-head own (out ++ a.scope ∷ []) acls)
      | inr e ↦ rw e (visible_from-head own out acls)
    ]

pub can_read-Mem :
    (own scope : Text) (acls : List AclEntry)
    → (can_read own scope acls ≡ true) ↔ Memᴰ scope (visible_scopes own acls)
unfolding can_read
can_read-Mem own scope acls = (
  λ h.
      let (s, m, e) = any-Mem (λ s. same s scope) (visible_scopes own acls) h in
      subst (λ t. Memᴰ t (visible_scopes own acls)) ((same_iff s scope).0 e) m,
  λ m. any_intro (λ s. same s scope) (visible_scopes own acls) m (same_refl scope),
)

pub visible_scopes-cons :
    (own : Text) (acls : List AclEntry)
    → (rest : List Text) × (visible_scopes own acls ≡ own ∷ rest)
unfolding visible_scopes
visible_scopes-cons own acls = visible_from-head own [] acls

-- A principal may read exactly its own scope and the scopes on which one of the given grants has a
-- recognised capability.
pub can_read_iff :
    (own scope : Text) (acls : List AclEntry)
    → (can_read own scope acls ≡ true) ↔ ((scope ≡ own) ⊎ Grants scope acls)
unfolding visible_scopes
can_read_iff own scope acls = (sound, complete)
  where
    sound : can_read own scope acls ≡ true → (scope ≡ own) ⊎ Grants scope acls
    sound h = elim (visible_from_sound scope (own ∷ []) acls ((can_read-Mem own scope acls).0 h)) [
      | inl k ↦ inl (Mem.eq_of_singleton k)
      | inr g ↦ inr g
    ]

    complete : (scope ≡ own) ⊎ Grants scope acls → can_read own scope acls ≡ true
    complete (inl e) =
        (can_read-Mem own scope acls).1 (visible_from-keeps scope (own ∷ []) acls (Memᴰ.head e))
    complete (inr g) =
        (can_read-Mem own scope acls).1 (visible_from-complete scope (own ∷ []) acls g)

-- The visible scopes begin with the principal's own scope, and no scope occurs twice.
pub visible_scopes-Distinct :
    (own : Text) (acls : List AclEntry)
    → (head? (visible_scopes own acls) ≡ some own) × Distinct (visible_scopes own acls)
unfolding visible_scopes
visible_scopes-Distinct own acls =
    (rw (visible_scopes-cons own acls).1, visible_from-Distinct (own ∷ []) acls (Mem.not-nil, tt))

-- A principal may promote into a scope exactly if one of the grants is to that principal, on that
-- scope, and of the capability `promote` or `admin`.
pub can_promote_iff :
    (principal scope : Text) (acls : List AclEntry)
    → (can_promote principal scope acls ≡ true) ↔ GrantsPromote principal scope acls
unfolding can_promote
can_promote_iff principal scope acls = (sound, complete)
  where
    sound : can_promote principal scope acls ≡ true → GrantsPromote principal scope acls
    sound h =
        let (a, m, e) = any-Mem (confers_promote principal scope) acls h in
        let (who, what) = &&_split _ _ e in
        let (p, s) = &&_split _ _ who in
        (
          a,
          m,
          (same_iff a.principal principal).0 p,
          (same_iff a.scope scope).0 s,
          elim (||_split _ _ what) [
            | inl c ↦ inl ((same_iff a.capability (codes "promote")).0 c)
            | inr c ↦ inr ((same_iff a.capability (codes "admin")).0 c)
          ],
        )

    complete : GrantsPromote principal scope acls → can_promote principal scope acls ≡ true
    complete (a, m, p, s, c) = any_intro (confers_promote principal scope) acls m (
        ground (
          arith,
          same_iff a.principal principal,
          same_iff a.scope scope,
          same_iff a.capability (codes "promote"),
          same_iff a.capability (codes "admin"),
        ))

-- Whoever may promote into a scope may read it.
pub can_promote-can_read :
    (principal scope : Text) (acls : List AclEntry)
    → can_promote principal scope acls ≡ true
    → can_read principal scope acls ≡ true
can_promote-can_read principal scope acls h =
    let (a, m, _, s, c) = (can_promote_iff principal scope acls).0 h in
    (can_read_iff principal scope acls).1 (
      inr (
        (
          a,
          m,
          s,
          elim c [
            | inl e ↦ Memᴰ.tail (Memᴰ.tail (Memᴰ.head e))
            | inr e ↦ Memᴰ.tail (Memᴰ.tail (Memᴰ.tail (Memᴰ.head e)))
          ],
        )))
