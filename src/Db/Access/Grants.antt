-- ===== src/Db/Access/Grants.antt =====
-- The grants as a set, and the aliases as a map.
use ultramem.Prelude.{
  Text, same, same_iff, true, false, not, List, [], ◌∷◌, any, find, Mem-filter, Mem-filter_intro,
  any-Mem, Option, some, none, ◌≡◌, refl, sym, ap, subst, ◌∙◌, ◌↔◌, ◌⊎◌, Memᴰ, &&_split, &&_intro,
  Bool-cases, inl, inr, arith, true-false, if◌then◌else◌,
}
use ultramem.Prelude.Mem
use ultramem.Db.Rows.{AclEntry, AliasEntry}
use ultramem.Db.Access.{same_grant, insert_grant, delete_grant, same_alias, upsert_alias}

-- Two entries that grant the same; who made the grant and when do not count.
abbrev pub GrantsSame : AclEntry → AclEntry → Type 0
GrantsSame e a = (a.principal ≡ e.principal) × (a.scope ≡ e.scope) × (a.capability ≡ e.capability)

same_grant_iff : (e a : AclEntry) → (same_grant e a ≡ true) ↔ GrantsSame e a
unfolding same_grant
same_grant_iff e a = (
  λ h.
      let (ab, c) = &&_split _ _ h in
      let (a₁, b) = &&_split _ _ ab in
      ((same_iff _ _).0 a₁, (same_iff _ _).0 b, (same_iff _ _).0 c),
  λ (p, s, c).
      &&_intro _ _ (&&_intro _ _ ((same_iff _ _).1 p) ((same_iff _ _).1 s)) ((same_iff _ _).1 c),
)

-- The list grants what `e` grants.
abbrev pub HasGrant : AclEntry → List AclEntry → Type 0
HasGrant e acls = (a : AclEntry) × Memᴰ a acls × GrantsSame e a

GrantsSame-trans : (e a q : AclEntry) → GrantsSame e a → GrantsSame q e → GrantsSame q a
GrantsSame-trans e a q (p, s, c) (p', s', c') = (p ∙ p', s ∙ s', c ∙ c')

GrantsSame-sym : (e a : AclEntry) → GrantsSame e a → GrantsSame a e
GrantsSame-sym e a (p, s, c) = (sym p, sym s, sym c)

-- After a grant, what is granted is what was and the new entry's grant.
pub HasGrant-insert_grant :
    (e q : AclEntry) (acls : List AclEntry)
    → HasGrant q (insert_grant e acls) ↔ (HasGrant q acls ⊎ GrantsSame q e)
unfolding insert_grant
HasGrant-insert_grant e q acls = elim (Bool-cases (any (same_grant e) acls)) [
  | inl h ↦ rw h (
    (λ g. inl g),
    λ s. elim s [
      | inl g ↦ g
      | inr g ↦
          let (a, m, k) = any-Mem (same_grant e) acls h in
          (a, m, GrantsSame-trans e a q ((same_grant_iff e a).0 k) g)
    ],
  )
  | inr h ↦ rw h (
    (λ (a, m, g). elim (Mem.append_cases acls m) [
      | inl k ↦ inl (a, k, g)
      | inr k ↦ inr (subst (GrantsSame q) (Mem.eq_of_singleton k) g)
    ]),
    λ s. elim s [
      | inl (a, m, g) ↦ (a, Mem.append_left (e ∷ []) m, g)
      | inr g ↦ (e, Mem.append_right acls (Memᴰ.head refl), g)
    ],
  )
]

-- After a revocation, what is granted is what was, less the entry's grant.
pub HasGrant-delete_grant :
    (e q : AclEntry) (acls : List AclEntry)
    → HasGrant q (delete_grant e acls) ↔ (HasGrant q acls × (¬ GrantsSame q e))
unfolding delete_grant
HasGrant-delete_grant e q acls = (
  λ (a, m, g).
      let (k, n) = Mem-filter (λ a. not (same_grant e a)) acls m in
      (
        (a, k, g),
        λ s.
            true-false ((same_grant_iff e a).1 (GrantsSame-trans q a e g (GrantsSame-sym q e s)))
              (ground (arith, n)),
      ),
  λ ((a, m, g), n). (
    a,
    Mem-filter_intro (λ a. not (same_grant e a)) acls m
        (elim (Bool-cases (same_grant e a)) [
          | inl h ↦
              absurd (n (GrantsSame-trans a e q (GrantsSame-sym e a ((same_grant_iff e a).0 h)) g))
          | inr h ↦ rw h
        ]),
    g,
  ),
)

-- The canonical name that the list gives the alias of `q`.
abbrev canonical_name : Option AliasEntry → Option Text
canonical_name none = none
canonical_name (some a) = some a.canonical

unfoldable pub canonical_of : AliasEntry → List AliasEntry → Option Text
unfolding same_alias
canonical_of q aliases = canonical_name (find (same_alias q) aliases)

-- Registering an alias again replaces its canonical name; the other aliases keep theirs.
pub canonical_of-upsert_alias :
    (e q : AliasEntry) (aliases : List AliasEntry)
    → canonical_of q (upsert_alias e aliases)
      ≡ (if same_alias q e then some e.canonical else canonical_of q aliases)
unfolding upsert_alias same_alias canonical_of
canonical_of-upsert_alias e q [] = ground arith
canonical_of-upsert_alias e q (a ∷ aliases) = elim (Bool-cases (same_alias e a)) [
  | inl h ↦
      let (t, n) = &&_split _ _ h in
      let p = ap (λ x. same x q.container_tag) ((same_iff _ _).0 t) in
      let r = ap (λ x. same x q.alias) ((same_iff _ _).0 n) in rw (h, sym p, sym r) (ground arith)
  | inr h ↦ rw h (elim (Bool-cases (same_alias q a)) [
    | inl k ↦
        let (t, n) = &&_split _ _ k in
        let differs : same_alias q e ≡ false = elim (Bool-cases (same_alias q e)) [
          | inl d ↦
              let (t', n') = &&_split _ _ d in
              absurd (
                true-false
                  (&&_intro _ _ ((same_iff _ _).1 ((same_iff _ _).0 t ∙ sym ((same_iff _ _).0 t')))
                    ((same_iff _ _).1 ((same_iff _ _).0 n ∙ sym ((same_iff _ _).0 n'))))
                  h)
          | inr d ↦ d
        ] in
        rw (differs, k)
    | inr k ↦ rw k (canonical_of-upsert_alias e q aliases)
  ])
]
