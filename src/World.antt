-- ===== src/World.antt =====
-- What the engine acts on: the relational tables, the collections of the vector store, the cache of
-- profiles, and a count of the calls made to what lies outside the program. A call outside may fail at any time, an id
-- and a reading of the clock are fresh at every call: these come from an environment, as functions
-- of the count.
use ultramem.Prelude.{
  ℕ, suc, ℤ, Text, Bool, List, if◌then◌else◌, ◌≡◌, sym, ap, subst, ◌∙◌, inl, inr, ◌⊎◌,
}
use ultramem.Prelude.Result.{Result, ok, err, Result-cases, err≢ok}
use ultramem.Db.Rows.{
  DocumentRow, ChunkRow, MemoryRow, EvidenceRow, JobRow, AclEntry, AliasEntry, AuditEvent,
}
use ultramem.Store.Point.{Point}

-- The tables of crates/ultramem-core/migrations. `F` is the type of a confidence.
pub record Tables (F : Type 0) : Type 0 where
  pub documents : List DocumentRow
  pub chunks : List ChunkRow
  pub memories : List (MemoryRow F)
  pub evidence : List EvidenceRow
  pub jobs : List JobRow
  pub audits : List AuditEvent
  pub acls : List AclEntry
  pub aliases : List AliasEntry

-- The collections that the engine's configuration names. `V` is the type of a vector.
pub record Collections (V : Type 0) : Type 0 where
  pub chunk_points : List (Point V)
  pub fact_points : List (Point V)
  pub graph_points : List (Point V)

-- `Profile` of crates/ultramem-core/src/engine/profile.rs.
pub record Profile : Type 0 where
  pub static_text : Text
  pub dynamic_text : Text

-- `profiles` is the cache of compiled profiles, by namespace, with the time of the compilation.
pub record World (F V : Type 0) : Type 0 where
  pub tables : Tables F
  pub collections : Collections V
  pub profiles : List (Text × (Profile × ℤ))
  pub calls : ℕ

pub record Env : Type 0 where
  pub fails : ℕ → Bool
  pub failure : ℕ → Text
  pub uuid : ℕ → Text
  pub now : ℕ → ℤ

-- An action keeps what it wrote before an error.
abbrev pub Exec : Type 0 → Type 0 → Type 0 → Type 0
Exec F V A = World F V → Result A × World F V

module _ {F V A : Type 0} where
  abbrev pub pure : A → Exec F V A
  pure a w = (ok a, w)

  abbrev pub fail : Text → Exec F V A
  fail e w = (err e, w)

  -- `Err(_) => …` and `let _ = …`: the result is looked at, and no error is passed on.
  abbrev pub attempt : Exec F V A → Exec F V (Result A)
  attempt m w = let (r, w') = m w in (ok r, w')

  -- A call outside: it fails, or does its work on the world, by the environment.
  unfoldable pub outside : Env → Exec F V A → Exec F V A
  outside env m w =
      let w' = record w { calls = suc w.calls } in
      if env.fails w.calls then (err (env.failure w.calls), w') else m w'

module _ {F V A B : Type 0} where
  abbrev pub continue : Result A → (A → Exec F V B) → Exec F V B
  continue (ok a) f w = f a w
  continue (err e) f w = (err e, w)

  infixl 5 ◌>>=◌ ◌>>◌
  abbrev pub ◌>>=◌ : Exec F V A → (A → Exec F V B) → Exec F V B
  ◌>>=◌ m f w = let (r, w') = m w in continue r f w'

  abbrev pub ◌>>◌ : Exec F V A → Exec F V B → Exec F V B
  m >> n = m >>= λ _. n

module _ {F V A B : Type 0} where
  -- An action that ends well went well up to its first step, and then on from there.
  pub bind-ok :
      (m : Exec F V A) (f : A → Exec F V B) (w : World F V) {b : B}
      → ((m >>= f) w).0 ≡ ok b
      → (a : A) × ((m w).0 ≡ ok a) × ((m >>= f) w ≡ f a (m w).1)
  bind-ok m f w h = elim (Result-cases (m w).0) [
    | inl (a, e) ↦ (a, e, ap (λ r. continue r f (m w).1) e)
    | inr (x, e) ↦ absurd (err≢ok (sym (ap (λ r. (continue r f (m w).1).0) e) ∙ h))
  ]

  -- An action ends at its first step, if that fails, or goes on from there.
  pub bind-cases :
      (m : Exec F V A) (f : A → Exec F V B) (w : World F V)
      → ((e : Text) × ((m w).0 ≡ err e) × ((m >>= f) w ≡ (err e, (m w).1)))
        ⊎ ((a : A) × ((m w).0 ≡ ok a) × ((m >>= f) w ≡ f a (m w).1))
  bind-cases m f w = elim (Result-cases (m w).0) [
    | inl (a, e) ↦ inr (a, e, ap (λ r. continue r f (m w).1) e)
    | inr (x, e) ↦ inl (x, e, ap (λ r. continue r f (m w).1) e)
  ]

-- What every step does to the world, and what goes on from one step to the next, an action does.
pub bind-Relates :
    {F V A B : Type 0} (R : World F V → World F V → Type 0)
    → ((u v w : World F V) → R u v → R v w → R u w)
    → (m : Exec F V A) (f : A → Exec F V B) → ((w : World F V) → R w (m w).1)
    → ((a : A) (w : World F V) → R w (f a w).1)
    → (w : World F V) → R w ((m >>= f) w).1
bind-Relates R trans m f h k w = elim (bind-cases m f w) [
  | inl (e, d, q) ↦ subst (λ x. R w x.1) (sym q) (h w)
  | inr (a, d, q) ↦ subst (λ x. R w x.1) (sym q) (trans w (m w).1 _ (h w) (k a (m w).1))
]

-- The action leaves a part of the world as it is, however it ends.
abbrev pub Keeps : {F V A X : Type 0} → (World F V → X) → Exec F V A → Type 0
Keeps {F = F} {V = V} g m = (w : World F V) → g (m w).1 ≡ g w

pub bind-Keeps :
    {F V A B X : Type 0} (g : World F V → X) (m : Exec F V A) (f : A → Exec F V B)
    → Keeps g m
    → ((a : A) → Keeps g (f a))
    → Keeps g (m >>= f)
bind-Keeps g m f h k w = elim (bind-cases m f w) [
  | inl (e, d, q) ↦ ap (λ x. g x.1) q ∙ h w
  | inr (a, d, q) ↦ ap (λ x. g x.1) q ∙ k a (m w).1 ∙ h w
]

module _ {F V : Type 0} (env : Env) where
  -- `Uuid::new_v4()` and `Utc::now().timestamp()`.
  unfoldable pub new_uuid : Exec F V Text
  new_uuid w = (ok (env.uuid w.calls), record w { calls = suc w.calls })

  unfoldable pub read_clock : Exec F V ℤ
  read_clock w = (ok (env.now w.calls), record w { calls = suc w.calls })
