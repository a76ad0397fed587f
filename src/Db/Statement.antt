-- ===== src/Db/Statement.antt =====
-- crates/ultramem-core/src/db/pg.rs: one SQL statement. It fails as a whole, with the database's
-- message behind the operation's name, or does what its text says to the tables; a query without
-- `order by` gives its rows in the order of the table.
use ultramem.Prelude.{
  suc, Bool, true, false, ℤ, ltb_ℤ, clamp_nonneg, pos, Text, codes, ◌++◌, List, take, if◌then◌else◌,
  ◌≡◌, refl, sym, ap, inl, inr,
}
use ultramem.Prelude.Result.{Result, Result-cases, ok, err, err≢ok, ok_inj}
use ultramem.World.{Tables, World, Env, Exec, outside}

-- `map_err(|e| format!("{name} failed: {e}"))`
abbrev pub label {ℓ} : {A : Type ℓ} → Text → Result A → Result A
label name (ok a) = ok a
label name (err e) = err (name ++ codes " failed: " ++ e)

module _ {F V A : Type 0} where
  abbrev pub commit : World F V → Result (A × Tables F) → Result A × World F V
  commit w (ok (a, t)) = (ok a, record w { tables = t })
  commit w (err e) = (err e, w)

  unfoldable pub statement : Env → Text → (Tables F → Result (A × Tables F)) → Exec F V A
  statement env name f w =
      let (r, w') = outside env (λ v. commit v (f v.tables)) w in (label name r, w')

  -- A statement that only reads.
  unfoldable pub query : Env → Text → (Tables F → A) → Exec F V A
  unfolding statement
  query env name f = statement env name (λ t. ok (f t, t))

module _ {F V A : Type 0} where
  done-ok :
      (b : Bool) (name x : Text) (r : Result (A × Tables F)) (w : World F V) {a : A}
      → label name (if b then (err x, w) else commit w r).0 ≡ ok a
      → r ≡ ok (a, (if b then (err x, w) else commit w r).1.tables)
  done-ok true name x r w h = absurd (err≢ok h)
  done-ok false name x (ok (a, t)) w h = ap (λ z. ok (z, t)) (ok_inj h)
  done-ok false name x (err e) w h = absurd (err≢ok h)

  done-err :
      (b : Bool) (name x : Text) (r : Result (A × Tables F)) (w : World F V) {e : Text}
      → label name (if b then (err x, w) else commit w r).0 ≡ err e
      → (if b then (err x, w) else commit w r).1.tables ≡ w.tables
  done-err true name x r w h = refl
  done-err false name x (ok (a, t)) w h = absurd (err≢ok (sym h))
  done-err false name x (err e) w h = refl

  done-collections :
      (b : Bool) (x : Text) (r : Result (A × Tables F)) (w : World F V)
      → (if b then (err x, w) else commit w r).1.collections ≡ w.collections
  done-collections true x r w = refl
  done-collections false x (ok (a, t)) w = refl
  done-collections false x (err e) w = refl

module _ {F V A : Type 0} (env : Env) (name : Text) (f : Tables F → Result (A × Tables F))
    (w : World F V) where
  after : World F V
  after = record w { calls = suc w.calls }

  -- A statement that succeeds did its work on the tables, whole.
  pub statement-ok :
      {a : A}
      → (statement env name f w).0 ≡ ok a
      → f w.tables ≡ ok (a, (statement env name f w).1.tables)
  unfolding statement outside after
  statement-ok h = done-ok (env.fails w.calls) name (env.failure w.calls) (f w.tables) after h

  -- A statement that fails leaves the tables as they were.
  pub statement-err :
      {e : Text} → (statement env name f w).0 ≡ err e → (statement env name f w).1.tables ≡ w.tables
  unfolding statement outside after
  statement-err h = done-err (env.fails w.calls) name (env.failure w.calls) (f w.tables) after h

  pub statement-collections : (statement env name f w).1.collections ≡ w.collections
  unfolding statement outside after
  statement-collections =
      done-collections (env.fails w.calls) (env.failure w.calls) (f w.tables) after

  -- What the work of a statement leaves as it is, the statement leaves as it is.
  pub statement-keeps :
      {X : Type 0} (g : Tables F → X)
      → ((a : A) (t : Tables F) → f w.tables ≡ ok (a, t) → g t ≡ g w.tables)
      → g (statement env name f w).1.tables ≡ g w.tables
  statement-keeps g h = elim (Result-cases (statement env name f w).0) [
    | inl (a, e) ↦ h a (statement env name f w).1.tables (statement-ok e)
    | inr (x, e) ↦ ap g (statement-err e)
  ]

module _ {F V A : Type 0} (env : Env) (name : Text) (f : Tables F → A) (w : World F V) where
  pub query-ok : {a : A} → (query env name f w).0 ≡ ok a → a ≡ f w.tables
  unfolding query
  query-ok h = sym (ap (λ x. x.0) (ok_inj (statement-ok env name (λ t. ok (f t, t)) w h)))

  pub query-tables : (query env name f w).1.tables ≡ w.tables
  unfolding query
  query-tables =
      statement-keeps env name (λ t. ok (f t, t)) w (λ t. t)
        (λ a t e. sym (ap (λ x. x.1) (ok_inj e)))

  pub query-collections : (query env name f w).1.collections ≡ w.collections
  unfolding query
  query-collections = statement-collections env name (λ t. ok (f t, t)) w

-- `limit $n`: a negative limit is an error.
unfoldable pub negative_limit : Text
negative_limit = codes "LIMIT must not be negative"

abbrev pub limited {ℓ} : {A : Type ℓ} → ℤ → List A → Result (List A)
limited n rows = if ltb_ℤ n (pos 0) then err negative_limit else ok (take (clamp_nonneg n) rows)

-- An insertion that a constraint refuses.
unfoldable pub unique_violation : Text
unique_violation = codes "duplicate key value violates unique constraint"

unfoldable pub foreign_key_violation : Text
foreign_key_violation = codes "insert violates foreign key constraint"

abbrev pub with_tables : {F A : Type 0} → Tables F → Result A → Result (A × Tables F)
with_tables t (ok a) = ok (a, t)
with_tables t (err e) = err e

abbrev pub and_tables : {F A : Type 0} → (A → Tables F) → Result A → Result (Unit {0} × Tables F)
and_tables f (ok a) = ok (tt, f a)
and_tables f (err e) = err e
