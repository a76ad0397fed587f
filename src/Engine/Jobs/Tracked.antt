-- ===== src/Engine/Jobs/Tracked.antt =====
-- Reading a job back.
use ultramem.Prelude.{
  Text, codes, same_iff, same_option, true, find, find-Mem, Option, none, some, ◌≡◌, sym, ap, ◌∙◌,
  Memᴰ, Bool-cases, inl, inr, &&_split,
}
use ultramem.Prelude.Result.{ok, Result-cases, ok_inj, or_default}
use ultramem.World.{World, Env}
use ultramem.Db.Rows.{JobRow}
use ultramem.Db.Statement.{query-ok}
use ultramem.Db.Journal.{job_of, get_job}
use ultramem.Engine.{Engine}
use ultramem.Engine.Jobs.{job_get}

job_of_sound :
    (id tag : Text) (j : JobRow)
    → job_of id tag j ≡ true
    → (j.id ≡ id) × (j.container_tag ≡ some tag)
unfolding job_of same_option
job_of_sound id tag j h =
    let (a, b) = &&_split _ _ h in ((same_iff j.id id).0 a, owner j.container_tag b)
  where
    owner : (o : Option Text) → same_option o (some tag) ≡ true → o ≡ some tag
    owner none q = cc
    owner (some t) q = ap some ((same_iff t tag).0 q)

module _ {F V : Type 0} (env : Env) where
  -- A job that the engine hands out is one of the tables' jobs, has the id asked for and belongs to
  -- the namespace that asks.
  pub job_get-owned :
      (engine : Engine) (id tag : Text) (w : World F V) (j : JobRow)
      → (job_get env engine id tag w).0 ≡ ok (some j)
      → Memᴰ j w.tables.jobs × (j.id ≡ id) × (j.container_tag ≡ some tag)
  unfolding job_get get_job
  job_get-owned engine id tag w j h = elim (Bool-cases engine.db) [
    | inr e ↦ cc (ok_inj (rw e at h))
    | inl e ↦ elim (Result-cases (get_job env id tag w).0) [
      | inl (o, d) ↦
          let found = query-ok env (codes "get_job") (λ t. find (job_of id tag) t.jobs) w d in
          let it = sym found ∙ ap (λ r. or_default r none) (sym d) ∙ ok_inj (rw e at h) in
          let (m, q) = find-Mem (job_of id tag) w.tables.jobs it in
          let (a, b) = job_of_sound id tag j q in (m, a, b)
      | inr (x, d) ↦ cc (sym (ok_inj (rw e at h)) ∙ ap (λ r. or_default r none) d)
    ]
  ]
