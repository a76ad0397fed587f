-- ===== src/Db/Journal.antt =====
-- crates/ultramem-core/src/db/pg.rs: background jobs and the audit trail.
use ultramem.Prelude.{
  ℤ, pos, leb_ℤ, Text, codes, same, same_option, Bool, ◌&&◌, List, [], ◌∷◌, ◌++◌, any, filter, find,
  length, map, sort_by, Option, some, if◌then◌else◌,
}
use ultramem.Prelude.Result.{ok}
use ultramem.Db.Rows.{JobRow, AuditEvent}
use ultramem.Db.Statement.{statement, query, limited, with_tables}
use ultramem.World.{Env, Exec}

unfoldable pub insert_job_row : JobRow → List JobRow → List JobRow
insert_job_row j rows = if any (λ r. same r.id j.id) rows then rows else rows ++ j ∷ []

unfoldable pub update_job_row : Text → Text → ℤ → Option Text → ℤ → JobRow → JobRow
update_job_row id state progress error updated_at j =
    if same j.id id
    then record j { state = state; progress = progress; error = error; updated_at = updated_at }
    else j

unfoldable pub job_of : Text → Text → JobRow → Bool
job_of id container_tag j = same j.id id && same_option j.container_tag (some container_tag)

abbrev pub newest_event : AuditEvent → AuditEvent → Bool
newest_event a b = leb_ℤ b.ts a.ts

unfoldable pub audit_trail : Text → List AuditEvent → List AuditEvent
audit_trail container_tag rows =
    sort_by newest_event (filter (λ e. same_option e.container_tag (some container_tag)) rows)

module _ {F V : Type 0} (env : Env) where
  unfoldable pub insert_job : JobRow → Exec F V (Unit {0})
  insert_job j =
      statement env (codes "insert_job") (λ t. ok (tt, record t { jobs = insert_job_row j t.jobs }))

  unfoldable pub update_job : Text → Text → ℤ → Option Text → ℤ → Exec F V (Unit {0})
  update_job id state progress error updated_at = statement env (codes "update_job") (λ t.
      ok ((tt, record t { jobs = map (update_job_row id state progress error updated_at) t.jobs })))

  unfoldable pub get_job : Text → Text → Exec F V (Option JobRow)
  get_job id container_tag =
      query env (codes "get_job") (λ t. find (job_of id container_tag) t.jobs)

  unfoldable pub insert_audit : AuditEvent → Exec F V (Unit {0})
  insert_audit e =
      statement env (codes "insert_audit") (λ t. ok (tt, record t { audits = t.audits ++ e ∷ [] }))

  unfoldable pub audit_count : Text → Exec F V ℤ
  audit_count container_tag =
      query env (codes "audit_count") (λ t.
        pos (length (filter (λ e. same_option e.container_tag (some container_tag)) t.audits)))

  unfoldable pub audit_list : Text → ℤ → Exec F V (List AuditEvent)
  audit_list container_tag limit =
      statement env (codes "audit_list")
        (λ t. with_tables t (limited limit (audit_trail container_tag t.audits)))
