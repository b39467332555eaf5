-- ===== src/Persistence.antt =====
-- src/persistence.rs: the schema of the tunnels and its bootstrap SQL. ftnl-lib-core, which owns the
-- schema and generates the SQL, is a parameter.
use ftnl_backend_api_rs.Base.{Result, ok, err, ◌≡◌, ◌↔◌, arith}
use ftnl_backend_api_rs.Text.{Str}

-- `tunnel_persistence_schema`, and `generate_create_table` with `as_script`.
pub record SchemaLibrary : Type 1 where
  pub CanonicalSchema : Type 0
  pub SchemaError : Type 0
  pub tunnel_persistence_schema : Result CanonicalSchema SchemaError
  pub create_table_script : CanonicalSchema → Str

module _ (core : SchemaLibrary) where
  unfoldable tunnel_schema : Result core.CanonicalSchema core.SchemaError
  tunnel_schema = core.tunnel_persistence_schema

  abbrev script_of : Result core.CanonicalSchema core.SchemaError → Result Str core.SchemaError
  script_of (ok schema) = ok (core.create_table_script schema)
  script_of (err e) = err e

  unfoldable tunnel_bootstrap_sql : Result Str core.SchemaError
  tunnel_bootstrap_sql = script_of tunnel_schema

  -- There is no script exactly when the schema does not compile, and then for the same reason.
  bootstrap-err : (e : core.SchemaError) → (tunnel_bootstrap_sql ≡ err e) ↔ (tunnel_schema ≡ err e)
  unfolding tunnel_bootstrap_sql
  bootstrap-err e = script_of-err tunnel_schema
    where
      script_of-err :
          (r : Result core.CanonicalSchema core.SchemaError) → (script_of r ≡ err e) ↔ (r ≡ err e)
      script_of-err (ok schema) = (λ h. absurd (ground arith), λ h. absurd (ground arith))
      script_of-err (err x) = (λ h. ground arith, λ h. ground arith)
