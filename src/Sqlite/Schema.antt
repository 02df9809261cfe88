-- ===== src/Sqlite/Schema.antt =====
-- crates/worklane-sqlite/src/schema.rs: the migration of a database that is opened, and what it
-- leaves.
use worklane.Base.{Option, none, some, List, [], ◌∷◌, ◌++◌, if◌then◌else◌}
use worklane.Base.Int.{ℤ, pos, negsuc, eqb_ℤ}
use worklane.Base.Text.{Text, codes}
use worklane.Core.Duration.{decimal}
use worklane.Core.Error.{Error, err, broker}
use worklane.Core.Spi.{SchemaVersionCheck, check_schema_version, schema_version}
use worklane.Sqlite.Session.{Sql, pure, lift, ◌>>=◌, ◌>>◌, query, execute}
use Prim.Native.Nat.{suc}

-- `BASELINE`, by what each statement creates.
abbrev baseline : List Text
baseline =
    codes "jobs"
    ∷ codes "dead"
    ∷ codes "unique_keys"
    ∷ codes "results"
    ∷ codes "schedules"
    ∷ codes "jobs_reserve"
    ∷ codes "jobs_id"
    ∷ codes "jobs_receipt"
    ∷ codes "dead_id"
    ∷ codes "dead_lane"
    ∷ []

unfoldable pub print : ℤ → Text
unfolding decimal
print (pos n) = decimal n
print (negsuc n) = codes "-" ++ decimal (suc n)

unfoldable pub version_error : ℤ → Error
unfolding print
version_error v = broker (
    codes "sqlite storage schema version "
    ++ (print v
        ++ (codes " is not the supported baseline "
            ++ (print schema_version
                ++ (codes "; worklane is pre-1.0 and does not migrate between schema generations — "
                    ++ codes "drop and recreate the database")))))

-- `CREATE … IF NOT EXISTS` changes no row.
unfoldable pub create_all : List Text → Sql (Unit {0})
create_all [] = pure tt
create_all (ddl ∷ rest) = execute (λ db. (db, tt)) >>= λ _. create_all rest

-- 0 stands for no version.
abbrev pub stored_version : ℤ → Option ℤ
stored_version v = if eqb_ℤ v (pos 0) then none else some v

unfoldable pub migrate_by : SchemaVersionCheck → Sql (Unit {0})
unfolding version_error
migrate_by SchemaVersionCheck.fresh = do
  create_all baseline
  execute λ db. (record db { user_version = schema_version }, tt)
migrate_by SchemaVersionCheck.matches = pure tt
migrate_by (SchemaVersionCheck.mismatch v) = lift (err (version_error v))

unfoldable pub migrate : Sql (Unit {0})
unfolding check_schema_version
migrate = do
  version ← query (λ db. db.user_version)
  migrate_by (check_schema_version (stored_version version))
