-- ===== src/Identity/Migration.antt =====
-- The command that migrates the database of Identity: apps/identity/src/migrate-identity-database.ts
-- and migrate.ts. The calls of Better Auth and of the pool have their outcomes as arguments.
pub mod Outcome
use polyglot_ticketing_v.Base.{ℕ, List, [], ◌∷◌, ◌++◌, Result, ok, err}
use polyglot_ticketing_v.Value.{Value}
use polyglot_ticketing_v.Platform.Numbers.{NumberApi}
use polyglot_ticketing_v.Identity.Auth.{
  Environment, AuthOptions, EmailSender, create_identity_auth_context,
}

-- What the command does to the database and to its pool, in order.
pub data Action : Type 0 where
  migrated pool_ended : Action

-- The outcomes of the import of `better-auth/db/migration`, of `getMigrations` for the options, of
-- `runMigrations`, and of `pool.end()`.
pub record Calls : Type 0 where
  pub load : Result Value (Unit {0})
  pub get_migrations : AuthOptions → Result Value (Unit {0})
  pub run_migrations : Result Value (Unit {0})
  pub end_pool : Result Value (Unit {0})

abbrev pub Run : Type 0
Run = Result Value (Unit {0}) × List Action

abbrev pub after_migrations : Result Value (Unit {0}) → Run
after_migrations (err e) = (err e, [])
after_migrations (ok done) = (ok tt, migrated ∷ [])

-- The body of the `try` block, from the outcome of `getMigrations`.
abbrev pub migrate : Calls → Result Value (Unit {0}) → Run
migrate calls (err e) = (err e, [])
migrate calls (ok found) = after_migrations calls.run_migrations

-- `finally { await pool.end(); }`; an error of `end` takes the place of the outcome.
abbrev pub finally_end_pool : Result Value (Unit {0}) → Run → Run
finally_end_pool (err e) (r, log) = (err e, log)
finally_end_pool (ok done) (r, log) = (r, log ++ pool_ended ∷ [])

abbrev pub after_load : Calls → AuthOptions → Result Value (Unit {0}) → Run
after_load calls options (err e) = (err e, [])
after_load calls options (ok done) =
    finally_end_pool calls.end_pool (migrate calls (calls.get_migrations options))

abbrev pub with_context : Calls → Result Value (AuthOptions × EmailSender) → Run
with_context calls (err e) = (err e, [])
with_context calls (ok (options, sender)) = after_load calls options calls.load

-- `migrateIdentityDatabase`
unfoldable pub migrate_identity_database : NumberApi → Environment → Calls → Run
unfolding create_identity_auth_context
migrate_identity_database numbers env calls =
    with_context calls (create_identity_auth_context numbers env)

-- `process.exitCode`, as the handler of migrate.ts leaves it.
unfoldable pub exit_code : Run → ℕ
exit_code (ok done, log) = 0
exit_code (err e, log) = 1
