-- ===== src/Identity/Migration/Outcome.antt =====
-- When the migration goes through, and when the pool is ended.
use polyglot_ticketing_v.Base.{◌≡◌, ◌↔◌, refl, List, [], ◌∷◌, All, Result, ok, err, arith}
use polyglot_ticketing_v.Value.{Value}
use polyglot_ticketing_v.Platform.Numbers.{NumberApi}
use polyglot_ticketing_v.Identity.Auth.{
  Environment, AuthOptions, EmailSender, create_identity_auth_context,
}
use polyglot_ticketing_v.Identity.Auth.Configuration.{
  IsConfigured, required_variables, create_identity_auth_context-IsConfigured_iff,
}
use polyglot_ticketing_v.Identity.Migration.{
  Action, migrated, pool_ended, Calls, after_load, with_context, migrate_identity_database,
  exit_code,
}

-- Every call of a migration returns, and all that it does is to migrate and to end the pool.
pub record Succeeds (calls : Calls) (options : AuthOptions) (log : List Action) : Type 0 where
  pub load : calls.load ≡ ok tt
  pub get_migrations : calls.get_migrations options ≡ ok tt
  pub run_migrations : calls.run_migrations ≡ ok tt
  pub end_pool : calls.end_pool ≡ ok tt
  pub done : log ≡ migrated ∷ pool_ended ∷ []

after_load-Succeeds :
    (calls : Calls) (options : AuthOptions) (l g r e : Result Value (Unit {0}))
    → calls.load ≡ l
    → calls.get_migrations options ≡ g
    → calls.run_migrations ≡ r
    → calls.end_pool ≡ e
    → exit_code (after_load calls options calls.load) ≡ 0
    → Succeeds calls options (after_load calls options calls.load).1
unfolding exit_code
after_load-Succeeds calls options (err x) g r e hl hg hr he h = absurd (ground (arith, rw hl at h))
after_load-Succeeds calls options (ok l) g r (err x) hl hg hr he h =
    absurd (ground (arith, rw (hl, he) at h))
after_load-Succeeds calls options (ok l) (err x) r (ok e) hl hg hr he h =
    absurd (ground (arith, rw (hl, he, hg) at h))
after_load-Succeeds calls options (ok l) (ok g) (err x) (ok e) hl hg hr he h =
    absurd (ground (arith, rw (hl, he, hg, hr) at h))
after_load-Succeeds calls options (ok l) (ok g) (ok r) (ok e) hl hg hr he h = record {
  load = hl;
  get_migrations = hg;
  run_migrations = hr;
  end_pool = he;
  done = rw (hl, he, hg, hr) refl;
}

-- The migration ends with exit code 0 exactly where the service is configured, for whose options
-- every call returns; then it has migrated the database and has ended the pool after that.
pub migrate_identity_database-Succeeds_iff :
    (numbers : NumberApi) (env : Environment) (calls : Calls)
    → (exit_code (migrate_identity_database numbers env calls) ≡ 0) ↔ (
        (options : AuthOptions) × (sender : EmailSender) × (create_identity_auth_context numbers env
          ≡ ok (options, sender))
        × Succeeds calls options (migrate_identity_database numbers env calls).1)
unfolding migrate_identity_database exit_code
migrate_identity_database-Succeeds_iff numbers env calls = (
  λ h. go (create_identity_auth_context numbers env) refl h,
  λ g.
      let (options, sender, made, s) = g in
      rw (made, s.load, s.end_pool, s.get_migrations, s.run_migrations) refl,
)
  where
    go :
        (c : Result Value (AuthOptions × EmailSender))
        → create_identity_auth_context numbers env ≡ c
        → exit_code (with_context calls c) ≡ 0
        → (options : AuthOptions) × (sender : EmailSender) × (create_identity_auth_context numbers
              env
            ≡ ok (options, sender))
          × Succeeds calls options (with_context calls c).1
    go (err e) made h = absurd (omega arith)
    go (ok (options, sender)) made h =
        (options, sender, made, after_load-Succeeds calls options _ _ _ _ refl refl refl refl h)

-- A migration that exits with 0 has had all of the service's variables.
pub migrate_identity_database-IsConfigured :
    (numbers : NumberApi) (env : Environment) (calls : Calls)
    → exit_code (migrate_identity_database numbers env calls) ≡ 0
    → All (IsConfigured env) required_variables
migrate_identity_database-IsConfigured numbers env calls h =
    let (options, sender, made, s) =
      (migrate_identity_database-Succeeds_iff numbers env calls).0 h in
    (create_identity_auth_context-IsConfigured_iff numbers env).0 ((options, sender), made)
