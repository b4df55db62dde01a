-- ===== src/Writes/Opens.antt =====
-- The steps of a write handler before it commits: its account is writable, and is not wiped while the
-- mailbox is read (crates/app/src/runtime/mod.rs and writes.rs).
use eas_mail_mcp.Base.{◌≡◌, refl, ap, ◌∙◌, false, List, Bytes, arith, ok, err, ◌>>=◌}
use eas_mail_mcp.AppError
use eas_mail_mcp.AppError.{AppError}
use eas_mail_mcp.Writes.World.{
  World, has_account, Step, then_step, lift, Accounts, purge_account, find_backend, write_allowed,
  require_write, account_result,
}
use eas_mail_mcp.Writes.Handlers.{Lock, acquire, enter, Fetch, fetch}
use eas_mail_mcp.Writes.Covers.{Once, Covers-Once, account_result-Covers}
use eas_mail_mcp.Writes.Once.{KeepsOnce}

-- The world is in order, and after an answer the account is not wiped.
abbrev pub Opens : {A : Type 0} → Bytes → AppError.Result A × World → Type 0
Opens {A} account (answer, world) =
    Once world
    × ((value : A) → answer ≡ ok value → has_account world.disabled_accounts account ≡ false)

module _ (account : Bytes) where
  then_step-Opens :
      {A B : Type 0} (stepped : AppError.Result A × World) (next : A → Step B)
      → Once stepped.1
      → ((value : A) → stepped.0 ≡ ok value → Opens account (next value stepped.1))
      → Opens account (then_step stepped next)
  then_step-Opens (ok value, world) next once rest = rest value refl
  then_step-Opens (err failure, world) next once rest = (once, λ value h. cc)

  pub after_Opens :
      {A B : Type 0} (stepped : AppError.Result A × World) (next : A → Step B)
      → Opens account stepped
      → ((value : A) (after : World)
          → Once after
          → has_account after.disabled_accounts account ≡ false
          → Once (next value after).1)
      → Once (then_step stepped next).1
  after_Opens (ok value, world) next (once, enabled) rest =
      rest value world once (enabled value refl)
  after_Opens (err failure, world) next (once, enabled) rest = once

  pub lift-Opens :
      {A : Type 0} (result : AppError.Result A) (world : World)
      → Once world
      → has_account world.disabled_accounts account ≡ false
      → Opens account (lift result world)
  lift-Opens result world once enabled = (once, λ value h. enabled)

  find_backend_enabled :
      (accounts : Accounts) (disabled : List Bytes) (value : Unit {0})
      → (find_backend accounts account disabled >>= λ found. write_allowed accounts account)
        ≡ ok value
      → has_account disabled account ≡ false
  find_backend_enabled accounts disabled value h = ground arith

  require_write-Opens :
      (accounts : Accounts) (world : World)
      → Once world
      → Opens account (require_write accounts account world)
  unfolding require_write
  require_write-Opens accounts world once =
      (once, λ value h. find_backend_enabled accounts world.disabled_accounts value h)

  pub enter-Opens :
      (accounts : Accounts) (lock : Lock) (world : World)
      → KeepsOnce lock.waited
      → Once world
      → Opens account (enter accounts account lock world)
  unfolding enter
  enter-Opens accounts lock world keeps once =
      let (same, enabled) = require_write-Opens accounts world once in
      then_step-Opens (require_write accounts account world) _ same (λ first answered.
        then_step-Opens (acquire lock (require_write accounts account world).1) _ (keeps _ same)
          (λ held acquired. require_write-Opens accounts _ (keeps _ same)))

  -- Others keep the world in order, and do not have this account wiped.
  abbrev pub Spares : (World → World) → Type 0
  Spares others =
      KeepsOnce others
      × ((world : World)
          → has_account world.disabled_accounts account ≡ false
          → has_account (others world).disabled_accounts account ≡ false)

  account_result_kept :
      {A : Type 0} (purged : AppError.Result (Unit {0})) (result : AppError.Result A)
      (world : World) (value : A)
      → (account_result account purged result world).0 ≡ ok value
      → (account_result account purged result world).1 ≡ world
  unfolding account_result purge_account
  account_result_kept purged (ok v) world value h = refl
  account_result_kept (ok done) (err failure) world value h = ground arith
  account_result_kept (err other) (err failure) world value h = ground arith

  account_result_answer :
      {A : Type 0} (purged : AppError.Result (Unit {0})) (result : AppError.Result A)
      (world : World) (value : A)
      → (account_result account purged result world).0 ≡ ok value
      → result ≡ ok value
  unfolding account_result purge_account
  account_result_answer purged (ok v) world value h = h
  account_result_answer (ok done) (err failure) world value h = ground arith
  account_result_answer (err other) (err failure) world value h = ground arith

  -- What is read is what the backend answered.
  pub fetch_answer :
      {A : Type 0} (answer : Fetch A) (world : World) (value : A)
      → (fetch account answer world).0 ≡ ok value
      → answer.fetched ≡ ok value
  unfolding fetch
  fetch_answer answer world value h =
      account_result_answer answer.purged answer.fetched (answer.others world) value h

  pub fetch-Opens :
      {A : Type 0} (answer : Fetch A) (world : World)
      → Spares answer.others
      → Once world
      → has_account world.disabled_accounts account ≡ false
      → Opens account (fetch account answer world)
  unfolding fetch
  fetch-Opens answer world (keeps, spares) once enabled = (
    Covers-Once _ _ (account_result-Covers account answer.purged answer.fetched _)
        (keeps world once),
    λ value h.
        ap (λ w. has_account w.disabled_accounts account)
          (account_result_kept answer.purged answer.fetched (answer.others world) value h)
        ∙ spares world enabled,
  )
