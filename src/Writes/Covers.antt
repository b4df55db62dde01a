-- ===== src/Writes/Covers.antt =====
-- Which operations were handed to Exchange and which the journal still knows: the invariant of the
-- world, and the steps that keep it (crates/app/src/runtime/writes.rs, mutation_journal.rs).
use eas_mail_mcp.Base.{
  ℕ, suc, ◌+◌, ◌≤◌, ◌<◌, ◌≡◌, refl, ◌∙◌, Bool, true, false, ◌&&◌, ◌||◌, Bool-cases, inl, inr, none,
  List, [], ◌∷◌, ◌++◌, Bytes, bytes_eq, bytes_eq→eq, arith, if◌then◌else◌, ok, err,
}
use eas_mail_mcp.AppError
use eas_mail_mcp.AppError.{AppError, ErrorCode}
use eas_mail_mcp.Journal.Model.{OperationStatus}
use eas_mail_mcp.Journal.Table.{Table, inspect}
use eas_mail_mcp.Writes.World.{
  World, has_account, Step, then_step, lift, purge_account, journaled, finish, is_remote_wipe,
  is_outcome_unknown, account_result,
}
use eas_mail_mcp.Writes.Finish.{confirmed, settle_failure, finish_write}
use eas_mail_mcp.Writes.Handlers.{hand_over}
use eas_mail_mcp.Writes.Recorded.{recorded, recorded_absent, recorded-finish, recorded-purge}

-- How often an operation of an account was handed to a backend.
abbrev pub calls : Bytes → Bytes → List (Bytes × Bytes) → ℕ
calls account operation [] = 0
calls account operation ((a, i) ∷ sent) =
    if bytes_eq a account && bytes_eq i operation
    then suc (calls account operation sent)
    else calls account operation sent

-- The journal knows the operation, or Exchange had the account wiped.
abbrev pub covered : Bytes → Bytes → World → Bool
covered account operation world =
    recorded account operation world.journal || has_account world.disabled_accounts account

abbrev pub OnceFor : Bytes → Bytes → World → Type 0
OnceFor account operation world =
    (calls account operation world.sent ≤ 1)
    × (0 < calls account operation world.sent → covered account operation world ≡ true)

-- Every operation of every account was handed over at most once, and one that was is covered.
unfoldable pub Once : World → Type 0
Once world = (account operation : Bytes) → OnceFor account operation world

pub calls-append :
    (account operation a i : Bytes) (sent : List (Bytes × Bytes))
    → calls account operation (sent ++ ((a, i) ∷ []))
      ≡ calls account operation sent + calls account operation ((a, i) ∷ [])
calls-append account operation a i [] = omega arith
calls-append account operation a i ((b, j) ∷ sent) =
    ground (arith, calls-append account operation a i sent)

-- What a step that hands nothing over may do.
abbrev pub Covers : World → World → Type 0
Covers world after =
    (after.sent ≡ world.sent)
    × ((account operation : Bytes)
        → covered account operation world ≡ true
        → covered account operation after ≡ true)

pub Covers-Once : (world after : World) → Covers world after → Once world → Once after
unfolding Once
Covers-Once world after (same, keeps) once account operation =
    ground (arith, same, keeps account operation, once account operation)

pub journal-Covers :
    (world : World) (table : Table)
    → ((account operation : Bytes)
        → recorded account operation world.journal ≡ true
        → recorded account operation table ≡ true)
    → Covers world (record world { journal = table })
journal-Covers world table keeps =
    (refl, λ account operation h. ground (arith, keeps account operation))

pub purge_account-Covers :
    (account : Bytes) (purged : AppError.Result (Unit {0})) (world : World)
    → Covers world (purge_account account purged world).1
unfolding purge_account
purge_account-Covers account purged world = (
  refl,
  λ a i h. elim (Bool-cases (bytes_eq account a)) [
    | inl same ↦ ground (arith, same)
    | inr other ↦ ground (arith, recorded-purge a i account world.journal other)
  ],
)

pub finish-Covers :
    (account operation id : Bytes) (status : OperationStatus) (steps now : ℕ) (world : World)
    → Covers world (journaled account operation (finish id status steps now) world).1
finish-Covers account operation id status steps now world =
    journal-Covers world _ (λ a i h. recorded-finish a i id status steps now none world.journal ∙ h)

pub then_step-Once :
    {A B : Type 0} (answer : AppError.Result A) (world : World) (next : A → Step B)
    → Once world
    → ((value : A) → answer ≡ ok value → Once (next value world).1)
    → Once (then_step (answer, world) next).1
then_step-Once (ok value) world next once rest = rest value refl
then_step-Once (err failure) world next once rest = once

pub after_lift :
    {A B : Type 0} (world : World) (stepped : AppError.Result A × World)
    (result : A → AppError.Result B)
    → Covers world stepped.1
    → Covers world (then_step stepped (λ value. lift (result value))).1
after_lift world (ok value, after) result covers = covers
after_lift world (err failure, after) result covers = covers

settle_failure-Covers :
    (account operation : Bytes) (purged : AppError.Result (Unit {0})) (now : ℕ) (code : ErrorCode)
    (world : World)
    → Covers world (settle_failure account operation purged now code world).1
settle_failure-Covers account operation purged now code world =
    elim (Bool-cases (is_outcome_unknown code)) [
      | inl lost ↦
          rw lost (finish-Covers account operation operation OperationStatus.unknown 0 now world)
      | inr answered ↦ elim (Bool-cases (is_remote_wipe code)) [
        | inl wiped ↦ rw (answered, wiped) (purge_account-Covers account purged world)
        | inr other ↦
            rw (answered, other)
              (finish-Covers account operation operation OperationStatus.failed 0 now world)
      ]
    ]

pub finish_write-Covers :
    (account operation : Bytes) (purged : AppError.Result (Unit {0})) (now : ℕ)
    (outcome : AppError.Result (Unit {0})) (world : World)
    → Covers world (finish_write account operation purged now outcome world).1
unfolding finish_write
finish_write-Covers account operation purged now (ok done) world =
    after_lift world
      (journaled account operation (finish operation OperationStatus.succeeded 1 now) world)
      (λ stored. ok (confirmed operation))
      (finish-Covers account operation operation OperationStatus.succeeded 1 now world)
finish_write-Covers account operation purged now (err failure) world =
    after_lift world (settle_failure account operation purged now failure.code world)
      (λ stored. err (AppError.operation operation failure))
      (settle_failure-Covers account operation purged now failure.code world)

pub account_result-Covers :
    {A : Type 0} (account : Bytes) (purged : AppError.Result (Unit {0}))
    (result : AppError.Result A) (world : World)
    → Covers world (account_result account purged result world).1
unfolding account_result
account_result-Covers account purged (ok value) world = (refl, λ a i h. h)
account_result-Covers account purged (err failure) world =
    elim (Bool-cases (is_remote_wipe failure.code)) [
      | inl wiped ↦ rw wiped (
          after_lift world (purge_account account purged world) (λ done. err failure)
            (purge_account-Covers account purged world))
      | inr other ↦ rw other (refl, λ a i h. h)
    ]

-- An operation that is not in the journal, of an account that is not wiped, was not handed over.
pub fresh_calls :
    (account operation : Bytes) (world : World)
    → Once world
    → inspect world.journal operation ≡ none
    → has_account world.disabled_accounts account ≡ false
    → calls account operation world.sent ≡ 0
unfolding Once
fresh_calls account operation world once absent enabled =
    ground (arith, once account operation, recorded_absent account operation world.journal absent)

-- The world once the row is inserted and the operation handed over.
pub hand_over-Once :
    (account operation : Bytes) (world : World)
    → Once world
    → calls account operation world.sent ≡ 0
    → recorded account operation world.journal ≡ true
    → Once (hand_over account operation world)
unfolding Once
hand_over-Once account operation world once none_yet row a i =
    elim (Bool-cases (bytes_eq account a && bytes_eq operation i)) [
      | inl here ↦ ground (
        arith,
        calls-append a i account operation world.sent,
        bytes_eq→eq account a,
        bytes_eq→eq operation i,
      )
      | inr other ↦ ground (arith, calls-append a i account operation world.sent, once a i)
    ]
