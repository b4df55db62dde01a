-- ===== src/Writes/Orderly.antt =====
-- What a batch that is accepted is like, and what its report says
-- (crates/app/src/runtime/mail_batch.rs).
use eas_mail_mcp.Base.{
  ok_injective, err_not_ok, ℕ, suc, ◌≤◌, ◌≡◌, refl, ap, sym, subst, ◌∙◌, false, Option, none, some,
  List, [], ◌∷◌, Bytes, length, ok, >>=-eq-ok, arith,
}
use eas_mail_mcp.AppError.{AppError}
use eas_mail_mcp.References.Payloads.{Libraries}
use eas_mail_mcp.References.Object.{decode_mail}
use eas_mail_mcp.Writes.World.{World, lift, Accounts}
use eas_mail_mcp.Writes.Mail.{has_text, validate_item}
use eas_mail_mcp.Writes.Batch.{
  Entry, MailBatchEntry, Identity, Seen, validate_count, insert_identity, name_entry, resolve_entry,
  validate_entry, validate_entries, validate_batch, zip_failures, run_batch,
}
use eas_mail_mcp.Writes.Replayed.{after_lift_both}
use eas_mail_mcp.Writes.Stops.{then_step_ok, Stops, run_entries-Stops}

name_entry_fresh :
    (seen : Seen) (parsed_key : Option Bytes) (named : Bytes × Seen)
    → name_entry seen parsed_key ≡ ok named
    → (parsed_key ≡ some (named.0))
      × (has_text seen.uuids (named.0) ≡ false)
      × (named.1.uuids ≡ named.0 ∷ seen.uuids)
name_entry_fresh seen none named h = absurd (err_not_ok h)
name_entry_fresh seen (some uuid) named h = ground arith

insert_identity_keeps :
    (seen after : Seen) (identity : Identity)
    → insert_identity seen identity ≡ ok after
    → after.uuids ≡ seen.uuids
insert_identity_keeps seen after identity h = ground arith

-- Every entry has a UUID, and no two the same, nor one of `seen`.
abbrev pub DistinctKeys : List Bytes → List Entry → Type 0
DistinctKeys seen [] = Unit {0}
DistinctKeys seen (entry ∷ entries) =
    (uuid : Bytes) × (entry.parsed_key ≡ some uuid)
    × (has_text seen uuid ≡ false)
    × DistinctKeys (uuid ∷ seen) entries

validate_count_range :
    (count : ℕ) (value : Unit {0}) → validate_count count ≡ ok value → (1 ≤ count) × (count ≤ 20)
unfolding validate_count
validate_count_range count value h = ground arith

module _ (libraries : Libraries) (accounts : Accounts) where
  validate_entry_named :
      (entry : Entry) (seen : Seen) (world : World) (checked : Option AppError × Seen)
      → (validate_entry libraries accounts entry seen world).0 ≡ ok checked
      → (uuid : Bytes) × (entry.parsed_key ≡ some uuid)
        × (has_text seen.uuids uuid ≡ false)
        × (checked.1.uuids ≡ uuid ∷ seen.uuids)
  validate_entry_named entry seen world checked h =
      let (valid, v, h1) =
        then_step_ok (lift (validate_item entry.parsed_key entry.item.action) world) _ checked h in
      let (named, n, h2) =
        then_step_ok (lift (name_entry seen entry.parsed_key) world) _ checked h1 in
      let (mail, m, h3) =
        then_step_ok (lift (decode_mail libraries entry.item.mail_ref) world) _ checked h2 in
      let (found, f, h4) =
        then_step_ok (resolve_entry accounts named.0 mail entry.resolved world) _ checked h3 in
      let (after, a, same) =
        >>=-eq-ok
          (insert_identity named.1 (record { account = mail.account_id; source = found.source })) _
          h4 in
      let (key, fresh, grown) = name_entry_fresh seen entry.parsed_key named n in
      (
        named.0,
        key,
        fresh,
        ap (λ (c : Option AppError × Seen). c.1.uuids) (sym (ok_injective same))
            ∙ insert_identity_keeps named.1 after _ a
            ∙ grown,
      )

  validate_entries-DistinctKeys :
      (entries : List Entry) (seen : Seen) (world : World) (failures : List (Option AppError))
      → (validate_entries libraries accounts entries seen world).0 ≡ ok failures
      → DistinctKeys seen.uuids entries × (length (zip_failures entries failures) ≡ length entries)
  unfolding validate_entries
  validate_entries-DistinctKeys [] seen world failures h = (tt, refl)
  validate_entries-DistinctKeys (entry ∷ entries) seen world failures h =
      let (checked, c, h1) =
        then_step_ok (validate_entry libraries accounts entry seen world) _ failures h in
      let (rest, inner, same) =
        after_lift_both
          (validate_entries libraries accounts entries checked.1
            (validate_entry libraries accounts entry seen world).1)
          _ failures h1 in
      let (distinct, count) = validate_entries-DistinctKeys entries checked.1 _ rest inner in
      let (uuid, key, fresh, grown) = validate_entry_named entry seen world checked c in
      (
        (uuid, key, fresh, subst (λ keys. DistinctKeys keys entries) grown distinct),
        ap (λ fs. length (zip_failures (entry ∷ entries) fs)) (sym (ok_injective same))
            ∙ ap suc count,
      )

  -- A batch that is reported on has 1 to 20 entries with UUIDs that are all distinct; the report has
  -- as many, and after an entry whose outcome is unknown those of its account are skipped, with no
  -- result.
  pub run_batch_orderly :
      (entries : List Entry) (world : World) (reports : List MailBatchEntry)
      → (run_batch libraries accounts entries world).0 ≡ ok reports
      → (1 ≤ length entries)
        × (length entries ≤ 20)
        × DistinctKeys [] entries
        × (length reports ≡ length entries)
        × Stops libraries accounts reports
  unfolding run_batch validate_batch
  run_batch_orderly entries world reports h =
      let (failures, checked, ran) =
        then_step_ok (validate_batch libraries accounts entries world) _ reports h in
      let (valid, counted, listed) =
        then_step_ok (lift (validate_count (length entries)) world) _ failures checked in
      let (some_entry, bounded) = validate_count_range (length entries) valid counted in
      let (distinct, paired) =
        validate_entries-DistinctKeys entries (record { uuids = []; identities = [] }) world
          failures listed in
      let (obeys, stops, count) =
        run_entries-Stops libraries accounts (zip_failures entries failures) [] _ reports ran in
      (some_entry, bounded, distinct, count ∙ paired, stops)
