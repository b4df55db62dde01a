-- ===== src/Lib.antt =====
-- eas-mail-mcp is a local MCP server and command-line client for mail and calendars on Exchange
-- ActiveSync 14.1 servers. This library models parts of its Rust code and proves what they
-- promise. Paths below are from the repository's root.
--
-- The program's layers: crates/eas speaks the protocol (the WBXML codec, requests and responses,
-- transport), crates/app holds the runtime behind the MCP tools and the CLI (scheduling, reads,
-- writes, references, the journal), crates/profile the endpoint profiles. A request is built as an
-- element tree, written by the codec and sent; the answer is decoded into a tree that the protocol
-- modules read; the runtime computes with what they return.
--
-- Which file models what:
-- - Base: the library's names, tests on numbers, lists over the native numbers, `Result`. A Rust
--   `str` or byte slice is the list of its bytes.
-- - EasError, AppError, Conversion: crates/eas/src/error.rs and crates/app/src/error.rs. A message is its
--   fixed text.
-- - Wbxml/Element, Text, CodePage, CodePage/Build, Mbuint, Utf8, Tokens, Encode, Decode: the codec of
--   crates/eas/src/wbxml and the checks of crates/eas/build.rs. The generated table of code pages
--   is the argument `pages`. `encode_element` threads a `Writer` (the two `&mut` arguments); the
--   decoder's state is `Document`: the unread bytes in place of input and cursor, the page, the
--   stack of open elements with the last one first, the root. The loop of `read_document` takes
--   the number of input bytes as fuel, since every round reads a byte.
-- - Wbxml/Steps, Termination, Opened, Reads, Content, Canonical, RoundTrip, Depth, Nesting: proofs.
-- - Schedule/Interval, Slots, Chunks: crates/app/src/runtime/schedule/slots.rs and `split_chunks`
--   of schedule/time.rs. An instant is a number of nanoseconds since the earliest `DateTime<Utc>`,
--   so arithmetic does not pass zero; what chrono does on overflow is not modelled. `split_chunks`
--   takes its range divided by 30 minutes, plus one, as fuel, since every round moves the cursor by
--   30 minutes at least.
-- - Schedule/Availability: the states of crates/app/src/model/calendar.rs and
--   `merge_status_intervals` of crates/app/src/runtime/schedule.rs. Schedule/Assess, Windows:
--   schedule/ranked/evaluate.rs, with the fields that it reads; the instants that it writes out in
--   a zone stay instants, and the answer `none` is chrono's panic on a time before its first.
-- - Schedule/Statuses, Conflicts, Attendable, Suitable, Verdict, Eroded, FreeSlot, FreeWindows:
--   proofs about these, stated by what is known of each instant.
-- - Schedule/Coverage, Separation: proofs, stated by the instants that a list of intervals covers.
-- - Policy/Integer, Fields, Evaluate, Decision: crates/eas/src/protocol/policy.rs. A policy is its
--   list of names and values; the functions that push reasons return the longer list; `i64` is ℤ,
--   and its reading from text refuses what does not fit 64 bits.
-- - Policy/Readings, Checks, Meanings, Checked, Supported, Limits: proofs.
-- - References/Cursors: the cursors of crates/app/src/references.rs. `next_page` is split into the
--   part under its first lock, `take_cursor`, and `give_page`, which `first_page` shares; what the
--   clock and the generator answer is an argument.
-- - References/Payloads, Object: references/object.rs. base64, serde_json and chrono are the fields of
--   `Libraries`; References/Portable states what they document as `Documented`.
-- - References/Portable, Kept: proofs. References/Simple: functions that do what is documented.
-- - References/Keys, Taking, InSync, Paging, Continues, Reached: proofs.
-- - Sanitize/Text, Mailbox: crates/app/src/sanitize.rs, on the characters of a text; the converter of
--   html2text is an argument. Sanitize/Filename, Clean: proofs.
-- - Journal/Model, Table: crates/app/src/journal/model.rs and sqlite.rs. The table is the list of
--   its rows, a SQL statement a function on it; a row holds the locator in place of its JSON text.
-- - Journal/View: the map from operations to entries that the journal stands for.
-- - Journal/Idempotent, Finished, Abstract, Pruned: proofs.
-- - Writes/World, Finish, Handlers: crates/app/src/runtime/writes.rs, mutation_journal.rs and, of mod.rs,
--   the accounts that Exchange had wiped. A handler is a step on a `World`; what the libraries and
--   the backend answer it is its record of answers, and where it awaits, what other tasks do is a
--   function on worlds. `World.sent` is no field of the source: it lists the calls of a backend.
-- - Writes/Mail, Mutation: crates/app/src/runtime/mail_mutation.rs; Writes/Batch: mail_batch.rs. White space
--   and characters are read from the bytes of UTF-8; the text of `identity` is the pair it is made of.
-- - Writes/MutationOnce, Replayed, Stops, Orderly, BatchOnce: proofs.
-- - Writes/Recorded, Covers, Once, Opens, Served, Settled: proofs.
-- - Protocol/Tree, Availability, Acknowledgement, GlobalObjectId: crates/eas/src/protocol/tree.rs,
--   availability.rs (its answers), mutation_response.rs and global_object_id.rs, base64 an argument.
-- - Protocol/Slots, Answers, Instances: proofs.
-- - The modules whose name ends in Tests hold concrete runs, and the theorems at concrete inputs.
--
-- Not modelled: network, storage, credentials, terminal and process I/O, serialisation, MIME and
-- HTML libraries, chrono's calendars and time zones, and the test harness.
pub mod Base
pub mod EasError
pub mod AppError
pub mod Conversion
pub mod Wbxml
pub mod Schedule
pub mod Policy
pub mod References
pub mod Sanitize
pub mod Journal
pub mod Writes
pub mod Protocol
