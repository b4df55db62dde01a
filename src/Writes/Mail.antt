-- ===== src/Writes/Mail.antt =====
-- The changes of one message: their data and checks (crates/app/src/model/mail_mutation.rs and
-- runtime/mail_mutation.rs).
use eas_mail_mcp.Base.{
  count_chars, ℕ, suc, Bool, true, false, ◌&&◌, ◌||◌, not, Option, none, some, List, [], ◌∷◌,
  String, Bytes, ascii, bytes_eq, ltb, leb, ◌==◌, if◌then◌else◌, length, ok, err, ok_or, ◌>>=◌,
}
use eas_mail_mcp.AppError
use eas_mail_mcp.AppError.{AppError, ErrorCode}
use eas_mail_mcp.Journal.Model.{has_control}
use eas_mail_mcp.Writes.World.{OperationState}

pub data MailFlagState : Type 0 where
  cleared active complete : MailFlagState

-- `MailFlagState::eas`
abbrev pub eas : MailFlagState → ℕ
eas MailFlagState.cleared = 0
eas MailFlagState.active = 2
eas MailFlagState.complete = 1

pub data MailAction : Type 0 where
  mark_read : Bool → MailAction
  move : Bytes → MailAction
  delete : MailAction
  set_flag : MailFlagState → MailAction
  set_categories : List Bytes → MailAction

abbrev pub kind_of_action : MailAction → Bytes
kind_of_action (MailAction.mark_read is_read) = ascii "mail_mark_read"
kind_of_action (MailAction.move destination) = ascii "mail_move"
kind_of_action MailAction.delete = ascii "mail_delete"
kind_of_action (MailAction.set_flag flag) = ascii "mail_set_flag"
kind_of_action (MailAction.set_categories categories) = ascii "mail_set_categories"

-- `matches!(action, MailAction::Move { .. } | MailAction::Delete)`
abbrev pub moves : MailAction → Bool
moves (MailAction.move destination) = true
moves MailAction.delete = true
moves action = false

pub record MailMutationResult : Type 0 where
  pub operation_id : Bytes
  pub status : OperationState
  pub message : String
  pub mail_ref : Option Bytes

-- Within a character that is white space: the bytes read so far.
pub data Space : Type 0 where
  outside c2 e1 e1_9a e2 e2_80 e2_81 e3 e3_80 : Space

abbrev pub when : Bool → Space → Option Space
when test space = if test then some space else none

-- The next byte of a text of white space alone.
abbrev pub next_space : Space → ℕ → Option Space
next_space Space.outside b =
    if (leb 9 b && leb b 13) || b == 32
    then some Space.outside
    else if b == 0xC2
    then some Space.c2
    else if b == 0xE1
    then some Space.e1
    else if b == 0xE2
    then some Space.e2
    else when (b == 0xE3) Space.e3
next_space Space.c2 b = when (b == 0x85 || b == 0xA0) Space.outside
next_space Space.e1 b = when (b == 0x9A) Space.e1_9a
next_space Space.e1_9a b = when (b == 0x80) Space.outside
next_space Space.e2 b = if b == 0x80 then some Space.e2_80 else when (b == 0x81) Space.e2_81
next_space Space.e2_80 b =
    when ((leb 0x80 b && leb b 0x8A) || b == 0xA8 || b == 0xA9 || b == 0xAF) Space.outside
next_space Space.e2_81 b = when (b == 0x9F) Space.outside
next_space Space.e3 b = when (b == 0x80) Space.e3_80
next_space Space.e3_80 b = when (b == 0x80) Space.outside

abbrev pub blank_from : Space → Bytes → Bool
blank_from space [] = true
blank_from space (b ∷ bs) = elim (next_space space b) [
  | none ↦ false
  | some after ↦ blank_from after bs
]

-- `name.trim().is_empty()`, the white space of Unicode in UTF-8.
abbrev pub is_blank : Bytes → Bool
is_blank name = blank_from Space.outside name

abbrev pub has_text : List Bytes → Bytes → Bool
has_text [] text = false
has_text (t ∷ texts) text = bytes_eq t text || has_text texts text

-- The size of the `BTreeSet` of a list.
abbrev pub count_unique : List Bytes → ℕ
count_unique [] = 0
count_unique (t ∷ texts) = if has_text texts t then count_unique texts else suc (count_unique texts)

abbrev pub bad_category : Bytes → Bool
bad_category name = is_blank name || ltb 255 (count_chars name) || has_control name

abbrev pub any_bad : List Bytes → Bool
any_bad [] = false
any_bad (name ∷ names) = bad_category name || any_bad names

abbrev pub bad_categories : MailAction → Bool
bad_categories (MailAction.set_categories categories) =
    ltb 50 (length categories)
    || not (count_unique categories == length categories)
    || any_bad categories
bad_categories action = false

abbrev pub not_uuid : AppError
not_uuid = AppError.new ErrorCode.validation_failed "idempotency_key must be a UUID"

-- `validate`; `parsed_key` is what the uuid library makes of the key.
unfoldable pub validate_item : Option Bytes → MailAction → AppError.Result (Unit {0})
validate_item parsed_key action = ok_or parsed_key not_uuid >>= λ key.
    if bad_categories action
    then err (
        AppError.new ErrorCode.validation_failed
          "categories require up to 50 unique names of 1–255 characters without control characters")
    else ok tt

pub data CollectionKind : Type 0 where
  mail calendar : CollectionKind

pub record Folder : Type 0 where
  pub server_id : Bytes
  pub folder_type : ℕ
  pub kind : Option CollectionKind

abbrev pub is_destination : MailAction → Folder → Bool
is_destination (MailAction.move destination) folder = bytes_eq folder.server_id destination
is_destination MailAction.delete folder = folder.folder_type == 4
is_destination action folder = false

abbrev pub find_folder : MailAction → List Folder → Option Folder
find_folder action [] = none
find_folder action (folder ∷ folders) =
    if is_destination action folder then some folder else find_folder action folders

abbrev pub is_mail : Option CollectionKind → Bool
is_mail (some CollectionKind.mail) = true
is_mail (some CollectionKind.calendar) = false
is_mail none = false

abbrev pub mail_folder : Option Folder → AppError.Result Bytes
mail_folder none = err (
    AppError.new ErrorCode.feature_unavailable
      "the existing destination mail folder is unavailable")
mail_folder (some folder) =
    if is_mail folder.kind
    then ok folder.server_id
    else err (
        AppError.new ErrorCode.feature_unavailable
          "the existing destination mail folder is unavailable")

-- `destination`, the folders of the backend given.
unfoldable pub destination :
    MailAction → AppError.Result (List Folder) → AppError.Result (Option Bytes)
destination action listed =
    if moves action
    then (listed >>= λ folders. mail_folder (find_folder action folders) >>= λ id. ok (some id))
    else ok none
