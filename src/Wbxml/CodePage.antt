-- ===== src/Wbxml/CodePage.antt =====
-- Code pages (crates/eas/src/wbxml/codepage.rs). The table `CODE_PAGES` is generated by the build
-- and is an argument, `pages`; the child `Build` has what the build checks of it.
pub mod Build
use eas_mail_mcp.Base.{
  ℕ, zero, suc, ◌+◌, Bool, true, false, ◌&&◌, not, Option, none, some, List, [], ◌∷◌, Bytes,
  bytes_eq, eq_ignore_ascii_case, get_elem?, length, if◌then◌else◌, ◌==◌, ok_or, ◌>>=◌, ◌>>◌, guard,
  ok,
}
use eas_mail_mcp.EasError.{EasError, protocol, Result}

pub record CodePage : Type 0 where
  pub id : ℕ
  pub namespace : Bytes
  pub xmlns : Bytes
  pub tags : List (ℕ × Bytes)

abbrev pub filter_id : ℕ → Option CodePage → Option CodePage
filter_id id none = none
filter_id id (some page) = if page.id == id then some page else none

unfoldable pub code_page : List CodePage → ℕ → Result CodePage
code_page pages id = ok_or (filter_id id (get_elem? pages id)) (protocol "unknown WBXML code page")

abbrev pub find_namespace : List CodePage → Bytes → Option CodePage
find_namespace [] namespace = none
find_namespace (page ∷ pages) namespace =
    if eq_ignore_ascii_case page.namespace namespace
    then some page
    else find_namespace pages namespace

unfoldable pub code_page_for_namespace : List CodePage → Bytes → Result CodePage
code_page_for_namespace pages namespace =
    ok_or (find_namespace pages namespace) (protocol "unknown EAS namespace")

abbrev pub find_tag : List (ℕ × Bytes) → ℕ → Option Bytes
find_tag [] token = none
find_tag ((candidate, name) ∷ tags) token =
    if candidate == token then some name else find_tag tags token

-- `CodePage::tag`
unfoldable pub tag : CodePage → ℕ → Result Bytes
tag page t = ok_or (find_tag page.tags t) (protocol "unknown token on WBXML page")

abbrev pub find_token : List (ℕ × Bytes) → Bytes → Option ℕ
find_token [] name = none
find_token ((t, candidate) ∷ tags) name =
    if bytes_eq candidate name then some t else find_token tags name

-- `CodePage::token`
unfoldable pub token : CodePage → Bytes → Result ℕ
token page name = ok_or (find_token page.tags name) (protocol "unknown tag in EAS namespace")
