-- ===== src/Api/Cookies.antt =====
-- The cookies of crates/api/src/session.rs and routes/admin.rs: reading one out of a `Cookie`
-- header, and the values of `Set-Cookie`. A header is `none` where it is absent, and `some none`
-- where its value is not ASCII. `HeaderValue::from_str` is the parameter `HeaderText`.
pub mod Lookup
use cellora.Prelude.{
  ℕ, suc, ◌/◌, Bool, true, false, not, ◌&&◌, Option, none, some, List, [], ◌∷◌, ◌++◌, Bytes,
  bytes_eq, codes, if◌then◌else◌,
}
use cellora.Prelude.Int.{ℤ, pos, negsuc}
use cellora.Prelude.Text.{split_on, split_once_at, trim, is_empty, decimal}
use cellora.Api.Tip.{saturating_sub}

abbrev pub Header : Type 0
Header = Option (Option Bytes)

abbrev pub cookie_name : Bytes
cookie_name = codes "cellora_session"

abbrev pub oauth_state_cookie : Bytes
oauth_state_cookie = codes "cellora_oauth_state"

-- `key == name && !value.is_empty()` on the parts of one pair
abbrev pub named : Bytes → Option (Bytes × Bytes) → Option Bytes
named name none = none
named name (some (key, value)) =
    if bytes_eq key name && not (is_empty value) then some value else none

abbrev pub or_else {ℓ} : {A : Type ℓ} → Option A → Option A → Option A
or_else none y = y
or_else (some x) y = some x

-- the loop over the pairs, that both readers have
unfoldable pub scan : Bytes → List Bytes → Option Bytes
scan name [] = none
scan name (pair ∷ pairs) =
    let rest = scan name pairs in or_else (named name (split_once_at 61 (trim pair))) rest

abbrev pub text_of : Header → Option Bytes
text_of none = none
text_of (some raw) = raw

unfoldable pub extract_session_cookie : Header → Option Bytes
extract_session_cookie header = elim (text_of header) [
  | none ↦ none
  | some raw ↦ scan cookie_name (split_on 59 raw)
]

unfoldable pub read_cookie : Header → Bytes → Option Bytes
read_cookie header name = elim (text_of header) [
  | none ↦ none
  | some raw ↦ scan name (split_on 59 raw)
]

-- to_string() of an i64
unfoldable pub signed_decimal : ℤ → Bytes
signed_decimal (pos n) = decimal n
signed_decimal (negsuc n) = 45 ∷ decimal (suc n)

-- whether `HeaderValue::from_str` accepts a text
abbrev pub HeaderText : Type 0
HeaderText = Bytes → Bool

-- `HeaderValue::from_str(..).unwrap_or_else(|_| HeaderValue::from_static(""))`
abbrev pub header_value : HeaderText → Bytes → Bytes
header_value accepts text = if accepts text then text else []

abbrev pub secured : Bool → Bytes → Bytes
secured secure cookie = if secure then cookie ++ codes "; Secure" else cookie

-- Times are milliseconds; `timestamp()` is in seconds.
unfoldable pub build_session_cookie : HeaderText → Bytes → Bool → ℕ → ℕ → Bytes
build_session_cookie accepts token secure expires_at now =
    let max_age = saturating_sub (expires_at / 1000) (now / 1000) in
    header_value accepts (
      secured secure (
        cookie_name
        ++ (61 ∷ token)
        ++ (codes "; Path=/; HttpOnly; SameSite=Lax; Max-Age=" ++ signed_decimal max_age)))

unfoldable pub clear_session_cookie : HeaderText → Bool → Bytes
clear_session_cookie accepts secure =
    header_value accepts
      (secured secure (cookie_name ++ codes "=; Path=/; HttpOnly; SameSite=Lax; Max-Age=0"))

unfoldable pub build_oauth_state_cookie : HeaderText → Bytes → Bool → Bytes
build_oauth_state_cookie accepts state_token secure = header_value accepts (
    secured secure (
      oauth_state_cookie
      ++ (61 ∷ state_token)
      ++ codes "; Path=/; HttpOnly; SameSite=Lax; Max-Age=600"))

unfoldable pub clear_oauth_state_cookie : HeaderText → Bool → Bytes
clear_oauth_state_cookie accepts secure =
    header_value accepts
      (secured secure (oauth_state_cookie ++ codes "=; Path=/; HttpOnly; SameSite=Lax; Max-Age=0"))
