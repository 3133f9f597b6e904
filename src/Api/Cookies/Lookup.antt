-- ===== src/Api/Cookies/Lookup.antt =====
-- What the readers of a `Cookie` header find in one that a browser writes.
use cellora.Prelude.{
  ◌≡◌, refl, true, not, ◌&&◌, Bool-cases, inl, inr, Option, none, some, List, [], ◌∷◌, ◌++◌, Bytes,
  bytes_eq, every, every-append, if◌then◌else◌, All, ◌==◌,
}
use cellora.Prelude.Text.{
  split_on, split_once_at, trim, trim_start, trim_end, is_empty, onto_first, is_whitespace,
}
use cellora.Prelude.Text.Laws.{
  free_of, no_space, split_on-free, split_on-append, split_once_at-append, trim-free, trim-blank,
}
use cellora.Api.Cookies.{scan, cookie_name, extract_session_cookie, read_cookie}

-- A cookie is a name and a value.
abbrev pub Cookie : Type 0
Cookie = Bytes × Bytes

-- What RFC 6265 lets a browser send: no semicolon and no white space, and no `=` in the name.
pub record IsClean (c : Cookie) : Type 0 where
  pub name_semicolon : free_of 59 c.0 ≡ true
  pub name_equals : free_of 61 c.0 ≡ true
  pub name_space : no_space c.0 ≡ true
  pub value_semicolon : free_of 59 c.1 ≡ true
  pub value_space : no_space c.1 ≡ true

abbrev pub pair : Cookie → Bytes
pair c = c.0 ++ (61 ∷ c.1)

-- The pairs, joined by a semicolon and a blank.
unfoldable pub cookie_header : List Cookie → Bytes
cookie_header [] = []
cookie_header (c ∷ []) = pair c
cookie_header (c ∷ d ∷ cs) = pair c ++ (59 ∷ 32 ∷ cookie_header (d ∷ cs))

-- The value of the first cookie of that name which has one.
unfoldable pub wanted : Bytes → List Cookie → Option Bytes
wanted name [] = none
wanted name (c ∷ cs) =
    let rest = wanted name cs in if bytes_eq c.0 name && not (is_empty c.1) then some c.1 else rest

pair-free : (c : Cookie) → IsClean c → free_of 59 (pair c) ≡ true
unfolding every
pair-free c clean =
    every-append (λ b. not (b == 59)) c.0 (61 ∷ c.1) clean.name_semicolon clean.value_semicolon

pair-no_space : (c : Cookie) → IsClean c → no_space (pair c) ≡ true
unfolding every is_whitespace
pair-no_space c clean =
    every-append (λ b. not (is_whitespace b)) c.0 (61 ∷ c.1) clean.name_space clean.value_space

split_pair : (c : Cookie) → IsClean c → split_once_at 61 (trim (pair c)) ≡ some c
split_pair c clean =
    rw (trim-free (pair c) (pair-no_space c clean))
      (split_once_at-append 61 c.0 c.1 clean.name_equals)

-- A blank in front of the first pair changes nothing.
scan-blank : (name : Bytes) (parts : List Bytes) → scan name (onto_first 32 parts) ≡ scan name parts
unfolding scan
scan-blank name [] = unfold trim_end trim_start is_whitespace split_once_at trim in refl
scan-blank name (part ∷ parts) = rw (trim-blank part)

scan-pair :
    (name : Bytes) (c : Cookie) (parts : List Bytes)
    → IsClean c
    → scan name (pair c ∷ parts)
      ≡ (if bytes_eq c.0 name && not (is_empty c.1) then some c.1 else scan name parts)
unfolding scan
scan-pair name c parts clean = elim (Bool-cases (bytes_eq c.0 name && not (is_empty c.1))) [
  | inl e ↦ rw (split_pair c clean, e)
  | inr e ↦ rw (split_pair c clean, e)
]

scan-wanted :
    (name : Bytes) (cs : List Cookie)
    → All IsClean cs
    → scan name (split_on 59 (cookie_header cs)) ≡ wanted name cs
unfolding cookie_header wanted
scan-wanted name [] h = unfold scan split_on trim trim_start trim_end split_once_at in refl
scan-wanted name (c ∷ []) h =
    rw (split_on-free 59 (pair c) (pair-free c h.0), scan-pair name c [] h.0) (unfold scan in refl)
scan-wanted name (c ∷ d ∷ cs) h = rw (
  split_on-append 59 (pair c) (32 ∷ cookie_header (d ∷ cs)) (pair-free c h.0),
  scan-pair name c (split_on 59 (32 ∷ cookie_header (d ∷ cs))) h.0,
  blank,
  scan-blank name (split_on 59 (cookie_header (d ∷ cs))),
  scan-wanted name (d ∷ cs) h.1,
)
  where
    blank :
        split_on 59 (32 ∷ cookie_header (d ∷ cs))
        ≡ onto_first 32 (split_on 59 (cookie_header (d ∷ cs)))
    blank = unfold split_on in refl

-- In the header of a browser, both readers find the value of the first cookie of their name that has
-- a value, and nothing where there is none.
pub read_cookie-wanted :
    (name : Bytes) (cs : List Cookie)
    → All IsClean cs
    → (read_cookie (some (some (cookie_header cs))) name ≡ wanted name cs)
      × (extract_session_cookie (some (some (cookie_header cs))) ≡ wanted cookie_name cs)
unfolding read_cookie extract_session_cookie
read_cookie-wanted name cs h = (scan-wanted name cs h, scan-wanted cookie_name cs h)
