-- ===== src/Api/Admin/SignIn.antt =====
-- A completed sign-in signs in: the cookie that it sets is resolved to the user of the profile.
use mathlib.Core.List.{append_assoc}
use mathlib.Core.Path.{subst}
use cellora.Prelude.{
  ==_iff, ℕ, suc, ◌+◌, ◌<◌, ◌≡◌, ◌≢◌, refl, ap, Bool, true, false, not, ◌&&◌, ◌||◌, Bool-cases, inl,
  inr, Option, none, some, List, [], ◌∷◌, ◌++◌, map, Bytes, bytes_eq_refl, codes, Result, ok,
  then-eq-ok, Option-cases, ◌/◌, arith, every, every-append, every_mono, first, All, leb, ◌==◌,
  lt→ltb, if◌then◌else◌,
}
use cellora.Prelude.Int.{ℤ, pos, negsuc}
use cellora.Prelude.Text.{split_on, split_once_at, is_empty}
use cellora.Prelude.Text.Laws.{free_of, split_on-append, split_once_at-append, decimal-every}
use cellora.Prelude.Sorting.{Pairwise}
use cellora.Db.Rows.{User, Session}
use cellora.Db.Schema.{DbError, healthy, send, upsert_user}
use cellora.Db.Users.{is_github, refresh, upsert_from_github, find_by_id}
use cellora.Db.Sessions.{find_active}
use cellora.Api.Session.{AuthenticatedSession, generate_token, resolve, middleware}
use cellora.Api.Cookies.{
  Header, text_of, cookie_name, build_session_cookie, signed_decimal, secured,
}
use cellora.Api.Cookies.Lookup.{Cookie, IsClean, cookie_header, wanted, read_cookie-wanted}
use cellora.Api.Tip.{saturating_sub}
use cellora.Api.Admin.{AdminWorld, Env}
use cellora.Api.Admin.Oauth.{
  GithubCallback, GithubProfile, Github, Redirect, fetched_email, expiry, welcome, github_callback,
}
use cellora.Api.Admin.State.{session_row, github_callback-SignedIn}

-- The bytes that `HeaderValue::from_str` is documented to accept, but for the tab.
unfoldable pub is_visible : ℕ → Bool
is_visible b = leb 32 b && leb b 126

-- The alphabet of URL-safe base64.
unfoldable pub is_url_safe : ℕ → Bool
is_url_safe b =
    (leb 48 b && leb b 57)
    || ((leb 65 b && leb b 90) || ((leb 97 b && leb b 122) || (b == 45 || b == 95)))

-- What the sign-in relies on of the libraries: visible text is a header's value, and base64 text is
-- in its alphabet, and empty for no bytes only.
pub record Reliable (env : Env) : Type 0 where
  pub visible : (text : Bytes) → every is_visible text ≡ true → env.accepts text ≡ true
  pub alphabet : (bytes : Bytes) → every is_url_safe (env.tokens.base64_encode bytes) ≡ true
  pub something : (b : ℕ) (bytes : Bytes) → is_empty (env.tokens.base64_encode (b ∷ bytes)) ≡ false

-- The cookie that a browser keeps of a response: of the first `Set-Cookie`, what stands before the
-- first semicolon, cut at the first `=`.
abbrev first_part : List Bytes → Option Cookie
first_part [] = none
first_part (part ∷ parts) = split_once_at 61 part

abbrev first_cookie : List Bytes → Option Cookie
first_cookie [] = none
first_cookie (c ∷ cs) = first_part (split_on 59 c)

abbrev pub received : Redirect → Option Cookie
received r = first_cookie r.set_cookie

safe_visible : (b : ℕ) → is_url_safe b ≡ true → is_visible b ≡ true
unfolding is_url_safe is_visible
safe_visible b h = ground arith

safe_semicolon : (b : ℕ) → is_url_safe b ≡ true → not (b == 59) ≡ true
unfolding is_url_safe
safe_semicolon b h = ground arith

visible_digit : (d : ℕ) → d < 10 → is_visible (48 + d) ≡ true
unfolding is_visible
visible_digit d h = ground arith

signed_decimal-visible : (n : ℤ) → every is_visible (signed_decimal n) ≡ true
unfolding signed_decimal
signed_decimal-visible (pos n) = decimal-every is_visible n visible_digit
signed_decimal-visible (negsuc n) =
    unfold every is_visible in decimal-every is_visible (suc n) visible_digit

-- The cookie's attributes after its value.
abbrev attributes : Bool → ℤ → Bytes
attributes secure age =
    secured secure (codes "; Path=/; HttpOnly; SameSite=Lax; Max-Age=" ++ signed_decimal age)

secured-append :
    (secure : Bool) (token rest : Bytes)
    → secured secure (cookie_name ++ (61 ∷ token ++ rest))
      ≡ cookie_name ++ (61 ∷ (token ++ secured secure rest))
secured-append true token rest = ap (λ t. cookie_name ++ (61 ∷ t)) (append_assoc token rest _)
secured-append false token rest = refl

attributes-visible : (secure : Bool) (age : ℤ) → every is_visible (attributes secure age) ≡ true
unfolding every is_visible
attributes-visible true age =
    every-append is_visible (signed_decimal age) _ (signed_decimal-visible age) refl
attributes-visible false age = signed_decimal-visible age

cookie-visible :
    (token : Bytes) (secure : Bool) (age : ℤ)
    → every is_url_safe token ≡ true
    → every is_visible (cookie_name ++ (61 ∷ (token ++ attributes secure age))) ≡ true
cookie-visible token secure age safe =
    let tail =
      every-append is_visible token (attributes secure age)
        (every_mono is_url_safe is_visible token safe_visible safe)
        (attributes-visible secure age) in
    unfold every is_visible in tail

cookie-free :
    (token : Bytes)
    → every is_url_safe token ≡ true
    → free_of 59 (cookie_name ++ (61 ∷ token)) ≡ true
unfolding every
cookie-free token safe = every_mono is_url_safe (λ b. not (b == 59)) token safe_semicolon safe

first_part-cookie :
    (token : Bytes) (secure : Bool) (age : ℤ)
    → every is_url_safe token ≡ true
    → first_part (split_on 59 (cookie_name ++ (61 ∷ (token ++ attributes secure age))))
      ≡ some (cookie_name, token)
first_part-cookie token true age safe =
    rw (split_on-append 59 (cookie_name ++ (61 ∷ token)) _ (cookie-free token safe))
      (unfold every in split_once_at-append 61 cookie_name token refl)
first_part-cookie token false age safe =
    rw (split_on-append 59 (cookie_name ++ (61 ∷ token)) _ (cookie-free token safe))
      (unfold every in split_once_at-append 61 cookie_name token refl)

-- The session cookie of the response, as the browser keeps it.
received-welcome :
    (env : Env) (bytes : Bytes)
    → Reliable env
    → received (welcome env (generate_token env.tokens bytes).plaintext)
      ≡ some (cookie_name, (generate_token env.tokens bytes).plaintext)
unfolding build_session_cookie generate_token
received-welcome env bytes lib =
    let token = env.tokens.base64_encode bytes in
    let secure = env.config.cookie_secure in
    let safe = lib.alphabet bytes in
    let age = saturating_sub (expiry env / 1000) (env.now / 1000) in
    rw (
      secured-append secure token
          (codes "; Path=/; HttpOnly; SameSite=Lax; Max-Age=" ++ signed_decimal age),
      lib.visible _ (cookie-visible token secure age safe),
      first_part-cookie token secure age safe,
    )

different : (a b : ℕ) → a ≢ b → a == b ≡ false
different a b h = ground arith

first-All {κ} :
    {A : Type 0} (P : A → Type κ) (p : A → Bool) (xs : List A) (x : A)
    → All P xs
    → first p xs ≡ some x
    → P x
unfolding first
first-All P p [] x h e = absurd cc
first-All P p (y ∷ ys) x h e = elim (Bool-cases (p y)) [
  | inl hit ↦ let same : y ≡ x = cc (rw hit at e) in subst P same h.0
  | inr miss ↦ first-All P p ys x h.1 (rw miss at e)
]

-- The ids of users are their primary key.
abbrev pub Distinct : List User → Type 0
Distinct = Pairwise λ a b. a.id ≢ b.id

first-updated :
    (gid now : ℕ) (login : Bytes) (email avatar : Option Bytes) (users : List User) (old : User)
    → Distinct users
    → first (is_github gid) users ≡ some old
    → first
        (λ u. u.id == old.id)
        (map (λ u. if is_github gid u then refresh now login email avatar u else u) users)
      ≡ some (refresh now login email avatar old)
unfolding first
first-updated gid now login email avatar [] old d e = absurd cc
first-updated gid now login email avatar (u ∷ us) old d e = elim (Bool-cases (is_github gid u)) [
  | inl hit ↦ let same : u ≡ old = cc (rw hit at e) in rw (hit, same, (==_iff old.id old.id).1 refl)
  | inr miss ↦
      let later : first (is_github gid) us ≡ some old = rw miss at e in
      let apart = first-All (λ (b : User). u.id ≢ b.id) (is_github gid) us old d.0 later in
      rw (miss, different u.id old.id apart)
        (first-updated gid now login email avatar us old d.1 later)
]

first-github :
    (gid : ℕ) (users : List User) (old : User)
    → first (is_github gid) users ≡ some old
    → old.github_user_id ≡ gid
unfolding first
first-github gid [] old e = absurd cc
first-github gid (u ∷ us) old e = elim (Bool-cases (is_github gid u)) [
  | inl hit ↦
      let same : u ≡ old = cc (rw hit at e) in
      subst (λ (x : User). x.github_user_id ≡ gid) same ((==_iff u.github_user_id gid).0 hit)
  | inr miss ↦ first-github gid us old (rw miss at e)
]

-- The row that an upsert returns is the one found by its id, and has the profile's identity.
upsert-found :
    (env : Env) (id gid : ℕ) (login : Bytes) (email avatar : Option Bytes)
    (users users' : List User) (user : User)
    → Distinct users
    → upsert_from_github env.conn env.now id gid login email avatar users ≡ ok (user, users')
    → (first (λ u. u.id == user.id) users' ≡ some user)
      × (user.github_user_id ≡ gid)
      × (user.github_login ≡ login)
unfolding upsert_from_github
upsert-found env id gid login email avatar users users' user d h =
    elim (Option-cases (first (is_github gid) users)) [
      | inl e ↦
          let (_, h1) = then-eq-ok (send env.conn upsert_user) _ (rw e at h) in
          let (_, h2) = then-eq-ok _ _ h1 in fresh user users' h2
      | inr (old, e) ↦
          let (_, h1) = then-eq-ok (send env.conn upsert_user) _ (rw e at h) in
          old_row old e user users' h1
    ]
  where
    row : User
    row = record {
      id = id;
      github_user_id = gid;
      github_login = login;
      email = email;
      avatar_url = avatar;
      created_at = env.now;
      updated_at = env.now;
    }

    fresh :
        (u : User) (us : List User)
        → ◌≡◌ {A = Result DbError (User × List User)} (ok (row, row ∷ users)) (ok (u, us))
        → (first (λ x. x.id == u.id) us ≡ some u)
          × (u.github_user_id ≡ gid)
          × (u.github_login ≡ login)
    fresh u us e =
        let same : row ≡ u = cc in
        let rows : row ∷ users ≡ us = cc in
        rw⁻¹ (rows, same) (unfold first in rw ((==_iff id id).1 refl) (refl, refl, refl))

    old_row :
        (old : User)
        → first (is_github gid) users ≡ some old
        → (u : User) (us : List User)
        → ◌≡◌ {A = Result DbError (User × List User)}
            (ok (
              refresh env.now login email avatar old,
              map (λ x. if is_github gid x then refresh env.now login email avatar x else x) users,
            ))
            (ok (u, us))
        → (first (λ x. x.id == u.id) us ≡ some u)
          × (u.github_user_id ≡ gid)
          × (u.github_login ≡ login)
    old_row old found u us e =
        let same : refresh env.now login email avatar old ≡ u = cc in
        let rows : map (λ x. if is_github gid x then refresh env.now login email avatar x else x)
              users
            ≡ us =
          cc in
        rw⁻¹ (rows, same)
          (
            first-updated gid env.now login email avatar users old d found,
            first-github gid users old found,
            refl,
          )

-- The new session is found under its hash, up to its expiry.
session-found :
    (env : Env) (hash : Bytes) (user_id now : ℕ) (agent : Option Bytes) (sessions : List Session)
    → now < expiry env
    → find_active healthy now hash (session_row env hash user_id agent ∷ sessions)
      ≡ ok (some (session_row env hash user_id agent))
unfolding find_active first
session-found env hash user_id now agent sessions h =
    rw (bytes_eq_refl hash, lt→ltb now (expiry env) h)

-- The user of the session is found by its id.
user-found :
    (user : User) (users : List User)
    → first (λ u. u.id == user.id) users ≡ some user
    → find_by_id healthy user.id users ≡ ok (some user)
unfolding find_by_id
user-found user users e = rw e

-- A completed sign-in hands the browser a session cookie; and a browser that sends it back, among
-- any other cookies, before the session expires, is resolved to the new session and to the user with
-- the id and the login of a profile that GitHub returned.
pub github_callback-signs_in :
    (env : Env) (github : Github) (id : ℕ) (bytes : Bytes) (query : GithubCallback)
    (cookies agent : Header) (w w' : AdminWorld) (r : Redirect) (jar : List Cookie) (later : ℕ)
    → Reliable env
    → Distinct w.users
    → github_callback env github id bytes query cookies agent w ≡ (ok r, w')
    → All IsClean jar
    → wanted cookie_name jar ≡ some (generate_token env.tokens bytes).plaintext
    → later < expiry env
    → (received r ≡ some (cookie_name, (generate_token env.tokens bytes).plaintext))
      × ((auth : AuthenticatedSession) × (token : Bytes) × (profile : GithubProfile) × (middleware
              env.tokens healthy later
              (some (some (cookie_header jar)))
              w'.users
              w'.sessions
              ok
            ≡ ok auth)
          × (auth.session.token_hash ≡ (generate_token env.tokens bytes).hash)
          × (auth.session.user_id ≡ auth.user.id)
          × (github.profile token ≡ some profile)
          × (auth.user.github_user_id ≡ profile.id)
          × (auth.user.github_login ≡ profile.login))
unfolding middleware resolve generate_token
github_callback-signs_in env github id bytes query cookies agent w w' r jar later lib distinct h
      clean holds young =
    let s = github_callback-SignedIn env github id bytes query cookies agent w w' r h in
    let hash : Bytes = (generate_token env.tokens bytes).hash in
    let (there, gid, login) =
      upsert-found env id s.profile.id s.profile.login (fetched_email github s.token)
        s.profile.avatar_url w.users w'.users s.user distinct s.kept in
    (
      rw s.handed (received-welcome env bytes lib),
      (
        record { session = session_row env hash s.user.id (text_of agent); user = s.user },
        s.token,
        s.profile,
        rw (
          (read_cookie-wanted cookie_name jar clean).1,
          holds,
          s.opened,
          session-found env hash s.user.id later (text_of agent) w.sessions young,
          user-found s.user w'.users there,
        ),
        refl,
        refl,
        s.answered,
        gid,
        login,
      ),
    )
