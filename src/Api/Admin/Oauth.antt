-- ===== src/Api/Admin/Oauth.antt =====
-- The sign-in of crates/api/src/routes/admin.rs: `github_start` and `github_callback`. GitHub's
-- answers are the fields of `Github`.
use cellora.Prelude.{
  ℕ, ◌+◌, ◌*◌, Bool, true, false, not, ◌&&◌, Option, none, some, List, [], ◌∷◌, ◌++◌, Bytes,
  bytes_eq, codes, ok, err, ok_or, ltb, if◌then◌else◌, any, first, select,
}
use cellora.Db.Rows.{User}
use cellora.Db.Users.{upsert_from_github}
use cellora.Db.Sessions
use cellora.Api.Error.{ApiError, ApiResult, bad_request, unauthorized, upstream_unavailable}
use cellora.Api.Session.{generate_token}
use cellora.Api.Cookies.{
  Header, or_else, text_of, read_cookie, oauth_state_cookie, build_session_cookie,
  build_oauth_state_cookie, clear_oauth_state_cookie,
}
use cellora.Api.Admin.{
  Env, RedisCommand, set, get, del, M, ◌>>=◌, ◌>>◌, pure, lift, require, on_users, on_sessions,
}

pub record GithubCallback : Type 0 where
  pub code : Option Bytes
  pub state : Option Bytes
  pub error : Option Bytes

pub record GithubProfile : Type 0 where
  pub id : ℕ
  pub login : Bytes
  pub avatar_url : Option Bytes

pub record GithubEmail : Type 0 where
  pub email : Bytes
  pub verified : Bool
  pub primary : Bool
  pub visibility : Option Bytes

-- The answers to the three calls, `none` for any failure: the code exchange (client id, secret,
-- redirect URL, code), the profile and the addresses of a token.
pub record Github : Type 0 where
  pub exchange : Bytes → Bytes → Bytes → Bytes → Option Bytes
  pub profile : Bytes → Option GithubProfile
  pub emails : Bytes → Option (List GithubEmail)

abbrev pub is_public : Option Bytes → Bool
is_public none = false
is_public (some visibility) = bytes_eq visibility (codes "public")

unfoldable pub select_email : List GithubEmail → Option Bytes
select_email payload =
    elim (or_else (first (λ (e : GithubEmail). e.primary && e.verified) payload) (
      or_else (first (λ (e : GithubEmail). e.verified) payload)
        (first (λ (e : GithubEmail). is_public e.visibility) payload))) [
          | none ↦ none
          | some e ↦ some e.email
        ]

-- `fetch_github_email(..).await.unwrap_or(None)`
unfoldable pub fetched_email : Github → Bytes → Option Bytes
fetched_email github token = elim (github.emails token) [
  | none ↦ none
  | some payload ↦ select_email payload
]

-- a redirection and its `Set-Cookie` headers
pub record Redirect : Type 0 where
  pub location : Bytes
  pub set_cookie : List Bytes

unfoldable pub state_key : Bytes → Bytes
state_key state_token = codes "cellora:oauth:github:state:" ++ state_token

-- whether Redis has the key, which it drops at its expiry
unfoldable pub redis_has : ℕ → Bytes → List (Bytes × ℕ) → Bool
redis_has now key redis_keys = any (λ e. bytes_eq e.0 key && ltb now e.1) redis_keys

unfoldable pub redis_without : Bytes → List (Bytes × ℕ) → List (Bytes × ℕ)
redis_without key redis_keys = select (λ e. not (bytes_eq e.0 key)) redis_keys

abbrev pub redis_down : ApiError
redis_down = upstream_unavailable (codes "redis unavailable")

abbrev pub not_configured : ApiError
not_configured = upstream_unavailable (codes "oauth not configured")

abbrev pub oauth_failed : ApiError
oauth_failed = upstream_unavailable (codes "github oauth failed")

abbrev pub profile_failed : ApiError
profile_failed = upstream_unavailable (codes "github profile failed")

abbrev pub invalid_state : ApiError
invalid_state = unauthorized (codes "invalid oauth state")

-- a command on an open connection
abbrev pub reach : (RedisCommand → Bool) → RedisCommand → M (Unit {0})
reach link command = lift (require (not (link command)) redis_down)

-- SET key 1 EX 600 NX, and whether it was set
abbrev pub set_nx : ℕ → Bytes → M Bool
set_nx now key w =
    if redis_has now key w.redis_keys
    then (ok false, w)
    else (ok true, record w { redis_keys = (key, now + 600000) ∷ redis_without key w.redis_keys })

abbrev pub get_key : ℕ → Bytes → M Bool
get_key now key w = (ok (redis_has now key w.redis_keys), w)

abbrev pub del_key : Bytes → M (Unit {0})
del_key key w = (ok tt, record w { redis_keys = redis_without key w.redis_keys })

unfoldable pub authorize_url : Bytes → Bytes → Bytes → Bytes
authorize_url client_id redirect_url state_token =
    codes "https://github.com/login/oauth/authorize?client_id="
    ++ (client_id
        ++ (codes "&redirect_uri="
            ++ (redirect_url
                ++ (codes "&scope=read:user%20user:email&state="
                    ++ (state_token ++ codes "&allow_signup=true")))))

-- the guard on the cookie
abbrev pub same_state : Option Bytes → Bytes → Bool
same_state none state_token = false
same_state (some cookie_state) state_token = bytes_eq cookie_state state_token

abbrev pub or_root : Option Bytes → Bytes
or_root none = codes "/"
or_root (some url) = url

module _ (env : Env) where
  -- `bytes` are the random bytes of `generate_state_token`.
  unfoldable pub github_start : Bytes → M Redirect
  github_start bytes = do
    client_id ← lift (ok_or env.config.client_id not_configured)
    redirect_url ← lift (ok_or env.config.redirect_url not_configured)
    link ← lift (ok_or env.redis redis_down)
    let state_token = env.tokens.base64_encode bytes
    reach link set
    inserted ← set_nx env.now (state_key state_token)
    lift (require inserted (upstream_unavailable (codes "state collision")))
    pure (record {
      location = authorize_url client_id redirect_url state_token;
      set_cookie = build_oauth_state_cookie env.accepts state_token env.config.cookie_secure ∷ [];
    })

  -- The checks of the query, up to the two values that it must carry.
  unfoldable pub callback_query : GithubCallback → ApiResult (Bytes × Bytes)
  callback_query query = elim query.error [
    | some error ↦ err (bad_request (codes "oauth error: " ++ error))
    | none ↦ elim query.code [
      | none ↦ err (bad_request (codes "missing code"))
      | some code ↦ elim query.state [
        | none ↦ err (bad_request (codes "missing state"))
        | some state_token ↦ ok (code, state_token)
      ]
    ]
  ]

  -- The state is looked up in Redis and deleted there.
  unfoldable pub consume_state : Bytes → M (Unit {0})
  consume_state state_token = do
    link ← lift (ok_or env.redis redis_down)
    reach link get
    exists ← get_key env.now (state_key state_token)
    lift (require exists invalid_state)
    reach link del
    del_key (state_key state_token)

  abbrev pub expiry : ℕ
  expiry = env.now + env.config.session_ttl_days * 86400000

  -- the response of a completed sign-in
  abbrev pub welcome : Bytes → Redirect
  welcome plaintext = record {
    location = or_root env.config.dashboard_redirect_url;
    set_cookie =
        build_session_cookie env.accepts plaintext env.config.cookie_secure expiry env.now
        ∷ clear_oauth_state_cookie env.accepts env.config.cookie_secure
        ∷ [];
  }

  -- the session of a user: its row, and the response
  unfoldable pub open_session : Bytes → Option Bytes → User → M Redirect
  open_session bytes user_agent user = do
    let issued = generate_token env.tokens bytes
    session ← λ w.
        on_sessions (Sessions.insert env.conn env.now issued.hash user.id expiry user_agent w.users)
          w
    pure (welcome issued.plaintext)

  -- `id` is the `gen_random_uuid()` of a new user, and `bytes` are the random bytes of the token.
  -- `cookies` and `agent` are two headers of the request.
  unfoldable pub github_callback :
      Github → ℕ → Bytes → GithubCallback → Header → Header → M Redirect
  github_callback github id bytes query cookies agent = do
    (code, state_token) ← lift (callback_query query)
    lift (require (same_state (read_cookie cookies oauth_state_cookie) state_token) invalid_state)
    client_id ← lift (ok_or env.config.client_id not_configured)
    client_secret ← lift (ok_or env.config.client_secret not_configured)
    redirect_url ← lift (ok_or env.config.redirect_url not_configured)
    consume_state state_token
    token ← lift (ok_or (github.exchange client_id client_secret redirect_url code) oauth_failed)
    profile ← lift (ok_or (github.profile token) profile_failed)
    user ← on_users (
        upsert_from_github env.conn env.now id profile.id profile.login (fetched_email github token)
          profile.avatar_url)
    open_session bytes (text_of agent) user
