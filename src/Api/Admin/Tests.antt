-- ===== src/Api/Admin/Tests.antt =====
-- A sign-in, its session and a key, on small data.
use cellora.Prelude.{
  ◌≡◌, ◌≢◌, refl, true, false, none, some, List, [], ◌∷◌, map, Bytes, bytes_eq, codes, ok, err,
  arith, inl, inr, every, ◌*◌, length, any, first, select, bytes_eq_refl, ◌+◌,
}
use cellora.Prelude.Text
use cellora.Db.Rows.{User, Session, ApiKey, starter}
use cellora.Db.Schema.{healthy}
use cellora.Db.Users
use cellora.Db.Sessions
use cellora.Db.ApiKeys
use cellora.Api.Error.{not_found}
use cellora.Api.Keys
use cellora.Api.Keys.Issued.{HexEncodes, Verifies}
use cellora.Api.Auth
use cellora.Api.Auth.{AuthenticatedKey, Entry}
use cellora.Api.Session
use cellora.Api.Session.{AuthenticatedSession, Tokens}
use cellora.Api.Session.Lifetime.{delete-ends, delete_expired-harmless}
use cellora.Api.Cookies
use cellora.Api.Cookies.{cookie_name, oauth_state_cookie}
use cellora.Api.Cookies.Lookup.{Cookie, IsClean, cookie_header, wanted, read_cookie-wanted}
use cellora.Api.Admin
use cellora.Api.Admin.{
  AdminWorld, Env, AdminConfig, Draw, CreateKeyRequest, CreateKeyResponse, key_view, issue,
  create_key, rotate_key, revoke_key,
}
use cellora.Api.Admin.Oauth
use cellora.Api.Admin.Oauth.{
  Github, GithubCallback, GithubProfile, GithubEmail, Redirect, state_key, select_email, welcome,
  github_callback,
}
use cellora.Api.Admin.State.{session_row, github_callback-once}
use cellora.Api.Admin.SignIn.{Reliable, is_url_safe, received, github_callback-signs_in}
use cellora.Api.Admin.NewKey.{create_key-authenticates}
use cellora.Api.Admin.HiddenKeys.{hidden-NotFound}

-- Stand-ins for the libraries: a letter for each byte, two digits for each byte.
letters : Bytes → Bytes
letters = map (λ _. 97)

two_digits : Bytes → Bytes
two_digits [] = []
two_digits (b ∷ bs) = 48 ∷ 48 ∷ two_digits bs

abbrev tokens : Tokens
tokens = record { sha256 = λ bs. bs; hex_encode = two_digits; base64_encode = letters }

abbrev env : Env
env = record {
  config = record {
    client_id = some (codes "id");
    client_secret = some (codes "secret");
    redirect_url = some (codes "https://api/callback");
    dashboard_redirect_url = none;
    session_ttl_days = 30;
    cookie_secure = true;
  };
  conn = healthy;
  redis = some (λ _. false);
  now = 5000;
  tokens = tokens;
  accepts = λ _. true;
  hash_password = λ secret salt. some secret;
  parse_str = λ raw. none;
}

letters-safe : (bytes : Bytes) → every is_url_safe (letters bytes) ≡ true
unfolding every is_url_safe letters
letters-safe [] = refl
letters-safe (b ∷ bs) = letters-safe bs

env-Reliable : Reliable env
unfolding letters
env-Reliable = record {
  visible = λ text h. refl;
  alphabet = letters-safe;
  something = λ b bytes. refl;
}

two_digits-length : (bytes : Bytes) → length (two_digits bytes) ≡ 2 * length bytes
unfolding two_digits
two_digits-length [] = omega arith
two_digits-length (b ∷ bs) = omega (arith, two_digits-length bs)

two_digits-hex : (bytes : Bytes) → Keys.all_hex (two_digits bytes) ≡ true
unfolding two_digits Keys.all_hex Keys.is_ascii_hexdigit
two_digits-hex [] = refl
two_digits-hex (b ∷ bs) = two_digits-hex bs

two_digits-HexEncodes : HexEncodes two_digits
two_digits-HexEncodes = record { doubles = two_digits-length; digits = two_digits-hex }

abbrev profile : GithubProfile
profile = record { id = 77; login = codes "ada"; avatar_url = none }

abbrev github : Github
github = record {
  exchange = λ id secret url code. some (codes "token");
  profile = λ token. some profile;
  emails = λ token. none;
}

abbrev state_token : Bytes
state_token = codes "st"

abbrev query : GithubCallback
query = record { code = some (codes "c"); state = some state_token; error = none }

abbrev start : AdminWorld
start = record {
  users = [];
  sessions = [];
  keys = [];
  redis_keys = (state_key state_token, 9000) ∷ [];
}

abbrev ada : User
ada = record {
  id = 7;
  github_user_id = 77;
  github_login = codes "ada";
  email = none;
  avatar_url = none;
  created_at = 5000;
  updated_at = 5000;
}

abbrev random : Bytes
random = 1 ∷ 2 ∷ []

abbrev session : Session
session = session_row env (codes "0000") 7 none

abbrev signed_in : AdminWorld
signed_in = record { users = ada ∷ []; sessions = session ∷ []; keys = []; redis_keys = [] }

abbrev browser : List Cookie
browser = (oauth_state_cookie, state_token) ∷ []

callback_ok :
    github_callback env github 7 random query (some (some (cookie_header browser))) none start
    ≡ (ok (welcome env (codes "aa")), signed_in)
unfolding github_callback Oauth.callback_query Cookies.read_cookie Cookies.scan Text.split_on
    cookie_header Text.split_once_at Text.trim Text.trim_end Text.trim_start Text.is_whitespace
    bytes_eq Oauth.consume_state Oauth.redis_has any state_key Users.upsert_from_github first
    Oauth.fetched_email Oauth.open_session Oauth.redis_without Session.generate_token
    Session.hash_token Sessions.insert select letters two_digits
callback_ok = refl

jar-IsClean : (c : Cookie) → c ≡ (cookie_name, codes "aa") → IsClean c
unfolding every Text.is_whitespace
jar-IsClean c e = rw e (record {
  name_semicolon = refl;
  name_equals = refl;
  name_space = refl;
  value_semicolon = refl;
  value_space = refl;
})

abbrev jar : List Cookie
jar = (cookie_name, codes "aa") ∷ []

github_callback-signs_in_example :
    (received (welcome env (Session.generate_token tokens random).plaintext)
      ≡ some (cookie_name, (Session.generate_token tokens random).plaintext))
    × ((auth : AuthenticatedSession) × (token : Bytes) × (p : GithubProfile) × (Session.middleware
            tokens healthy 6000
            (some (some (cookie_header jar)))
            signed_in.users
            signed_in.sessions
            ok
          ≡ ok auth)
        × (auth.session.token_hash ≡ (Session.generate_token tokens random).hash)
        × (auth.session.user_id ≡ auth.user.id)
        × (github.profile token ≡ some p)
        × (auth.user.github_user_id ≡ p.id)
        × (auth.user.github_login ≡ p.login))
unfolding Session.generate_token letters
github_callback-signs_in_example =
    github_callback-signs_in env github 7 random query (some (some (cookie_header browser))) none
      start signed_in (welcome env (codes "aa")) jar 6000 env-Reliable tt callback_ok
      (jar-IsClean (cookie_name, codes "aa") refl, tt)
      (unfold wanted bytes_eq letters Session.generate_token in refl) (omega arith)

github_callback-once_example :
    ((s : Bytes) × (query.state ≡ some s)
      × (Cookies.read_cookie (some (some (cookie_header browser))) oauth_state_cookie ≡ some s)
      × (Oauth.redis_has 5000 (state_key s) start.redis_keys ≡ true))
    × (github_callback env github 8 random query
          (some (some (cookie_header browser)))
          none
          signed_in
        ≢ (ok (welcome env (codes "aa")), signed_in))
github_callback-once_example =
    github_callback-once env env github github 7 8 random random query query
      (some (some (cookie_header browser))) none (some (some (cookie_header browser))) none start
      signed_in signed_in (welcome env (codes "aa")) (welcome env (codes "aa")) callback_ok refl

read_cookie-wanted_example :
    (Cookies.read_cookie (some (some (cookie_header jar))) (codes "other")
      ≡ wanted (codes "other") jar)
    × (Cookies.extract_session_cookie (some (some (cookie_header jar))) ≡ wanted cookie_name jar)
read_cookie-wanted_example =
    read_cookie-wanted (codes "other") jar (jar-IsClean (cookie_name, codes "aa") refl, tt)

delete_ok : Sessions.delete healthy (codes "0000") (session ∷ []) ≡ ok (true, [])
unfolding Sessions.delete any select bytes_eq
delete_ok = refl

delete-ends_example :
    (Session.resolve healthy 6000 (codes "0000") (ada ∷ []) []
      ≢ ok (record { session = session; user = ada }))
    × (Session.resolve healthy 6000 (codes "01") (ada ∷ []) []
        ≡ Session.resolve healthy 6000 (codes "01") (ada ∷ []) (session ∷ []))
delete-ends_example =
    delete-ends healthy healthy (codes "0000") (codes "01") 6000 (ada ∷ []) (session ∷ []) [] true
      (record { session = session; user = ada }) delete_ok (λ e. cc)

cleaned : Sessions.delete_expired healthy (env.now + 30 * 86400000) (session ∷ []) ≡ ok (1, [])
unfolding Sessions.delete_expired select
cleaned = refl

delete_expired-harmless_example :
    Session.resolve healthy 3000000000 (codes "0000") (ada ∷ []) []
    ≡ Session.resolve healthy 3000000000 (codes "0000") (ada ∷ []) (session ∷ [])
delete_expired-harmless_example =
    delete_expired-harmless healthy healthy (5000 + 30 * 86400000) 3000000000 1 (codes "0000")
      (ada ∷ []) (session ∷ []) [] cleaned (omega arith)

abbrev auth : AuthenticatedSession
auth = record { session = session; user = ada }

abbrev draw : Draw
draw = record {
  prefix_bytes = 1 ∷ 2 ∷ 3 ∷ 4 ∷ [];
  secret_bytes = 0 ∷ 0 ∷ 0 ∷ 0 ∷ 0 ∷ 0 ∷ 0 ∷ 0 ∷ 0 ∷ 0 ∷ 0 ∷ 0 ∷ 0 ∷ 0 ∷ 0 ∷ 0 ∷ [];
  salt = [];
}

abbrev secret : Bytes
secret = codes "00000000000000000000000000000000"

abbrev new_key : ApiKey
new_key = record {
  id = 3;
  user_id = 7;
  prefix = codes "cell_00000000";
  secret_hash = secret;
  tier = starter;
  label = some (codes "ci");
  created_at = 5000;
  revoked_at = none;
  last_used_at = none;
}

abbrev response : CreateKeyResponse
response = record {
  key = key_view new_key;
  secret = codes "cell_00000000_00000000000000000000000000000000";
}

abbrev with_key : AdminWorld
with_key = record signed_in { keys = new_key ∷ [] }

created :
    create_key env draw 3 auth
      (record { label = some (codes " ci "); tier = some starter })
      signed_in
    ≡ (ok response, with_key)
unfolding create_key issue Keys.generate two_digits ApiKeys.insert any Admin.clean_label Text.trim
    Text.trim_end Text.trim_start Text.is_whitespace bytes_eq
created = refl

secret-Verifies : Verifies env.hash_password bytes_eq
secret-Verifies s salt phc e = let same : s ≡ phc = cc in rw same (bytes_eq_refl phc)

create_key-authenticates_example :
    (key : AuthenticatedKey) × (cache : List Entry) × (Auth.resolve bytes_eq healthy 60 6000
        response.secret with_key.keys []
      ≡ ok (key, cache))
    × (key.id ≡ 3)
    × (key.tier ≡ starter)
create_key-authenticates_example =
    create_key-authenticates bytes_eq env draw 3 auth
      (record { label = some (codes " ci "); tier = some starter }) signed_in with_key response 60
      6000 [] two_digits-HexEncodes secret-Verifies refl refl created
      (unfold Auth.cache_get in refl)

-- every text is the id 3, which is another user's key, or the user's own but revoked
abbrev numbered : Env
numbered = record env { parse_str = λ raw. some 3 }

abbrev strange : AdminWorld
strange = record with_key { keys = record new_key { user_id = 9 } ∷ [] }

abbrev revoked_world : AdminWorld
revoked_world = record with_key { keys = record new_key { revoked_at = some 1 } ∷ [] }

issued_ok :
    issue numbered draw
    ≡ ok (record {
      prefix = codes "cell_00000000";
      secret = secret;
      secret_hash = secret;
      full = response.secret;
    })
unfolding issue Keys.generate two_digits
issued_ok = refl

hidden-NotFound_example :
    (rotate_key numbered draw auth (codes "3") strange
      ≡ (err (not_found (codes "api key not found")), strange))
    × (revoke_key numbered auth (codes "3") strange
        ≡ (err (not_found (codes "api key not found")), strange))
hidden-NotFound_example =
    hidden-NotFound numbered draw auth (codes "3") strange _ refl issued_ok
      (inr (inl λ h. absurd (omega (arith, h))), tt)

-- a revoked key is hidden too, and an active one is revoked
revoked_twice :
    (revoke_key numbered auth (codes "3") revoked_world
      ≡ (err (not_found (codes "api key not found")), revoked_world))
    × ((revoke_key numbered auth (codes "3") with_key).0 ≡ ok tt)
unfolding revoke_key Admin.parse_uuid ApiKeys.revoke_for_user ApiKeys.active_for ApiKeys.is_revoked
    ApiKeys.update select
revoked_twice = (refl, refl)
