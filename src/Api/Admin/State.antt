-- ===== src/Api/Admin/State.antt =====
-- A sign-in is bound to the browser and to the flow that it was started with.
use cellora.Prelude.{
  ℕ, ◌≡◌, ◌≢◌, refl, sym, ap, true, false, Bool-cases, not, inl, inr, Option, some, none, List, [],
  ◌∷◌, Bytes, bytes_eq, bytes_eq_sound, ok, ok_or, ok_or-eq-ok, any, select, arith,
}
use mathlib.Core.Path.{subst}
use cellora.Db.Users.{upsert_from_github}
use cellora.Db.Sessions
use cellora.Api.Cookies.{Header, read_cookie, oauth_state_cookie, text_of}
use cellora.Api.Session.{generate_token}
use cellora.Db.Rows.{User, Session}
use cellora.Api.Admin.{AdminWorld, Env, M, pure, del, get}
use cellora.Api.Admin.Flow.{
  Succeeds, Succeeds-bind, Succeeds-lift, Succeeds-stored, Succeeds-require, Succeeds-ok,
}
use cellora.Api.Admin.Oauth.{
  GithubCallback, Github, Redirect, state_key, redis_has, redis_without, same_state, redis_down,
  invalid_state, not_configured, callback_query, consume_state, oauth_failed, profile_failed,
  open_session, github_callback, expiry, welcome, fetched_email, GithubProfile,
}

-- A deleted key is not there, at any time.
redis_has-redis_without :
    (now : ℕ) (key : Bytes) (redis_keys : List (Bytes × ℕ))
    → redis_has now key (redis_without key redis_keys) ≡ false
unfolding redis_has redis_without any select
redis_has-redis_without now key [] = refl
redis_has-redis_without now key (e ∷ es) = elim (Bool-cases (bytes_eq e.0 key)) [
  | inl same ↦ rw same (redis_has-redis_without now key es)
  | inr other ↦ rw (other, other) (redis_has-redis_without now key es)
]

same_state_sound : (o : Option Bytes) (s : Bytes) → same_state o s ≡ true → o ≡ some s
same_state_sound none s h = absurd cc
same_state_sound (some c) s h = ap some (bytes_eq_sound c s h)

module _ (env : Env) where
  callback_query-state :
      (query : GithubCallback) (code state_token : Bytes)
      → callback_query env query ≡ ok (code, state_token)
      → query.state ≡ some state_token
  unfolding callback_query
  callback_query-state query code state_token h = ground arith

  -- What a consumed state has been, and what is left.
  abbrev Consumed : Bytes → AdminWorld → Unit {0} → AdminWorld → Type 0
  Consumed state_token w u w' =
      (redis_has env.now (state_key state_token) w.redis_keys ≡ true)
      × (w' ≡ record w { redis_keys = redis_without (state_key state_token) w.redis_keys })

  consume_state-Consumed :
      (state_token : Bytes) (w : AdminWorld)
      → Succeeds (Consumed state_token w) (consume_state env state_token w)
  unfolding consume_state
  consume_state-Consumed state_token w =
      let P : Unit {0} → AdminWorld → Type 0 = Consumed state_token w in
      Succeeds-lift P (ok_or env.redis redis_down) w _ λ link _.
        Succeeds-require P (not (link get)) redis_down w _ λ _.
          Succeeds-require P (redis_has env.now (state_key state_token) w.redis_keys) invalid_state
            w _ λ there. Succeeds-require P (not (link del)) redis_down w _ λ _. (there, refl)

  -- The row of a new session.
  abbrev pub session_row : Bytes → ℕ → Option Bytes → Session
  session_row token_hash user_id user_agent = record {
    token_hash = token_hash;
    user_id = user_id;
    created_at = env.now;
    expires_at = expiry env;
    last_seen_at = env.now;
    user_agent = user_agent;
  }

  -- What a completed sign-in has checked, and what it left behind.
  pub record SignedIn (github : Github) (id : ℕ) (bytes : Bytes) (query : GithubCallback)
      (cookies agent : Header) (w : AdminWorld) (r : Redirect) (w' : AdminWorld) : Type 0 where
    pub state_token : Bytes
    pub carried : query.state ≡ some state_token
    pub same_browser : read_cookie cookies oauth_state_cookie ≡ some state_token
    pub started : redis_has env.now (state_key state_token) w.redis_keys ≡ true
    pub used_up : w'.redis_keys ≡ redis_without (state_key state_token) w.redis_keys
    pub same_keys : w'.keys ≡ w.keys
    pub token : Bytes
    pub profile : GithubProfile
    pub answered : github.profile token ≡ some profile
    pub user : User
    pub kept :
        upsert_from_github env.conn env.now id profile.id profile.login
          (fetched_email github token)
          profile.avatar_url
          w.users
        ≡ ok (user, w'.users)
    pub opened :
        w'.sessions
        ≡ session_row (generate_token env.tokens bytes).hash user.id (text_of agent) ∷ w.sessions
    pub handed : r ≡ welcome env (generate_token env.tokens bytes).plaintext

  insert-Opened :
      (hash : Bytes) (user_id : ℕ) (user_agent : Option Bytes) (users : List User)
      (sessions sessions' : List Session) (s : Session)
      → Sessions.insert env.conn env.now hash user_id (expiry env) user_agent users sessions
        ≡ ok (s, sessions')
      → sessions' ≡ session_row hash user_id user_agent ∷ sessions
  unfolding Sessions.insert
  insert-Opened hash user_id user_agent users sessions sessions' s h = ground arith

  github_callback-Succeeds :
      (github : Github) (id : ℕ) (bytes : Bytes) (query : GithubCallback) (cookies agent : Header)
      (w : AdminWorld)
      → Succeeds
          (SignedIn github id bytes query cookies agent w)
          (github_callback env github id bytes query cookies agent w)
  unfolding github_callback open_session
  github_callback-Succeeds github id bytes query cookies agent w =
      let P : Redirect → AdminWorld → Type 0 = SignedIn github id bytes query cookies agent w in
      Succeeds-lift P (callback_query env query) w _ λ q checked.
        Succeeds-require P (same_state (read_cookie cookies oauth_state_cookie) q.1) invalid_state w
          _
          λ same. Succeeds-lift P (ok_or env.config.client_id not_configured) w _ λ client_id _.
            Succeeds-lift P (ok_or env.config.client_secret not_configured) w _ λ client_secret _.
              Succeeds-lift P (ok_or env.config.redirect_url not_configured) w _ λ redirect_url _.
                Succeeds-bind P (consume_state env q.1 w) _ λ u w1 consumed.
                  Succeeds-lift P
                    (ok_or (github.exchange client_id client_secret redirect_url q.0) oauth_failed)
                    w1 _
                    λ token _.
                      Succeeds-lift P (ok_or (github.profile token) profile_failed) w1 _
                        λ profile answered.
                          Succeeds-stored P (λ t. record w1 { users = t }) w1
                            (upsert_from_github env.conn env.now id profile.id profile.login
                              (fetched_email github token) profile.avatar_url w1.users)
                            (open_session env bytes (text_of agent))
                            λ user users kept.
                              let hash : Bytes = (generate_token env.tokens bytes).hash in
                              let r =
                                Sessions.insert env.conn env.now hash user.id (expiry env)
                                  (text_of agent) users w1.sessions in
                              let done : Session → M Redirect = λ s.
                                pure (welcome env (generate_token env.tokens bytes).plaintext) in
                              let w2 : AdminWorld = record w1 { users = users } in
                              Succeeds-stored P (λ t. record w2 { sessions = t }) w2 r done
                                λ s sessions opened.
                                  let (started, after) =
                                    Succeeds-ok (Consumed q.1 w) _ u w1
                                      (consume_state-Consumed q.1 w) consumed in
                                  record {
                                    state_token = q.1;
                                    carried = callback_query-state query q.0 q.1 checked;
                                    same_browser = same_state_sound _ _ same;
                                    started = started;
                                    used_up = ap (λ (x : AdminWorld). x.redis_keys) after;
                                    same_keys = ap (λ (x : AdminWorld). x.keys) after;
                                    token = token;
                                    profile = profile;
                                    answered = ok_or-eq-ok _ _ answered;
                                    user = user;
                                    kept =
                                        subst
                                          (λ us.
                                            upsert_from_github env.conn env.now id profile.id
                                              profile.login (fetched_email github token)
                                              profile.avatar_url us
                                            ≡ ok (user, users))
                                          (ap (λ (x : AdminWorld). x.users) after) kept;
                                    opened =
                                        subst
                                          (λ ss.
                                            sessions
                                            ≡ session_row hash user.id (text_of agent) ∷ ss)
                                          (ap (λ (x : AdminWorld). x.sessions) after)
                                          (insert-Opened hash user.id (text_of agent) users
                                            w1.sessions sessions s opened);
                                    handed = refl;
                                  }

  -- Where a sign-in completes, and what it leaves behind.
  pub github_callback-SignedIn :
      (github : Github) (id : ℕ) (bytes : Bytes) (query : GithubCallback) (cookies agent : Header)
      (w w' : AdminWorld) (r : Redirect)
      → github_callback env github id bytes query cookies agent w ≡ (ok r, w')
      → SignedIn github id bytes query cookies agent w r w'
  github_callback-SignedIn github id bytes query cookies agent w w' r h =
      Succeeds-ok (SignedIn github id bytes query cookies agent w) _ r w'
        (github_callback-Succeeds github id bytes query cookies agent w) h

-- A sign-in completes only for a state that the query and the browser's cookie both carry and that
-- Redis still holds, and in what it leaves behind no callback with that state completes.
pub github_callback-once :
    (env env' : Env) (github github' : Github) (id id' : ℕ) (bytes bytes' : Bytes)
    (query query' : GithubCallback) (cookies agent cookies' agent' : Header) (w w' w'' : AdminWorld)
    (r r' : Redirect)
    → github_callback env github id bytes query cookies agent w ≡ (ok r, w')
    → query'.state ≡ query.state
    → ((state_token : Bytes) × (query.state ≡ some state_token)
        × (read_cookie cookies oauth_state_cookie ≡ some state_token)
        × (redis_has env.now (state_key state_token) w.redis_keys ≡ true))
      × (github_callback env' github' id' bytes' query' cookies' agent' w' ≢ (ok r', w''))
github_callback-once env env' github github' id id' bytes bytes' query query' cookies agent cookies'
      agent' w w' w'' r r' h repeated =
    let s = github_callback-SignedIn env github id bytes query cookies agent w w' r h in
    (
      (s.state_token, s.carried, s.same_browser, s.started),
      λ again.
          let t =
            github_callback-SignedIn env' github' id' bytes' query' cookies' agent' w' w'' r'
              again in
          let same : t.state_token ≡ s.state_token = cc (t.carried, s.carried, repeated) in
          let gone : redis_has env'.now (state_key s.state_token) w'.redis_keys ≡ false =
            subst (λ ks. redis_has env'.now (state_key s.state_token) ks ≡ false) (sym s.used_up)
              (redis_has-redis_without env'.now (state_key s.state_token) w.redis_keys) in
          cc (
            subst (λ x. redis_has env'.now (state_key x) w'.redis_keys ≡ true) same t.started,
            gone,
          ),
    )
