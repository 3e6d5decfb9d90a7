-- ===== src/Store/Tokens.antt =====
-- ResolveIdentity of internal/store/store.go: who a bearer token stands for.
use Prim.Native.Char.{code}
use sandbox_manager.Prelude.{
  ℕ, ◌≡◌, ap, String, Bool, true, false, List, [], ◌∷◌, Option, none, some, str_eq, eq_iff, ltb,
  ◌==◌, if◌then◌else◌, Result, ok, err, continue, pure, attempt, ◌>>=◌, arith, subst, inl, inr,
  Bool-cases,
}
use sandbox_manager.Sandbox.{Identity, is_admin}
use sandbox_manager.Redis.{
  Server, Link, Outcome, delivered, refused, lost, settle, roundtrip, now_millis, token_key,
  session_key, apikey, session, account,
}

-- The part of a signed token before its signature.
unfoldable pub unsigned : String → String
unsigned String.[] = ""
unsigned (String.◌∷◌ c s) =
    let rest = unsigned s in if code c == b'.' then "" else String.◌∷◌ c rest

abbrev pub user : String → String → Bool → Identity
user id role anonymous = record {
  user_id = id;
  role = role;
  is_anonymous = anonymous;
  scope_user_id = "";
}

-- A missing field reads as the empty text.
abbrev pub text : Option String → String
text none = ""
text (some s) = s

module _ (srv : Server) where
  open srv.redis use {get, members, hget}
  open srv.codec use {parse_time}

  abbrev Store : Type 0 → Type 0
  Store A = Link srv → Result A × Link srv

  abbrev pub has_expired : String → ℕ → Bool
  has_expired expires t =
      if str_eq expires ""
      then false
      else elim (parse_time expires) [ none ↦ false | some e ↦ ltb e t ]

  -- The session's user; whether she is anonymous is a lookup whose failure counts as no.
  unfoldable pub session_user : String → Result (Option String) → Store (Option Identity)
  session_user id (err e) = pure (some (user id "user" false))
  session_user id (ok anon) = pure (some (user id "user" (str_eq (text anon) "1")))

  unfoldable pub from_fields : Option String × Option String → Store (Option Identity)
  from_fields (user_id, expires) = if str_eq (text user_id) "" then pure none else do
    t ← now_millis srv
    if has_expired (text expires) t then pure none else do
      anon ← attempt (roundtrip srv (λ d. (hget d (account (text user_id)) "isAnonymous", d)))
      session_user (text user_id) anon

  unfoldable pub from_sessions : List String → Store (Option Identity)
  from_sessions [] = pure none
  from_sessions (sid ∷ rest) = do
    found ←
        roundtrip srv (λ d. ((hget d (session sid) "userId", hget d (session sid) "expiresAt"), d))
    from_fields found

  unfoldable pub from_session : String → Store (Option Identity)
  from_session token = do
    sids ← roundtrip srv (λ d. (members d (session_key token), d))
    from_sessions sids

  -- An API key's role, where a fault of Redis counts as no key.
  unfoldable pub from_key :
      String → Result (Option String × Option String) → Store (Option Identity)
  from_key token (err e) = from_session token
  from_key token (ok (user_id, role)) =
      if str_eq (text user_id) ""
      then from_session token
      else pure
          (some (user (text user_id) (if str_eq (text role) "" then "user" else text role) false))

  unfoldable pub from_api_key : String → Store (Option Identity)
  from_api_key token = do
    found ←
        attempt
          (roundtrip srv (λ d. ((hget d (apikey token) "userId", hget d (apikey token) "role"), d)))
    from_key token found

  unfoldable pub resolve_identity : String → Store (Option Identity)
  resolve_identity signed = do
    let token = unsigned signed
    user_id ← roundtrip srv (λ d. (get d (token_key token), d))
    if str_eq (text user_id) ""
        then from_api_key token
        else pure (some (user (text user_id) "user" false))

  -- The answers whose role is `user`.
  abbrev IsUser : Result (Option Identity) → Type 0
  IsUser r = (i : Identity) → r ≡ ok (some i) → i.role ≡ "user"

  session_user-IsUser :
      (id : String) (r : Result (Option String)) (l : Link srv) → IsUser (session_user id r l).0
  unfolding session_user pure
  session_user-IsUser id (err e) l i h = ground arith
  session_user-IsUser id (ok anon) l i h = ground arith

  from_fields-IsUser :
      (f : Option String × Option String) (l : Link srv) → IsUser (from_fields f l).0
  unfolding from_fields session_user now_millis ◌>>=◌ attempt pure
  from_fields-IsUser f l i h = ground arith

  bind-IsUser :
      {A : Type 0} (m : Store A) (f : A → Store (Option Identity)) (l : Link srv)
      → ((a : A) (l' : Link srv) → IsUser (f a l').0)
      → IsUser ((m >>= f) l).0
  unfolding ◌>>=◌
  bind-IsUser {A} m f l rest = go (m l).0
    where
      go : (r : Result A) → IsUser (continue r f (m l).1).0
      go (ok a) i h = rest a (m l).1 i h
      go (err e) i h = absurd (ground arith)

  from_sessions-IsUser : (sids : List String) (l : Link srv) → IsUser (from_sessions sids l).0
  unfolding from_sessions pure
  from_sessions-IsUser [] l i h = absurd (ground arith)
  from_sessions-IsUser (sid ∷ rest) l i h = bind-IsUser _ from_fields l from_fields-IsUser i h

  from_session-IsUser : (token : String) (l : Link srv) → IsUser (from_session token l).0
  unfolding from_session
  from_session-IsUser token l = bind-IsUser _ from_sessions l from_sessions-IsUser

  -- What an API key's hash says of an administrator.
  abbrev IsAdminKey : Link srv → String → Identity → Type 0
  IsAdminKey l token i =
      (hget l.db (apikey token) "userId" ≡ some i.user_id)
      × (hget l.db (apikey token) "role" ≡ some "admin")

  not_admin : (i : Identity) → i.role ≡ "user" → is_admin i ≡ false
  not_admin i e = ap (λ role. str_eq role "admin") e

  from_key-admin :
      (token : String) (r : Result (Option String × Option String)) (l : Link srv) (i : Identity)
      → (from_key token r l).0 ≡ ok (some i)
      → is_admin i ≡ true
      → r ≡ ok (some i.user_id, some "admin")
  unfolding from_key pure
  from_key-admin token (err e) l i h a =
      absurd (ground (arith, not_admin i (from_session-IsUser token l i h)))
  from_key-admin token (ok (none, role)) l i h a =
      absurd (ground (arith, not_admin i (from_session-IsUser token l i h)))
  from_key-admin token (ok (some id, none)) l i h a = elim (Bool-cases (str_eq id "")) [
    | inl e ↦ absurd (ground (arith, not_admin i (from_session-IsUser token l i (rw e at h))))
    | inr e ↦
        let plain : i.role ≡ "user" = ground arith in absurd (ground (arith, not_admin i plain))
  ]
  from_key-admin token (ok (some id, some role)) l i h a = elim (Bool-cases (str_eq id "")) [
    | inl e ↦ absurd (ground (arith, not_admin i (from_session-IsUser token l i (rw e at h))))
    | inr e ↦ ground (arith, eq_iff i.role "admin", not_admin i)
  ]

  roundtrip-ok :
      {A : Type 0} (f : srv.redis.Db → A × srv.redis.Db) (l : Link srv) (a : A)
      → (roundtrip srv f l).0 ≡ ok a
      → (f l.db).0 ≡ a
  unfolding roundtrip
  roundtrip-ok {A} f l a h = go (srv.outcome l.calls) h
    where
      go : (o : Outcome) → (settle srv o (f l.db) l).0 ≡ ok a → (f l.db).0 ≡ a
      go delivered e = ground arith
      go refused e = absurd (ground arith)
      go lost e = absurd (ground arith)

  from_api_key-admin :
      (token : String) (l : Link srv) (i : Identity)
      → (from_api_key token l).0 ≡ ok (some i)
      → is_admin i ≡ true
      → IsAdminKey l token i
  unfolding from_api_key ◌>>=◌ attempt
  from_api_key-admin token l i h a =
      let f : srv.redis.Db → (Option String × Option String) × srv.redis.Db =
        λ d. ((hget d (apikey token) "userId", hget d (apikey token) "role"), d) in
      let e = roundtrip-ok f l _ (from_key-admin token _ _ i h a) in
      (ap (λ x. x.0) e, ap (λ x. x.1) e)

  roundtrip-read :
      {A : Type 0} (f : srv.redis.Db → A) (l : Link srv)
      → (roundtrip srv (λ d. (f d, d)) l).1.db ≡ l.db
  unfolding roundtrip
  roundtrip-read f l = ground arith

  -- Whatever faults Redis has, a token resolves to an administrator only if its unsigned part is an
  -- API key whose hash names that user and the role `admin`: neither a resource token nor a session,
  -- and no failed lookup, makes one.
  pub resolve_identity-admin :
      (signed : String) (l : Link srv) (i : Identity)
      → (resolve_identity signed l).0 ≡ ok (some i)
      → is_admin i ≡ true
      → (hget l.db (apikey (unsigned signed)) "userId" ≡ some i.user_id)
        × (hget l.db (apikey (unsigned signed)) "role" ≡ some "admin")
  unfolding resolve_identity ◌>>=◌ pure
  resolve_identity-admin signed l i h a =
      let token = unsigned signed in go (roundtrip srv (λ d. (get d (token_key token), d)) l).0 h
    where
      l1 : Link srv
      l1 = (roundtrip srv (λ d. (get d (token_key (unsigned signed)), d)) l).1

      go :
          (r : Result (Option String))
          → (continue r
              (λ u.
                if str_eq (text u) ""
                then from_api_key (unsigned signed)
                else pure (some (user (text u) "user" false)))
              l1).0
            ≡ ok (some i)
          → (hget l.db (apikey (unsigned signed)) "userId" ≡ some i.user_id)
            × (hget l.db (apikey (unsigned signed)) "role" ≡ some "admin")
      go (err e) h' = absurd (ground arith)
      go (ok u) h' = elim (Bool-cases (str_eq (text u) "")) [
        | inl e ↦
            subst
              (λ d.
                (hget d (apikey (unsigned signed)) "userId" ≡ some i.user_id)
                × (hget d (apikey (unsigned signed)) "role" ≡ some "admin"))
              (roundtrip-read (λ d. get d (token_key (unsigned signed))) l)
              (from_api_key-admin (unsigned signed) l1 i (rw e at h') a)
        | inr e ↦
            let plain : i.role ≡ "user" = ground arith in absurd (ground (arith, not_admin i plain))
      ]
