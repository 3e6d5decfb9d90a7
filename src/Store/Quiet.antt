-- ===== src/Store/Quiet.antt =====
-- ResolveIdentity of internal/store/store.go only reads.
use sandbox_manager.Prelude.{
  ◌≡◌, refl, ◌∙◌, String, Bool, true, false, List, [], ◌∷◌, Option, none, str_eq, if◌then◌else◌,
  Result, ok, err, pure, attempt, ◌>>=◌, continue-keeps,
}
use sandbox_manager.Redis.{Server, Link, now_millis, roundtrip, roundtrip-db}
use sandbox_manager.Store.Tokens.{
  unsigned, text, has_expired, session_user, from_fields, from_sessions, from_session, from_key,
  from_api_key, resolve_identity,
}

module _ (srv : Server) where
  open srv.redis use {Db}

  abbrev Reads : {A : Type 0} → (Link srv → Result A × Link srv) → Type 0
  Reads m = (l : Link srv) → (m l).1.db ≡ l.db

  module _ {A B : Type 0} where
    bind-Reads :
        (m : Link srv → Result A × Link srv) (f : A → Link srv → Result B × Link srv)
        → Reads m
        → ((a : A) → Reads (f a))
        → Reads (m >>= f)
    unfolding ◌>>=◌
    bind-Reads m f first rest l =
        continue-keeps (λ (k : Link srv). k.db ≡ l.db) (m l).0 f (m l).1 (first l)
          (λ a. rest a (m l).1 ∙ first l)

  module _ {A : Type 0} where
    roundtrip-Reads : (f : Db → A) → Reads (roundtrip srv (λ d. (f d, d)))
    roundtrip-Reads f l = roundtrip-db srv (λ d. d ≡ l.db) (λ d. (f d, d)) l refl refl

    pure-Reads : (a : A) → Reads (pure a)
    unfolding pure
    pure-Reads a l = refl

    attempt-Reads : (m : Link srv → Result A × Link srv) → Reads m → Reads (attempt m)
    unfolding attempt
    attempt-Reads m q l = q l

    if-Reads :
        (b : Bool) (m n : Link srv → Result A × Link srv)
        → Reads m
        → Reads n
        → Reads (if b then m else n)
    if-Reads true m n qm qn l = qm l
    if-Reads false m n qm qn l = qn l

  session_user-Reads : (id : String) (r : Result (Option String)) → Reads (session_user srv id r)
  unfolding session_user
  session_user-Reads id (err e) = pure-Reads _
  session_user-Reads id (ok anon) = pure-Reads _

  from_fields-Reads : (r : Option String × Option String) → Reads (from_fields srv r)
  unfolding from_fields now_millis
  from_fields-Reads (user_id, expires) = if-Reads (str_eq (text user_id) "") _ _ (pure-Reads none) (
      bind-Reads (now_millis srv) _ (λ l. refl)
        (λ t. if-Reads (has_expired srv (text expires) t) _ _ (pure-Reads none) (
          bind-Reads _ _ (attempt-Reads _ (roundtrip-Reads _))
            (λ anon. session_user-Reads (text user_id) anon))))

  from_sessions-Reads : (sids : List String) → Reads (from_sessions srv sids)
  unfolding from_sessions
  from_sessions-Reads [] = pure-Reads none
  from_sessions-Reads (sid ∷ rest) =
      bind-Reads _ (from_fields srv) (roundtrip-Reads _) from_fields-Reads

  from_session-Reads : (token : String) → Reads (from_session srv token)
  unfolding from_session
  from_session-Reads token =
      bind-Reads _ (from_sessions srv) (roundtrip-Reads _) from_sessions-Reads

  from_key-Reads :
      (token : String) (r : Result (Option String × Option String)) → Reads (from_key srv token r)
  unfolding from_key
  from_key-Reads token (err e) = from_session-Reads token
  from_key-Reads token (ok (user_id, role)) =
      if-Reads (str_eq (text user_id) "") _ _ (from_session-Reads token) (pure-Reads _)

  from_api_key-Reads : (token : String) → Reads (from_api_key srv token)
  unfolding from_api_key
  from_api_key-Reads token =
      bind-Reads _ (from_key srv token) (attempt-Reads _ (roundtrip-Reads _)) (from_key-Reads token)

  pub resolve_identity-quiet :
      (signed : String) (l : Link srv) → (resolve_identity srv signed l).1.db ≡ l.db
  unfolding resolve_identity
  resolve_identity-quiet signed = bind-Reads _ _ (roundtrip-Reads _) (λ user_id.
      if-Reads (str_eq (text user_id) "") _ _ (from_api_key-Reads (unsigned signed)) (pure-Reads _))
