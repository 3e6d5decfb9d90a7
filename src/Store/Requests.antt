-- ===== src/Store/Requests.antt =====
-- The methods of internal/store/store.go on a database in which running VMs are covered: what a
-- read returns and what a write leaves, however its request ends.
use sandbox_manager.Prelude.{
  ℕ, ◌≡◌, ◌≢◌, refl, sym, ap, ◌∙◌, String, Bool, true, Option, none, some, arith, if◌then◌else◌,
  Option-cases, Result, ok, inl, inr, ◌>>=◌, pure, raise, continue-quiet, continue-keeps, failure,
  subst,
}
use sandbox_manager.Sandbox.{Sandbox}
use sandbox_manager.Redis.{
  Server, Link, Outcome, delivered, refused, lost, settle, roundtrip, roundtrip-db, record_key,
  slot_key, created_key,
}
use sandbox_manager.Redis.Laws.{text_laws, set_laws}
use sandbox_manager.Store.{
  put_script, put_running_script, delete_script, reserve_script, put, put_running, backfill,
  parse_record, fetch, delete_found, delete, reserve_user_slot, release_user_slot, user_slot,
  set_ssh_port, parse_number, ssh_port, inc_created,
}
use sandbox_manager.Store.Scripts.{reserve_script-held}
use sandbox_manager.Store.Covers.{
  IsCovered, Covers, Gone, Owns, Running, put_script-IsCovered, put_running_script-IsCovered,
  delete_script-IsCovered, release_script-IsCovered, reserve_script-IsCovered,
  reserve_script-Covers, other-IsCovered,
}

module _ (srv : Server) where
  open srv.redis use {Db, get}
  open srv.codec use {encode, decode, decode-encode}

  pub fetch-quiet : (id : String) (l : Link srv) → (fetch srv id l).1.db ≡ l.db
  unfolding fetch parse_record roundtrip ◌>>=◌ pure raise
  fetch-quiet id l = ground arith

  pub user_slot-quiet : (user_id : String) (l : Link srv) → (user_slot srv user_id l).1.db ≡ l.db
  unfolding user_slot roundtrip ◌>>=◌ pure
  user_slot-quiet user_id l = ground arith

  pub ssh_port-quiet : (id : String) (l : Link srv) → (ssh_port srv id l).1.db ≡ l.db
  unfolding ssh_port parse_number roundtrip ◌>>=◌ pure raise
  ssh_port-quiet id l = ground arith

  -- A record that is found was read from its key.
  pub fetch-found :
      (id : String) (l : Link srv) (sb : Sandbox)
      → (fetch srv id l).0 ≡ ok (some sb)
      → (js : String) × (v : Sandbox) × (get l.db (record_key id) ≡ some js)
        × (decode js ≡ some v)
        × (sb ≡ backfill srv v)
  unfolding fetch parse_record roundtrip ◌>>=◌ pure raise
  fetch-found id l sb e = elim (Option-cases (get l.db (record_key id))) [
    | inl missing ↦ absurd (ground arith)
    | inr (js, text) ↦ elim (Option-cases (decode js)) [
      | inl bad ↦ absurd (ground arith)
      | inr (v, read) ↦ (js, v, text, read, ground arith)
    ]
  ]

  backfill_fields :
      (sb : Sandbox) → ((backfill srv sb).id ≡ sb.id) × ((backfill srv sb).user_id ≡ sb.user_id)
  unfolding backfill
  backfill_fields sb = ground arith

  module _ {run : Running srv} where
    -- It has the id that it is stored under, and a VM under that id is of its user.
    pub fetch-Owns :
        (id : String) (l : Link srv) (sb : Sandbox)
        → IsCovered srv run l.db
        → (fetch srv id l).0 ≡ ok (some sb)
        → (sb.id ≡ id) × Owns srv run sb
    fetch-Owns id l sb h e =
        let (js, v, text, read, filled) = fetch-found id l sb e in
        let (ids, users) = backfill_fields v in
        let named : sb.id ≡ id =
          ap (λ (x : Sandbox). x.id) filled ∙ ids ∙ h.at_id id js v text read in
        (
          named,
          λ u r.
              let was = h.covers id u (ap run (sym named) ∙ r) in
              let same : v ≡ was.value = ground (arith, decode-encode was.value, was.stored) in
              ap (λ (x : Sandbox). x.user_id) filled
              ∙ users
              ∙ ap (λ (x : Sandbox). x.user_id) same
              ∙ was.owner,
        )

    pub put-IsCovered :
        (sb : Sandbox) (l : Link srv)
        → Owns srv run sb
        → IsCovered srv run l.db
        → IsCovered srv run (put srv sb l).1.db
    unfolding put
    put-IsCovered sb l own h =
        roundtrip-db srv (IsCovered srv run) (put_script srv sb) l h
          (put_script-IsCovered srv sb own h)

    pub put_running-IsCovered :
        (sb : Sandbox) (l : Link srv)
        → Owns srv run sb
        → IsCovered srv run l.db
        → IsCovered srv run (put_running srv sb l).1.db
    unfolding put_running ◌>>=◌ pure raise
    put_running-IsCovered sb l own h =
        let asked = roundtrip srv (put_running_script srv sb) l in
        let finish : Bool → Link srv → Result (Unit {0}) × Link srv =
          λ n. if n then pure tt else raise (failure "sandbox was deleted during creation") in
        rw (continue-quiet asked.0 finish asked.1 (λ n. ground arith)) (
          roundtrip-db srv (IsCovered srv run) (put_running_script srv sb) l h
            (put_running_script-IsCovered srv sb own h))

    delete_found-IsCovered :
        (id : String) (found : Option Sandbox) (l : Link srv)
        → Gone srv run id
        → IsCovered srv run l.db
        → IsCovered srv run (delete_found srv id found l).1.db
    unfolding delete_found pure
    delete_found-IsCovered id none l gone h = h
    delete_found-IsCovered id (some sb) l gone h =
        roundtrip-db srv (IsCovered srv run) (delete_script srv sb.user_id id) l h
          (delete_script-IsCovered srv sb.user_id id gone h)

    pub delete-IsCovered :
        (id : String) (l : Link srv)
        → Gone srv run id
        → IsCovered srv run l.db
        → IsCovered srv run (delete srv id l).1.db
    unfolding delete ◌>>=◌
    delete-IsCovered id l gone h =
        let read = fetch srv id l in
        let kept = subst (IsCovered srv run) (sym (fetch-quiet id l)) h in
        continue-keeps (λ (m : Link srv). IsCovered srv run m.db) read.0 (delete_found srv id)
          read.1 kept (λ found. delete_found-IsCovered id found read.1 gone kept)

    pub release-IsCovered :
        (user_id id : String) (l : Link srv)
        → Gone srv run id
        → IsCovered srv run l.db
        → IsCovered srv run (release_user_slot srv user_id id l).1.db
    unfolding release_user_slot
    release-IsCovered user_id id l gone h =
        roundtrip-db srv (IsCovered srv run) _ l h (release_script-IsCovered srv user_id id gone h)

    pub reserve-IsCovered :
        (sb : Sandbox) (l : Link srv)
        → Gone srv run sb.id
        → IsCovered srv run l.db
        → IsCovered srv run (reserve_user_slot srv sb l).1.db
    unfolding reserve_user_slot
    reserve-IsCovered sb l gone h =
        roundtrip-db srv (IsCovered srv run) _ l h (reserve_script-IsCovered srv sb gone h)

    pub inc_created-IsCovered :
        (l : Link srv) → IsCovered srv run l.db → IsCovered srv run (inc_created srv l).1.db
    unfolding inc_created
    inc_created-IsCovered l h = roundtrip-db srv (IsCovered srv run) _ l h (
        other-IsCovered srv _ (λ id. srv.redis.get-incr l.db created_key (record_key id) refl)
          (λ id u e. srv.redis.get-incr l.db created_key (slot_key u) refl) (λ id. simp set_laws) h)

    pub set_ssh_port-IsCovered :
        (id : String) (port : ℕ) (l : Link srv)
        → IsCovered srv run l.db
        → IsCovered srv run (set_ssh_port srv id port l).1.db
    unfolding set_ssh_port
    set_ssh_port-IsCovered id port l h = roundtrip-db srv (IsCovered srv run) _ l h (
        other-IsCovered srv _ (λ j. simp text_laws) (λ j u e. simp text_laws) (λ j. simp set_laws)
          h)

  settled-Covers :
      (sb : Sandbox) (d : Db) (l : Link srv) (o : Outcome)
      → get d (slot_key sb.user_id) ≡ none
      → (settle srv o (reserve_script srv sb d) l).0 ≡ ok true
      → Covers srv (settle srv o (reserve_script srv sb d) l).1.db sb.id sb.user_id
  settled-Covers sb d l delivered free e = reserve_script-Covers srv sb d free
  settled-Covers sb d l refused free e = absurd (ground arith)
  settled-Covers sb d l lost free e = absurd (ground arith)

  held-refuses :
      (sb : Sandbox) (d : Db) (l : Link srv) (o : Outcome) (h : String)
      → get d (slot_key sb.user_id) ≡ some h
      → (settle srv o (reserve_script srv sb d) l).0 ≢ ok true
  held-refuses sb d l o h held e = ground (arith, reserve_script-held srv sb d h held)

  -- A reservation that succeeds covers the VM that is to run under the sandbox's id.
  pub reserve-Covers :
      (sb : Sandbox) (l : Link srv)
      → (reserve_user_slot srv sb l).0 ≡ ok true
      → Covers srv (reserve_user_slot srv sb l).1.db sb.id sb.user_id
  unfolding reserve_user_slot roundtrip
  reserve-Covers sb l e = elim (Option-cases (get l.db (slot_key sb.user_id))) [
    | inl free ↦ settled-Covers sb l.db l (srv.outcome l.calls) free e
    | inr (h, held) ↦ absurd (held-refuses sb l.db l (srv.outcome l.calls) h held e)
  ]
