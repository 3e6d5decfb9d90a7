-- ===== src/Store.antt =====
-- internal/store/store.go: the records, the sets and the quota slots in Redis. The scripts stand as
-- functions on the database, and each method as an action on the connection.

pub mod Scripts
pub mod Index
pub mod Filed
pub mod Writes
pub mod InStep
pub mod Covers
pub mod Requests
pub mod Listing
pub mod Tokens
pub mod Quiet
use sandbox_manager.Prelude.{
  ℕ, String, Bool, true, false, List, [], ◌∷◌, Option, none, some, str_eq, if◌then◌else◌, Result,
  ok, failure, pure, raise, attempt, ◌>>=◌,
}
use sandbox_manager.Sandbox.{creating, Sandbox, is_active, is_state}
use sandbox_manager.Redis.{
  Server, Link, roundtrip, record_key, slot_key, port_key, created_key, all_key, active_key,
  user_key,
}

module _ (srv : Server) where
  open srv.redis use {Db, get, set, del, incr, members, sadd, srem, del_set, hget, publish}
  open srv.codec use {encode, decode, script_state, encode_deleted, show_int, parse_int, parse_time}

  -- The transaction of Put.
  unfoldable pub put_script : Sandbox → Db → Unit {0} × Db
  put_script sb d =
      let js = encode (record sb { ssh_connections = 0 }) in
      let d = set d (record_key sb.id) js in
      let d = sadd d (user_key sb.user_id) sb.id in
      let d = sadd d all_key sb.id in
      let d = if is_active sb then sadd d active_key sb.id else srem d active_key sb.id in
      (tt, publish d sb.user_id js)

  -- putRunning; the number tells whether the record was written.
  unfoldable pub put_running_script : Sandbox → Db → Bool × Db
  put_running_script sb d =
      let js = encode (record sb { ssh_connections = 0 }) in
      let owner = get d (slot_key sb.user_id) in
      elim owner [
        | none ↦ (false, d)
        | some holder ↦
            if str_eq holder sb.id
            then (elim (get d (record_key sb.id)) [
              | none ↦ (false, d)
              | some old ↦ elim (script_state old) [
                | none ↦ (false, d)
                | some st ↦
                    if is_state st creating
                    then (true, publish (set d (record_key sb.id) js) sb.user_id js)
                    else (false, d)
              ]
            ])
            else (false, d)
      ]

  -- relIfOwner
  unfoldable pub release_script : String → String → Db → Unit {0} × Db
  release_script user_id id d = elim (get d (slot_key user_id)) [
    | none ↦ (tt, d)
    | some holder ↦ (tt, if str_eq holder id then del d (slot_key user_id) else d)
  ]

  -- deleteSandbox
  unfoldable pub delete_script : String → String → Db → Unit {0} × Db
  unfolding release_script
  delete_script user_id id d =
      let d = del (del d (record_key id)) (port_key id) in
      let d = srem d active_key id in
      let d = srem d (user_key user_id) id in
      let d = srem d all_key id in
      let d = (release_script user_id id d).1 in (tt, publish d user_id (encode_deleted id user_id))

  -- reserveUserSlot
  unfoldable pub reserve_script : Sandbox → Db → Bool × Db
  reserve_script sb d = elim (get d (slot_key sb.user_id)) [
    | some holder ↦ (false, d)
    | none ↦
        let js = encode sb in
        let d = set d (slot_key sb.user_id) sb.id in
        let d = set d (record_key sb.id) js in
        let d = sadd d (user_key sb.user_id) sb.id in
        let d = sadd d all_key sb.id in
        let d = sadd d active_key sb.id in (true, publish d sb.user_id js)
  ]

  abbrev Store : Type 0 → Type 0
  Store A = Link srv → Result A × Link srv

  -- A command that only reads.
  abbrev read : {A : Type 0} → (Db → A) → Store A
  read f = roundtrip srv (λ d. (f d, d))

  -- A command that only writes.
  abbrev write : (Db → Db) → Store (Unit {0})
  write f = roundtrip srv (λ d. (tt, f d))

  unfoldable pub put : Sandbox → Store (Unit {0})
  put sb = roundtrip srv (put_script sb)

  unfoldable pub put_running : Sandbox → Store (Unit {0})
  put_running sb = do
    n ← roundtrip srv (put_running_script sb)
    if n then pure tt else raise (failure "sandbox was deleted during creation")

  -- A record from before the field `kind` reads as a VM.
  unfoldable pub backfill : Sandbox → Sandbox
  backfill sb = if str_eq sb.kind "" then record sb { kind = "vm" } else sb

  -- What a stored text reads as; a text that is no record is an error.
  unfoldable pub parse_record : Option String → Store (Option Sandbox)
  parse_record none = pure none
  parse_record (some js) = elim (decode js) [
    | none ↦ raise (failure "json")
    | some sb ↦ pure (some (backfill sb))
  ]

  unfoldable pub fetch : String → Store (Option Sandbox)
  fetch id = do js ← read (λ d. get d (record_key id)); parse_record js

  unfoldable pub delete_found : String → Option Sandbox → Store (Unit {0})
  delete_found id none = pure tt
  delete_found id (some sb) = roundtrip srv (delete_script sb.user_id id)

  unfoldable pub delete : String → Store (Unit {0})
  delete id = do found ← fetch id; delete_found id found

  unfoldable pub set_ssh_port : String → ℕ → Store (Unit {0})
  set_ssh_port id port = write (λ d. set d (port_key id) (show_int port))

  -- A number at a key, 0 where the key is missing.
  unfoldable pub parse_number : Option String → Store ℕ
  parse_number none = pure 0
  parse_number (some text) = elim (parse_int text) [
    | none ↦ raise (failure "strconv")
    | some n ↦ pure n
  ]

  unfoldable pub ssh_port : String → Store ℕ
  ssh_port id = do text ← read (λ d. get d (port_key id)); parse_number text

  unfoldable pub purge_user_indexes : String → Store (Unit {0})
  purge_user_indexes user_id = write (λ d. del (del_set d (user_key user_id)) (slot_key user_id))

  abbrev pub keep_found : Result (Option Sandbox) → List Sandbox → List Sandbox
  keep_found (ok (some sb)) rest = sb ∷ rest
  keep_found _ rest = rest

  -- The loop of List: a record that cannot be read is left out.
  unfoldable pub collect : List String → Store (List Sandbox)
  collect [] = pure []
  collect (id ∷ ids) = do
    found ← attempt (fetch id)
    rest ← collect ids
    pure (keep_found found rest)

  unfoldable pub list : String → Store (List Sandbox)
  list user_id = do
    let key = if str_eq user_id "" then all_key else user_key user_id
    ids ← read (λ d. members d key)
    collect ids

  abbrev pub owned_by : String → List Sandbox → List Sandbox
  owned_by user_id [] = []
  owned_by user_id (sb ∷ rest) =
      let kept = owned_by user_id rest in if str_eq sb.user_id user_id then sb ∷ kept else kept

  unfoldable pub list_by_user_scan : String → Store (List Sandbox)
  list_by_user_scan user_id = do all ← list ""; pure (owned_by user_id all)

  unfoldable pub reserve_user_slot : Sandbox → Store Bool
  reserve_user_slot sb = roundtrip srv (reserve_script sb)

  unfoldable pub user_slot : String → Store String
  user_slot user_id = do
    holder ← read (λ d. get d (slot_key user_id))
    pure (elim holder [ none ↦ "" | some id ↦ id ])

  unfoldable pub release_user_slot : String → String → Store (Unit {0})
  release_user_slot user_id id = roundtrip srv (release_script user_id id)

  unfoldable pub inc_created : Store (Unit {0})
  inc_created = write (λ d. incr d created_key)

  unfoldable pub total_created : Store ℕ
  total_created = do text ← read (λ d. get d created_key); parse_number text
