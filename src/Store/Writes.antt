-- ===== src/Store/Writes.antt =====
-- The methods that write, as steps on the connection, whatever the network does to each.
use sandbox_manager.Prelude.{
  ℕ, ◌≡◌, ◌≢◌, refl, ap, ◌∙◌, String, Bool, true, false, Option, none, some, arith, str_eq,
  if◌then◌else◌, Result, ◌>>=◌, pure, raise, continue-quiet, failure, str_eq-ne, continue-keeps,
  sym, subst,
}
use sandbox_manager.Sandbox.{Sandbox, is_active}
use sandbox_manager.Redis.{
  Server, Link, roundtrip, roundtrip-db, record_key, user_key, slot_key, created_key, SetKey,
}
use sandbox_manager.Redis.Laws.{text_laws, set_laws}
use sandbox_manager.Store.{
  put_running_script, put, put_running, parse_record, fetch, delete_found, delete, delete_script,
  reserve_user_slot, release_user_slot, set_ssh_port, purge_user_indexes, inc_created,
}
use sandbox_manager.Store.Scripts.{in_set}
use sandbox_manager.Store.Index.{
  IsListed, IsIndexed, SameIndex-IsIndexed, SameOwner, put_script-IsIndexed,
  put_running_script-IsIndexed, reserve_script-IsIndexed, delete_script-IsIndexed,
  release_script-SameIndex,
}

pub data Write : Type 0 where
  puts puts_running reserves : Sandbox → Write
  deletes : String → Write
  releases : String → String → Write
  sets_port : String → ℕ → Write
  purges : String → Write
  counts : Write

module _ (srv : Server) where
  open srv.redis use {Db, get}
  open srv.codec use {encode}

  unfoldable pub run : Write → Link srv → Link srv
  run (puts sb) l = (put srv sb l).1
  run (puts_running sb) l = (put_running srv sb l).1
  run (reserves sb) l = (reserve_user_slot srv sb l).1
  run (deletes id) l = (delete srv id l).1
  run (releases user_id id) l = (release_user_slot srv user_id id l).1
  run (sets_port id port) l = (set_ssh_port srv id port l).1
  run (purges user_id) l = (purge_user_indexes srv user_id l).1
  run counts l = (inc_created srv l).1

  -- What the callers see to: a reserved or committed sandbox is active and keeps its owner, and the
  -- indexes of a user are purged only when no record of hers is left.
  abbrev pub Allowed : Write → Db → Type 0
  Allowed (reserves sb) d = is_active sb ≡ true
  Allowed (puts_running sb) d = (is_active sb ≡ true) × SameOwner srv sb d
  Allowed (purges user_id) d =
      (id : String) (sb : Sandbox) → get d (record_key id) ≡ some (encode sb) → sb.user_id ≢ user_id
  Allowed _ d = Unit

  put_running-IsIndexed :
      (sb : Sandbox) (l : Link srv)
      → is_active sb ≡ true
      → SameOwner srv sb l.db
      → IsIndexed srv l.db
      → IsIndexed srv (put_running srv sb l).1.db
  unfolding put_running ◌>>=◌ pure raise
  put_running-IsIndexed sb l active same h =
      let asked = roundtrip srv (put_running_script srv sb) l in
      let finish : Bool → Link srv → Result (Unit {0}) × Link srv =
        λ n. if n then pure tt else raise (failure "sandbox was deleted during creation") in
      rw (continue-quiet asked.0 finish asked.1 (λ n. ground arith)) (
        roundtrip-db srv (IsIndexed srv) (put_running_script srv sb) l h
          (put_running_script-IsIndexed srv sb l.db active same h))

  delete_found-IsIndexed :
      (id : String) (found : Option Sandbox) (l : Link srv)
      → IsIndexed srv l.db
      → IsIndexed srv (delete_found srv id found l).1.db
  unfolding delete_found pure
  delete_found-IsIndexed id none l h = h
  delete_found-IsIndexed id (some sb) l h =
      roundtrip-db srv (IsIndexed srv) (delete_script srv sb.user_id id) l h
        (delete_script-IsIndexed srv sb.user_id id l.db h)

  fetch-quiet : (id : String) (l : Link srv) → (fetch srv id l).1.db ≡ l.db
  unfolding fetch parse_record roundtrip ◌>>=◌ pure raise
  fetch-quiet id l = ground arith

  delete-IsIndexed :
      (id : String) (l : Link srv) → IsIndexed srv l.db → IsIndexed srv (delete srv id l).1.db
  unfolding delete ◌>>=◌
  delete-IsIndexed id l h =
      let read = fetch srv id l in
      let kept = subst (IsIndexed srv) (sym (fetch-quiet id l)) h in
      continue-keeps (λ m. IsIndexed srv m.db) read.0 (delete_found srv id) read.1 kept
        (λ found. delete_found-IsIndexed id found read.1 kept)

  other_user :
      (user_id id js : String) (d : Db)
      → Allowed (purges user_id) d
      → (old : IsListed srv d id js) → get d (record_key id) ≡ some js
      → str_eq user_id old.value.user_id ≡ false
  other_user user_id id js d gone old e =
      str_eq-ne _ _ (λ q. gone id old.value (e ∙ ap some old.encoded) (sym q))

  purge-IsIndexed :
      (user_id : String) (d : Db)
      → Allowed (purges user_id) d
      → IsIndexed srv d
      → IsIndexed srv (srv.redis.del (srv.redis.del_set d (user_key user_id)) (slot_key user_id))
  purge-IsIndexed user_id d gone h =
      let d' = srv.redis.del (srv.redis.del_set d (user_key user_id)) (slot_key user_id) in
      let text : (id : String) → get d' (record_key id) ≡ get d (record_key id) =
        λ id. simp text_laws in
      record {
        listed = λ id js e.
            let old = h.listed id js (sym (text id) ∙ e) in
            record {
              value = old.value;
              encoded = old.encoded;
              at_id = old.at_id;
              among_all = simp (set_laws, old.among_all);
              under_user = simp (
                set_laws,
                old.under_user,
                other_user user_id id js d gone old (sym (text id) ∙ e),
              );
              among_active = simp (set_laws, old.among_active);
            };
        all_stored =
            λ id e. let (js, p) = h.all_stored id (simp set_laws at e) in (js, text id ∙ p);
        active_stored =
            λ id e. let (js, p) = h.active_stored id (simp set_laws at e) in (js, text id ∙ p);
      }

  -- A key other than a record changes, and no set.
  other_key-IsIndexed :
      (d d' : Db)
      → ((id : String) → get d' (record_key id) ≡ get d (record_key id))
      → ((j : SetKey) (x : String) → in_set srv d' j x ≡ in_set srv d j x)
      → IsIndexed srv d
      → IsIndexed srv d'
  other_key-IsIndexed d d' records sets =
      SameIndex-IsIndexed srv (record { records = records; sets = sets })

  -- Every method that writes keeps the sets in step with the records, whether its request is
  -- refused, carried out, or carried out with the reply lost; the callers see to `Allowed`.
  pub run-IsIndexed :
      (w : Write) (l : Link srv) → Allowed w l.db → IsIndexed srv l.db → IsIndexed srv (run w l).db
  unfolding run put reserve_user_slot release_user_slot set_ssh_port purge_user_indexes inc_created
  run-IsIndexed (puts sb) l a h =
      roundtrip-db srv (IsIndexed srv) _ l h (put_script-IsIndexed srv sb l.db h)
  run-IsIndexed (puts_running sb) l a h = put_running-IsIndexed sb l a.0 a.1 h
  run-IsIndexed (reserves sb) l a h =
      roundtrip-db srv (IsIndexed srv) _ l h (reserve_script-IsIndexed srv sb l.db a h)
  run-IsIndexed (deletes id) l a h = delete-IsIndexed id l h
  run-IsIndexed (releases user_id id) l a h =
      roundtrip-db srv (IsIndexed srv) _ l h
        (SameIndex-IsIndexed srv (release_script-SameIndex srv user_id id l.db) h)
  run-IsIndexed (sets_port id port) l a h =
      roundtrip-db srv (IsIndexed srv) _ l h
        (other_key-IsIndexed l.db _ (λ j. simp text_laws) (λ j x. simp set_laws) h)
  run-IsIndexed (purges user_id) l a h =
      roundtrip-db srv (IsIndexed srv) _ l h (purge-IsIndexed user_id l.db a h)
  run-IsIndexed counts l a h = roundtrip-db srv (IsIndexed srv) _ l h (
      other_key-IsIndexed l.db _ (λ j. srv.redis.get-incr l.db created_key (record_key j) refl)
        (λ j x. simp set_laws) h)
