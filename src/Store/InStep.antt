-- ===== src/Store/InStep.antt =====
-- The sets of ids and the records, whatever method writes.
use sandbox_manager.Prelude.{
  ◌≡◌, refl, ap, sym, ◌∙◌, subst, String, Option, none, some, arith, str_eq, Result, ok, err, ◌>>=◌,
  pure, raise, failure, continue-quiet, continue, Bool, if◌then◌else◌, Bool-cases, inl, inr,
}
use sandbox_manager.Sandbox.{Sandbox}
use sandbox_manager.Redis.{
  Server, Link, Outcome, delivered, refused, lost, settle, roundtrip, roundtrip-db, record_key,
  slot_key, created_key, user_key,
}
use sandbox_manager.Redis.Laws.{text_laws, set_laws}
use sandbox_manager.Store.{
  put, put_running, put_running_script, parse_record, fetch, backfill, delete_found, delete,
  delete_script, reserve_user_slot, release_user_slot, set_ssh_port, purge_user_indexes,
  inc_created,
}
use sandbox_manager.Store.Index.{IsIndexed, SameOwner, SameIndex, release_script-SameIndex}
use sandbox_manager.Store.Filed.{
  IsOf, IsFiled, put_script-IsFiled, reserve_script-IsFiled, put_running_script-IsFiled,
  delete_script-IsFiled,
}
use sandbox_manager.Store.Writes.{
  Write, puts, puts_running, reserves, deletes, releases, sets_port, purges, counts, run, Allowed,
  run-IsIndexed,
}

module _ (srv : Server) where
  open srv.redis use {Db, get}
  open srv.codec use {encode}

  -- A record keeps its owner.
  abbrev pub KeepsOwner : Write → Db → Type 0
  KeepsOwner (puts sb) d = SameOwner srv sb d
  KeepsOwner (reserves sb) d = SameOwner srv sb d
  KeepsOwner _ d = Unit

  same-IsFiled : {d d' : Db} → SameIndex srv d d' → IsFiled srv d → IsFiled srv d'
  same-IsFiled {d} {d'} same h u id e =
      let old = h u id (sym (same.sets (user_key u) id) ∙ e) in
      record { value = old.value; stored = same.records id ∙ old.stored; owner = old.owner }

  purge-IsFiled :
      (user_id : String) (d : Db)
      → IsFiled srv d
      → IsFiled srv (srv.redis.del (srv.redis.del_set d (user_key user_id)) (slot_key user_id))
  purge-IsFiled user_id d h u id e =
      let old = h u id (ground (arith, simp set_laws at e)) in
      record { value = old.value; stored = simp (text_laws, old.stored); owner = old.owner }

  put_running-IsFiled :
      (sb : Sandbox) (l : Link srv)
      → SameOwner srv sb l.db
      → IsFiled srv l.db
      → IsFiled srv (put_running srv sb l).1.db
  unfolding put_running ◌>>=◌ pure raise
  put_running-IsFiled sb l same h =
      let asked = roundtrip srv (put_running_script srv sb) l in
      let finish : Bool → Link srv → Result (Unit {0}) × Link srv =
        λ n. if n then pure tt else raise (failure "sandbox was deleted during creation") in
      rw (continue-quiet asked.0 finish asked.1 (λ n. ground arith)) (
        roundtrip-db srv (IsFiled srv) (put_running_script srv sb) l h
          (put_running_script-IsFiled srv sb l.db same h))

  backfill_owner : (v : Sandbox) → (backfill srv v).user_id ≡ v.user_id
  unfolding backfill
  backfill_owner v = elim (Bool-cases (str_eq v.kind "")) [ inl e ↦ rw e refl | inr e ↦ rw e refl ]

  parsed_owner :
      (js : Option String) (l : Link srv) (sb : Sandbox) (v : Sandbox)
      → (parse_record srv js l).0 ≡ ok (some sb)
      → js ≡ some (encode v)
      → v.user_id ≡ sb.user_id
  unfolding parse_record pure raise
  parsed_owner js l sb v e same =
      let e1 : (parse_record srv (some (encode v)) l).0 ≡ ok (some sb) =
        subst (λ x. (parse_record srv x l).0 ≡ ok (some sb)) same e in
      let e2 : ok (some (backfill srv v)) ≡ ok (some sb) =
        rw (parse_record, srv.codec.decode-encode v) at e1 in
      let e3 : backfill srv v ≡ sb = ground arith in
      sym (backfill_owner v) ∙ ap (λ (x : Sandbox). x.user_id) e3

  fetch-quiet : (id : String) (l : Link srv) → (fetch srv id l).1.db ≡ l.db
  unfolding fetch parse_record roundtrip ◌>>=◌ pure raise
  fetch-quiet id l = ground arith

  fetched_owner :
      (id : String) (l : Link srv) (sb : Sandbox) (u : String)
      → (fetch srv id l).0 ≡ ok (some sb)
      → IsOf srv u id l.db
      → u ≡ sb.user_id
  unfolding fetch ◌>>=◌ roundtrip
  fetched_owner id l sb u e old = go (srv.outcome l.calls) e
    where
      go :
          (o : Outcome)
          → let asked = settle srv o (get l.db (record_key id), l.db) l in
            (continue asked.0 (parse_record srv) asked.1).0 ≡ ok (some sb) → u ≡ sb.user_id
      go delivered e' = sym old.owner ∙ parsed_owner _ _ sb old.value e' old.stored
      go refused e' = absurd (ground arith)
      go lost e' = absurd (ground arith)

  delete_found-IsFiled :
      (id : String) (found : Option Sandbox) (l : Link srv)
      → ((sb : Sandbox) → found ≡ some sb → (u : String) → IsOf srv u id l.db → u ≡ sb.user_id)
      → IsFiled srv l.db
      → IsFiled srv (delete_found srv id found l).1.db
  unfolding delete_found pure
  delete_found-IsFiled id none l owned h = h
  delete_found-IsFiled id (some sb) l owned h =
      roundtrip-db srv (IsFiled srv) (delete_script srv sb.user_id id) l h
        (delete_script-IsFiled srv sb.user_id id l.db (owned sb refl) h)

  delete-IsFiled :
      (id : String) (l : Link srv) → IsFiled srv l.db → IsFiled srv (delete srv id l).1.db
  unfolding delete ◌>>=◌
  delete-IsFiled id l h = go (fetch srv id l).0 refl
    where
      go :
          (r : Result (Option Sandbox))
          → (fetch srv id l).0 ≡ r
          → IsFiled srv (continue r (delete_found srv id) (fetch srv id l).1).1.db
      go (err x) e = subst (IsFiled srv) (sym (fetch-quiet id l)) h
      go (ok found) e =
          delete_found-IsFiled id found (fetch srv id l).1
            (λ sb same u old.
              fetched_owner id l sb u (e ∙ ap ok same)
                (subst (IsOf srv u id) (fetch-quiet id l) old))
            (subst (IsFiled srv) (sym (fetch-quiet id l)) h)

  run-IsFiled :
      (w : Write) (l : Link srv)
      → Allowed srv w l.db
      → KeepsOwner w l.db
      → IsFiled srv l.db
      → IsFiled srv (run srv w l).db
  unfolding run put reserve_user_slot release_user_slot set_ssh_port purge_user_indexes inc_created
  run-IsFiled (puts sb) l a o h =
      roundtrip-db srv (IsFiled srv) _ l h (put_script-IsFiled srv sb l.db o h)
  run-IsFiled (puts_running sb) l a o h = put_running-IsFiled sb l a.1 h
  run-IsFiled (reserves sb) l a o h =
      roundtrip-db srv (IsFiled srv) _ l h (reserve_script-IsFiled srv sb l.db o h)
  run-IsFiled (deletes id) l a o h = delete-IsFiled id l h
  run-IsFiled (releases user_id id) l a o h =
      roundtrip-db srv (IsFiled srv) _ l h
        (same-IsFiled (release_script-SameIndex srv user_id id l.db) h)
  run-IsFiled (sets_port id port) l a o h =
      roundtrip-db srv (IsFiled srv) _ l h
        (same-IsFiled (record { records = λ j. simp text_laws; sets = λ j x. simp set_laws }) h)
  run-IsFiled (purges user_id) l a o h =
      roundtrip-db srv (IsFiled srv) _ l h (purge-IsFiled user_id l.db h)
  run-IsFiled counts l a o h = roundtrip-db srv (IsFiled srv) _ l h (
      same-IsFiled
        (record {
          records = λ j. srv.redis.get-incr l.db created_key (record_key j) refl;
          sets = λ j x. simp set_laws;
        })
        h)

  pub record IsInStep (d : Db) : Type 0 where
    pub indexed : IsIndexed srv d
    pub filed : IsFiled srv d

  -- Every method that writes keeps the sets of ids in step with the records: every record is in the set
  -- of all sandboxes, in that of its user and, exactly if it is active, in that of the active ones; and
  -- no set names an id without a record, nor a user's set one of another user. That holds whether the
  -- request is refused, carried out, or carried out with the reply lost. What the callers see to are the
  -- conditions: a sandbox that is reserved or committed is active, no write gives a record another owner,
  -- and the indexes of a user are purged only when no record of hers is left.
  pub run-IsInStep :
      (w : Write) (l : Link srv)
      → Allowed srv w l.db
      → KeepsOwner w l.db
      → IsInStep l.db
      → IsInStep (run srv w l).db
  run-IsInStep w l a o h = record {
    indexed = run-IsIndexed srv w l a h.indexed;
    filed = run-IsFiled w l a o h.filed;
  }
