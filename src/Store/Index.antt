-- ===== src/Store/Index.antt =====
-- When the sets agree with the records: every record is listed under its owner and among all sandboxes,
-- it is among the active ones exactly if its state is, and no set of sandboxes names a missing one.
use sandbox_manager.Prelude.{
  ◌≡◌, ap, ◌∙◌, String, true, some, arith, str_eq, eq_iff, eq_refl, if◌then◌else◌, Bool-cases,
  Option-cases, inl, inr,
}
use sandbox_manager.Sandbox.{Sandbox, is_active}
use sandbox_manager.Redis.{Server, record_key, slot_key, SetKey, all_key, active_key, user_key}
use sandbox_manager.Redis.Laws.{text_laws, set_laws}
use sandbox_manager.Store.{
  put_script, put_running_script, release_script, delete_script, reserve_script,
}
use sandbox_manager.Store.Scripts.{
  in_set, get-put_script, mem-put_script, get-release_script, mem-release_script, get-delete_script,
  mem-delete_script, reserve_script-held, get-reserve_script, mem-reserve_script, Committed,
  put_running_script-cases,
}

module _ (srv : Server) where
  open srv.redis use {Db, get, members}
  open srv.codec use {encode}

  -- The text at a record's key, and the sets that list it.
  pub record IsListed (d : Db) (id js : String) : Type 0 where
    pub value : Sandbox
    pub encoded : js ≡ encode value
    pub at_id : value.id ≡ id
    pub among_all : in_set srv d all_key id ≡ true
    pub under_user : in_set srv d (user_key value.user_id) id ≡ true
    pub among_active : in_set srv d active_key id ≡ is_active value

  abbrev pub Stored : Db → String → Type 0
  Stored d id = (js : String) × (get d (record_key id) ≡ some js)

  pub record IsIndexed (d : Db) : Type 0 where
    pub listed : (id js : String) → get d (record_key id) ≡ some js → IsListed d id js
    pub all_stored : (id : String) → in_set srv d all_key id ≡ true → Stored d id
    pub active_stored : (id : String) → in_set srv d active_key id ≡ true → Stored d id

  pub put_script-IsIndexed :
      (sb : Sandbox) (d : Db) → IsIndexed d → IsIndexed (put_script srv sb d).1
  put_script-IsIndexed sb d h = record {
    listed = λ id js e. elim (Bool-cases (str_eq sb.id id)) [
      | inl same ↦ record {
        value = record sb { ssh_connections = 0 };
        encoded = ground (arith, get-put_script srv sb d (record_key id));
        at_id = (eq_iff sb.id id).0 same;
        among_all = ground (arith, mem-put_script srv sb d all_key id);
        under_user =
            ground (arith, mem-put_script srv sb d (user_key sb.user_id) id, eq_refl sb.user_id);
        among_active = ground (arith, mem-put_script srv sb d active_key id);
      }
      | inr other ↦
          let old = h.listed id js (ground (arith, get-put_script srv sb d (record_key id))) in
          record {
            value = old.value;
            encoded = old.encoded;
            at_id = old.at_id;
            among_all = ground (arith, mem-put_script srv sb d all_key id);
            under_user = ground (arith, mem-put_script srv sb d (user_key old.value.user_id) id);
            among_active = ground (arith, mem-put_script srv sb d active_key id);
          }
    ];
    all_stored = λ id e. elim (Bool-cases (str_eq sb.id id)) [
      | inl same ↦ (
        encode (record sb { ssh_connections = 0 }),
        ground (arith, get-put_script srv sb d (record_key id)),
      )
      | inr other ↦
          let (js, p) = h.all_stored id (ground (arith, mem-put_script srv sb d all_key id)) in
          (js, ground (arith, get-put_script srv sb d (record_key id)))
    ];
    active_stored = λ id e. elim (Bool-cases (str_eq sb.id id)) [
      | inl same ↦ (
        encode (record sb { ssh_connections = 0 }),
        ground (arith, get-put_script srv sb d (record_key id)),
      )
      | inr other ↦
          let (js, p) =
            h.active_stored id (ground (arith, mem-put_script srv sb d active_key id)) in
          (js, ground (arith, get-put_script srv sb d (record_key id)))
    ];
  }

  -- A change that no record and no set of sandboxes sees.
  pub record SameIndex (d d' : Db) : Type 0 where
    pub records : (id : String) → get d' (record_key id) ≡ get d (record_key id)
    pub sets : (j : SetKey) (x : String) → in_set srv d' j x ≡ in_set srv d j x

  pub SameIndex-IsIndexed : {d d' : Db} → SameIndex d d' → IsIndexed d → IsIndexed d'
  SameIndex-IsIndexed {d} {d'} same h = record {
    listed = λ id js e.
        let old = h.listed id js (ground (arith, same.records id)) in
        record {
          value = old.value;
          encoded = old.encoded;
          at_id = old.at_id;
          among_all = ground (arith, same.sets all_key id);
          under_user = ground (arith, same.sets (user_key old.value.user_id) id);
          among_active = ground (arith, same.sets active_key id);
        };
    all_stored = λ id e.
        let (js, p) = h.all_stored id (ground (arith, same.sets all_key id)) in
        (js, ground (arith, same.records id));
    active_stored = λ id e.
        let (js, p) = h.active_stored id (ground (arith, same.sets active_key id)) in
        (js, ground (arith, same.records id));
  }

  pub release_script-SameIndex :
      (user_id id : String) (d : Db) → SameIndex d (release_script srv user_id id d).1
  release_script-SameIndex user_id id d = record {
    records = λ j. get-release_script srv user_id id d (record_key j);
    sets = mem-release_script srv user_id id d;
  }

  pub delete_script-IsIndexed :
      (user_id id : String) (d : Db) → IsIndexed d → IsIndexed (delete_script srv user_id id d).1
  delete_script-IsIndexed user_id id d h = record {
    listed = λ j js e. elim (Bool-cases (str_eq id j)) [
      | inl same ↦ absurd (grind (arith, get-delete_script srv user_id id d (record_key j)))
      | inr other ↦
          let old =
            h.listed j js (ground (arith, get-delete_script srv user_id id d (record_key j))) in
          record {
            value = old.value;
            encoded = old.encoded;
            at_id = old.at_id;
            among_all = ground (arith, mem-delete_script srv user_id id d all_key j);
            under_user =
                ground (arith, mem-delete_script srv user_id id d (user_key old.value.user_id) j);
            among_active = ground (arith, mem-delete_script srv user_id id d active_key j);
          }
    ];
    all_stored = λ j e.
        let (js, p) =
          h.all_stored j (ground (arith, mem-delete_script srv user_id id d all_key j)) in
        (
          js,
          ground (
            arith,
            mem-delete_script srv user_id id d all_key j,
            get-delete_script srv user_id id d (record_key j),
          ),
        );
    active_stored = λ j e.
        let (js, p) =
          h.active_stored j (ground (arith, mem-delete_script srv user_id id d active_key j)) in
        (
          js,
          ground (
            arith,
            mem-delete_script srv user_id id d active_key j,
            get-delete_script srv user_id id d (record_key j),
          ),
        );
  }

  pub reserve_script-IsIndexed :
      (sb : Sandbox) (d : Db)
      → is_active sb ≡ true
      → IsIndexed d
      → IsIndexed (reserve_script srv sb d).1
  reserve_script-IsIndexed sb d active h = elim (Option-cases (get d (slot_key sb.user_id))) [
    | inr (held, e) ↦ rw (reserve_script-held srv sb d held e) h
    | inl free ↦
        let text = get-reserve_script srv sb d free in
        let sets = mem-reserve_script srv sb d free in
        record {
          listed = λ id js e. elim (Bool-cases (str_eq sb.id id)) [
            | inl same ↦ record {
              value = sb;
              encoded = ground (arith, text (record_key id));
              at_id = (eq_iff sb.id id).0 same;
              among_all = ground (arith, sets all_key id);
              under_user = ground (arith, sets (user_key sb.user_id) id, eq_refl sb.user_id);
              among_active = ground (arith, sets active_key id);
            }
            | inr other ↦
                let old = h.listed id js (ground (arith, text (record_key id))) in
                record {
                  value = old.value;
                  encoded = old.encoded;
                  at_id = old.at_id;
                  among_all = ground (arith, sets all_key id);
                  under_user = ground (arith, sets (user_key old.value.user_id) id);
                  among_active = ground (arith, sets active_key id);
                }
          ];
          all_stored = λ id e. elim (Bool-cases (str_eq sb.id id)) [
            | inl same ↦ (encode sb, ground (arith, text (record_key id)))
            | inr other ↦
                let (js, p) = h.all_stored id (ground (arith, sets all_key id)) in
                (js, ground (arith, text (record_key id)))
          ];
          active_stored = λ id e. elim (Bool-cases (str_eq sb.id id)) [
            | inl same ↦ (encode sb, ground (arith, text (record_key id)))
            | inr other ↦
                let (js, p) = h.active_stored id (ground (arith, sets active_key id)) in
                (js, ground (arith, text (record_key id)))
          ];
        }
  ]

  -- The record at the sandbox's id, if there is one, belongs to the same user.
  abbrev pub SameOwner : Sandbox → Db → Type 0
  SameOwner sb d =
      (old : Sandbox) → get d (record_key sb.id) ≡ some (encode old) → old.user_id ≡ sb.user_id

  Committed-IsIndexed :
      (sb : Sandbox) (d : Db)
      → is_active sb ≡ true
      → SameOwner sb d
      → IsIndexed d
      → Committed srv sb d
      → IsIndexed (put_running_script srv sb d).1
  Committed-IsIndexed sb d active same h (text, slot, stored, st, e) =
      let was = h.listed sb.id text stored in
      let owner = same was.value (stored ∙ ap some was.encoded) in
      let creating_was =
        ap srv.codec.script_state was.encoded ∙ srv.codec.script_state-encode was.value in
      let js = encode (record sb { ssh_connections = 0 }) in
      let record_at : (id : String)
          → get (put_running_script srv sb d).1 (record_key id)
            ≡ (if str_eq sb.id id then some js else get d (record_key id)) =
        λ id. rw e (simp text_laws) in
      let sets : (j : SetKey) (x : String)
          → in_set srv (put_running_script srv sb d).1 j x ≡ in_set srv d j x =
        λ j x. rw e (simp set_laws) in
      record {
        listed = λ id js' p. elim (Bool-cases (str_eq sb.id id)) [
          | inl eq ↦ record {
            value = record sb { ssh_connections = 0 };
            encoded = ground (arith, record_at id);
            at_id = (eq_iff sb.id id).0 eq;
            among_all = ground (arith, sets all_key id, was.among_all, (eq_iff sb.id id).0 eq);
            under_user = ground (
              arith,
              sets (user_key sb.user_id) id,
              was.under_user,
              (eq_iff sb.id id).0 eq,
              owner,
            );
            among_active =
                ground (
                  arith,
                  sets active_key id,
                  was.among_active,
                  (eq_iff sb.id id).0 eq,
                  creating_was,
                );
          }
          | inr other ↦
              let old = h.listed id js' (ground (arith, record_at id)) in
              record {
                value = old.value;
                encoded = old.encoded;
                at_id = old.at_id;
                among_all = ground (arith, sets all_key id);
                under_user = ground (arith, sets (user_key old.value.user_id) id);
                among_active = ground (arith, sets active_key id);
              }
        ];
        all_stored = λ id q. elim (Bool-cases (str_eq sb.id id)) [
          | inl eq ↦ (js, ground (arith, record_at id))
          | inr other ↦
              let (js', p) = h.all_stored id (ground (arith, sets all_key id)) in
              (js', ground (arith, record_at id))
        ];
        active_stored = λ id q. elim (Bool-cases (str_eq sb.id id)) [
          | inl eq ↦ (js, ground (arith, record_at id))
          | inr other ↦
              let (js', p) = h.active_stored id (ground (arith, sets active_key id)) in
              (js', ground (arith, record_at id))
        ];
      }

  pub put_running_script-IsIndexed :
      (sb : Sandbox) (d : Db)
      → is_active sb ≡ true
      → SameOwner sb d
      → IsIndexed d
      → IsIndexed (put_running_script srv sb d).1
  put_running_script-IsIndexed sb d active same h = elim (put_running_script-cases srv sb d) [
    | inl e ↦ rw e h
    | inr c ↦ Committed-IsIndexed sb d active same h c
  ]
