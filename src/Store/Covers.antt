-- ===== src/Store/Covers.antt =====
-- When the running VMs are covered: the owner's quota slot names the VM, and its record is stored under its
-- own id, belongs to the owner and is listed. `run` is the owner of the VM that runs under an id.
use sandbox_manager.Prelude.{
  ◌≡◌, ◌≢◌, refl, sym, ap, ◌∙◌, String, true, false, Option, none, some, arith, str_eq, eq_iff,
  eq_refl, if◌then◌else◌, Bool-cases, Option-cases, inl, inr,
}
use sandbox_manager.Sandbox.{Sandbox}
use sandbox_manager.Redis.{Server, record_key, slot_key, all_key, TextKey, text_key_eq}
use sandbox_manager.Redis.Laws.{text_laws, set_laws}
use sandbox_manager.Store.{
  put_script, put_running_script, release_script, delete_script, reserve_script,
}
use sandbox_manager.Store.Scripts.{
  in_set, get-put_script, mem-put_script, get-release_script, mem-release_script, get-delete_script,
  mem-delete_script, reserve_script-held, get-reserve_script, mem-reserve_script, Committed,
  put_running_script-cases,
}

module _ (srv : Server) where
  open srv.redis use {Db, get}
  open srv.codec use {encode, decode, decode-encode}

  pub record Covers (d : Db) (id user_id : String) : Type 0 where
    pub slot : get d (slot_key user_id) ≡ some id
    pub value : Sandbox
    pub stored : get d (record_key id) ≡ some (encode value)
    pub owner : value.user_id ≡ user_id
    pub among_all : in_set srv d all_key id ≡ true

  abbrev pub Running : Type 0
  Running = String → Option String

  -- No VM runs under the id.
  abbrev pub Gone : Running → String → Type 0
  Gone run id = (user_id : String) → run id ≢ some user_id

  -- If a VM runs under the sandbox's id, it is of the sandbox's user.
  abbrev pub Owns : Running → Sandbox → Type 0
  Owns run sb = (user_id : String) → run sb.id ≡ some user_id → sb.user_id ≡ user_id

  pub record IsCovered (run : Running) (d : Db) : Type 0 where
    pub covers : (id user_id : String) → run id ≡ some user_id → Covers d id user_id
    pub at_id :
        (id js : String) (sb : Sandbox)
        → get d (record_key id) ≡ some js
        → decode js ≡ some sb
        → sb.id ≡ id

  pub fewer-IsCovered :
      {run run' : Running} {d : Db}
      → ((id user_id : String) → run' id ≡ some user_id → run id ≡ some user_id)
      → IsCovered run d
      → IsCovered run' d
  fewer-IsCovered fewer h = record {
    covers = λ id u e. h.covers id u (fewer id u e);
    at_id = h.at_id;
  }

  -- Two VMs of one user are one.
  pub IsCovered-unique :
      {run : Running} {d : Db} (i j user_id : String)
      → IsCovered run d
      → run i ≡ some user_id
      → run j ≡ some user_id
      → i ≡ j
  IsCovered-unique i j user_id h a b =
      let ci = h.covers i user_id a in let cj = h.covers j user_id b in cc (ci.slot, cj.slot)

  -- A reservation covers the VM that is to run under its id.
  pub reserve_script-Covers :
      (sb : Sandbox) (d : Db)
      → get d (slot_key sb.user_id) ≡ none
      → Covers (reserve_script srv sb d).1 sb.id sb.user_id
  reserve_script-Covers sb d free = record {
    slot =
        ground (arith, get-reserve_script srv sb d free (slot_key sb.user_id), eq_refl sb.user_id);
    value = sb;
    stored = ground (arith, get-reserve_script srv sb d free (record_key sb.id), eq_refl sb.id);
    owner = refl;
    among_all = ground (arith, mem-reserve_script srv sb d free all_key sb.id, eq_refl sb.id);
  }

  module _ {run : Running} {d : Db} where
    pub put_script-IsCovered :
        (sb : Sandbox) → Owns run sb → IsCovered run d → IsCovered run (put_script srv sb d).1
    put_script-IsCovered sb own h = record {
      covers = λ id u e.
          let was = h.covers id u e in
          elim (Bool-cases (str_eq sb.id id)) [
            | inl same ↦ record {
              slot = get-put_script srv sb d (slot_key u) ∙ was.slot;
              value = record sb { ssh_connections = 0 };
              stored = ground (arith, get-put_script srv sb d (record_key id));
              owner = own u (ap run ((eq_iff sb.id id).0 same) ∙ e);
              among_all = ground (arith, mem-put_script srv sb d all_key id);
            }
            | inr other ↦ record {
              slot = get-put_script srv sb d (slot_key u) ∙ was.slot;
              value = was.value;
              stored = ground (arith, get-put_script srv sb d (record_key id), was.stored);
              owner = was.owner;
              among_all = ground (arith, mem-put_script srv sb d all_key id, was.among_all);
            }
          ];
      at_id = λ id js v e f. elim (Bool-cases (str_eq sb.id id)) [
        | inl same ↦ ground (
          arith,
          get-put_script srv sb d (record_key id),
          decode-encode (record sb { ssh_connections = 0 }),
          (eq_iff sb.id id).0 same,
        )
        | inr other ↦ h.at_id id js v (ground (arith, get-put_script srv sb d (record_key id))) f
      ];
    }

    -- Nothing but the record, the slot of another sandbox, or other keys change.
    pub release_script-IsCovered :
        (user_id id : String)
        → Gone run id
        → IsCovered run d
        → IsCovered run (release_script srv user_id id d).1
    release_script-IsCovered user_id id gone h = record {
      covers = λ j u e.
          let was = h.covers j u e in
          let apart : str_eq j id ≡ false = ground (arith, eq_iff j id, gone u) in
          record {
            slot = ground (
              arith,
              get-release_script srv user_id id d (slot_key u),
              was.slot,
              eq_iff user_id u,
            );
            value = was.value;
            stored = get-release_script srv user_id id d (record_key j) ∙ was.stored;
            owner = was.owner;
            among_all = mem-release_script srv user_id id d all_key j ∙ was.among_all;
          };
      at_id =
          λ j js v e. h.at_id j js v (sym (get-release_script srv user_id id d (record_key j)) ∙ e);
    }

    pub delete_script-IsCovered :
        (user_id id : String)
        → Gone run id
        → IsCovered run d
        → IsCovered run (delete_script srv user_id id d).1
    delete_script-IsCovered user_id id gone h = record {
      covers = λ j u e.
          let was = h.covers j u e in
          let apart : str_eq j id ≡ false = ground (arith, eq_iff j id, gone u) in
          let apart' : str_eq id j ≡ false = ground (arith, eq_iff j id, eq_iff id j) in
          record {
            slot = ground (
              arith,
              get-delete_script srv user_id id d (slot_key u),
              was.slot,
              eq_iff user_id u,
            );
            value = was.value;
            stored = ground (arith, get-delete_script srv user_id id d (record_key j), was.stored);
            owner = was.owner;
            among_all = ground (arith, mem-delete_script srv user_id id d all_key j, was.among_all);
          };
      at_id = λ j js v e f. elim (Bool-cases (str_eq id j)) [
        | inl same ↦ absurd (grind (arith, get-delete_script srv user_id id d (record_key j)))
        | inr other ↦
            h.at_id j js v (ground (arith, get-delete_script srv user_id id d (record_key j))) f
      ];
    }

    pub reserve_script-IsCovered :
        (sb : Sandbox)
        → Gone run sb.id
        → IsCovered run d
        → IsCovered run (reserve_script srv sb d).1
    reserve_script-IsCovered sb gone h = elim (Option-cases (get d (slot_key sb.user_id))) [
      | inr (held, e) ↦ rw (reserve_script-held srv sb d held e) h
      | inl free ↦
          let text = get-reserve_script srv sb d free in
          record {
            covers = λ j u e.
                let was = h.covers j u e in
                let apart : str_eq sb.id j ≡ false = ground (arith, eq_iff sb.id j, gone u) in
                let apart' : str_eq sb.user_id u ≡ false =
                  ground (arith, eq_iff sb.user_id u, was.slot) in
                record {
                  slot = ground (arith, text (slot_key u), was.slot);
                  value = was.value;
                  stored = ground (arith, text (record_key j), was.stored);
                  owner = was.owner;
                  among_all =
                      ground (arith, mem-reserve_script srv sb d free all_key j, was.among_all);
                };
            at_id = λ j js v e f. elim (Bool-cases (str_eq sb.id j)) [
              | inl same ↦
                  ground (arith, text (record_key j), decode-encode sb, (eq_iff sb.id j).0 same)
              | inr other ↦ h.at_id j js v (ground (arith, text (record_key j))) f
            ];
          }
    ]

    -- A change of other keys, and of sets other than that of all sandboxes.
    pub other-IsCovered :
        (d' : Db)
        → ((id : String) → get d' (record_key id) ≡ get d (record_key id))
        → ((id user_id : String)
            → run id ≡ some user_id
            → get d' (slot_key user_id) ≡ get d (slot_key user_id))
        → ((id : String) → in_set srv d' all_key id ≡ in_set srv d all_key id)
        → IsCovered run d
        → IsCovered run d'
    other-IsCovered d' records slots all h = record {
      covers = λ j u e.
          let was = h.covers j u e in
          record {
            slot = slots j u e ∙ was.slot;
            value = was.value;
            stored = records j ∙ was.stored;
            owner = was.owner;
            among_all = all j ∙ was.among_all;
          };
      at_id = λ j js v e. h.at_id j js v (sym (records j) ∙ e);
    }

    Committed-IsCovered :
        (sb : Sandbox)
        → Owns run sb
        → Committed srv sb d
        → IsCovered run d
        → IsCovered run (put_running_script srv sb d).1
    Committed-IsCovered sb own (old, slot, stored, st, e) h =
        let js = encode (record sb { ssh_connections = 0 }) in
        let after = (put_running_script srv sb d).1 in
        let text : (k : TextKey)
            → get after k ≡ (if text_key_eq (record_key sb.id) k then some js else get d k) =
          λ k. rw e (simp text_laws) in
        let all : (id : String) → in_set srv after all_key id ≡ in_set srv d all_key id =
          λ id. rw e (simp set_laws) in
        record {
          covers = λ id u q.
              let was = h.covers id u q in
              elim (Bool-cases (str_eq sb.id id)) [
                | inl same ↦ record {
                  slot = text (slot_key u) ∙ was.slot;
                  value = record sb { ssh_connections = 0 };
                  stored = ground (arith, text (record_key id));
                  owner = own u (ap run ((eq_iff sb.id id).0 same) ∙ q);
                  among_all = all id ∙ was.among_all;
                }
                | inr other ↦ record {
                  slot = text (slot_key u) ∙ was.slot;
                  value = was.value;
                  stored = ground (arith, text (record_key id), was.stored);
                  owner = was.owner;
                  among_all = all id ∙ was.among_all;
                }
              ];
          at_id = λ id js' v q f. elim (Bool-cases (str_eq sb.id id)) [
            | inl same ↦ ground (
              arith,
              text (record_key id),
              decode-encode (record sb { ssh_connections = 0 }),
              (eq_iff sb.id id).0 same,
            )
            | inr other ↦ h.at_id id js' v (ground (arith, text (record_key id))) f
          ];
        }

    pub put_running_script-IsCovered :
        (sb : Sandbox)
        → Owns run sb
        → IsCovered run d
        → IsCovered run (put_running_script srv sb d).1
    put_running_script-IsCovered sb own h = elim (put_running_script-cases srv sb d) [
      | inl e ↦ rw e h
      | inr c ↦ Committed-IsCovered sb own c h
    ]
