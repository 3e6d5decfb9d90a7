-- ===== src/Store/Filed.antt =====
-- That no user's set of ids names a sandbox that is gone, or one of another user.
use sandbox_manager.Prelude.{
  ◌≡◌, sym, ◌∙◌, subst, String, true, some, arith, str_eq, eq_iff, if◌then◌else◌, Bool-cases,
  Option-cases, inl, inr,
}
use sandbox_manager.Sandbox.{Sandbox}
use sandbox_manager.Redis.{Server, record_key, slot_key, user_key}
use sandbox_manager.Redis.Laws.{text_laws, set_laws}
use sandbox_manager.Store.{put_script, put_running_script, delete_script, reserve_script}
use sandbox_manager.Store.Scripts.{
  in_set, get-put_script, mem-put_script, get-delete_script, mem-delete_script, reserve_script-held,
  get-reserve_script, mem-reserve_script, put_running_script-cases,
}
use sandbox_manager.Store.Index.{SameOwner}

module _ (srv : Server) where
  open srv.redis use {Db, get}
  open srv.codec use {encode}

  -- The record at an id, of that user.
  pub record IsOf (u id : String) (d : Db) : Type 0 where
    pub value : Sandbox
    pub stored : get d (record_key id) ≡ some (encode value)
    pub owner : value.user_id ≡ u

  abbrev pub IsFiled : Db → Type 0
  IsFiled d = (u id : String) → in_set srv d (user_key u) id ≡ true → IsOf u id d

  pub put_script-IsFiled :
      (sb : Sandbox) (d : Db) → SameOwner srv sb d → IsFiled d → IsFiled (put_script srv sb d).1
  put_script-IsFiled sb d same h u id e = elim (Bool-cases (str_eq sb.id id)) [
    | inl eq ↦ record {
      value = record sb { ssh_connections = 0 };
      stored = ground (arith, get-put_script srv sb d (record_key id));
      owner = elim (Bool-cases (str_eq sb.user_id u)) [
        | inl mine ↦ (eq_iff sb.user_id u).0 mine
        | inr other ↦
            let old = h u id (ground (arith, mem-put_script srv sb d (user_key u) id)) in
            let here =
              subst (λ x. get d (record_key x) ≡ some (encode old.value))
                (sym ((eq_iff sb.id id).0 eq)) old.stored in
            sym (same old.value here) ∙ old.owner
      ];
    }
    | inr apart ↦
        let old = h u id (ground (arith, mem-put_script srv sb d (user_key u) id)) in
        record {
          value = old.value;
          stored = ground (arith, get-put_script srv sb d (record_key id), old.stored);
          owner = old.owner;
        }
  ]

  pub reserve_script-IsFiled :
      (sb : Sandbox) (d : Db) → SameOwner srv sb d → IsFiled d → IsFiled (reserve_script srv sb d).1
  reserve_script-IsFiled sb d same h = elim (Option-cases (get d (slot_key sb.user_id))) [
    | inr (held, e) ↦ rw (reserve_script-held srv sb d held e) h
    | inl free ↦ λ u id e. elim (Bool-cases (str_eq sb.id id)) [
      | inl eq ↦ record {
        value = sb;
        stored = ground (arith, get-reserve_script srv sb d free (record_key id));
        owner = elim (Bool-cases (str_eq sb.user_id u)) [
          | inl mine ↦ (eq_iff sb.user_id u).0 mine
          | inr other ↦
              let old = h u id (ground (arith, mem-reserve_script srv sb d free (user_key u) id)) in
              let here =
                subst (λ x. get d (record_key x) ≡ some (encode old.value))
                  (sym ((eq_iff sb.id id).0 eq)) old.stored in
              sym (same old.value here) ∙ old.owner
        ];
      }
      | inr apart ↦
          let old = h u id (ground (arith, mem-reserve_script srv sb d free (user_key u) id)) in
          record {
            value = old.value;
            stored = ground (arith, get-reserve_script srv sb d free (record_key id), old.stored);
            owner = old.owner;
          }
    ]
  ]

  pub put_running_script-IsFiled :
      (sb : Sandbox) (d : Db)
      → SameOwner srv sb d
      → IsFiled d
      → IsFiled (put_running_script srv sb d).1
  put_running_script-IsFiled sb d same h = elim (put_running_script-cases srv sb d) [
    | inl e ↦ rw e h
    | inr (text, slot, stored, st, e) ↦ λ u id q.
        let js = encode (record sb { ssh_connections = 0 }) in
        let record_at : get (put_running_script srv sb d).1 (record_key id)
            ≡ (if str_eq sb.id id then some js else get d (record_key id)) =
          rw e (simp text_laws) in
        let sets : in_set srv (put_running_script srv sb d).1 (user_key u) id
            ≡ in_set srv d (user_key u) id =
          rw e (simp set_laws) in
        let old = h u id (sym sets ∙ q) in
        elim (Bool-cases (str_eq sb.id id)) [
          | inl eq ↦
              let here =
                subst (λ x. get d (record_key x) ≡ some (encode old.value))
                  (sym ((eq_iff sb.id id).0 eq)) old.stored in
              record {
                value = record sb { ssh_connections = 0 };
                stored = ground (arith, record_at);
                owner = sym (same old.value here) ∙ old.owner;
              }
          | inr apart ↦ record {
            value = old.value;
            stored = ground (arith, record_at, old.stored);
            owner = old.owner;
          }
        ]
  ]

  -- The script is given the owner of the record.
  pub delete_script-IsFiled :
      (user_id id : String) (d : Db)
      → ((u : String) → IsOf u id d → u ≡ user_id)
      → IsFiled d
      → IsFiled (delete_script srv user_id id d).1
  delete_script-IsFiled user_id id d owned h u j e =
      let old = h u j (ground (arith, mem-delete_script srv user_id id d (user_key u) j)) in
      elim (Bool-cases (str_eq id j)) [
        | inl same ↦
            let mine = owned u (subst (λ x. IsOf u x d) (sym ((eq_iff id j).0 same)) old) in
            absurd (
              ground (
                arith,
                mem-delete_script srv user_id id d (user_key u) j,
                mine,
                (eq_iff user_id u),
              ))
        | inr apart ↦ record {
          value = old.value;
          stored = ground (arith, get-delete_script srv user_id id d (record_key j), old.stored);
          owner = old.owner;
        }
      ]
