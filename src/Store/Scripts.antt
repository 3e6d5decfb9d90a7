-- ===== src/Store/Scripts.antt =====
-- What each script leaves at a key and in a set, in terms of what was there before.
use sandbox_manager.Prelude.{
  ◌≡◌, String, Bool, true, false, ◌&&◌, ◌||◌, not, Option, none, some, arith, str_eq, eq_iff,
  contains, if◌then◌else◌, Bool-cases, Option-cases, ap, inl, inr, ◌∷◌, ◌⊎◌,
}
use sandbox_manager.Sandbox.{creating, Sandbox, is_active}
use sandbox_manager.Redis.{
  Server, TextKey, record_key, slot_key, port_key, SetKey, all_key, active_key, user_key,
  text_key_eq, set_key_eq,
}
use sandbox_manager.Redis.Laws.{text_laws, set_laws, event_laws}
use sandbox_manager.Store.{
  put_script, put_running_script, release_script, delete_script, reserve_script,
}

-- Is the slot's holder, if there is one, this sandbox?
abbrev pub is_holder : Option String → String → Bool
is_holder none id = false
is_holder (some h) id = str_eq h id

module _ (srv : Server) where
  open srv.redis use {Db, get, members, published}
  open srv.codec use {encode, script_state}

  abbrev pub text_at : Db → TextKey → Option String
  text_at d k = get d k

  abbrev pub in_set : Db → SetKey → String → Bool
  in_set d k x = contains x (members d k)

  -- Put writes the record and no other key.
  pub get-put_script :
      (sb : Sandbox) (d : Db) (j : TextKey)
      → get (put_script srv sb d).1 j ≡ (
          if text_key_eq (record_key sb.id) j
          then some (encode (record sb { ssh_connections = 0 }))
          else get d j)
  unfolding put_script
  get-put_script sb d j = elim (Bool-cases (is_active sb)) [
    | inl e ↦ rw e (simp text_laws)
    | inr e ↦ rw e (simp text_laws)
  ]

  -- Every set but that of the active sandboxes only grows, by the id.
  pub mem-put_script :
      (sb : Sandbox) (d : Db) (j : SetKey) (x : String)
      → in_set (put_script srv sb d).1 j x ≡ (
          if set_key_eq active_key j && str_eq sb.id x
          then is_active sb
          else (set_key_eq all_key j || set_key_eq (user_key sb.user_id) j) && str_eq sb.id x
            || in_set d j x)
  unfolding put_script
  mem-put_script sb d j x = elim (Bool-cases (is_active sb)) [
    | inl e ↦ rw e (simp set_laws (ground arith))
    | inr e ↦ rw e (simp set_laws (ground arith))
  ]

  -- One event, on the owner's channel, with the text that was written.
  pub published-put_script :
      (sb : Sandbox) (d : Db)
      → published (put_script srv sb d).1
        ≡ (sb.user_id, encode (record sb { ssh_connections = 0 })) ∷ published d
  unfolding put_script
  published-put_script sb d = elim (Bool-cases (is_active sb)) [
    | inl e ↦ rw e (simp event_laws)
    | inr e ↦ rw e (simp event_laws)
  ]

  -- Does the sandbox hold the user's quota slot?
  abbrev pub owns : Db → String → String → Bool
  owns d user_id id = is_holder (get d (slot_key user_id)) id

  pub get-release_script :
      (user_id id : String) (d : Db) (j : TextKey)
      → get (release_script srv user_id id d).1 j
        ≡ (if text_key_eq (slot_key user_id) j && owns d user_id id then none else get d j)
  unfolding release_script
  get-release_script user_id id d j = ground (arith, srv.redis.get-del d (slot_key user_id) j)

  pub mem-release_script :
      (user_id id : String) (d : Db) (j : SetKey) (x : String)
      → in_set (release_script srv user_id id d).1 j x ≡ in_set d j x
  unfolding release_script
  mem-release_script user_id id d j x = ground (arith, srv.redis.mem-del d (slot_key user_id) j x)

  -- Delete drops the record and the port, and the slot only where the sandbox owns it.
  pub get-delete_script :
      (user_id id : String) (d : Db) (j : TextKey)
      → get (delete_script srv user_id id d).1 j ≡ (
          if text_key_eq (record_key id) j
            || text_key_eq (port_key id) j
            || text_key_eq (slot_key user_id) j && owns d user_id id
          then none
          else get d j)
  unfolding delete_script
  get-delete_script user_id id d j = simp (text_laws, get-release_script) (ground arith)

  pub mem-delete_script :
      (user_id id : String) (d : Db) (j : SetKey) (x : String)
      → in_set (delete_script srv user_id id d).1 j x ≡ (
          not (
            (set_key_eq active_key j || set_key_eq (user_key user_id) j || set_key_eq all_key j)
            && str_eq id x)
          && in_set d j x)
  unfolding delete_script
  mem-delete_script user_id id d j x = simp (set_laws, mem-release_script) (ground arith)

  -- A held slot refuses the reservation, and nothing changes.
  pub reserve_script-held :
      (sb : Sandbox) (d : Db) (h : String)
      → get d (slot_key sb.user_id) ≡ some h
      → reserve_script srv sb d ≡ (false, d)
  unfolding reserve_script
  reserve_script-held sb d h e = rw (e, reserve_script)

  module _ (sb : Sandbox) (d : Db) (free : get d (slot_key sb.user_id) ≡ none) where
    pub reserve_script-free : (reserve_script srv sb d).0 ≡ true
    unfolding reserve_script
    reserve_script-free = rw (free, reserve_script)

    pub get-reserve_script :
        (j : TextKey)
        → get (reserve_script srv sb d).1 j ≡ (
            if text_key_eq (record_key sb.id) j
            then some (encode sb)
            else if text_key_eq (slot_key sb.user_id) j
            then some sb.id
            else get d j)
    unfolding reserve_script
    get-reserve_script j = rw (free, reserve_script) (simp text_laws)

    pub mem-reserve_script :
        (j : SetKey) (x : String)
        → in_set (reserve_script srv sb d).1 j x ≡ (
            (set_key_eq active_key j || set_key_eq all_key j || set_key_eq (user_key sb.user_id) j)
              && str_eq sb.id x
            || in_set d j x)
    unfolding reserve_script
    mem-reserve_script j x = rw (free, reserve_script) (simp set_laws (ground arith))

  -- PutRunning writes only over a record in state `creating` whose sandbox owns the slot.
  abbrev pub Committed : Sandbox → Db → Type 0
  Committed sb d =
      (old : String) × (get d (slot_key sb.user_id) ≡ some sb.id)
      × (get d (record_key sb.id) ≡ some old)
      × (script_state old ≡ some creating)
      × (put_running_script srv sb d ≡ (
        true,
        srv.redis.publish
            (srv.redis.set d (record_key sb.id) (encode (record sb { ssh_connections = 0 })))
            sb.user_id (encode (record sb { ssh_connections = 0 })),
      ))

  put_running_script-text :
      (sb : Sandbox) (d : Db) (h old : String)
      → get d (slot_key sb.user_id) ≡ some h
      → get d (record_key sb.id) ≡ some old
      → (put_running_script srv sb d ≡ (false, d)) ⊎ Committed sb d
  unfolding put_running_script
  put_running_script-text sb d h old slot text = elim (Bool-cases (str_eq h sb.id)) [
    | inr other ↦ inl (rw (slot, put_running_script) (rw other))
    | inl own ↦ elim (Option-cases (script_state old)) [
      | inl bad ↦ inl (rw (slot, put_running_script) (rw own (rw text (rw bad))))
      | inr (creating, st) ↦ inr (
        old,
        rw (slot) (ap some ((eq_iff h sb.id).0 own)),
        text,
        st,
        rw (slot, put_running_script) (rw own (rw text (rw st))),
      )
      | inr (_, st) ↦ inl (rw (slot, put_running_script) (rw own (rw text (rw st))))
    ]
  ]

  -- It writes exactly there, and otherwise changes nothing.
  pub put_running_script-cases :
      (sb : Sandbox) (d : Db) → (put_running_script srv sb d ≡ (false, d)) ⊎ Committed sb d
  unfolding put_running_script
  put_running_script-cases sb d = elim (Option-cases (get d (slot_key sb.user_id))) [
    | inl slot ↦ inl (rw (slot, put_running_script))
    | inr (h, slot) ↦ elim (Option-cases (get d (record_key sb.id))) [
      | inl text ↦ inl (ground arith)
      | inr (old, text) ↦ put_running_script-text sb d h old slot text
    ]
  ]
