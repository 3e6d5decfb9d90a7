-- ===== src/Service/Teardown.antt =====
-- Get, Delete, and the teardown of sandboxes whose VM is gone.
use sandbox_manager.Prelude.{
  ℕ, ◌-◌, ◌*◌, String, Bool, true, false, not, ◌&&◌, ◌||◌, Option, none, some, str_eq, ltb,
  if◌then◌else◌, Result, ok, err, pure, raise, attempt, ◌>>=◌, ◌>>◌,
}
use sandbox_manager.Sandbox.{
  creating, terminating, error, Sandbox, is_active, is_state, Identity, is_admin, reconciler,
}
use sandbox_manager.Redis.{now_millis}
use sandbox_manager.Store
use sandbox_manager.Vm.{Liveness, live_unknown, live_yes, live_no}
use sandbox_manager.Relay.{close}
use sandbox_manager.Service.World.{
  Platform, Do, on_store, on_vms, ask_vms, on_relay, ssh_connections, err_not_found, err_forbidden,
}

abbrev pub is_live_no : Liveness → Bool
is_live_no live_no = true
is_live_no live_yes = false
is_live_no live_unknown = false

-- Milliseconds that a sandbox may be creating or terminating before it counts as abandoned.
abbrev pub reconcile_grace_millis : ℕ
reconcile_grace_millis = 5 * 60 * 1000

module _ (p : Platform) where
  open p use {server, manager}

  unfoldable pub now : Do p ℕ
  now = on_store p (now_millis server)

  unfoldable pub is_live : String → Do p Liveness
  is_live id = ask_vms p (manager.is_live id)

  unfoldable pub vm_delete : String → Do p (Unit {0})
  vm_delete id = on_vms p (manager.delete id)

  unfoldable pub put : Sandbox → Do p (Unit {0})
  put sb = on_store p (Store.put server sb)

  unfoldable pub relay_close : String → Do p (Unit {0})
  relay_close id = on_relay p (close id)

  -- The record, if there is one and the caller may see it.
  unfoldable pub authorize : Identity → Option Sandbox → Do p Sandbox
  authorize caller none = raise err_not_found
  authorize caller (some sb) =
      if not (is_admin caller) && not (str_eq sb.user_id caller.user_id)
      then raise err_forbidden
      else pure sb

  unfoldable pub get : Identity → String → Do p Sandbox
  get caller id = do
    found ← on_store p (Store.fetch server id)
    sb ← authorize caller found
    n ← ssh_connections p sb.id
    pure (record sb { ssh_connections = n })

  -- finishTeardown, once the VM is known to be gone or not.
  unfoldable pub finish_deleted : String → Result (Unit {0}) → Do p (Unit {0})
  finish_deleted id (ok _) = on_store p (Store.delete server id)
  finish_deleted id (err e) = do
    live ← is_live id
    if is_live_no live then on_store p (Store.delete server id) else raise e

  unfoldable pub finish_teardown : Sandbox → Do p (Unit {0})
  finish_teardown sb = do deleted ← attempt (vm_delete sb.id); finish_deleted sb.id deleted

  unfoldable pub delete : Identity → String → Do p (Unit {0})
  delete caller id = do
    sb ← get caller id
    t ← now
    put (record sb { state = terminating; last_activity = t })
    relay_close id
    finish_teardown (record sb { state = terminating; last_activity = t })

  -- Is it too early to judge this sandbox by its VM?
  abbrev pub in_grace : Sandbox → ℕ → Bool
  in_grace sb t =
      (is_state sb.state creating || is_state sb.state terminating)
      && ltb (t - sb.last_activity) reconcile_grace_millis

  unfoldable pub stale_dead : Sandbox → Do p Bool
  stale_dead sb = if not (is_active sb) then pure false else do
    t ← now
    if in_grace sb t then pure false else do live ← is_live sb.id; pure (is_live_no live)

  unfoldable pub teardown_dead : Sandbox → Do p (Unit {0})
  teardown_dead sb = do
    tail ← ask_vms p (manager.guest_log_tail sb.id 512)
    t ← now
    attempt (
        put (record sb {
          state = error;
          error_text = if str_eq tail "" then "VM exited before it came online" else tail;
          last_activity = t;
        }))
    relay_close sb.id
    attempt (finish_teardown sb)
    pure tt

  -- A slot whose record is missing is released only if its VM is definitely gone.
  unfoldable pub release_orphan : String → String → Do p (Unit {0})
  release_orphan user_id id = do
    attempt (on_store p (Store.release_user_slot server user_id id))
    pure tt

  unfoldable pub orphan_deleted : String → String → Result (Unit {0}) → Do p (Unit {0})
  orphan_deleted user_id id (ok _) = release_orphan user_id id
  orphan_deleted user_id id (err e) = do
    live ← is_live id
    if is_live_no live then release_orphan user_id id else pure tt

  unfoldable pub heal_orphan : String → String → Do p (Unit {0})
  heal_orphan user_id id = do
    live ← is_live id
    if not (is_live_no live)
        then pure tt
        else do deleted ← attempt (vm_delete id); orphan_deleted user_id id deleted

  unfoldable pub heal_holder : String → String → Result (Option Sandbox) → Do p (Unit {0})
  heal_holder user_id id (err e) = pure tt
  heal_holder user_id id (ok none) = heal_orphan user_id id
  heal_holder user_id id (ok (some sb)) =
      if is_state sb.state error
      then (do attempt (delete reconciler id); pure tt)
      else do dead ← stale_dead sb; if dead then teardown_dead sb else pure tt

  unfoldable pub heal_slot : String → Result String → Do p (Unit {0})
  heal_slot user_id (err e) = pure tt
  heal_slot user_id (ok id) =
      if str_eq id ""
      then pure tt
      else do found ← attempt (on_store p (Store.fetch server id)); heal_holder user_id id found

  -- reconcileUserSlot
  unfoldable pub reconcile_user_slot : String → Do p (Unit {0})
  reconcile_user_slot user_id = do
    holder ← attempt (on_store p (Store.user_slot server user_id))
    heal_slot user_id holder
