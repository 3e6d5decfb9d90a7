-- ===== src/Service/Reconcile.antt =====
-- Reconcile and what it does to the relay (internal/service/service.go).
use sandbox_manager.Prelude.{
  ℕ, ◌-◌, ◌*◌, String, Bool, true, false, not, ◌&&◌, List, [], ◌∷◌, Option, none, some, str_eq, ltb,
  ◌==◌, if◌then◌else◌, Result, ok, err, failure, pure, attempt, ◌>>=◌, ◌>>◌,
}
use sandbox_manager.Sandbox.{Sandbox, is_state, running, error, reconciler}
use sandbox_manager.Store
use sandbox_manager.Relay.{Relay}
use sandbox_manager.Relay
use sandbox_manager.Service.World.{Platform, Do, ticked, calls, on_store, on_vms, on_relay}
use sandbox_manager.Service.Teardown.{now, delete, stale_dead, teardown_dead, relay_close}

-- Milliseconds that an error record stays.
abbrev pub error_gc_millis : ℕ
error_gc_millis = 24 * 60 * 60 * 1000

module _ (p : Platform) where
  open p use {server, manager, net}

  -- An error that no slot holds goes after a day.
  unfoldable pub collect_error : Sandbox → Do p (Unit {0})
  collect_error sb = do
    t ← now p
    if ltb error_gc_millis (t - sb.last_activity)
        then (do attempt (on_store p (Store.delete server sb.id)); pure tt)
        else pure tt

  unfoldable pub reconcile_error : Sandbox → Result String → Do p (Unit {0})
  reconcile_error sb (err e) = pure tt
  reconcile_error sb (ok holder) =
      if str_eq holder sb.id
      then (do attempt (delete p reconciler sb.id); pure tt)
      else collect_error sb

  -- The body of the loop.
  unfoldable pub reconcile_one : Sandbox → Do p (Unit {0})
  reconcile_one sb =
      if is_state sb.state error
      then (do
        holder ← attempt (on_store p (Store.user_slot server sb.user_id))
        reconcile_error sb holder)
      else (do dead ← stale_dead p sb; if dead then teardown_dead p sb else pure tt)

  unfoldable pub reconcile_each : List Sandbox → Do p (Unit {0})
  reconcile_each [] = pure tt
  reconcile_each (sb ∷ rest) = do reconcile_one sb; reconcile_each rest

  -- The running sandboxes with an address.
  unfoldable pub running_addresses : List Sandbox → List (String × String)
  running_addresses [] = []
  running_addresses (sb ∷ rest) =
      let others = running_addresses rest in
      if is_state sb.state running && not (str_eq sb.ip_address "")
      then (sb.id, sb.ip_address) ∷ others
      else others

  -- Ensure, on a relay that may be nil.
  unfoldable pub ensure_on :
      String → String → ℕ → (ℕ → Bool) → Option Relay → Result ℕ × Option Relay
  ensure_on id ip preferred can_listen none = (err (failure "ssh relay disabled"), none)
  ensure_on id ip preferred can_listen (some r) =
      let (a, r') = Relay.ensure net can_listen id ip preferred r in (a, some r')

  unfoldable pub ssh_ensure : String → String → ℕ → Do p ℕ
  ssh_ensure id ip preferred w =
      let (a, r) = ensure_on id ip preferred (p.can_listen (calls p w)) w.relay in
      (a, record (ticked p w) { relay = r })

  abbrev pub is_running : Option Sandbox → Bool
  is_running none = false
  is_running (some sb) = is_state sb.state running

  unfoldable pub close_unless : String → Result (Option Sandbox) → Do p Bool
  close_unless id (err e) = do relay_close p id; pure false
  close_unless id (ok found) =
      if is_running found then pure true else (do relay_close p id; pure false)

  -- closeSSHUnlessRunning
  unfoldable pub close_ssh_unless_running : String → Do p Bool
  close_ssh_unless_running id = do
    found ← attempt (on_store p (Store.fetch server id))
    close_unless id found

  -- A port that could not be recorded is given up.
  unfoldable pub recorded : String → Result (Unit {0}) → Do p (Unit {0})
  recorded id (err e) = relay_close p id
  recorded id (ok _) = do close_ssh_unless_running id; pure tt

  unfoldable pub reopened : String → ℕ → Result ℕ → Do p (Unit {0})
  reopened id port (err e) = pure tt
  reopened id port (ok got) =
      if got == port
      then (do close_ssh_unless_running id; pure tt)
      else (do r ← attempt (on_store p (Store.set_ssh_port server id got)); recorded id r)

  unfoldable pub reopen_at : String → String → Result ℕ → Do p (Unit {0})
  reopen_at id ip (err e) = pure tt
  reopen_at id ip (ok port) =
      if port == 0
      then pure tt
      else (do got ← attempt (ssh_ensure id ip port); reopened id port got)

  unfoldable pub reopen_each : List (String × String) → Do p (Unit {0})
  reopen_each [] = pure tt
  reopen_each ((id, ip) ∷ rest) = do
    port ← attempt (on_store p (Store.ssh_port server id))
    reopen_at id ip port
    reopen_each rest

  unfoldable pub reconcile_listeners : Result (List Sandbox) → Do p (Unit {0})
  reconcile_listeners (err e) = pure tt
  reconcile_listeners (ok all) = do
    on_relay p (Relay.retain (running_addresses all))
    reopen_each (running_addresses all)

  unfoldable pub has_relay : Option Relay → Bool
  has_relay none = false
  has_relay (some r) = true

  unfoldable pub reconcile_ssh : Do p (Unit {0})
  reconcile_ssh w =
      (if has_relay w.relay
          then (attempt (on_store p (Store.list server "")) >>= reconcile_listeners)
          else pure tt)
        w

  unfoldable pub reconcile : Do p (Unit {0})
  reconcile = do all ← on_store p (Store.list server ""); reconcile_each all; reconcile_ssh

  -- One round of ReconcileLoop.
  unfoldable pub reconcile_round : Do p (Unit {0})
  reconcile_round = do attempt reconcile; attempt (on_vms p manager.cleanup_stopped); pure tt
