-- ===== src/Service/Listeners.antt =====
-- The proofs about the listeners that Reconcile keeps (reconcileSSH and closeSSHUnlessRunning of
-- internal/service/service.go).
use sandbox_manager.Prelude.{
  ℕ, String, true, false, List, [], ◌∷◌, Option, ◌>>◌, ◌==◌, Result, ok, err, pure, attempt, ◌>>=◌,
}
use sandbox_manager.Sandbox.{Sandbox}
use sandbox_manager.Relay
use sandbox_manager.Store
use sandbox_manager.Store.{fetch, list, collect, keep_found, user_slot}
use sandbox_manager.Store.Requests
use sandbox_manager.Store.Listing.{list-quiet}
use sandbox_manager.Service.World.{Platform, World, on_store, on_relay}
use sandbox_manager.Service.Teardown.{relay_close}
use sandbox_manager.Service.Reconcile.{
  running_addresses, ssh_ensure, close_unless, close_ssh_unless_running, recorded, reopened,
  reopen_at, reopen_each, reconcile_listeners, has_relay, reconcile_ssh, is_running,
}
use sandbox_manager.Service.Steps.{
  Keeps, Keeps-bind, Keeps-pure, Keeps-attempt, Keeps-if, Keeps-store,
}
use sandbox_manager.Service.Slots.{Keeps-read, Keeps-relay_close, Keeps-fetch}

module _ (p : Platform) where
  open p use {server}

  pub Keeps-list : (w : World p) → Keeps p w (on_store p (list server "") w).1
  Keeps-list w = Keeps-read p (list server "") w (list-quiet server "" w.link)

  Keeps-on_relay : (f : Relay.Relay → Relay.Relay) (w : World p) → Keeps p w (on_relay p f w).1
  unfolding on_relay
  Keeps-on_relay f w = record { covered = λ h. h; fewer = record { runs = λ j u e. e } }

  pub Keeps-ssh_ensure :
      (id ip : String) (port : ℕ) (w : World p) → Keeps p w (ssh_ensure p id ip port w).1
  unfolding ssh_ensure
  Keeps-ssh_ensure id ip port w = record { covered = λ h. h; fewer = record { runs = λ j u e. e } }

  Keeps-close_unless :
      (id : String) (r : Result (Option Sandbox)) (w : World p)
      → Keeps p w (close_unless p id r w).1
  unfolding close_unless
  Keeps-close_unless id (err e) w =
      Keeps-bind p (relay_close p id) _ w (Keeps-relay_close p id w) (λ _ _. Keeps-pure p false _)
  Keeps-close_unless id (ok found) w =
      Keeps-if p (is_running p found) (pure true) (do relay_close p id; pure false) w
        (λ _. Keeps-pure p true w)
        (λ _.
          Keeps-bind p (relay_close p id) _ w (Keeps-relay_close p id w)
            (λ _ _. Keeps-pure p false _))

  pub Keeps-close_ssh_unless_running :
      (id : String) (w : World p) → Keeps p w (close_ssh_unless_running p id w).1
  unfolding close_ssh_unless_running
  Keeps-close_ssh_unless_running id w =
      let ask = on_store p (fetch server id) in
      Keeps-bind p (attempt ask) _ w (Keeps-attempt p ask w (Keeps-fetch p id w))
        (λ r _. Keeps-close_unless id r _)

  Keeps-checked :
      (id : String) (w : World p)
      → Keeps p w ((do close_ssh_unless_running p id; pure (tt {0})) w).1
  Keeps-checked id w =
      Keeps-bind p (close_ssh_unless_running p id) (λ _. pure tt) w
        (Keeps-close_ssh_unless_running id w) (λ _ _. Keeps-pure p tt _)

  pub Keeps-set_ssh_port :
      (id : String) (port : ℕ) (w : World p)
      → Keeps p w (on_store p (Store.set_ssh_port server id port) w).1
  Keeps-set_ssh_port id port w =
      Keeps-store p (Store.set_ssh_port server id port) w
        (Requests.set_ssh_port-IsCovered server id port w.link)

  Keeps-recorded :
      (id : String) (r : Result (Unit {0})) (w : World p) → Keeps p w (recorded p id r w).1
  unfolding recorded
  Keeps-recorded id (err e) w = Keeps-relay_close p id w
  Keeps-recorded id (ok done) w = Keeps-checked id w

  Keeps-reopened :
      (id : String) (port : ℕ) (r : Result ℕ) (w : World p) → Keeps p w (reopened p id port r w).1
  unfolding reopened
  Keeps-reopened id port (err e) w = Keeps-pure p tt w
  Keeps-reopened id port (ok got) w =
      let note = on_store p (Store.set_ssh_port server id got) in
      Keeps-if p (got == port) (do close_ssh_unless_running p id; pure tt)
        (do r ← attempt note; recorded p id r) w (λ _. Keeps-checked id w)
        (λ _.
          Keeps-bind p (attempt note) (recorded p id) w
            (Keeps-attempt p note w (Keeps-set_ssh_port id got w)) (λ r _. Keeps-recorded id r _))

  Keeps-reopen_at :
      (id ip : String) (r : Result ℕ) (w : World p) → Keeps p w (reopen_at p id ip r w).1
  unfolding reopen_at
  Keeps-reopen_at id ip (err e) w = Keeps-pure p tt w
  Keeps-reopen_at id ip (ok port) w =
      let open_it = ssh_ensure p id ip port in
      Keeps-if p (port == 0) (pure tt) (do got ← attempt open_it; reopened p id port got) w
        (λ _. Keeps-pure p tt w)
        (λ _.
          Keeps-bind p (attempt open_it) (reopened p id port) w
            (Keeps-attempt p open_it w (Keeps-ssh_ensure id ip port w))
            (λ r _. Keeps-reopened id port r _))

  Keeps-reopen_each :
      (keep : List (String × String)) (w : World p) → Keeps p w (reopen_each p keep w).1
  unfolding reopen_each
  Keeps-reopen_each [] w = Keeps-pure p tt w
  Keeps-reopen_each ((id, ip) ∷ rest) w =
      let ask = on_store p (Store.ssh_port server id) in
      let read =
        Keeps-read p (Store.ssh_port server id) w (Requests.ssh_port-quiet server id w.link) in
      Keeps-bind p (attempt ask) _ w (Keeps-attempt p ask w read) (λ r _.
        Keeps-bind p (reopen_at p id ip r) _ _ (Keeps-reopen_at id ip r _)
          (λ _ _. Keeps-reopen_each rest _))

  Keeps-reconcile_listeners :
      (r : Result (List Sandbox)) (w : World p) → Keeps p w (reconcile_listeners p r w).1
  unfolding reconcile_listeners
  Keeps-reconcile_listeners (err e) w = Keeps-pure p tt w
  Keeps-reconcile_listeners (ok all) w =
      Keeps-bind p (on_relay p (Relay.retain (running_addresses p all))) _ w
        (Keeps-on_relay (Relay.retain (running_addresses p all)) w)
        (λ _ _. Keeps-reopen_each (running_addresses p all) _)

  pub Keeps-reconcile_ssh : (w : World p) → Keeps p w (reconcile_ssh p w).1
  unfolding reconcile_ssh
  Keeps-reconcile_ssh w =
      let ask = on_store p (list server "") in
      Keeps-if p (has_relay p w.relay) (attempt ask >>= reconcile_listeners p) (pure tt) w
        (λ _.
          Keeps-bind p (attempt ask) (reconcile_listeners p) w
            (Keeps-attempt p ask w (Keeps-list w)) (λ r _. Keeps-reconcile_listeners r _))
        (λ _. Keeps-pure p tt w)
