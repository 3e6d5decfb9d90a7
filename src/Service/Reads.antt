-- ===== src/Service/Reads.antt =====
-- The proofs about List, Exec, Stats and PrepareSSH (internal/service/service.go), which change no
-- record and start no VM.
use sandbox_manager.Prelude.{
  ℕ, ◌≡◌, String, Bool, true, false, not, ◌||◌, List, [], ◌∷◌, Option, none, some, arith, str_eq,
  ◌==◌, if◌then◌else◌, Result, ok, err, pure, raise, attempt, ◌>>=◌,
}
use sandbox_manager.Sandbox.{Sandbox, Identity, is_admin, is_state, running}
use sandbox_manager.Redis.{Server, Link, roundtrip}
use sandbox_manager.Store
use sandbox_manager.Store.{total_created, parse_number, fetch}
use sandbox_manager.Store.Requests
use sandbox_manager.Store.Listing.{list-quiet}
use sandbox_manager.Host.{mem_available_mib}
use sandbox_manager.Service.World.{
  Platform, World, on_store, on_vms, observe, ssh_connections, err_forbidden,
}
use sandbox_manager.Service.Teardown.{get, stale_dead, relay_close}
use sandbox_manager.Service.Reconcile.{ssh_ensure, close_ssh_unless_running, has_relay}
use sandbox_manager.Service.Requests.{
  report, report_all, list, exec, stats, summary, available, count_active,
}
use sandbox_manager.Service.Ssh.{
  SshEndpoint, reachable, guest_key, opened, noted, remember, endpoint, listen, prepare_reachable,
  prepare_ssh, port_or_zero,
}
use sandbox_manager.Service.Steps.{
  Keeps, Keeps-bind, Keeps-pure, Keeps-raise, Keeps-attempt, Keeps-if, Keeps-refl, Keeps-on_vms,
}
use sandbox_manager.Service.Slots.{
  Keeps-read, Keeps-get, Keeps-fetch, Keeps-stale_dead, Keeps-ssh_connections, Keeps-relay_close,
}
use sandbox_manager.Service.Listeners.{
  Keeps-ssh_ensure, Keeps-set_ssh_port, Keeps-close_ssh_unless_running,
}

total_created-quiet : (srv : Server) (l : Link srv) → (total_created srv l).1.db ≡ l.db
unfolding total_created parse_number roundtrip ◌>>=◌ pure raise
total_created-quiet srv l = ground arith

module _ (p : Platform) where
  open p use {server, manager}

  Keeps-report : (sb : Sandbox) (w : World p) → Keeps p w (report p sb w).1
  unfolding report
  Keeps-report sb w =
      Keeps-bind p (ssh_connections p sb.id) _ w (Keeps-ssh_connections p sb.id w) (λ n _.
        let counted = record sb { ssh_connections = n } in
        Keeps-bind p (stale_dead p counted) _ _ (Keeps-stale_dead p counted _)
          (λ dead _. Keeps-pure p _ _))

  Keeps-report_all : (sbs : List Sandbox) (w : World p) → Keeps p w (report_all p sbs w).1
  unfolding report_all
  Keeps-report_all [] w = Keeps-pure p [] w
  Keeps-report_all (sb ∷ rest) w = Keeps-bind p (report p sb) _ w (Keeps-report sb w) (λ one _.
      Keeps-bind p (report_all p rest) _ _ (Keeps-report_all rest _) (λ others _. Keeps-pure p _ _))

  pub Keeps-list : (caller : Identity) (w : World p) → Keeps p w (list p caller w).1
  unfolding list
  Keeps-list caller w =
      let whose = if is_admin caller then caller.scope_user_id else caller.user_id in
      Keeps-bind p (on_store p (Store.list server whose)) _ w
        (Keeps-read p (Store.list server whose) w (list-quiet server whose w.link))
        (λ found _. Keeps-report_all found _)

  pub Keeps-exec :
      (caller : Identity) (id : String) (argv : List String) (w : World p)
      → Keeps p w (exec p caller id argv w).1
  unfolding exec
  Keeps-exec caller id argv w =
      Keeps-bind p (get p caller id) _ w (Keeps-get p caller id w)
        (λ sb _. Keeps-on_vms p (manager.exec id argv) _ (manager.exec_starts id argv _))

  Keeps-observe : {A : Type 0} (f : ℕ → A) (w : World p) → Keeps p w (observe p f w).1
  unfolding observe
  Keeps-observe f w = record { covered = λ h. h; fewer = record { runs = λ j u e. e } }

  Keeps-available : (m : Option ℕ) (w : World p) → Keeps p w (available p m w).1
  unfolding available
  Keeps-available none w = Keeps-raise p ℕ _ w
  Keeps-available (some mib) w = Keeps-pure p mib w

  Keeps-summary :
      (total active n mib : ℕ) (w : World p) → Keeps p w (summary p total active n mib w).1
  unfolding summary
  Keeps-summary total active n mib w = Keeps-refl p w

  pub Keeps-stats : (w : World p) → Keeps p w (stats p w).1
  unfolding stats
  Keeps-stats w =
      Keeps-bind p (on_store p (Store.total_created server)) _ w
        (Keeps-read p (Store.total_created server) w (total_created-quiet server w.link))
        (λ total _.
          Keeps-bind p (on_store p (Store.list server "")) _ _
            (Keeps-read p (Store.list server "") _ (list-quiet server "" _))
            (λ all _.
              Keeps-bind p (on_vms p manager.running_count) _ _
                (Keeps-on_vms p manager.running_count _ (manager.running_count_starts _))
                (λ n _.
                  Keeps-bind p (observe p p.meminfo) _ _ (Keeps-observe p.meminfo _) (λ text _.
                    Keeps-bind p (available p (mem_available_mib text)) _ _
                      (Keeps-available (mem_available_mib text) _)
                      (λ mib _. Keeps-summary total (count_active p all) n mib _)))))

  Keeps-reachable : (found : Option Sandbox) (w : World p) → Keeps p w (reachable p found w).1
  unfolding reachable
  Keeps-reachable none w = Keeps-raise p Sandbox _ w
  Keeps-reachable (some sb) w =
      Keeps-if p
        (not (is_state sb.state running) || (str_eq sb.ip_address "" || str_eq sb.device_id "")) _
        (pure sb) w (λ _. Keeps-raise p Sandbox _ w) (λ _. Keeps-pure p sb w)

  Keeps-guest_key : (r : Result (String × ℕ)) (w : World p) → Keeps p w (guest_key p r w).1
  unfolding guest_key pure raise
  Keeps-guest_key (err e) w = Keeps-refl p w
  Keeps-guest_key (ok (out, exit_code)) w = ground (arith, Keeps-refl p w)

  Keeps-opened : (r : Result ℕ) (w : World p) → Keeps p w (opened p r w).1
  unfolding opened pure raise
  Keeps-opened (err e) w = Keeps-refl p w
  Keeps-opened (ok port) w = Keeps-refl p w

  Keeps-noted : (id : String) (r : Result (Unit {0})) (w : World p) → Keeps p w (noted p id r w).1
  unfolding noted
  Keeps-noted id (ok _) w = Keeps-pure p tt w
  Keeps-noted id (err e) w =
      Keeps-bind p (relay_close p id) _ w (Keeps-relay_close p id w)
        (λ _ _. Keeps-raise p (Unit {0}) _ _)

  Keeps-remember :
      (id : String) (port preferred : ℕ) (w : World p)
      → Keeps p w (remember p id port preferred w).1
  unfolding remember
  Keeps-remember id port preferred w =
      let note = on_store p (Store.set_ssh_port server id port) in
      Keeps-if p (port == preferred) (pure tt) (attempt note >>= noted p id) w
        (λ _. Keeps-pure p tt w)
        (λ _.
          Keeps-bind p (attempt note) (noted p id) w
            (Keeps-attempt p note w (Keeps-set_ssh_port p id port w)) (λ r _. Keeps-noted id r _))

  Keeps-endpoint :
      (sb : Sandbox) (key : String) (port : ℕ) (still : Bool) (w : World p)
      → Keeps p w (endpoint p sb key port still w).1
  unfolding endpoint
  Keeps-endpoint sb key port true w = Keeps-refl p w
  Keeps-endpoint sb key port false w = Keeps-refl p w

  Keeps-listen :
      (id : String) (sb : Sandbox) (key : String) (w : World p) → Keeps p w (listen p id sb key w).1
  unfolding listen
  Keeps-listen id sb key w =
      let ask = on_store p (Store.ssh_port server id) in
      Keeps-bind p (attempt ask) _ w
        (Keeps-attempt p ask w
          (Keeps-read p (Store.ssh_port server id) w (Requests.ssh_port-quiet server id w.link)))
        (λ preferred _.
          let open_it = ssh_ensure p id sb.ip_address (port_or_zero preferred) in
          Keeps-bind p (attempt open_it) _ _
            (Keeps-attempt p open_it _
              (Keeps-ssh_ensure p id sb.ip_address (port_or_zero preferred) _))
            (λ got _. Keeps-bind p (opened p got) _ _ (Keeps-opened got _) (λ port _.
              Keeps-bind p (remember p id port (port_or_zero preferred)) _ _
                (Keeps-remember id port (port_or_zero preferred) _)
                (λ _ _.
                  Keeps-bind p (close_ssh_unless_running p id) _ _
                    (Keeps-close_ssh_unless_running p id _)
                    (λ still _. Keeps-endpoint sb key port still _)))))

  Keeps-prepare_reachable : (id : String) (w : World p) → Keeps p w (prepare_reachable p id w).1
  unfolding prepare_reachable
  Keeps-prepare_reachable id w =
      let argv = "/usr/local/sbin/cloud-ssh-setup" ∷ p.ssh_auth_url ∷ [] in
      let run = on_vms p (manager.exec id argv) in
      Keeps-bind p (on_store p (fetch server id)) _ w (Keeps-fetch p id w) (λ found _.
        Keeps-bind p (reachable p found) _ _ (Keeps-reachable found _) (λ sb _.
          Keeps-bind p (attempt run) _ _
            (Keeps-attempt p run _
              (Keeps-on_vms p (manager.exec id argv) _ (manager.exec_starts id argv _)))
            (λ ran _.
              Keeps-bind p (guest_key p ran) _ _ (Keeps-guest_key ran _)
                (λ key _. Keeps-listen id sb key _))))

  pub Keeps-prepare_ssh :
      (caller : Identity) (id : String) (w : World p) → Keeps p w (prepare_ssh p caller id w).1
  unfolding prepare_ssh
  Keeps-prepare_ssh caller id w =
      Keeps-if p (not (is_admin caller)) _ _ w (λ _. Keeps-raise p SshEndpoint err_forbidden w)
        (λ _.
          Keeps-if p (not (has_relay p w.relay)) _ (prepare_reachable p id) w
            (λ _. Keeps-raise p SshEndpoint _ w) (λ _. Keeps-prepare_reachable id w))
