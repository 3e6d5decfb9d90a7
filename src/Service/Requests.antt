-- ===== src/Service/Requests.antt =====
-- The other methods behind the API: AttachDevice, List, Exec, DeleteUserData and Stats.
use sandbox_manager.Prelude.{
  ℕ, suc, failure, String, Bool, true, false, List, [], ◌∷◌, Option, none, some, not, refl, ◌≡◌,
  if◌then◌else◌, Result, ok, err, ErrorKind, arith, not_found, pure, raise, attempt, ◌>>=◌, ◌>>◌,
}
use sandbox_manager.Sandbox.{Sandbox, Identity, is_admin, is_active, error}
use sandbox_manager.Store
use sandbox_manager.Host.{mem_available_mib}
use sandbox_manager.Service.World.{
  Platform, World, Do, on_store, on_vms, on_homes, observe, ssh_connections, err_not_found,
  err_forbidden,
}
use sandbox_manager.Service.Teardown.{now, put, get, delete, stale_dead}
use sandbox_manager.Service.Steps.{
  AllCovered, Keeps, Keeps-bind, Keeps-raise, Keeps-if, OwnedBy, OwnedBy-Fewer,
}
use sandbox_manager.Service.Slots.{Keeps-now, Keeps-put, Keeps-fetch, fetch-OwnedBy}

-- What Stats answers.
pub record StatsReport : Type 0 where
  pub total_created : ℕ
  pub active : ℕ
  pub running_vms : ℕ
  pub pending_creates : ℕ
  pub max_vms : ℕ
  pub memory_available_mib : ℕ
  pub memory_reserve_mib : ℕ
  pub vm_memory_mib : ℕ
  pub capacity_rejected : ℕ

module _ (p : Platform) where
  open p use {server, manager, home_store}

  unfoldable pub attach_found : String → Option Sandbox → Do p (Unit {0})
  attach_found device_id none = raise err_not_found
  attach_found device_id (some sb) = do
    t ← now p
    put p (record sb { device_id = device_id; last_activity = t })

  unfoldable pub attach_device : Identity → String → String → Do p (Unit {0})
  attach_device caller id device_id =
      if is_admin caller
      then (on_store p (Store.fetch server id) >>= attach_found device_id)
      else raise err_forbidden

  -- A record as it is reported: with its connections, and as an error if its VM is dead.
  unfoldable pub report : Sandbox → Do p Sandbox
  report sb = do
    n ← ssh_connections p sb.id
    dead ← stale_dead p (record sb { ssh_connections = n })
    pure (
        if dead
        then record sb { ssh_connections = n; state = error }
        else record sb { ssh_connections = n })

  unfoldable pub report_all : List Sandbox → Do p (List Sandbox)
  report_all [] = pure []
  report_all (sb ∷ rest) = do one ← report sb; others ← report_all rest; pure (one ∷ others)

  unfoldable pub list : Identity → Do p (List Sandbox)
  list caller = do
    found ←
        on_store p
          (Store.list server (if is_admin caller then caller.scope_user_id else caller.user_id))
    report_all found

  unfoldable pub exec : Identity → String → List String → Do p (String × ℕ)
  exec caller id argv = do sb ← get p caller id; on_vms p (manager.exec id argv)

  abbrev pub is_not_found : ErrorKind → Bool
  is_not_found not_found = true
  is_not_found _ = false

  unfoldable pub unless_missing : Result (Unit {0}) → Do p (Unit {0})
  unless_missing (ok _) = pure tt
  unless_missing (err e) = if is_not_found e.kind then pure tt else raise e

  unfoldable pub delete_all : Identity → List Sandbox → Do p (Unit {0})
  delete_all caller [] = pure tt
  delete_all caller (sb ∷ rest) = do
    deleted ← attempt (delete p caller sb.id)
    unless_missing deleted
    delete_all caller rest

  unfoldable pub delete_user_data : Identity → String → Do p (Unit {0})
  delete_user_data caller user_id = if not (is_admin caller) then raise err_forbidden else do
    all ← on_store p (Store.list_by_user_scan server user_id)
    delete_all caller all
    on_store p (Store.purge_user_indexes server user_id)
    on_homes p (home_store.delete user_id)

  unfoldable pub count_active : List Sandbox → ℕ
  count_active [] = 0
  count_active (sb ∷ rest) =
      let others = count_active rest in if is_active sb then suc others else others

  -- The report, with the counters of this moment.
  unfoldable pub summary : ℕ → ℕ → ℕ → ℕ → Do p StatsReport
  summary total active running mib w = (
    ok (record {
      total_created = total;
      active = active;
      running_vms = running;
      pending_creates = w.gate.pending_creates;
      max_vms = p.limits.max_vms;
      memory_available_mib = mib;
      memory_reserve_mib = p.limits.host_memory_reserve_mib;
      vm_memory_mib = p.limits.vm_memory_mib;
      capacity_rejected = w.capacity_rejected;
    }),
    w,
  )

  unfoldable pub available : Option ℕ → Do p ℕ
  available none = raise (failure "MemAvailable not found")
  available (some mib) = pure mib

  unfoldable pub stats : Do p StatsReport
  stats = do
    total ← on_store p (Store.total_created server)
    all ← on_store p (Store.list server "")
    running ← on_vms p manager.running_count
    text ← observe p p.meminfo
    mib ← available (mem_available_mib text)
    summary total (count_active all) running mib

  Keeps-attach_found :
      (device_id : String) (found : Option Sandbox) (w : World p)
      → ((sb : Sandbox) → found ≡ some sb → OwnedBy p sb w)
      → Keeps p w (attach_found device_id found w).1
  unfolding attach_found
  Keeps-attach_found device_id none w own = Keeps-raise p (Unit {0}) err_not_found w
  Keeps-attach_found device_id (some sb) w own = Keeps-bind p (now p) _ w (Keeps-now p w) (λ t _.
      let w1 = (now p w).1 in
      let attached = record sb { device_id = device_id; last_activity = t } in
      Keeps-put p attached w1
        (OwnedBy-Fewer p {w = w} attached (Keeps-now p w).fewer (own sb refl)))

  -- What AttachDevice writes back is the record of the VM's owner.
  pub Keeps-attach_device :
      (caller : Identity) (id device_id : String) (w : World p)
      → AllCovered p w
      → Keeps p w (attach_device caller id device_id w).1
  unfolding attach_device on_store
  Keeps-attach_device caller id device_id w h =
      let read = on_store p (Store.fetch server id) in
      Keeps-if p (is_admin caller) (read >>= attach_found device_id) (raise err_forbidden) w
        (λ _. Keeps-bind p read (attach_found device_id) w (Keeps-fetch p id w) (λ found e.
          Keeps-attach_found device_id found (read w).1 (λ sb same.
            OwnedBy-Fewer p {w = w} sb (Keeps-fetch p id w).fewer
              (fetch-OwnedBy p id w sb h (ground arith)).1)))
        (λ _. Keeps-raise p (Unit {0}) err_forbidden w)
