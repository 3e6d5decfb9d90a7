-- ===== src/Service/Create.antt =====
-- Create: admission, the quota slot, the home disk, the enrollment token, the VM, and what each
-- failure undoes.
use sandbox_manager.Prelude.{
  ℕ, ◌+◌, max, String, Option, none, some, str_eq, ltb, leb, if◌then◌else◌, Result, ok, err, Error,
  failure, wrap, because, pure, raise, attempt, lift, ◌>>=◌, ◌>>◌,
}
use sandbox_manager.Sandbox.{Sandbox, Resources, Identity, creating, running, error}
use sandbox_manager.Store
use sandbox_manager.Vm.Sizes.{clamp, memory_for, cost_per_minute, disk_size_mib_for_tier}
use sandbox_manager.Host.{mem_available_mib, disk_usage_percent, max_disk_percent}
use sandbox_manager.Admission.{admit, release}
use sandbox_manager.Service.World.{
  Platform, Do, on_store, on_vms, on_homes, ask_homes, observe, fallible, on_gate, device_name_for,
  err_quota, err_anonymous, err_disk_full,
}
use sandbox_manager.Service.Teardown.{now, put, finish_teardown, reconcile_user_slot}

-- Seconds that an enrollment token can be redeemed in.
abbrev pub enroll_ttl_sec : ℕ
enroll_ttl_sec = 300

-- What is asked for, once admitted.
pub record Order : Type 0 where
  pub user_id : String
  pub template : String
  pub size : String
  pub resources : Resources

module _ (p : Platform) where
  open p use {server, manager, home_store}

  unfoldable pub refuse_full : Option ℕ → Do p (Unit {0})
  refuse_full none = raise (because err_disk_full (failure "statfs"))
  refuse_full (some used) =
      if leb max_disk_percent used then raise (because err_disk_full (failure "used")) else pure tt

  unfoldable pub check_disk : Do p (Unit {0})
  check_disk = do used ← observe p (λ n. disk_usage_percent (p.statfs n)); refuse_full used

  unfoldable pub admit_create : ℕ → Do p ℕ
  admit_create vm_mib = do
    count ← attempt (on_vms p manager.running_count)
    available ← observe p (λ n. mem_available_mib (p.meminfo n))
    on_gate p (admit p.limits vm_mib count available)

  unfoldable pub release_gate : ℕ → Do p (Unit {0})
  release_gate mib w = (ok tt, record w { gate = release mib w.gate })

  unfoldable pub count_rejected : Do p (Unit {0})
  count_rejected w = (ok tt, record w { capacity_rejected = w.capacity_rejected + 1 })

  -- failCreate: the record keeps the error, and the slot is free again.
  unfoldable pub fail_create : Sandbox → Error → Do p (Unit {0})
  fail_create sb e = do
    attempt (put p (record sb { state = error; error_text = e.message }))
    attempt (on_store p (Store.release_user_slot server sb.user_id sb.id))
    pure tt

  abbrev pub home_size : Order → ℕ
  home_size order = max (disk_size_mib_for_tier order.size) order.resources.disk_mib

  unfoldable pub record_running : Sandbox → Result (Unit {0}) → Do p Sandbox
  record_running sb (ok _) = do attempt (on_store p (Store.inc_created server)); pure sb
  record_running sb (err e) = do
    attempt (finish_teardown p sb)
    raise (wrap "persist running sandbox" e)

  unfoldable pub booted : Sandbox → Result String → Do p Sandbox
  booted sb (err e) = do fail_create sb e; raise e
  booted sb (ok ip) = do
    t ← now p
    let running_sb = record sb { state = running; ip_address = ip; last_activity = t }
    stored ← attempt (on_store p (Store.put_running server running_sb))
    record_running running_sb stored

  unfoldable pub minted : Order → Sandbox → String → Result String → Do p Sandbox
  minted order sb home_img (err e) = do fail_create sb e; raise (wrap "mint enroll token" e)
  minted order sb home_img (ok token) = do
    created ← attempt (
        on_vms p (
          manager.create (record {
            id = sb.id;
            user_id = order.user_id;
            template = order.template;
            size = order.size;
            resources = order.resources;
            enroll_token = token;
            home_img = home_img;
            device_name = device_name_for p order.user_id;
          })))
    booted sb created

  unfoldable pub ensured : Order → Sandbox → Result String → Do p Sandbox
  ensured order sb (err e) = do fail_create sb e; raise (wrap "ensure home disk" e)
  ensured order sb (ok home_img) = do
    disk ← ask_homes p (home_store.disk_mib order.user_id)
    token ← attempt (fallible p (λ n. p.mint n order.user_id sb.id))
    minted order (record sb { disk_mib = disk }) home_img token

  -- An explicit disk size is also a request to shrink; a refusal is only logged.
  unfoldable pub shrink_first : Order → Do p (Unit {0})
  shrink_first order =
      if ltb 0 order.resources.disk_mib
      then (do
        attempt (on_homes p (home_store.shrink_disk order.user_id (home_size order)))
        pure tt)
      else pure tt

  -- With the slot held.
  unfoldable pub boot : Order → Sandbox → Do p Sandbox
  boot order sb = do
    shrink_first order
    image ← attempt (on_homes p (home_store.ensure_disk order.user_id (home_size order)))
    ensured order sb image

  -- The slot is held: its holder may be dead, so heal it and try once more.
  unfoldable pub retry_reserve : Order → Sandbox → Do p Sandbox
  retry_reserve order sb = do
    reconcile_user_slot p order.user_id
    reserved ← on_store p (Store.reserve_user_slot server sb)
    if reserved then boot order sb else raise err_quota

  abbrev pub new_sandbox : Order → String → ℕ → ℕ → Sandbox
  new_sandbox order id t t' = record {
    id = id;
    user_id = order.user_id;
    template = order.template;
    size = order.size;
    kind = "vm";
    state = creating;
    ip_address = "";
    cost_per_min = cost_per_minute order.size;
    resources = order.resources;
    disk_mib = 0;
    error_text = "";
    device_id = "";
    created_at = t;
    last_activity = t';
    ssh_connections = 0;
  }

  unfoldable pub create_admitted : Order → Do p Sandbox
  create_admitted order = do
    id ← observe p p.random_id
    t ← now p
    t' ← now p
    let sb = new_sandbox order id t t'
    reserved ← on_store p (Store.reserve_user_slot server sb)
    if reserved then boot order sb else retry_reserve order sb

  unfoldable pub admitted : Order → Result ℕ → Do p Sandbox
  admitted order (err e) = do count_rejected; raise e
  admitted order (ok mib) = do made ← attempt (create_admitted order); release_gate mib; lift made

  unfoldable pub create : Identity → String → String → Resources → Do p Sandbox
  create caller template size resources = if caller.is_anonymous then raise err_anonymous else do
    check_disk
    let res = clamp resources
    place ← attempt (admit_create (memory_for size res))
    admitted
        (record {
          user_id = caller.user_id;
          template = template;
          size = if str_eq size "" then "medium" else size;
          resources = res;
        })
        place
