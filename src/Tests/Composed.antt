-- ===== src/Tests/Composed.antt =====
-- The service on the VM manager and its containerd; and a round of the reconcile loop.
use sandbox_manager.Prelude.{
  ℕ, ◌≡◌, refl, true, none, [], String, some, arith, pure, raise, attempt, lift, ◌>>=◌,
}
use sandbox_manager.Redis.{roundtrip, now_millis, Outcome, delivered}
use sandbox_manager.Store.{
  reserve_user_slot, put_running, inc_created, reserve_script, put_running_script,
}
use sandbox_manager.Host.{
  is_space, lines, fields, digits, parse_uint, read_line, find_available, disk_usage_percent,
  mem_available_mib,
}
use sandbox_manager.Vm.Sizes.{
  clamp, machine_for_size, machine_for, memory_for, cost_per_minute, disk_size_mib_for_tier,
}
use sandbox_manager.Admission.{admit_memory, admit, release}
use sandbox_manager.Service.World.{
  Platform, World, observe, fallible, on_store, on_vms, on_homes, ask_homes, on_gate,
  device_name_for,
}
use sandbox_manager.Service.Create.{
  create, check_disk, refuse_full, admit_create, release_gate, admitted, record_running, booted,
  minted, ensured, shrink_first, boot, retry_reserve, create_admitted,
}
use sandbox_manager.Service.Teardown.{now}
use sandbox_manager.Service.Steps.{AllCovered, Fewer}
use sandbox_manager.Service.Creation.{DrawsFresh, create-AllCovered}
use sandbox_manager.Service.Histories.{History, start, creates}
use sandbox_manager.Tests.Machines.{platform_with, alice, no_resources}
use sandbox_manager.Vm.Manager
use sandbox_manager.Vm.Node
use sandbox_manager.Service.Reconcile.{reconcile_round}
use sandbox_manager.Service.Upkeep.{reconcile_round-AllCovered}
use sandbox_manager.Service.Composed.{composed, composed-one_vm}
use sandbox_manager.Tests.Hosts.{host_with, host_with-Cleans, running_on}
use sandbox_manager.Tests.Composition.{settings, texts, idle}

abbrev good : ℕ → Outcome
good n = delivered

-- The platform on a host on which every call succeeds.
abbrev site : Platform
site = composed (platform_with good) (host_with true) texts settings (host_with-Cleans true)

abbrev nothing : World site
nothing = record {
  link = record { db = record { texts = λ k. none; sets = λ k. []; events = [] }; calls = 0 };
  vms = idle true;
  homes = tt;
  relay = none;
  gate = record { pending_creates = 0; pending_mib = 0 };
  capacity_rejected = 0;
}

nothing-AllCovered : AllCovered site nothing
nothing-AllCovered = record {
  covers = λ id u e. absurd (ground arith);
  at_id = λ id js sb e d. absurd (ground arith);
}

nothing-DrawsFresh : DrawsFresh site nothing
nothing-DrawsFresh = λ n le u e. ground arith

abbrev after_create : World site
after_create = (create site alice "base" "small" no_resources nothing).1

abbrev calls : History site nothing after_create
calls = creates alice "base" "small" no_resources start nothing-DrawsFresh

-- The VM that the service's create started runs in its container.
created_runs : running_on after_create.vms.host "sssz" ≡ some "alice"
unfolding create check_disk refuse_full admit_create release_gate admitted record_running booted
    minted ensured shrink_first boot retry_reserve create_admitted observe fallible on_store on_vms
    on_homes ask_homes on_gate device_name_for now pure raise attempt lift ◌>>=◌ admit roundtrip
    now_millis reserve_user_slot put_running inc_created disk_usage_percent mem_available_mib clamp
    memory_for cost_per_minute disk_size_mib_for_tier reserve_script put_running_script is_space
    lines fields digits parse_uint read_line find_available admit_memory machine_for
    machine_for_size release Manager.create Manager.find_image Manager.ensure_unpacked
    Manager.unpack_if Manager.attach Manager.wired Manager.contained Manager.tasked Manager.started
    Manager.unwind Manager.detach Manager.config_of Node.command Node.query Node.attempt Node.pure
    Node.fail Node.lift Node.◌>>=◌ Node.answer Manager.running_count Manager.count_all
created_runs = refl

abbrev first_id : String
first_id = "sssz"

composed-one_vm_example : first_id ≡ first_id
composed-one_vm_example =
    composed-one_vm (platform_with good) (host_with true) texts settings (host_with-Cleans true)
      first_id first_id "alice" nothing-AllCovered calls created_runs created_runs

after_create-AllCovered : AllCovered site after_create
after_create-AllCovered =
    create-AllCovered site alice "base" "small" no_resources nothing nothing-AllCovered
      nothing-DrawsFresh

reconcile_round-AllCovered_example :
    AllCovered site (reconcile_round site after_create).1
    × Fewer site after_create (reconcile_round site after_create).1
reconcile_round-AllCovered_example =
    reconcile_round-AllCovered site after_create after_create-AllCovered
