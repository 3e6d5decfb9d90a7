-- ===== src/Tests/Runs.antt =====
-- Creates and deletes that run, with and without faults.
use sandbox_manager.Prelude.{
  ℕ, false, ◌≡◌, refl, String, some, arith, ◌==◌, if◌then◌else◌, pure, raise, attempt, lift, ◌>>=◌,
}
use sandbox_manager.Sandbox.{Identity}
use sandbox_manager.Redis.{roundtrip, now_millis, Outcome, delivered, lost}
use sandbox_manager.Store.{
  reserve_user_slot, put_running, inc_created, user_slot, fetch, parse_record, backfill,
  reserve_script, put_running_script,
}
use sandbox_manager.Host.{
  is_space, lines, fields, digits, parse_uint, read_line, find_available, disk_usage_percent,
  mem_available_mib,
}
use sandbox_manager.Vm.Sizes.{
  clamp, machine_for_size, machine_for, memory_for, cost_per_minute, disk_size_mib_for_tier,
}
use sandbox_manager.Admission.{admit_memory, admit, release}
use sandbox_manager.Service.World.{
  Platform, World, observe, fallible, on_store, on_vms, on_homes, ask_vms, ask_homes, on_gate,
  device_name_for,
}
use sandbox_manager.Service.Create.{
  create, check_disk, refuse_full, admit_create, release_gate, admitted, record_running, booted,
  minted, ensured, shrink_first, boot, retry_reserve, create_admitted,
}
use sandbox_manager.Service.Teardown.{
  now, delete, heal_slot, heal_holder, stale_dead, is_live, reconcile_user_slot,
}
use sandbox_manager.Service.Steps.{owner_of, AllCovered, Fewer}
use sandbox_manager.Service.Outcomes.{
  delete-AllCovered, reconcile_user_slot-AllCovered, attach_device-AllCovered,
}
use sandbox_manager.Service.Requests.{attach_device}
use sandbox_manager.Service.Creation.{DrawsFresh, create-AllCovered}
use sandbox_manager.Service.Histories.{History, start, creates, heals, History-one_vm}
use sandbox_manager.Tests.Machines.{platform_with, empty_world, alice, no_resources}

empty-AllCovered :
    (outcome : ℕ → Outcome) → AllCovered (platform_with outcome) (empty_world outcome)
empty-AllCovered outcome = record {
  covers = λ id u e. absurd (ground arith);
  at_id = λ id js sb e d. absurd (ground arith);
}

empty-DrawsFresh :
    (outcome : ℕ → Outcome) → DrawsFresh (platform_with outcome) (empty_world outcome)
empty-DrawsFresh outcome = λ n le u e. ground arith

abbrev good : ℕ → Outcome
good n = delivered

-- The reply to the commit of the running sandbox is lost.
abbrev lost_commit : ℕ → Outcome
lost_commit n = if n == 9 then lost else delivered

abbrev site : Platform
site = platform_with good

abbrev after_create : World site
after_create = (create site alice "base" "small" no_resources (empty_world good)).1

-- The VM that a create started runs under the first id that was drawn.
created_runs : owner_of site after_create "sssz" ≡ some "alice"
unfolding create check_disk refuse_full admit_create release_gate admitted record_running booted
    minted ensured shrink_first boot retry_reserve create_admitted observe fallible on_store on_vms
    on_homes ask_homes on_gate device_name_for now pure raise attempt lift ◌>>=◌ admit roundtrip
    now_millis reserve_user_slot put_running inc_created disk_usage_percent mem_available_mib clamp
    memory_for cost_per_minute disk_size_mib_for_tier reserve_script put_running_script is_space
    lines fields digits parse_uint read_line find_available admit_memory machine_for
    machine_for_size release
created_runs = refl

-- A create, and a healing of the slot, which finds a live VM and keeps it.
abbrev calls : History site (empty_world good) (reconcile_user_slot site "alice" after_create).1
calls = heals "alice" (creates alice "base" "small" no_resources start (empty-DrawsFresh good))

healed_runs : owner_of site (reconcile_user_slot site "alice" after_create).1 "sssz" ≡ some "alice"
unfolding create check_disk refuse_full admit_create release_gate admitted record_running booted
    minted ensured shrink_first boot retry_reserve create_admitted observe fallible on_store on_vms
    on_homes ask_homes on_gate device_name_for now pure raise attempt lift ◌>>=◌ admit roundtrip
    now_millis reserve_user_slot put_running inc_created disk_usage_percent mem_available_mib clamp
    memory_for cost_per_minute disk_size_mib_for_tier reserve_script put_running_script is_space
    lines fields digits parse_uint read_line find_available admit_memory machine_for
    machine_for_size release reconcile_user_slot heal_slot heal_holder stale_dead is_live ask_vms
    user_slot fetch parse_record backfill
healed_runs = refl

abbrev first_id : String
first_id = "sssz"

History-one_vm_example : first_id ≡ first_id
History-one_vm_example =
    History-one_vm site first_id first_id "alice" (empty-AllCovered good) calls healed_runs
      healed_runs

create-AllCovered_example :
    AllCovered
      (platform_with lost_commit)
      (create
        (platform_with lost_commit)
        alice
        "base"
        "small"
        no_resources
        (empty_world lost_commit)).1
create-AllCovered_example =
    create-AllCovered (platform_with lost_commit) alice "base" "small" no_resources
      (empty_world lost_commit) (empty-AllCovered lost_commit) (empty-DrawsFresh lost_commit)

after_create-AllCovered : AllCovered site after_create
after_create-AllCovered =
    create-AllCovered site alice "base" "small" no_resources (empty_world good)
      (empty-AllCovered good) (empty-DrawsFresh good)

delete-AllCovered_example :
    AllCovered site (delete site alice "sssz" after_create).1
    × Fewer site after_create (delete site alice "sssz" after_create).1
delete-AllCovered_example = delete-AllCovered site alice "sssz" after_create after_create-AllCovered

reconcile_user_slot-AllCovered_example :
    AllCovered site (reconcile_user_slot site "alice" after_create).1
    × Fewer site after_create (reconcile_user_slot site "alice" after_create).1
reconcile_user_slot-AllCovered_example =
    reconcile_user_slot-AllCovered site "alice" after_create after_create-AllCovered

abbrev backend : Identity
backend = record { user_id = ""; role = "admin"; is_anonymous = false; scope_user_id = "" }

attach_device-AllCovered_example :
    AllCovered site (attach_device site backend "sssz" "device" after_create).1
    × Fewer site after_create (attach_device site backend "sssz" "device" after_create).1
attach_device-AllCovered_example =
    attach_device-AllCovered site backend "sssz" "device" after_create after_create-AllCovered
