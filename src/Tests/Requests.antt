-- ===== src/Tests/Requests.antt =====
-- Requests over HTTP.
use sandbox_manager.Prelude.{
  false, none, Option, [], str_eq, ◌≡◌, refl, String, some, arith, if◌then◌else◌, pure, raise,
  attempt, lift, ◌>>=◌,
}
use sandbox_manager.Redis.{roundtrip, now_millis, delivered}
use sandbox_manager.Store.{
  reserve_user_slot, put_running, inc_created, reserve_script, put_running_script,
}
use sandbox_manager.Host.{
  is_space, lines, fields, digits, parse_uint, read_line, find_available, disk_usage_percent,
  mem_available_mib,
}
use sandbox_manager.Vm.Sizes.{
  clamp, machine_for_size, machine_for, memory_for, cost_per_minute, disk_size_mib_for_tier,
}
use sandbox_manager.Admission.{admit_memory, admit, release}
use sandbox_manager.Service.World.{
  Platform, World, observe, fallible, on_store, on_vms, on_homes, ask_homes, on_gate,
  device_name_for,
}
use sandbox_manager.Service.Create.{
  create, check_disk, refuse_full, admit_create, release_gate, admitted, record_running, booted,
  minted, ensured, shrink_first, boot, retry_reserve, create_admitted,
}
use sandbox_manager.Service.Teardown.{now}
use sandbox_manager.Service.Steps.{owner_of, AllCovered}
use sandbox_manager.Service.Creation.{DrawsFresh}
use sandbox_manager.Service.Histories.{start, creates}
use sandbox_manager.Tests.Machines.{platform_with, alice, no_resources}
use sandbox_manager.Redis.{TextKey, token_key}
use sandbox_manager.Store.Tokens.{unsigned, resolve_identity}
use sandbox_manager.Api.{
  Request, creates, prepares, lists, CreateBody, handle, route_to, auth, authed, gated, serve,
  handle_create, answered, needs_admin, nothing_asked,
}
use sandbox_manager.Api.Traffic.{Traffic, start, requests, Traffic-one_vm, looked_up}
use sandbox_manager.Api.Access.{Untouched, handle_unauthorized, handle_create_plain}

abbrev site : Platform
site = platform_with (λ n. delivered)

-- Redis knows one resource token, of alice.
abbrev tokens : TextKey → Option String
tokens (token_key t) = if str_eq t "tok" then some "alice" else none
tokens _ = none

abbrev quiet_world : World site
quiet_world = record {
  link = record { db = record { texts = tokens; sets = λ k. []; events = [] }; calls = 0 };
  vms = λ id. none;
  homes = tt;
  relay = none;
  gate = record { pending_creates = 0; pending_mib = 0 };
  capacity_rejected = 0;
}

quiet-AllCovered : AllCovered site quiet_world
quiet-AllCovered = record {
  covers = λ id u e. absurd (ground arith);
  at_id = λ id js sb e d. absurd (ground arith);
}

abbrev body : CreateBody
body = record { user_id = "bob"; template = "base"; size = "xlarge"; resources = no_resources }

abbrev post : Request
post = record { token = some "tok"; route = creates (some body) }

looked_up-DrawsFresh :
    (token : String) → post.token ≡ some token → DrawsFresh site (looked_up site token quiet_world)
unfolding on_store
looked_up-DrawsFresh token e = λ n le u f. absurd (ground arith)

abbrev after_post : World site
after_post = (handle site post quiet_world).1

abbrev traffic : Traffic site quiet_world after_post
traffic = requests post start looked_up-DrawsFresh refl

posted_runs : owner_of site after_post "ssssz" ≡ some "alice"
unfolding create check_disk refuse_full admit_create release_gate admitted record_running booted
    minted ensured shrink_first boot retry_reserve create_admitted observe fallible on_store on_vms
    on_homes ask_homes on_gate device_name_for now pure raise attempt lift ◌>>=◌ admit roundtrip
    now_millis reserve_user_slot put_running inc_created disk_usage_percent mem_available_mib clamp
    memory_for cost_per_minute disk_size_mib_for_tier reserve_script put_running_script is_space
    lines fields digits parse_uint read_line find_available admit_memory machine_for
    machine_for_size release handle route_to auth authed gated serve handle_create answered
    needs_admin resolve_identity unsigned
posted_runs = refl

abbrev posted : String
posted = "ssssz"

Traffic-one_vm_example : posted ≡ posted
Traffic-one_vm_example =
    Traffic-one_vm site posted posted "alice" quiet-AllCovered traffic posted_runs posted_runs

abbrev unknown : Request
unknown = record { token = none; route = lists false "" }

handle_unauthorized_example :
    ((handle site unknown quiet_world).0.status ≡ 401)
    × Untouched site quiet_world (handle site unknown quiet_world).1
handle_unauthorized_example = handle_unauthorized site unknown quiet_world refl refl

abbrev intruder : Request
intruder = record { token = some "tok"; route = prepares "sssz" }

handle_create_plain_example :
    handle_create site alice (some body) quiet_world
    ≡ handle_create site alice
        (some (record body { user_id = ""; size = ""; resources = nothing_asked }))
        quiet_world
handle_create_plain_example = handle_create_plain site alice body quiet_world refl
