-- ===== src/Tests/Parts.antt =====
-- The properties of the relay, of admission, of the host's readings and of the inventory's indexes.
use sandbox_manager.Prelude.{
  ◌↔◌, ℕ, ◌+◌, ◌*◌, ◌-◌, ◌≤◌, ◌<◌, ◌==◌, eq_iff, ◌≡◌, refl, min, String, true, false, List, [], ◌∷◌,
  none, some, str_eq, if◌then◌else◌, arith, ok, pure, attempt, ◌>>=◌,
}
use sandbox_manager.Sandbox.{Sandbox, creating, Identity}
use sandbox_manager.Redis.{Server, Link, delivered, lost, roundtrip, apikey}
use sandbox_manager.Relay.{
  Relay, Listener, address_of, new, find, is_used, remove, ensure, target_for, close, is_inside,
  join_host_port, has_colon, retain, ensure_target, open_listener, candidates, ports_from,
  first_free,
}
use sandbox_manager.Relay.Ports.{IsValid}
use sandbox_manager.Relay.Calls.{
  Call, ensures, closes, step, run, run-IsValid, Serves, ensure-Serves, find-ensure_ne,
  ensure_again, ensure_finds, ensure_preferred, find-retain, find-close,
}
use sandbox_manager.Vm.Sizes.{
  machine_for, machine_for_size, memory_for, clamp, max_memory_mib, max_vcpus, machine_for_bounds,
}
use sandbox_manager.Host.{raise_file_limit, disk_usage_percent, disk_usage_percent_lem}
use sandbox_manager.Admission.{Limits, Gate, admit, reserve}
use sandbox_manager.Admission.Capacity.{
  HostState, here, next, admits, IsAccounted, Reach-IsAccounted,
}
use sandbox_manager.Store.Index.{IsIndexed}
use sandbox_manager.Store.InStep.{IsInStep, run-IsInStep}
use sandbox_manager.Store.Writes
use sandbox_manager.Tests.Memory.{memory}
use sandbox_manager.Store.Tokens.{
  resolve_identity, resolve_identity-admin, unsigned, from_api_key, from_key,
}
use sandbox_manager.Tests.Machines.{lan, server_with, no_resources}

-- Ensure for two sandboxes on a range of two ports, and a Close.
abbrev two_calls : List Call
two_calls =
    ensures (λ p. true) "a" "10.0.0.2" 0
    ∷ ensures (λ p. true) "b" "10.0.0.2" 20001
    ∷ closes "a"
    ∷ []

run-IsValid_example : IsValid (run lan two_calls (new "vm" 20000 20001))
run-IsValid_example = run-IsValid lan two_calls "vm" 20000 20001

abbrev relay : Relay
relay = new "vm" 20000 20001

known : target_for lan relay "10.0.0.2" ≡ some "10.0.0.2:22"
unfolding target_for is_inside join_host_port has_colon new
known = refl

opened : (ensure lan (λ p. true) "a" "10.0.0.2" 20001 relay).0 ≡ ok 20001
unfolding ensure target_for is_inside join_host_port has_colon new ensure_target find open_listener
    candidates ports_from first_free
opened = refl

unused : is_used 20001 (remove "a" relay.by_id) ≡ false
unfolding is_used remove new
unused = refl

unused_before : is_used 20001 relay.by_id ≡ false
unfolding is_used new
unused_before = refl

absent : find "a" relay.by_id ≡ none
unfolding find new
absent = refl

low : relay.first ≤ 20001
unfolding new
low = omega arith

high : 20001 ≤ relay.last
unfolding new
high = omega arith

ensure-Serves_example :
    Serves lan (ensure lan (λ p. true) "a" "10.0.0.2" 20001 relay).1 "a" "10.0.0.2:22" 20001
ensure-Serves_example =
    ensure-Serves lan (λ p. true) "a" "10.0.0.2" "10.0.0.2:22" 20001 relay 20001 known opened

abbrev one_open : Relay
one_open = (ensure lan (λ p. true) "a" "10.0.0.2" 20001 relay).1

b_apart : (◌≡◌ {A = String} "b" "a") → ⊥
b_apart e = ground (arith, eq_iff "b" "a")

find-ensure_ne_example :
    find "b" (ensure lan (λ p. true) "a" "10.0.0.2" 20001 relay).1.by_id ≡ find "b" relay.by_id
find-ensure_ne_example = find-ensure_ne lan (λ p. true) "a" "10.0.0.2" "b" 20001 relay b_apart

ensure_again_example : ensure lan (λ p. false) "a" "10.0.0.2" 20000 one_open ≡ (ok 20001, one_open)
ensure_again_example =
    ensure_again lan (λ p. true) (λ p. false) "a" "10.0.0.2" "10.0.0.2:22" 20001 20000 relay 20001
      known opened

-- The preferred port is held by another process.
ensure_finds_example :
    (q : ℕ) × ((ensure lan (λ p. p == 20001) "a" "10.0.0.2" 20000 relay).0 ≡ ok q)
ensure_finds_example =
    ensure_finds lan (λ p. p == 20001) "a" "10.0.0.2" "10.0.0.2:22" 20000 relay 20001 known low high
      refl unused

ensure_preferred_example : (ensure lan (λ p. true) "a" "10.0.0.2" 20001 relay).0 ≡ ok 20001
ensure_preferred_example =
    ensure_preferred lan (λ p. true) "a" "10.0.0.2" "10.0.0.2:22" 20001 relay known absent low high
      refl unused_before

one_open-IsValid : IsValid one_open
unfolding ensure run step
one_open-IsValid = run-IsValid lan (ensures (λ p. true) "a" "10.0.0.2" 20001 ∷ []) "vm" 20000 20001

-- What is told to Retain, and the listener of `one_open`.
abbrev told : List (String × String)
told = ("b", "10.0.0.3") ∷ ("a", "10.0.0.2") ∷ []

abbrev held : Listener
held = record { port = 20001; target = "10.0.0.2:22"; closed = false; sessions = [] }

find-retain_example : (find "a" (retain told one_open).by_id ≡ some held) ↔ (
    (find "a" one_open.by_id ≡ some held)
    × (ip : String) × (address_of "a" told ≡ some ip)
    × (held.target ≡ join_host_port ip one_open.target_port))
find-retain_example = find-retain told one_open "a" held one_open-IsValid

find-close_example :
    find "a" (close "a" one_open).by_id ≡ (if str_eq "a" "a" then none else find "a" one_open.by_id)
find-close_example = find-close "a" "a" one_open

machine_for_bounds_example :
    (256 ≤ memory_for "small" (clamp no_resources))
    × (memory_for "small" (clamp no_resources) ≤ max_memory_mib)
    × (1 ≤ (machine_for "small" (clamp no_resources)).vcpus)
    × ((machine_for "small" (clamp no_resources)).vcpus ≤ max_vcpus)
    × ((machine_for_size "small").memory_mib ≤ memory_for "small" (clamp no_resources))
    × ((machine_for_size "small").vcpus ≤ (machine_for "small" (clamp no_resources)).vcpus)
    × (min 0 max_memory_mib ≤ memory_for "small" (clamp no_resources))
    × (min 0 max_vcpus ≤ (machine_for "small" (clamp no_resources)).vcpus)
machine_for_bounds_example = machine_for_bounds "small" no_resources

raised : raise_file_limit true 1024 524288 ≡ some 524288
unfolding raise_file_limit
raised = refl

disk_usage_percent_lem_example :
    (p : ℕ) × (disk_usage_percent (some (1000, 101)) ≡ some p)
    × (((1000 - 101) * 100 ≤ p * 1000) × (p * 1000 < (1000 - 101) * 100 + 1000) × (p ≤ 100))
disk_usage_percent_lem_example =
    disk_usage_percent_lem 1000 101 (omega arith) (omega arith) (omega arith)

abbrev limits : Limits
limits = record { max_vms = 2; host_memory_reserve_mib = 1024; vm_memory_mib = 512 }

abbrev empty_gate : Gate
empty_gate = record { pending_creates = 0; pending_mib = 0 }

let_in : admit limits 256 (ok 1) (some 4096) empty_gate ≡ (ok 512, reserve empty_gate 512)
unfolding admit
let_in = refl

abbrev one_admitted : HostState
one_admitted = record {
  gate = reserve empty_gate 512;
  flights = record { mib = 512; booted = false } ∷ [];
  running = 1;
}

Reach-IsAccounted_example : IsAccounted limits one_admitted
Reach-IsAccounted_example =
    Reach-IsAccounted limits 1 (omega arith) (omega arith)
      (next here (admits 256 512 4096 (reserve empty_gate 512) (omega arith) let_in))

abbrev draft : Sandbox
draft = record {
  id = "a";
  user_id = "u";
  template = "base";
  size = "small";
  kind = "vm";
  state = creating;
  ip_address = "";
  cost_per_min = 25;
  resources = no_resources;
  disk_mib = 0;
  error_text = "";
  device_id = "";
  created_at = 1;
  last_activity = 1;
  ssh_connections = 0;
}

-- Every reply is lost.
abbrev deaf : Server
deaf = server_with (λ n. lost)

abbrev empty_link : Link deaf
empty_link = record { db = record { texts = λ k. none; sets = λ k. []; events = [] }; calls = 0 }

empty-IsIndexed : IsIndexed deaf empty_link.db
empty-IsIndexed = record {
  listed = λ id js e. absurd (ground arith);
  all_stored = λ id e. absurd (ground arith);
  active_stored = λ id e. absurd (ground arith);
}

empty-IsInStep : IsInStep deaf empty_link.db
empty-IsInStep = record { indexed = empty-IsIndexed; filed = λ u id e. absurd (ground arith) }

run-IsInStep_example : IsInStep deaf (Writes.run deaf (Writes.reserves draft) empty_link).db
run-IsInStep_example =
    run-IsInStep deaf (Writes.reserves draft) empty_link refl (λ old e. absurd (ground arith))
      empty-IsInStep

-- A server with one API key, of an administrator.
abbrev keyed : Server
keyed = record (server_with (λ n. delivered)) {
  redis = record memory { hget = λ d k f. if str_eq f "role" then some "admin" else some "root" };
}

abbrev keyed_link : Link keyed
keyed_link = record { db = record { texts = λ k. none; sets = λ k. []; events = [] }; calls = 0 }

abbrev root : Identity
root = record { user_id = "root"; role = "admin"; is_anonymous = false; scope_user_id = "" }

resolved : (resolve_identity keyed "key.signature" keyed_link).0 ≡ ok (some root)
unfolding resolve_identity unsigned from_api_key from_key roundtrip ◌>>=◌ pure attempt
resolved = refl

resolve_identity-admin_example :
    (keyed.redis.hget keyed_link.db (apikey (unsigned "key.signature")) "userId" ≡ some "root")
    × (keyed.redis.hget keyed_link.db (apikey (unsigned "key.signature")) "role" ≡ some "admin")
resolve_identity-admin_example =
    resolve_identity-admin keyed "key.signature" keyed_link root resolved refl
