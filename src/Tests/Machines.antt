-- ===== src/Tests/Machines.antt =====
-- A platform whose calls succeed, but for the faults that a run puts in.
use sandbox_manager.Prelude.{
  ℕ, ◌≡◌, refl, ◌⊎◌, inl, inr, String, false, true, [], ◌∷◌, Option, none, some, str_eq, Result, ok,
  if◌then◌else◌, arith, eq_iff, eq_refl, Bool-cases,
}
use sandbox_manager.Sandbox.{Identity, Resources}
use sandbox_manager.Redis.{Server, Outcome}
use sandbox_manager.Relay.{Net, v4}
use sandbox_manager.Vm.{VmManager, Liveness, live_yes, live_no, Spec}
use sandbox_manager.Service.World.{Platform, World, HomeStore}
use sandbox_manager.Tests.Memory.{memory, unary, shown_nat}

abbrev pub Running : Type 0
Running = String → Option String

abbrev pub started : Spec → Running → Running
started s v id = if str_eq s.id id then some s.user_id else v id

abbrev pub ended : String → Running → Running
ended i v id = if str_eq i id then none else v id

abbrev pub liveness : Option String → Liveness
liveness none = live_no
liveness (some u) = live_yes

pub started_starts :
    (s : Spec) (v : Running) (id user_id : String)
    → started s v id ≡ some user_id
    → (v id ≡ some user_id)
      ⊎ ((id ≡ s.id) × (user_id ≡ s.user_id) × (ip : String) × ((Result.ok "10.0.0.2") ≡ ok ip))
started_starts s v id user_id e = elim (Bool-cases (str_eq s.id id)) [
  | inl same ↦ inr (ground (arith, eq_iff s.id id), ground arith, "10.0.0.2", refl)
  | inr other ↦ inl (ground arith)
]

pub ended_starts :
    (i : String) (v : Running) (id user_id : String)
    → ended i v id ≡ some user_id
    → v id ≡ some user_id
ended_starts i v id user_id e = ground arith

pub ended_gone : (i : String) (v : Running) → ended i v i ≡ none
ended_gone i v = rw (eq_refl i) refl

pub liveness_gone : (o : Option String) → liveness o ≡ live_no → o ≡ none
liveness_gone o e = ground arith

abbrev pub machines : VmManager
machines = record {
  Vms = Running;
  create = λ s v. (ok "10.0.0.2", started s v);
  delete = λ id v. (ok tt, ended id v);
  is_live = λ id v. (liveness (v id), v);
  guest_log_tail = λ id n v. ("", v);
  exec = λ id argv v. (ok ("", 0), v);
  cleanup_stopped = λ v. (ok 0, v);
  running_count = λ v. (ok 0, v);
  running = λ v id. v id;
  create_starts = started_starts;
  delete_starts = ended_starts;
  is_live_starts = λ i v id u e. e;
  guest_log_tail_starts = λ i n v id u e. e;
  exec_starts = λ i argv v id u e. e;
  cleanup_stopped_starts = λ v id u e. e;
  running_count_starts = λ v id u e. e;
  delete_gone = λ i v e. ended_gone i v;
  is_live_gone = λ i v e. liveness_gone (v i) e;
}

abbrev pub disks : HomeStore
disks = record {
  Homes = Unit {0};
  shrink_disk = λ u n h. (ok tt, h);
  ensure_disk = λ u n h. (ok "home.img", h);
  disk_mib = λ u h. (2048, h);
  delete = λ u h. (ok tt, h);
}

-- Every text is the address 10.0.0.2.
abbrev pub lan : Net
lan = record { parse_ip = λ s. some (v4 10 0 0 2); show_ip = λ a. "10.0.0.2" }

abbrev pub server_with : (ℕ → Outcome) → Server
server_with outcome = record { redis = memory; codec = unary; outcome = outcome; time = λ n. n }

-- The ids are `sz`, `ssz`, and so on.
abbrev pub platform_with : (ℕ → Outcome) → Platform
platform_with outcome = record {
  server = server_with outcome;
  manager = machines;
  home_store = disks;
  net = lan;
  limits = record { max_vms = 4; host_memory_reserve_mib = 0; vm_memory_mib = 512 };
  ssh_auth_url = "";
  mint = λ n u id. ok "token";
  statfs = λ n. some (100, 50);
  meminfo = λ n. some (
      77 ∷ 101 ∷ 109 ∷ 65 ∷ 118 ∷ 97 ∷ 105 ∷ 108 ∷ 97 ∷ 98 ∷ 108 ∷ 101 ∷ 58 ∷ 32 ∷ 57 ∷ 57 ∷ 57 ∷ 57
      ∷ 57 ∷ 57 ∷ 57 ∷ 10 ∷ []);
  can_listen = λ n port. true;
  random_id = λ n. shown_nat n "";
  sha256_hex = λ u. "0123456789abcdef";
}

-- No VM runs and nothing is stored.
abbrev pub empty_world : (outcome : ℕ → Outcome) → World (platform_with outcome)
empty_world outcome = record {
  link = record { db = record { texts = λ k. none; sets = λ k. []; events = [] }; calls = 0 };
  vms = λ id. none;
  homes = tt;
  relay = none;
  gate = record { pending_creates = 0; pending_mib = 0 };
  capacity_rejected = 0;
}

abbrev pub alice : Identity
alice = record { user_id = "alice"; role = "user"; is_anonymous = false; scope_user_id = "" }

abbrev pub no_resources : Resources
no_resources = record { memory_mib = 0; vcpus = 0; disk_mib = 0 }
