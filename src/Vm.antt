-- ===== src/Vm.antt =====
-- What the service relies on of the VM lifecycle: the interface `vmManager` of
-- internal/service/service.go, with the laws that its callers assume.
pub mod Sizes
pub mod Containerd
pub mod Node
pub mod Manager
pub mod Rollback
pub mod Starts
pub mod Launch
pub mod Lifecycle
pub mod Devices
pub mod HomeDisk
pub mod Loops
pub mod Plumbing
pub mod Network
pub mod Processes
use sandbox_manager.Prelude.{ℕ, ◌≡◌, ◌⊎◌, String, List, Option, none, some, Result, ok}
use sandbox_manager.Sandbox.{Resources}

-- The answer of IsLive.
pub data Liveness : Type 0 where
  live_unknown live_yes live_no : Liveness

pub record Spec : Type 0 where
  pub id : String
  pub user_id : String
  pub template : String
  pub size : String
  pub resources : Resources
  pub enroll_token : String
  pub home_img : String
  pub device_name : String

-- `running` is the owner's label of the VM that runs under an id: that is, whose task runs. A VM may
-- die during any call, so the laws say of a call only what it cannot start and what it must have ended.
pub record VmManager : Type 1 where
  pub Vms : Type 0
  pub create : Spec → Vms → Result String × Vms
  pub delete : String → Vms → Result (Unit {0}) × Vms
  pub is_live : String → Vms → Liveness × Vms
  pub guest_log_tail : String → ℕ → Vms → String × Vms
  pub exec : String → List String → Vms → Result (String × ℕ) × Vms
  pub cleanup_stopped : Vms → Result ℕ × Vms
  pub running_count : Vms → Result ℕ × Vms
  pub running : Vms → String → Option String
  -- A create leaves at most the VM running that it is asked for, under its owner, and one that fails has
  -- ended what it had started. Vm.Lifecycle says when internal/vm/manager.go keeps this.
  pub create_starts :
      (s : Spec) (v : Vms) (id user_id : String)
      → running (create s v).1 id ≡ some user_id
      → (running v id ≡ some user_id)
        ⊎ ((id ≡ s.id) × (user_id ≡ s.user_id) × (ip : String) × ((create s v).0 ≡ ok ip))
  -- Nothing else starts a VM.
  pub delete_starts :
      (i : String) (v : Vms) (id user_id : String)
      → running (delete i v).1 id ≡ some user_id
      → running v id ≡ some user_id
  pub is_live_starts :
      (i : String) (v : Vms) (id user_id : String)
      → running (is_live i v).1 id ≡ some user_id
      → running v id ≡ some user_id
  pub guest_log_tail_starts :
      (i : String) (n : ℕ) (v : Vms) (id user_id : String)
      → running (guest_log_tail i n v).1 id ≡ some user_id
      → running v id ≡ some user_id
  pub exec_starts :
      (i : String) (argv : List String) (v : Vms) (id user_id : String)
      → running (exec i argv v).1 id ≡ some user_id
      → running v id ≡ some user_id
  pub cleanup_stopped_starts :
      (v : Vms) (id user_id : String)
      → running (cleanup_stopped v).1 id ≡ some user_id
      → running v id ≡ some user_id
  pub running_count_starts :
      (v : Vms) (id user_id : String)
      → running (running_count v).1 id ≡ some user_id
      → running v id ≡ some user_id
  -- A delete that reports success, and the answer LiveNo, mean that the VM is gone.
  pub delete_gone :
      (i : String) (v : Vms) → (delete i v).0 ≡ ok tt → running (delete i v).1 i ≡ none
  pub is_live_gone :
      (i : String) (v : Vms) → (is_live i v).0 ≡ live_no → running (is_live i v).1 i ≡ none
