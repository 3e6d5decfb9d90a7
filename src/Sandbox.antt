-- ===== src/Sandbox.antt =====
-- The inventory record and the caller's identity (internal/store/store.go), and the resources that
-- the record carries (internal/vm/manager.go).
use sandbox_manager.Prelude.{ℕ, String, Bool, false, true, str_eq}

pub data State : Type 0 where
  creating running terminating error : State

-- Explicit overrides of a size; a zero field keeps the size's value.
pub record Resources : Type 0 where
  pub memory_mib : ℕ
  pub vcpus : ℕ
  pub disk_mib : ℕ

-- Cost is in units of 1/10000 USD per minute. Empty texts stand for fields that are left out.
pub record Sandbox : Type 0 where
  pub id : String
  pub user_id : String
  pub template : String
  pub size : String
  pub kind : String
  pub state : State
  pub ip_address : String
  pub cost_per_min : ℕ
  pub resources : Resources
  pub disk_mib : ℕ
  pub error_text : String
  pub device_id : String
  pub created_at : ℕ
  pub last_activity : ℕ
  pub ssh_connections : ℕ

-- Does the sandbox hold resources and count against the quota?
abbrev pub is_active_state : State → Bool
is_active_state creating = true
is_active_state running = true
is_active_state terminating = true
is_active_state error = false

abbrev pub is_active : Sandbox → Bool
is_active sb = is_active_state sb.state

abbrev pub is_state : State → State → Bool
is_state creating creating = true
is_state running running = true
is_state terminating terminating = true
is_state error error = true
is_state _ _ = false

pub record Identity : Type 0 where
  pub user_id : String
  pub role : String
  pub is_anonymous : Bool
  pub scope_user_id : String

abbrev pub is_admin : Identity → Bool
is_admin i = str_eq i.role "admin"

-- store.Identity{Role: "admin"}, the identity that the reconciler acts under.
abbrev pub reconciler : Identity
reconciler = record { user_id = ""; role = "admin"; is_anonymous = false; scope_user_id = "" }
