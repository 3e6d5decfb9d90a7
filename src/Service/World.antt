-- ===== src/Service/World.antt =====
-- The state that the service acts on, and its calls to the parts around it. A deadline that has
-- passed shows as a request that the server does not get.
use Prim.Native.String.{◌++◌ as append, slice}
use sandbox_manager.Prelude.{
  ℕ, suc, String, Bool, Option, Result, ok, quota, anonymous, not_found, forbidden, disk_full, ssh,
  Error,
}
use sandbox_manager.Redis.{Server, Link}
use sandbox_manager.Relay.{Net, Relay}
use sandbox_manager.Relay
use sandbox_manager.Vm.{VmManager}
use sandbox_manager.Admission.{Limits, Gate}
use sandbox_manager.Host.{Bytes}

-- What the service uses of internal/userhome/userhome.go.
pub record HomeStore : Type 1 where
  pub Homes : Type 0
  pub shrink_disk : String → ℕ → Homes → Result (Unit {0}) × Homes
  pub ensure_disk : String → ℕ → Homes → Result String × Homes
  pub disk_mib : String → Homes → ℕ × Homes
  pub delete : String → Homes → Result (Unit {0}) × Homes

-- Everything around the service. The functions of a number are arbitrary, and take the number of
-- calls made so far: the backend's enrollment tokens, Statfs, /proc/meminfo, the ports that can be
-- listened on, and random ids.
pub record Platform : Type 1 where
  pub server : Server
  pub manager : VmManager
  pub home_store : HomeStore
  pub net : Net
  pub limits : Limits
  pub ssh_auth_url : String
  pub mint : ℕ → String → String → Result String
  pub statfs : ℕ → Option (ℕ × ℕ)
  pub meminfo : ℕ → Option Bytes
  pub can_listen : ℕ → ℕ → Bool
  pub random_id : ℕ → String
  pub sha256_hex : String → String

abbrev pub err_quota : Error
err_quota = record { kind = quota; message = "user already has an active sandbox" }

abbrev pub err_anonymous : Error
err_anonymous = record { kind = anonymous; message = "anonymous users cannot create VM sandboxes" }

abbrev pub err_not_found : Error
err_not_found = record { kind = not_found; message = "sandbox not found" }

abbrev pub err_forbidden : Error
err_forbidden = record { kind = forbidden; message = "forbidden" }

abbrev pub err_disk_full : Error
err_disk_full = record { kind = disk_full; message = "host disk capacity reached" }

abbrev pub err_ssh : Error
err_ssh = record { kind = ssh; message = "cloud SSH unavailable" }

module _ (p : Platform) where
  open p use {server, manager.{Vms}, manager, home_store.{Homes}, home_store}

  -- `relay` is nil unless cloud SSH is configured. The mutexes of `sshPrep` and `admissionMu` only
  -- order calls, and have no part here.
  pub record World : Type 0 where
    pub link : Link server
    pub vms : Vms
    pub homes : Homes
    pub relay : Option Relay
    pub gate : Gate
    pub capacity_rejected : ℕ

  abbrev pub Do : Type 0 → Type 0
  Do A = World → Result A × World

  -- The number of calls made, which the arbitrary functions of the platform read.
  abbrev pub calls : World → ℕ
  calls w = w.link.calls

  abbrev pub ticked : World → World
  ticked w = record w { link = record w.link { calls = suc w.link.calls } }

  unfoldable pub on_store : {A : Type 0} → (Link server → Result A × Link server) → Do A
  on_store m w = let (r, l) = m w.link in (r, record w { link = l })

  -- A call of the VM manager that may fail, and one that always answers.
  unfoldable pub on_vms : {A : Type 0} → (Vms → Result A × Vms) → Do A
  on_vms m w = let (r, v) = m w.vms in (r, record (ticked w) { vms = v })

  unfoldable pub ask_vms : {A : Type 0} → (Vms → A × Vms) → Do A
  ask_vms m w = let (a, v) = m w.vms in (ok a, record (ticked w) { vms = v })

  unfoldable pub on_homes : {A : Type 0} → (Homes → Result A × Homes) → Do A
  on_homes m w = let (r, h) = m w.homes in (r, record (ticked w) { homes = h })

  unfoldable pub ask_homes : {A : Type 0} → (Homes → A × Homes) → Do A
  ask_homes m w = let (a, h) = m w.homes in (ok a, record (ticked w) { homes = h })

  -- A value that the platform gives at this moment.
  unfoldable pub observe : {A : Type 0} → (ℕ → A) → Do A
  observe f w = (ok (f (calls w)), ticked w)

  unfoldable pub fallible : {A : Type 0} → (ℕ → Result A) → Do A
  fallible f w = (f (calls w), ticked w)

  -- A method of the relay on a pointer that may be nil.
  unfoldable pub on_relay : (Relay → Relay) → Do (Unit {0})
  on_relay f w = (ok tt, record w { relay = Relay.map_relay f w.relay })

  unfoldable pub ssh_connections : String → Do ℕ
  ssh_connections id w = (ok (Relay.connections_of (server.time (calls w)) id w.relay), w)

  unfoldable pub on_gate : {A : Type 0} → (Gate → Result A × Gate) → Do A
  on_gate f w = let (r, g) = f w.gate in (r, record w { gate = g })

  -- deviceNameFor
  unfoldable pub device_name_for : String → String
  device_name_for user_id = append "vm_" (slice (p.sha256_hex user_id) 0 8)
