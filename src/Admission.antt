-- ===== src/Admission.antt =====
-- The admission of creates in internal/service/service.go: `admit`, its `release`, and the counters
-- that `admissionMu` guards.
pub mod Capacity
use sandbox_manager.Prelude.{
  ℕ, ◌+◌, ◌-◌, ◌%◌, ◌^◌, max, Option, none, some, ltb, leb, if◌then◌else◌, Result, ok, err, Error,
  capacity, because, failure,
}

-- The part of the configuration that admission reads.
pub record Limits : Type 0 where
  pub max_vms : ℕ
  pub host_memory_reserve_mib : ℕ
  pub vm_memory_mib : ℕ

-- pendingCreates and pendingMiB.
pub record Gate : Type 0 where
  pub pending_creates : ℕ
  pub pending_mib : ℕ

abbrev pub u64_mod : ℕ
u64_mod = 2 ^ 64

abbrev pub err_capacity : Error
err_capacity = record { kind = capacity; message = "host VM capacity reached" }

-- What a VM is budgeted at: its real size, never below the default.
abbrev pub budget : Limits → ℕ → ℕ
budget limits vm_mib = max vm_mib limits.vm_memory_mib

abbrev pub reserve : Gate → ℕ → Gate
reserve g mib = record {
  pending_creates = g.pending_creates + 1;
  pending_mib = (g.pending_mib + mib) % u64_mod;
}

-- The check against the available memory, and the reservation.
unfoldable pub admit_memory : Limits → ℕ → Option ℕ → Gate → Result ℕ × Gate
admit_memory limits mib none g = (err (because err_capacity (failure "read host memory")), g)
admit_memory limits mib (some available_mib) g =
    if ltb available_mib ((limits.host_memory_reserve_mib + g.pending_mib + mib) % u64_mod)
    then (err (because err_capacity (failure "not enough memory")), g)
    else (ok mib, reserve g mib)

-- admit, given what RunningCount and memAvailableMiB answer. The value is what `release` gives back.
unfoldable pub admit : Limits → ℕ → Result ℕ → Option ℕ → Gate → Result ℕ × Gate
unfolding admit_memory
admit limits vm_mib (err e) available g = (err (because err_capacity e), g)
admit limits vm_mib (ok running) available g =
    if leb limits.max_vms (running + g.pending_creates)
    then (err (because err_capacity (failure "too many VMs")), g)
    else admit_memory limits (budget limits vm_mib) available g

-- The returned `release`.
unfoldable pub release : ℕ → Gate → Gate
release mib g = record {
  pending_creates = g.pending_creates - 1;
  pending_mib = (g.pending_mib + u64_mod - mib) % u64_mod;
}
