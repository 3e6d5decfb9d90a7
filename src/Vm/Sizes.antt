-- ===== src/Vm/Sizes.antt =====
-- The resources of a VM (internal/vm/manager.go) and what a size costs and stores
-- (internal/service/service.go).
use sandbox_manager.Prelude.{ℕ, ◌*◌, ◌≤◌, String, str_eq, min, max, if◌then◌else◌, arith}
use sandbox_manager.Sandbox.{Resources}

abbrev pub max_memory_mib : ℕ
max_memory_mib = 16 * 1024

abbrev pub max_vcpus : ℕ
max_vcpus = 4

abbrev pub max_disk_mib : ℕ
max_disk_mib = 50 * 1024

unfoldable pub clamp : Resources → Resources
clamp r = record {
  memory_mib = min r.memory_mib max_memory_mib;
  vcpus = min r.vcpus max_vcpus;
  disk_mib = min r.disk_mib max_disk_mib;
}

pub record Machine : Type 0 where
  pub memory_mib : ℕ
  pub vcpus : ℕ

unfoldable pub machine_for_size : String → Machine
machine_for_size size =
    if str_eq size "small"
    then record { memory_mib = 256; vcpus = 1 }
    else if str_eq size "large"
    then record { memory_mib = 1024; vcpus = 2 }
    else if str_eq size "xlarge"
    then record { memory_mib = 2048; vcpus = 4 }
    else record { memory_mib = 512; vcpus = 1 }

unfoldable pub machine_for : String → Resources → Machine
unfolding machine_for_size
machine_for size r = record {
  memory_mib = max (machine_for_size size).memory_mib r.memory_mib;
  vcpus = max (machine_for_size size).vcpus r.vcpus;
}

unfoldable pub memory_for : String → Resources → ℕ
unfolding machine_for
memory_for size r = (machine_for size r).memory_mib

-- In units of 1/10000 USD.
unfoldable pub cost_per_minute : String → ℕ
cost_per_minute size =
    if str_eq size "small"
    then 25
    else if str_eq size "medium"
    then 50
    else if str_eq size "large"
    then 100
    else if str_eq size "xlarge"
    then 200
    else 50

unfoldable pub disk_size_mib_for_tier : String → ℕ
disk_size_mib_for_tier size =
    if str_eq size "small"
    then 512
    else if str_eq size "medium"
    then 2 * 1024
    else if str_eq size "large"
    then 8 * 1024
    else if str_eq size "xlarge"
    then 20 * 1024
    else 2 * 1024

-- Whatever is asked for, a VM gets at least the memory and the processors that its size has, and at most
-- what can be bought; at least 256 MiB, which Kata needs; and at least what is asked for, up to the
-- ceilings.
pub machine_for_bounds :
    (size : String) (r : Resources)
    → (256 ≤ memory_for size (clamp r))
      × (memory_for size (clamp r) ≤ max_memory_mib)
      × (1 ≤ (machine_for size (clamp r)).vcpus)
      × ((machine_for size (clamp r)).vcpus ≤ max_vcpus)
      × ((machine_for_size size).memory_mib ≤ memory_for size (clamp r))
      × ((machine_for_size size).vcpus ≤ (machine_for size (clamp r)).vcpus)
      × (min r.memory_mib max_memory_mib ≤ memory_for size (clamp r))
      × (min r.vcpus max_vcpus ≤ (machine_for size (clamp r)).vcpus)
unfolding memory_for clamp
machine_for_bounds size r = ground arith
