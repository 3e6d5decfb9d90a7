-- ===== src/Service/Composed.antt =====
-- The service on the VM manager of internal/vm/manager.go, instead of on its interface.
use sandbox_manager.Prelude.{◌≡◌, String, some}
use sandbox_manager.Vm.Containerd.{Containerd, Cleans}
use sandbox_manager.Vm.Manager.{Settings, Texts}
use sandbox_manager.Vm.Lifecycle.{manager_over}
use sandbox_manager.Service.World.{Platform, World}
use sandbox_manager.Service.Steps.{AllCovered}
use sandbox_manager.Service.Histories.{History, History-one_vm}

module _ (p : Platform) (k : Containerd) (t : Texts) (c : Settings) (cleans : Cleans k) where
  -- The platform with the VM manager that runs on containerd.
  abbrev pub composed : Platform
  composed = record p { manager = manager_over k t c cleans }

  -- One VM per user, in containerd: after any sequence of calls of the service, two tasks that run in
  -- containers with the label of one user run in the same container. Each call of Redis, of containerd,
  -- of Kata and of the host may fail, a Start also after it has started the task, but then task.Delete
  -- succeeds, or else container.Delete does. The other conditions are that every VM was covered at the
  -- start, and that each create draws an id that no running VM has.
  pub composed-one_vm :
      {w v : World composed} (i j user_id : String)
      → AllCovered composed w
      → History composed w v
      → k.running v.vms.host i ≡ some user_id
      → k.running v.vms.host j ≡ some user_id
      → i ≡ j
  composed-one_vm i j user_id h calls = History-one_vm composed i j user_id h calls
