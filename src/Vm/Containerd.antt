-- ===== src/Vm/Containerd.antt =====
-- What internal/vm/manager.go relies on of containerd, Kata and the host: an interface. Its state is
-- theirs, and changes under every call: a VM may die during any of them. A VM runs while its task does;
-- Kata may leave the VM's Firecracker process behind when the task has ended, which `vmm` tells.
use sandbox_manager.Prelude.{
  ℕ, ◌≡◌, refl, ◌⊎◌, inl, inr, String, Bool, true, false, List, Option, none, some,
}

-- What errdefs tells of an error: IsNotFound, IsAlreadyExists, or neither.
pub data Fault : Type 0 where
  absent exists broken : Fault

pub data Reply {ℓ} (A : Type ℓ) : Type ℓ where
  done : A → Reply A
  failed : Fault → Reply A

pub Reply-cases {ℓ} :
    {A : Type ℓ} (r : Reply A) → ((a : A) × (r ≡ done a)) ⊎ ((f : Fault) × (r ≡ failed f))
Reply-cases (done a) = inl (a, refl)
Reply-cases (failed f) = inr (f, refl)

-- The configuration of a container, as far as the program chooses it.
pub record Config : Type 0 where
  pub id : String
  pub user_id : String
  pub template : String
  pub size : String
  pub annotations : List (String × String)
  pub env : List String
  pub home : Option String
  pub hostname : String
  pub netns : String

-- The calls that answer no more than whether they succeeded.
pub data Command : Type 0 where
  -- The rootfs image.
  get_image pull open_lease unpack close_lease await_unpack : Command
  -- The home disk and the network of a sandbox.
  attach_home : String → String → Command
  detach_home setup_net teardown_net : String → Command
  -- The container, its snapshot and its task.
  new_container : Config → Command
  remove_snapshot new_task start_task kill_task delete_task delete_container : String → Command
  load_container load_task : String → Command
  -- A process inside the VM: task.Exec, Wait, Start and Delete.
  exec_process : String → List String → List String → Command
  wait_process start_process delete_process : String → Command
  -- SIGKILL to the VM's Firecracker process, and the removal of its log.
  kill_firecracker remove_log : String → Command

pub record Containerd : Type 1 where
  pub Host : Type 0
  pub perform : Command → Host → Reply (Unit {0}) × Host
  -- Questions with an answer: IsUnpacked, the address that CNI gave, the containers of the namespace,
  -- the milliseconds since one was created, whether a task's status is Running, the environment in a
  -- container's spec, the output and exit code of a process, and the guest's log.
  pub is_unpacked : Host → Reply Bool × Host
  pub address : Host → String → String
  pub containers : Host → Reply (List String) × Host
  pub age : String → Host → Reply ℕ × Host
  pub status : String → Host → Reply Bool × Host
  pub spec_env : String → Host → Reply (List String) × Host
  pub output : String → Host → (String × ℕ) × Host
  pub read_log : String → ℕ → Host → String × Host
  -- The owner label of a container, and of the task that runs in it; and whether a Firecracker process
  -- of that id is there.
  pub owner : Host → String → Option String
  pub running : Host → String → Option String
  pub vmm : Host → String → Bool
  -- Only a start starts a task, under its container's label, also one that reports a failure.
  pub perform_starts :
      (c : Command) (h : Host) (id user_id : String)
      → running (perform c h).1 id ≡ some user_id
      → (running h id ≡ some user_id) ⊎ ((c ≡ start_task id) × (owner h id ≡ some user_id))
  -- Only a start starts a Firecracker process, and a SIGKILL ends it. Nothing else is said to end one.
  pub perform_vmm :
      (c : Command) (h : Host) (id : String)
      → vmm (perform c h).1 id ≡ true
      → (vmm h id ≡ true) ⊎ (c ≡ start_task id)
  pub killed_vmm : (i : String) (h : Host) → vmm (perform (kill_firecracker i) h).1 i ≡ false
  pub is_unpacked_starts :
      (h : Host) (id user_id : String)
      → running (is_unpacked h).1 id ≡ some user_id
      → running h id ≡ some user_id
  pub containers_starts :
      (h : Host) (id user_id : String)
      → running (containers h).1 id ≡ some user_id
      → running h id ≡ some user_id
  pub age_starts :
      (i : String) (h : Host) (id user_id : String)
      → running (age i h).1 id ≡ some user_id
      → running h id ≡ some user_id
  pub status_starts :
      (i : String) (h : Host) (id user_id : String)
      → running (status i h).1 id ≡ some user_id
      → running h id ≡ some user_id
  pub spec_env_starts :
      (i : String) (h : Host) (id user_id : String)
      → running (spec_env i h).1 id ≡ some user_id
      → running h id ≡ some user_id
  pub output_starts :
      (i : String) (h : Host) (id user_id : String)
      → running (output i h).1 id ≡ some user_id
      → running h id ≡ some user_id
  pub read_log_starts :
      (i : String) (n : ℕ) (h : Host) (id user_id : String)
      → running (read_log i n h).1 id ≡ some user_id
      → running h id ≡ some user_id
  -- A container is made with the labels that it is asked for, and they stay.
  pub new_container_owner :
      (c : Config) (h : Host)
      → (perform (new_container c) h).0 ≡ done tt
      → owner (perform (new_container c) h).1 c.id ≡ some c.user_id
  pub new_task_owner :
      (i : String) (h : Host) (user_id : String)
      → owner (perform (new_task i) h).1 i ≡ some user_id
      → owner h i ≡ some user_id
  -- No task runs without its container, nor one that is not found, that was deleted (after a SIGKILL,
  -- with WithProcessKill), whose container was deleted, which containerd refuses while there is a task,
  -- or whose status is not Running. None of this is said of the Firecracker process.
  pub absent_container :
      (i : String) (h : Host)
      → (perform (load_container i) h).0 ≡ failed absent
      → running (perform (load_container i) h).1 i ≡ none
  pub absent_task :
      (i : String) (h : Host)
      → (perform (load_task i) h).0 ≡ failed absent
      → running (perform (load_task i) h).1 i ≡ none
  pub deleted_task :
      (i : String) (h : Host)
      → (perform (delete_task i) h).0 ≡ done tt
      → running (perform (delete_task i) h).1 i ≡ none
  pub deleted_container :
      (i : String) (h : Host)
      → (perform (delete_container i) h).0 ≡ done tt
      → running (perform (delete_container i) h).1 i ≡ none
  pub stopped_task :
      (i : String) (h : Host) → (status i h).0 ≡ done false → running (status i h).1 i ≡ none

-- After a Start that fails, task.Delete with WithProcessKill succeeds, or else container.Delete does.
abbrev pub Cleans : Containerd → Type 0
Cleans k =
    (i : String) (f : Fault) (h : k.Host)
    → (k.perform (start_task i) h).0 ≡ failed f
    → let h1 = (k.perform (start_task i) h).1 in
      let h2 = (k.perform (delete_task i) h1).1 in
      ((k.perform (delete_task i) h1).0 ≡ done tt)
      ⊎ ((k.perform (delete_container i) h2).0 ≡ done tt)
