-- ===== src/Vm/Manager.antt =====
-- internal/vm/manager.go: the lifecycle of a VM over containerd.
use Prim.Native.String.{◌++◌ as append}
use text.Mathlib.Text.{starts_with}
use sandbox_manager.Prelude.{
  ℕ, ◌+◌, ◌*◌, String, Bool, true, false, ◌||◌, List, [], ◌∷◌, ◌++◌, none, some, str_eq, ltb,
  if◌then◌else◌,
}
use sandbox_manager.Sandbox.{Resources}
use sandbox_manager.Vm.{Liveness, live_unknown, live_yes, live_no, Spec}
use sandbox_manager.Vm.Sizes.{machine_for}
use sandbox_manager.Vm.Containerd.{
  Containerd, Command, Config, Reply, done, failed, Fault, absent, exists, broken, get_image, pull,
  open_lease, unpack, close_lease, await_unpack, attach_home, detach_home, setup_net, teardown_net,
  new_container, remove_snapshot, new_task, start_task, kill_task, delete_task, delete_container,
  load_container, load_task, exec_process, wait_process, start_process, delete_process,
  kill_firecracker, remove_log,
}
use sandbox_manager.Vm.Node.{M, command, query, pure, fail, attempt, lift, ◌>>=◌, ◌>>◌}

-- The part of the configuration that goes into a VM.
pub record Settings : Type 0 where
  pub noise_backend_host : String
  pub noise_backend_port : String
  pub bridge_port : String
  pub x_client_id : String
  pub x_client_secret : String

-- strings.ReplaceAll(name, "_", "-"), and the decimal digits of a number, are functions of the
-- standard library.
pub record Texts : Type 0 where
  pub dashed : String → String
  pub show_uint : ℕ → String

abbrev pub volume_root : String
volume_root = "/run/sandbox-manager/home-volumes/"

unfoldable pub variable : String → String → List String
variable name value = if str_eq value "" then [] else append name (append "=" value) ∷ []

-- The environment of the container.
unfoldable pub boot_env : Settings → Spec → List String
unfolding variable
boot_env c s =
    append "DEVICE_NAME=" s.device_name
    ∷ (variable "ENROLL_TOKEN" s.enroll_token
        ++ (variable "NOISE_BACKEND_HOST" c.noise_backend_host
            ++ (variable "NOISE_BACKEND_PORT" c.noise_backend_port
                ++ (variable "BRIDGE_PORT" c.bridge_port
                    ++ (if str_eq c.x_client_id ""
                        then []
                        else append "X_CLIENT_ID=" c.x_client_id
                          ∷ append "X_CLIENT_SECRET=" c.x_client_secret
                          ∷ [])))))

unfoldable pub annotations : Texts → String → Resources → List (String × String)
annotations t size r =
    let vcpus = t.show_uint (machine_for size r).vcpus in
    ("io.katacontainers.config.hypervisor.default_vcpus", vcpus)
    ∷ ("io.katacontainers.config.hypervisor.default_max_vcpus", vcpus)
    ∷ (
      "io.katacontainers.config.hypervisor.default_memory",
      t.show_uint (machine_for size r).memory_mib,
    )
    ∷ []

unfoldable pub config_of : Texts → Settings → Spec → Config
config_of t c s = record {
  id = s.id;
  user_id = s.user_id;
  template = s.template;
  size = s.size;
  annotations = annotations t s.size s.resources;
  env = boot_env c s;
  home = if str_eq s.home_img "" then none else some (append volume_root s.id);
  hostname = t.dashed s.device_name;
  netns = append "/var/run/netns/" s.id;
}

-- The names that an exec'd process may see of the container's environment.
abbrev pub exec_env_allow : List String
exec_env_allow =
    "NOISE_BACKEND_HOST=" ∷ "NOISE_BACKEND_PORT=" ∷ "BRIDGE_PORT=" ∷ "DEVICE_NAME="
    ∷ "AGENT_BROWSER_EXECUTABLE_PATH=" ∷ []

unfoldable pub starts_with_any : List String → String → Bool
starts_with_any [] kv = false
starts_with_any (k ∷ ks) kv = starts_with kv k || starts_with_any ks kv

unfoldable pub allowed_env : List String → List String
unfolding starts_with_any
allowed_env [] = []
allowed_env (kv ∷ kvs) =
    let rest = allowed_env kvs in if starts_with_any exec_env_allow kv then kv ∷ rest else rest

abbrev pub fixed_env : List String
fixed_env = "PATH=/usr/local/sbin:/usr/local/bin:/usr/sbin:/usr/bin:/sbin:/bin" ∷ "HOME=/root" ∷ []

-- The environment of an exec'd process; a spec that cannot be read adds nothing.
unfoldable pub exec_env : Reply (List String) → List String
unfolding allowed_env
exec_env (done env) = fixed_env ++ allowed_env env
exec_env (failed f) = fixed_env

-- Milliseconds during which a container that does not run may still be booting.
abbrev pub cleanup_grace : ℕ
cleanup_grace = 10 * 60 * 1000

module _ (k : Containerd) (t : Texts) (c : Settings) where
  abbrev Do : Type 0 → Type 0
  Do A = M k A

  abbrev pub run : Command → Do (Unit {0})
  run = command k

  -- A call whose failure is ignored.
  abbrev pub quietly : Command → Do (Reply (Unit {0}))
  quietly x = attempt (run x)

  -- unpack: under a lease that is released whatever happens.
  unfoldable pub unpack_image : Do (Unit {0})
  unpack_image = do run open_lease; r ← attempt (run unpack); quietly close_lease; lift r

  -- The unpack that a create starts goes on when the create gives up waiting.
  unfoldable pub unpack_if : Bool → Do (Unit {0})
  unpack_if true = pure tt
  unpack_if false = do job ← attempt unpack_image; run await_unpack; lift job

  unfoldable pub ensure_unpacked : Do (Unit {0})
  ensure_unpacked = do unpacked ← query k k.is_unpacked; unpack_if unpacked

  unfoldable pub detach : Spec → Do (Unit {0})
  detach s = if str_eq s.home_img "" then pure tt else (do quietly (detach_home s.id); pure tt)

  -- The rollback of network and home disk, which every later failure ends with.
  unfoldable pub unwind : Spec → Fault → Do String
  unwind s f = do quietly (teardown_net s.id); detach s; fail f

  unfoldable pub started : Spec → Reply (Unit {0}) → Do String
  started s (done _) = query k (λ h. (done (k.address h s.id), h))
  started s (failed f) = do quietly (delete_task s.id); quietly (delete_container s.id); unwind s f

  unfoldable pub tasked : Spec → Reply (Unit {0}) → Do String
  tasked s (done _) = do r ← attempt (run (start_task s.id)); started s r
  tasked s (failed f) = do quietly (delete_container s.id); unwind s f

  -- A snapshot that was there before is left alone.
  unfoldable pub contained : Spec → Reply (Unit {0}) → Do String
  contained s (done _) = do r ← attempt (run (new_task s.id)); tasked s r
  contained s (failed exists) = unwind s exists
  contained s (failed absent) = do quietly (remove_snapshot s.id); unwind s absent
  contained s (failed broken) = do quietly (remove_snapshot s.id); unwind s broken

  unfoldable pub wired : Spec → Reply (Unit {0}) → Do String
  wired s (done _) = do r ← attempt (run (new_container (config_of t c s))); contained s r
  wired s (failed f) = do detach s; fail f

  unfoldable pub attach : Spec → Do (Unit {0})
  attach s = if str_eq s.home_img "" then pure tt else run (attach_home s.id s.home_img)

  unfoldable pub find_image : Reply (Unit {0}) → Do (Unit {0})
  find_image (done _) = pure tt
  find_image (failed f) = run pull

  -- Create, whose answer is the VM's address.
  unfoldable pub create : Spec → Do String
  create s = do
    image ← attempt (run get_image)
    find_image image
    ensure_unpacked
    attach s
    r ← attempt (run (setup_net s.id))
    wired s r

  unfoldable pub executed : String → Do (String × ℕ)
  executed id = do
    run (wait_process id)
    run (start_process id)
    query k (λ h. let (r, h') = k.output id h in (done r, h'))

  -- The process is deleted on every path once it is there.
  unfoldable pub processed : String → Reply (Unit {0}) → Do (String × ℕ)
  processed id (failed f) = fail f
  processed id (done _) = do r ← attempt (executed id); quietly (delete_process id); lift r

  unfoldable pub exec_args : String → List String → Do (String × ℕ)
  exec_args id [] = fail broken
  exec_args id (arg ∷ args) = do
    env ← attempt (query k (k.spec_env id))
    r ← attempt (run (exec_process id (arg ∷ args) (exec_env env)))
    processed id r

  unfoldable pub exec : String → List String → Do (String × ℕ)
  exec id argv = do run (load_container id); run (load_task id); exec_args id argv

  -- IsLive: a failed question is no answer.
  unfoldable pub live_status : Reply Bool → Do Liveness
  live_status (done true) = pure live_yes
  live_status (done false) = pure live_no
  live_status (failed f) = pure live_unknown

  unfoldable pub live_task : String → Reply (Unit {0}) → Do Liveness
  live_task id (done _) = do st ← attempt (query k (k.status id)); live_status st
  live_task id (failed absent) = pure live_no
  live_task id (failed exists) = pure live_unknown
  live_task id (failed broken) = pure live_unknown

  unfoldable pub live_container : String → Reply (Unit {0}) → Do Liveness
  live_container id (done _) = do r ← attempt (run (load_task id)); live_task id r
  live_container id (failed absent) = pure live_no
  live_container id (failed exists) = pure live_unknown
  live_container id (failed broken) = pure live_unknown

  unfoldable pub is_live : String → Do Liveness
  is_live id = do r ← attempt (run (load_container id)); live_container id r

  unfoldable pub end_task : String → Reply (Unit {0}) → Do (Unit {0})
  end_task id (failed f) = pure tt
  end_task id (done _) = do quietly (kill_task id); quietly (delete_task id); pure tt

  -- The container's part of Delete; a container that is gone is no failure, and one that cannot be
  -- looked up is.
  unfoldable pub end_container : String → Reply (Unit {0}) → Do (Unit {0})
  end_container id (done _) = do
    r ← attempt (run (load_task id))
    end_task id r
    run (delete_container id)
  end_container id (failed absent) = pure tt
  end_container id (failed exists) = fail exists
  end_container id (failed broken) = fail broken

  -- The host's part of Delete.
  unfoldable pub sweep : String → Reply (Unit {0}) → Do (Unit {0})
  sweep id e = do
    quietly (kill_firecracker id)
    quietly (teardown_net id)
    quietly (detach_home id)
    quietly (remove_log id)
    lift e

  -- Delete: the host is cleaned whatever became of the container.
  unfoldable pub delete : String → Do (Unit {0})
  delete id = do r ← attempt (run (load_container id)); e ← attempt (end_container id r); sweep id e

  -- One container of RunningCount; a task that is gone does not count.
  unfoldable pub count_status : Bool → Do ℕ
  count_status running = pure (if running then 1 else 0)

  unfoldable pub count_task : String → Reply (Unit {0}) → Do ℕ
  count_task id (done _) = do st ← query k (k.status id); count_status st
  count_task id (failed absent) = pure 0
  count_task id (failed exists) = fail exists
  count_task id (failed broken) = fail broken

  unfoldable pub count_all : List String → Do ℕ
  count_all [] = pure 0
  count_all (id ∷ ids) = do
    r ← attempt (run (load_task id))
    n ← count_task id r
    rest ← count_all ids
    pure (n + rest)

  unfoldable pub running_count : Do ℕ
  running_count = do ids ← query k k.containers; count_all ids

  -- The end of one round of CleanupStopped: 1 for a container that was deleted.
  unfoldable pub reaped : Reply (Unit {0}) → Do ℕ
  reaped (done _) = pure 1
  reaped (failed absent) = pure 1
  reaped (failed exists) = fail exists
  reaped (failed broken) = fail broken

  unfoldable pub reap : String → Do ℕ
  reap id = do r ← attempt (delete id); reaped r

  unfoldable pub reap_stopped : String → Bool → Do ℕ
  reap_stopped id running = if running then pure 0 else reap id

  unfoldable pub reap_task : String → Reply (Unit {0}) → Do ℕ
  reap_task id (done _) = do st ← query k (k.status id); reap_stopped id st
  reap_task id (failed absent) = reap id
  reap_task id (failed exists) = fail exists
  reap_task id (failed broken) = fail broken

  unfoldable pub reap_old : String → Reply ℕ → Do ℕ
  reap_old id (done age) =
      if ltb age cleanup_grace
      then pure 0
      else (do r ← attempt (run (load_task id)); reap_task id r)
  reap_old id (failed absent) = pure 0
  reap_old id (failed exists) = fail exists
  reap_old id (failed broken) = fail broken

  unfoldable pub reap_all : List String → Do ℕ
  reap_all [] = pure 0
  reap_all (id ∷ ids) = do
    age ← attempt (query k (k.age id))
    n ← reap_old id age
    rest ← reap_all ids
    pure (n + rest)

  unfoldable pub cleanup_stopped : Do ℕ
  cleanup_stopped = do ids ← query k k.containers; reap_all ids

  unfoldable pub guest_log_tail : String → ℕ → Do String
  guest_log_tail id n = query k (λ h. let (text, h') = k.read_log id n h in (done text, h'))
