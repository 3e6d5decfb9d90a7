-- ===== src/Config/Load.antt =====
-- `Load` of internal/config/config.go.
use Prim.Native.String.{◌++◌ as append}
use sandbox_manager.Prelude.{
  ℕ, String, Bool, not, ◌&&◌, List, [], ◌∷◌, Option, str_eq, if◌then◌else◌, Result, ok, err,
  failure,
}
use sandbox_manager.Config.Environment.{Env, getenv, env, env_int, load_dot_env}
use sandbox_manager.Config.Ssh.{Parsers, Ssh, load_ssh}

pub record Config : Type 0 where
  pub bind_addr : String
  pub dragonfly_url : String
  pub backend_url : String
  pub backend_api_key : String
  pub noise_backend_host : String
  pub noise_backend_port : String
  pub bridge_port : String
  pub x_client_id : String
  pub x_client_secret : String
  pub containerd_sock : String
  pub namespace : String
  pub runtime : String
  pub runtime_config : String
  pub kata_runtime_bin : String
  pub snapshotter : String
  pub rootfs_image : String
  pub cni_bin_dir : String
  pub cni_conf_dir : String
  pub user_homes_dir : String
  pub max_vms : ℕ
  pub host_memory_reserve_mib : ℕ
  pub vm_memory_mib : ℕ
  pub ssh : Ssh

-- SSHEnabled
unfoldable pub ssh_enabled : Config → Bool
ssh_enabled c = not (str_eq c.ssh.public_host "")

-- The loop over the variables that are required.
unfoldable pub required : List (String × String) → Result (Unit {0})
required [] = ok tt
required ((k, v) ∷ rest) =
    if str_eq v "" then err (failure (append k " is required")) else required rest

-- The literal that the variables go into.
unfoldable pub config_from : Env → ℕ → ℕ → ℕ → Ssh → Config
unfolding getenv env
config_from vars max_vms reserve_mib vm_memory_mib ssh = record {
  bind_addr = env vars "BIND_ADDR" "0.0.0.0:8200";
  dragonfly_url = getenv vars "DRAGONFLY_URL";
  backend_url = getenv vars "BACKEND_URL";
  backend_api_key = getenv vars "BACKEND_ADMIN_API_KEY";
  noise_backend_host = getenv vars "NOISE_BACKEND_HOST";
  noise_backend_port = getenv vars "NOISE_BACKEND_PORT";
  bridge_port = getenv vars "BRIDGE_PORT";
  x_client_id = getenv vars "X_CLIENT_ID";
  x_client_secret = getenv vars "X_CLIENT_SECRET";
  containerd_sock = env vars "CONTAINERD_SOCK" "/run/containerd/containerd.sock";
  namespace = env vars "CONTAINERD_NAMESPACE" "sandbox";
  runtime = env vars "SANDBOX_RUNTIME" "io.containerd.kata-fc.v2";
  runtime_config =
      env vars "SANDBOX_RUNTIME_CONFIG"
        "/opt/kata/share/defaults/kata-containers/configuration-fc.toml";
  kata_runtime_bin = env vars "KATA_RUNTIME_BIN" "/opt/kata/bin/kata-runtime";
  snapshotter = env vars "SANDBOX_SNAPSHOTTER" "devmapper";
  rootfs_image = env vars "SANDBOX_ROOTFS_IMAGE" "docker.io/todoforai/sandbox-rootfs:latest";
  cni_bin_dir = env vars "CNI_BIN_DIR" "/opt/cni/bin";
  cni_conf_dir = env vars "CNI_CONF_DIR" "/etc/cni/net.d";
  user_homes_dir = env vars "USER_HOMES_DIR" "/data/user-homes";
  max_vms = max_vms;
  host_memory_reserve_mib = reserve_mib;
  vm_memory_mib = vm_memory_mib;
  ssh = ssh;
}

abbrev pub required_of : Env → List (String × String)
required_of vars =
    ("DRAGONFLY_URL", getenv vars "DRAGONFLY_URL")
    ∷ ("BACKEND_URL", getenv vars "BACKEND_URL")
    ∷ ("BACKEND_ADMIN_API_KEY", getenv vars "BACKEND_ADMIN_API_KEY")
    ∷ []

abbrev pub then_check : {A B : Type 0} → Result A → (A → Result B) → Result B
then_check (ok a) f = f a
then_check (err e) f = err e

-- The last test of Load.
unfoldable pub enrolled : Env → Config → Result Config
unfolding getenv
enrolled vars c =
    if not (str_eq (getenv vars "NODE_ENV") "production") && str_eq c.noise_backend_host ""
    then err (failure "NOISE_BACKEND_HOST is required in dev")
    else ok c

-- Load, once the file is loaded, over the order in which Go runs through a map.
unfoldable pub configured :
    Parsers → (List (String × String) → List (String × String)) → Env → Result Config
unfolding required config_from enrolled load_ssh env_int
configured p range vars = then_check (env_int p.sscan vars "SANDBOX_MAX_VMS" "48") λ max_vms.
    then_check (env_int p.sscan vars "SANDBOX_HOST_MEMORY_RESERVE_MIB" "24576") λ reserve_mib.
      then_check (env_int p.sscan vars "SANDBOX_VM_MEMORY_MIB" "2048") λ vm_memory_mib.
        then_check (required (range (required_of vars))) λ _.
          then_check (load_ssh p vars (getenv vars "BACKEND_URL"))
            λ ssh. enrolled vars (config_from vars max_vms reserve_mib vm_memory_mib ssh)

-- Load
unfoldable pub load :
    Parsers
    → (List (String × String) → List (String × String))
    → (String → Option (List String))
    → Env
    → Result Config
unfolding load_dot_env configured
load p range lines_of vars = configured p range (load_dot_env lines_of vars)
