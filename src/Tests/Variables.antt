-- ===== src/Tests/Variables.antt =====
-- An environment, its file, and parsers that know the texts in them.
use sandbox_manager.Prelude.{
  ◌≡◌, refl, String, false, List, [], ◌∷◌, Option, none, some, str_eq, if◌then◌else◌, ok,
}
use sandbox_manager.Text.{trim}
use sandbox_manager.Config.Environment.{
  ℤ, pos, Env, getenv, load_dot_env, load_dot_env_first, env_file, first_value, or_else,
}
use sandbox_manager.Config.Ssh.{Url, Parsers, trim_slashes}
use sandbox_manager.Config.Load.{Config, load}
use sandbox_manager.Config.Checked.{IsValid, load-IsValid}

abbrev lookup : List (String × String) → Env
lookup [] k = none
lookup ((n, v) ∷ rest) k = if str_eq n k then some v else lookup rest k

abbrev numbers : String → Option ℤ
numbers s =
    if str_eq s "48"
    then some (pos 48)
    else if str_eq s "24576"
    then some (pos 24576)
    else if str_eq s "2048"
    then some (pos 2048)
    else if str_eq s "20000"
    then some (pos 20000)
    else if str_eq s "20009"
    then some (pos 20009)
    else none

abbrev auth_url : Url
auth_url = record {
  scheme = "https";
  host = "todofor.ai";
  hostname = "todofor.ai";
  path = "/api/cloud-ssh/authorized-key";
  has_user = false;
  raw_query = "";
  force_query = false;
  fragment = "";
}

abbrev parsers : Parsers
parsers = record {
  sscan = numbers;
  parse_url = λ s.
      if str_eq s "https://todofor.ai/api/cloud-ssh/authorized-key" then some auth_url else none;
  parse_ip = λ s. none;
}

abbrev launched : Env
launched = lookup (
    ("NODE_ENV", "production")
    ∷ ("SSH_PUBLIC_HOST", "ssh.todofor.ai")
    ∷ ("BACKEND_URL", "https://todofor.ai/")
    ∷ [])

abbrev file : List String
file =
    "# production" ∷ "" ∷ "DRAGONFLY_URL = redis://localhost:6379"
    ∷ "BACKEND_URL=https://elsewhere.example" ∷ "BACKEND_ADMIN_API_KEY=k=1" ∷ "SSH_PORT_START=20000"
    ∷ "SSH_PORT_END=20009" ∷ []

abbrev files : String → Option (List String)
files name = if str_eq name ".env" then some file else none

file_found : files (env_file launched) ≡ some file
unfolding env_file
file_found = refl

load_dot_env_first_example :
    load_dot_env files launched "BACKEND_URL"
    ≡ or_else (launched "BACKEND_URL") (first_value file "BACKEND_URL")
load_dot_env_first_example = load_dot_env_first files launched file "BACKEND_URL" file_found

abbrev same_order : List (String × String) → List (String × String)
same_order xs = xs

abbrev ready : Config
ready = record {
  bind_addr = "0.0.0.0:8200";
  dragonfly_url = "redis://localhost:6379";
  backend_url = "https://todofor.ai/";
  backend_api_key = "k=1";
  noise_backend_host = "";
  noise_backend_port = "";
  bridge_port = "";
  x_client_id = "";
  x_client_secret = "";
  containerd_sock = "/run/containerd/containerd.sock";
  namespace = "sandbox";
  runtime = "io.containerd.kata-fc.v2";
  runtime_config = "/opt/kata/share/defaults/kata-containers/configuration-fc.toml";
  kata_runtime_bin = "/opt/kata/bin/kata-runtime";
  snapshotter = "devmapper";
  rootfs_image = "docker.io/todoforai/sandbox-rootfs:latest";
  cni_bin_dir = "/opt/cni/bin";
  cni_conf_dir = "/etc/cni/net.d";
  user_homes_dir = "/data/user-homes";
  max_vms = 48;
  host_memory_reserve_mib = 24576;
  vm_memory_mib = 2048;
  ssh = record {
    public_host = "ssh.todofor.ai";
    port_start = 20000;
    port_end = 20009;
    auth_url = "https://todofor.ai/api/cloud-ssh/authorized-key";
  };
}

loaded : load parsers same_order files launched ≡ ok ready
unfolding load trim trim_slashes
loaded = refl

load-IsValid_example : IsValid parsers (getenv (load_dot_env files launched) "NODE_ENV") ready
load-IsValid_example = load-IsValid parsers same_order files launched ready (λ P xs all. all) loaded
