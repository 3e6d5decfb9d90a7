-- ===== src/Tests/Endpoints.antt =====
-- A PrepareSSH that runs to its end.
use sandbox_manager.Prelude.{
  ◌≡◌, refl, true, false, String, [], Option, none, some, ok, pure, raise, attempt, ◌>>=◌,
}
use sandbox_manager.Sandbox.{Sandbox, running, is_admin, Identity}
use sandbox_manager.Redis.{TextKey, record_key, roundtrip, delivered}
use sandbox_manager.Store.{fetch, parse_record, backfill, ssh_port, parse_number, set_ssh_port}
use sandbox_manager.Relay.{
  new, ensure, ensure_target, open_listener, candidates, first_free, target_for,
}
use sandbox_manager.Relay
use sandbox_manager.Service.World.{Platform, World, on_store, on_vms}
use sandbox_manager.Service.Reconcile.{
  ensure_on, ssh_ensure, close_unless, close_ssh_unless_running, has_relay,
}
use sandbox_manager.Service.Ssh.{
  SshEndpoint, reachable, guest_key, opened, noted, remember, endpoint, listen, prepare_reachable,
  prepare_ssh, is_host_key, last_line, is_key, is_after, is_key_char, after_newline, has_newline,
}
use sandbox_manager.Text.{trim, trim_left, trim_right, is_white}
use sandbox_manager.Service.Endpoint.{Reachable, prepare_ssh-Reachable}
use sandbox_manager.Tests.Machines.{platform_with, machines, no_resources}
use sandbox_manager.Tests.Memory.{unary}

-- What the guest prints: its host key, after a line of its own.
abbrev printed : String
printed =
    "starting sshd\nssh-ed25519 AAAAAAAAAAAAAAAAAAAAAAAAAAAAAAAAAAAAAAAAAAAAAAAAAAAAAAAAAAAAAAAAAAAA\n"

abbrev site : Platform
site = record (platform_with (λ n. delivered)) {
  manager = record machines {
    exec = λ id argv v. (ok (printed, 0), v);
    exec_starts = λ i argv v id u e. e;
  };
}

abbrev attached : Sandbox
attached = record {
  id = "vm";
  user_id = "alice";
  template = "base";
  size = "small";
  kind = "vm";
  state = running;
  ip_address = "10.0.0.2";
  cost_per_min = 0;
  resources = no_resources;
  disk_mib = 0;
  error_text = "";
  device_id = "device";
  created_at = 0;
  last_activity = 0;
  ssh_connections = 0;
}

abbrev stored : TextKey → Option String
stored (record_key id) = some (unary.encode attached)
stored _ = none

abbrev before : World site
before = record {
  link = record { db = record { texts = stored; sets = λ k. []; events = [] }; calls = 0 };
  vms = λ id. none;
  homes = tt;
  relay = some (new "host" 2200 2210);
  gate = record { pending_creates = 0; pending_mib = 0 };
  capacity_rejected = 0;
}

abbrev backend : Identity
backend = record { user_id = ""; role = "admin"; is_anonymous = false; scope_user_id = "" }

abbrev answer : SshEndpoint
answer = record {
  host = "host";
  port = 2200;
  host_key = "ssh-ed25519 AAAAAAAAAAAAAAAAAAAAAAAAAAAAAAAAAAAAAAAAAAAAAAAAAAAAAAAAAAAAAAAAAAAA";
  user = "root";
  cloud_device_id = "device";
}

prepared : (prepare_ssh site backend "vm" before).0 ≡ ok answer
unfolding prepare_ssh prepare_reachable reachable guest_key opened noted remember endpoint listen
    is_host_key last_line is_key is_after is_key_char trim trim_left trim_right is_white
    after_newline has_newline ensure_on ssh_ensure close_unless close_ssh_unless_running has_relay
    on_store on_vms fetch parse_record backfill ssh_port parse_number set_ssh_port roundtrip new
    ensure ensure_target open_listener candidates first_free target_for pure raise attempt ◌>>=◌
    Relay.find Relay.is_used Relay.ports_from Relay.join_host_port Relay.has_colon Relay.is_inside
prepared = refl

prepare_ssh-Reachable_example :
    (is_admin backend ≡ true) × Reachable site "vm" (prepare_ssh site backend "vm" before).1 answer
prepare_ssh-Reachable_example = prepare_ssh-Reachable site backend "vm" before answer prepared
