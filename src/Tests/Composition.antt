-- ===== src/Tests/Composition.antt =====
-- The VM manager on a containerd, alone and under the service, and the relay's connections.
use sandbox_manager.Prelude.{
  ◌≡◌, refl, String, Bool, true, false, List, [], ◌∷◌, none, some, ◌⊎◌, ok,
}
use sandbox_manager.Relay.Sessions.{
  Event, accepts, dials, closes, finishes, react_all, react, new_listener, IsSafe, AllSound,
  react_all-IsSafe, closed_cut-AllSound,
}
use sandbox_manager.Vm.{Spec}
use sandbox_manager.Vm.Manager.{Settings, Texts}
use sandbox_manager.Vm.Manager
use sandbox_manager.Vm.Node.{Node, answer}
use sandbox_manager.Vm.Node
use sandbox_manager.Vm.Lifecycle.{create_starts_one}
use sandbox_manager.Tests.Hosts.{host_with, host_with-Cleans, running_on}
use sandbox_manager.Tests.Machines.{no_resources}

abbrev pub settings : Settings
settings = record {
  noise_backend_host = "backend";
  noise_backend_port = "";
  bridge_port = "";
  x_client_id = "";
  x_client_secret = "";
}

abbrev pub texts : Texts
texts = record { dashed = λ s. s; show_uint = λ n. "1" }

abbrev spec : Spec
spec = record {
  id = "vm";
  user_id = "alice";
  template = "base";
  size = "small";
  resources = no_resources;
  enroll_token = "token";
  home_img = "home.img";
  device_name = "device";
}

abbrev pub idle : (good : Bool) → Node (host_with good)
idle good = record {
  host = record { owners = λ id. none; up = λ id. false; vmms = λ id. false };
  log = [];
}

create_runs :
    running_on (Manager.create (host_with true) texts settings spec (idle true)).1.host "vm"
    ≡ some "alice"
unfolding Manager.create Manager.find_image Manager.ensure_unpacked Manager.unpack_if Manager.attach
    Manager.wired Manager.contained Manager.tasked Manager.started Manager.unwind Manager.detach
    Manager.config_of Node.command Node.query Node.attempt Node.pure Node.fail Node.lift Node.◌>>=◌
create_runs = refl

create_starts_one_example :
    (running_on (idle true).host "vm" ≡ some "alice")
    ⊎ (("vm" ≡ spec.id)
        × ("alice" ≡ spec.user_id)
        × (ip : String) × (answer
              (Manager.create (host_with true) texts settings spec (idle true)).0
            ≡ ok ip))
create_starts_one_example =
    create_starts_one (host_with true) texts settings (host_with-Cleans true) spec (idle true) "vm"
      "alice" create_runs

abbrev up : Node (host_with true)
up = (Manager.create (host_with true) texts settings spec (idle true)).1

-- A close during the dial of the first connection.
abbrev race : List Event
race = accepts 0 ∷ accepts 1 ∷ closes ∷ dials 0 true ∷ finishes 1 ∷ []

react_all-IsSafe_example : IsSafe (react_all race new_listener)
react_all-IsSafe_example = react_all-IsSafe race

closed_cut-AllSound_example :
    AllSound true
      (react_all (dials 0 true ∷ []) (react closes (react_all (accepts 0 ∷ []) new_listener))).conns
closed_cut-AllSound_example = closed_cut-AllSound (accepts 0 ∷ []) (dials 0 true ∷ [])
