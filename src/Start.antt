-- ===== src/Start.antt =====
-- cmd/sandbox-manager/main.go: what the program opens before it serves, and what it serves with.
use sandbox_manager.Prelude.{
  ℕ, ◌≡◌, ap, sym, subst, String, List, Option, none, some, Bool, All, if◌then◌else◌, Result, ok,
  err, failure,
}
use sandbox_manager.Host.{raise_file_limit}
use sandbox_manager.Config.Environment.{Env, getenv, load_dot_env}
use sandbox_manager.Config.Ssh.{Parsers}
use sandbox_manager.Config.Load.{Config, load, ssh_enabled, then_check}
use sandbox_manager.Config.Checked.{IsValid, load-IsValid, then_check-ok, ok-ok}
use sandbox_manager.Backend.{Client, new_client}
use sandbox_manager.Relay.{Relay, new}

-- store.New, Ping and vm.NewManager, and what the system says of the file limit.
pub record Parts : Type 1 where
  pub Inventory : Type 0
  pub Machines : Type 0
  pub open_store : String → Result Inventory
  pub ping : Inventory → Result (Unit {0})
  pub new_manager : Config → Result Machines
  pub can_set_limit : Bool
  pub soft_limit : ℕ
  pub hard_limit : ℕ

-- sshrelay.New, if the relay is configured.
unfoldable pub relay_for : Config → Option Relay
unfolding ssh_enabled new
relay_for c =
    if ssh_enabled c then some (new c.ssh.public_host c.ssh.port_start c.ssh.port_end) else none

module _ (p : Parts) where
  -- What the service and the server are made of.
  pub record Wiring : Type 0 where
    pub config : Config
    pub inventory : p.Inventory
    pub machines : p.Machines
    pub homes_root : String
    pub backend : Client
    pub relay : Option Relay

  unfoldable pub wiring : Config → p.Inventory → p.Machines → Wiring
  unfolding relay_for new_client
  wiring c st mgr = record {
    config = c;
    inventory = st;
    machines = mgr;
    homes_root = c.user_homes_dir;
    backend = new_client c.backend_url c.backend_api_key;
    relay = relay_for c;
  }

  unfoldable pub opened_all : Config → Result Wiring
  unfolding wiring
  opened_all c =
      then_check (p.open_store c.dragonfly_url)
        λ st. then_check (p.ping st) λ _. then_check (p.new_manager c) λ mgr. ok (wiring c st mgr)

  unfoldable pub limited : Option ℕ → Result (Unit {0})
  limited none = err (failure "file limit")
  limited (some n) = ok tt

  -- main, up to the start of the loops: an error is a log.Fatal.
  unfoldable pub start :
      Parsers
      → (List (String × String) → List (String × String))
      → (String → Option (List String))
      → Env
      → Result Wiring
  unfolding limited raise_file_limit load opened_all
  start parsers range lines_of vars =
      then_check (limited (raise_file_limit p.can_set_limit p.soft_limit p.hard_limit))
        λ _. then_check (load parsers range lines_of vars) opened_all

  opened_all-config : (c : Config) (w : Wiring) → opened_all c ≡ ok w → w.config ≡ c
  unfolding opened_all wiring
  opened_all-config c w e =
      let (st, _, e1) = then_check-ok (p.open_store c.dragonfly_url) _ w e in
      let (_, _, e2) = then_check-ok (p.ping st) _ w e1 in
      let (mgr, _, e3) = then_check-ok (p.new_manager c) _ w e2 in
      ap (λ (x : Wiring). x.config) (sym (ok-ok (wiring c st mgr) w e3))

  -- A program that gets as far as serving has a valid configuration.
  start-IsValid :
      (parsers : Parsers) (range : List (String × String) → List (String × String))
      (lines_of : String → Option (List String)) (vars : Env) (w : Wiring)
      → ((P : String × String → Type 0) (xs : List (String × String)) → All P (range xs) → All P xs)
      → start parsers range lines_of vars ≡ ok w
      → IsValid parsers (getenv (load_dot_env lines_of vars) "NODE_ENV") w.config
  unfolding start
  start-IsValid parsers range lines_of vars w visits e =
      let limit = limited (raise_file_limit p.can_set_limit p.soft_limit p.hard_limit) in
      let (_, _, e1) = then_check-ok limit _ w e in
      let (c, e2, e3) = then_check-ok (load parsers range lines_of vars) opened_all w e1 in
      subst (λ x. IsValid parsers (getenv (load_dot_env lines_of vars) "NODE_ENV") x)
        (sym (opened_all-config c w e3)) (load-IsValid parsers range lines_of vars c visits e2)
