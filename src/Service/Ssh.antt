-- ===== src/Service/Ssh.antt =====
-- PrepareSSH of internal/service/service.go.
use Prim.Native.Char.{code}
use sandbox_manager.Prelude.{
  ℕ, zero, suc, String, Bool, true, false, not, ◌&&◌, ◌||◌, [], ◌∷◌, Option, none, some, str_eq,
  leb, ◌==◌, if◌then◌else◌, Result, ok, err, because, failure, pure, raise, attempt, ◌>>=◌, ◌>>◌,
}
use sandbox_manager.Sandbox.{Sandbox, Identity, is_admin, is_state, running}
use sandbox_manager.Text.{trim}
use sandbox_manager.Store
use sandbox_manager.Relay.{Relay}
use sandbox_manager.Service.World.{
  Platform, Do, on_store, on_vms, err_not_found, err_forbidden, err_ssh,
}
use sandbox_manager.Service.Teardown.{relay_close}
use sandbox_manager.Service.Reconcile.{ssh_ensure, close_ssh_unless_running, has_relay}

unfoldable pub has_newline : String → Bool
has_newline String.[] = false
has_newline (String.◌∷◌ c s) = code c == 10 || has_newline s

-- The last of strings.Split(text, "\n").
unfoldable pub after_newline : String → String
unfolding has_newline
after_newline String.[] = ""
after_newline (String.◌∷◌ c s) =
    let rest = after_newline s in
    if has_newline s then rest else if code c == 10 then s else String.◌∷◌ c s

unfoldable pub last_line : String → String
unfolding trim after_newline
last_line s = trim (after_newline (trim s))

-- [A-Za-z0-9+/]
unfoldable pub is_key_char : ℕ → Bool
is_key_char c =
    (leb 65 c && leb c 90)
    || (leb 97 c && leb c 122)
    || (leb 48 c && leb c 57)
    || c == 43
    || c == 47

-- Exactly `n` of them.
unfoldable pub is_key : ℕ → String → Bool
unfolding is_key_char
is_key zero String.[] = true
is_key zero (String.◌∷◌ c s) = false
is_key (suc n) String.[] = false
is_key (suc n) (String.◌∷◌ c s) = is_key_char (code c) && is_key n s

-- The prefix, and then a text that passes the test.
unfoldable pub is_after : String → (String → Bool) → String → Bool
is_after String.[] test s = test s
is_after (String.◌∷◌ c cs) test String.[] = false
is_after (String.◌∷◌ c cs) test (String.◌∷◌ d s) = code c == code d && is_after cs test s

-- hostKeyRe
unfoldable pub is_host_key : String → Bool
unfolding is_key is_after
is_host_key s = is_after "ssh-ed25519 " (is_key 68) s

pub record SshEndpoint : Type 0 where
  pub host : String
  pub port : ℕ
  pub host_key : String
  pub user : String
  pub cloud_device_id : String

abbrev pub host_of : Option Relay → String
host_of none = ""
host_of (some r) = r.host

abbrev pub port_or_zero : Result ℕ → ℕ
port_or_zero (ok n) = n
port_or_zero (err e) = 0

module _ (p : Platform) where
  open p use {server, manager, ssh_auth_url}

  -- A sandbox that can be reached: running, with an address and an attached device.
  unfoldable pub reachable : Option Sandbox → Do p Sandbox
  reachable none =
      raise (because err_not_found (failure "sandbox not running with an attached device"))
  reachable (some sb) =
      if not (is_state sb.state running) || (str_eq sb.ip_address "" || str_eq sb.device_id "")
      then raise (because err_not_found (failure "sandbox not running with an attached device"))
      else pure sb

  -- The guest's setup, and the host key that it printed.
  unfoldable pub guest_key : Result (String × ℕ) → Do p String
  guest_key (err e) = raise (because err_ssh (failure "guest sshd not ready"))
  guest_key (ok (out, exit_code)) =
      if not (exit_code == 0)
      then raise (because err_ssh (failure "guest sshd not ready"))
      else if not (is_host_key (last_line out))
      then raise (because err_ssh (failure "bad guest host key"))
      else pure (last_line out)

  unfoldable pub opened : Result ℕ → Do p ℕ
  opened (err e) = raise (because err_ssh e)
  opened (ok port) = pure port

  -- A port that could not be recorded is given up.
  unfoldable pub noted : String → Result (Unit {0}) → Do p (Unit {0})
  noted id (ok done) = pure tt
  noted id (err e) =
      relay_close p id >> raise (because err_ssh (because (failure "remember port") e))

  unfoldable pub remember : String → ℕ → ℕ → Do p (Unit {0})
  remember id port preferred =
      if port == preferred
      then pure tt
      else (attempt (on_store p (Store.set_ssh_port server id port)) >>= noted id)

  unfoldable pub endpoint : Sandbox → String → ℕ → Bool → Do p SshEndpoint
  endpoint sb key port false w = (err (because err_not_found (failure "sandbox stopped")), w)
  endpoint sb key port true w = (
    ok (record {
      host = host_of w.relay;
      port = port;
      host_key = key;
      user = "root";
      cloud_device_id = sb.device_id;
    }),
    w,
  )

  unfoldable pub listen : String → Sandbox → String → Do p SshEndpoint
  listen id sb key = do
    preferred ← attempt (on_store p (Store.ssh_port server id))
    got ← attempt (ssh_ensure p id sb.ip_address (port_or_zero preferred))
    port ← opened got
    remember id port (port_or_zero preferred)
    still ← close_ssh_unless_running p id
    endpoint sb key port still

  unfoldable pub prepare_reachable : String → Do p SshEndpoint
  prepare_reachable id = do
    found ← on_store p (Store.fetch server id)
    sb ← reachable found
    ran ←
        attempt (on_vms p (manager.exec id ("/usr/local/sbin/cloud-ssh-setup" ∷ ssh_auth_url ∷ [])))
    key ← guest_key ran
    listen id sb key

  -- PrepareSSH
  unfoldable pub prepare_ssh : Identity → String → Do p SshEndpoint
  prepare_ssh caller id w =
      (if not (is_admin caller)
          then raise err_forbidden
          else if not (has_relay p w.relay)
          then raise (because err_not_found (failure "SSH relay not configured"))
          else prepare_reachable id)
        w
