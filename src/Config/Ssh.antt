-- ===== src/Config/Ssh.antt =====
-- `loadSSH` and `validateSSHAuthURL` of internal/config/config.go.
use Prim.Native.Char.{code}
use Prim.Native.String.{◌++◌ as append}
use sandbox_manager.Prelude.{
  ℕ, ◌+◌, String, Bool, true, false, not, ◌&&◌, ◌||◌, Option, none, some, str_eq, leb, ltb, ◌==◌,
  if◌then◌else◌, Result, ok, err, failure,
}
use sandbox_manager.Config.Environment.{Env, getenv, ℤ, env, env_int}

-- What is read of a net/url.URL, and of a net.IP.
pub record Url : Type 0 where
  pub scheme : String
  pub host : String
  pub hostname : String
  pub path : String
  pub has_user : Bool
  pub raw_query : String
  pub force_query : Bool
  pub fragment : String

pub record Ip : Type 0 where
  pub is_loopback : Bool
  pub is_private : Bool

-- The parsers of the standard library: fmt.Sscan into an int, url.Parse and net.ParseIP.
pub record Parsers : Type 0 where
  pub sscan : String → Option ℤ
  pub parse_url : String → Option Url
  pub parse_ip : String → Option Ip

unfoldable pub is_alnum : ℕ → Bool
is_alnum c = (leb 97 c && leb c 122) || (leb 65 c && leb c 90) || (leb 48 c && leb c 57)

-- What follows a letter or digit: letters, digits, dots and dashes, the last of them a letter or digit.
unfoldable pub is_host_rest : Bool → String → Bool
unfolding is_alnum
is_host_rest last String.[] = last
is_host_rest last (String.◌∷◌ c s) =
    (is_alnum (code c) || code c == 46 || code c == 45) && is_host_rest (is_alnum (code c)) s

-- hostRe
unfoldable pub is_host_name : String → Bool
unfolding is_alnum is_host_rest
is_host_name String.[] = false
is_host_name (String.◌∷◌ c s) = is_alnum (code c) && is_host_rest true s

-- len, of a text that matches hostRe, which is ASCII.
unfoldable pub host_length : String → ℕ
host_length String.[] = 0
host_length (String.◌∷◌ c s) = 1 + host_length s

-- strings.TrimRight(s, "/")
unfoldable pub trim_slashes : String → String
trim_slashes String.[] = ""
trim_slashes (String.◌∷◌ c s) =
    let rest = trim_slashes s in if code c == 47 && str_eq rest "" then "" else String.◌∷◌ c rest

abbrev pub ssh_auth_path : String
ssh_auth_path = "/api/cloud-ssh/authorized-key"

unfoldable pub is_plain : Url → Bool
is_plain u = not (
    str_eq u.host ""
    || u.has_user
    || not (str_eq u.raw_query "")
    || u.force_query
    || not (str_eq u.fragment "")
    || not (str_eq u.path ssh_auth_path))

unfoldable pub is_near : Option Ip → Bool
is_near none = false
is_near (some ip) = ip.is_loopback || ip.is_private

unfoldable pub is_local : Parsers → Url → Bool
unfolding is_near
is_local p u = str_eq u.hostname "localhost" || is_near (p.parse_ip u.hostname)

unfoldable pub is_dev : String → Bool
is_dev node_env = str_eq node_env "development" || str_eq node_env "test"

-- The schemes that are taken.
unfoldable pub is_safe : Parsers → Url → String → Bool
unfolding is_local is_dev
is_safe p u node_env =
    str_eq u.scheme "https" || (str_eq u.scheme "http" && is_dev node_env && is_local p u)

-- validateSSHAuthURL, once the URL is parsed.
unfoldable pub check_url : Parsers → Option Url → String → Result (Unit {0})
unfolding is_plain is_safe
check_url p none node_env =
    err (failure "SSH_AUTH_URL must be <scheme>://<host> with no credentials, query or fragment")
check_url p (some u) node_env =
    if is_plain u
    then (if is_safe p u node_env then ok tt else err (failure "SSH_AUTH_URL must be https"))
    else err
        (failure "SSH_AUTH_URL must be <scheme>://<host> with no credentials, query or fragment")

unfoldable pub validate_ssh_auth_url : Parsers → String → String → Result (Unit {0})
unfolding check_url
validate_ssh_auth_url p raw node_env = check_url p (p.parse_url raw) node_env

-- The fields of Config that loadSSH fills in.
pub record Ssh : Type 0 where
  pub public_host : String
  pub port_start : ℕ
  pub port_end : ℕ
  pub auth_url : String

unfoldable pub authorized : Ssh → Result (Unit {0}) → Result Ssh
authorized c (err e) = err e
authorized c (ok done) = ok c

unfoldable pub ranged : Parsers → Env → String → String → ℕ → ℕ → Result Ssh
unfolding env getenv authorized validate_ssh_auth_url
ranged p vars host backend_url start end =
    if ltb 65535 end || ltb end start
    then err (failure "invalid SSH port range")
    else let url = env vars "SSH_AUTH_URL" (append (trim_slashes backend_url) ssh_auth_path) in
      authorized (record { public_host = host; port_start = start; port_end = end; auth_url = url })
        (validate_ssh_auth_url p url (getenv vars "NODE_ENV"))

unfoldable pub ended : Parsers → Env → String → String → ℕ → Result ℕ → Result Ssh
unfolding ranged
ended p vars host backend_url start (err e) = err e
ended p vars host backend_url start (ok end) = ranged p vars host backend_url start end

unfoldable pub begun : Parsers → Env → String → String → Result ℕ → Result Ssh
unfolding ended env_int
begun p vars host backend_url (err e) = err e
begun p vars host backend_url (ok start) =
    ended p vars host backend_url start (env_int p.sscan vars "SSH_PORT_END" "0")

-- loadSSH
unfoldable pub load_ssh : Parsers → Env → String → Result Ssh
unfolding getenv begun env_int is_host_name host_length
load_ssh p vars backend_url =
    let host = getenv vars "SSH_PUBLIC_HOST" in
    let start = getenv vars "SSH_PORT_START" in
    let end = getenv vars "SSH_PORT_END" in
    if str_eq host "" && str_eq start "" && str_eq end ""
    then ok (record { public_host = ""; port_start = 0; port_end = 0; auth_url = "" })
    else if str_eq host "" || str_eq start "" || str_eq end ""
    then err (failure "SSH_PUBLIC_HOST, SSH_PORT_START and SSH_PORT_END must be set together")
    else if ltb 253 (host_length host) || not (is_host_name host)
    then err (failure "SSH_PUBLIC_HOST is not a valid hostname")
    else begun p vars host backend_url (env_int p.sscan vars "SSH_PORT_START" "0")
