-- ===== src/Config/Checked.antt =====
-- What the tests of `loadSSH` and `Load` in internal/config/config.go leave through.
use sandbox_manager.Prelude.{
  ℕ, ◌<◌, ◌≤◌, ◌≡◌, ◌≢◌, ◌⊎◌, eq_iff, Bool-cases, refl, sym, ap, subst, String, Bool, true, false,
  not, ◌&&◌, ◌||◌, List, [], ◌∷◌, All, Option, none, some, str_eq, ltb, if◌then◌else◌, arith,
  Result, ok, err, Error, inl, inr,
}
use sandbox_manager.Config.Environment.{Env, getenv, env_int, env_int-positive, load_dot_env}
use sandbox_manager.Config.Load.{
  Config, required, required_of, then_check, config_from, enrolled, configured, load,
}
use sandbox_manager.Config.Rules.{
  IsHostName, IsPlain, IsSafe, is_host_name-IsHostName, is_plain-IsPlain, is_safe-IsSafe,
}
use sandbox_manager.Config.Ssh.{
  Url, Parsers, is_host_name, host_length, check_url, validate_ssh_auth_url, Ssh, authorized,
  ranged, ended, begun, load_ssh,
}

-- A relay that a public host names: its ports, and where its guests ask for keys.
pub record IsRelay (p : Parsers) (node_env : String) (c : Ssh) : Type 0 where
  pub named : IsHostName c.public_host
  pub first : 0 < c.port_start
  pub ordered : c.port_start ≤ c.port_end
  pub bounded : c.port_end ≤ 65535
  pub url : Url
  pub parsed : p.parse_url c.auth_url ≡ some url
  pub plain : IsPlain url
  pub safe : IsSafe p url node_env

check_url-ok :
    (p : Parsers) (o : Option Url) (node_env : String) (done : Unit {0})
    → check_url p o node_env ≡ ok done
    → (u : Url) × (o ≡ some u) × IsPlain u × IsSafe p u node_env
unfolding check_url
check_url-ok p none node_env done e = absurd (ground arith)
check_url-ok p (some u) node_env done e =
    (u, refl, is_plain-IsPlain u (ground arith), is_safe-IsSafe p u node_env (ground arith))

-- A test that is passed on the way to a result.
passed :
    {A : Type 0} (b : Bool) (x : Error) (r : Result A) (a : A)
    → (if b then err x else r) ≡ ok a
    → (b ≡ false) × (r ≡ ok a)
passed true x r a e = absurd (ground arith)
passed false x r a e = (refl, e)

either :
    {A : Type 0} (b : Bool) (x y : Result A) (a : A)
    → (if b then x else y) ≡ ok a
    → (x ≡ ok a) ⊎ (y ≡ ok a)
either true x y a e = inl e
either false x y a e = inr e

pub ok-ok : {A : Type 0} (a b : A) → ok a ≡ ok b → a ≡ b
ok-ok a b e = ground arith

authorized-ok :
    (c c' : Ssh) (r : Result (Unit {0}))
    → authorized c r ≡ ok c'
    → (c ≡ c') × (done : Unit {0}) × (r ≡ ok done)
unfolding authorized
authorized-ok c c' (err x) e = absurd (ground arith)
authorized-ok c c' (ok done) e = (ground arith, done, refl)

ranged-IsRelay :
    (p : Parsers) (vars : Env) (host backend_url : String) (start end : ℕ) (c : Ssh)
    → IsHostName host
    → 0 < start
    → ranged p vars host backend_url start end ≡ ok c
    → IsRelay p (getenv vars "NODE_ENV") c
unfolding ranged validate_ssh_auth_url
ranged-IsRelay p vars host backend_url start end c named first e =
    let (fits, e1) = passed (ltb 65535 end || ltb end start) _ _ c e in
    let (same, done, e2) = authorized-ok _ c _ e1 in
    let (u, parsed, plain, safe) = check_url-ok p _ (getenv vars "NODE_ENV") done e2 in
    subst (λ x. IsRelay p (getenv vars "NODE_ENV") x) same
      (record {
        named = named;
        first = first;
        ordered = ground arith;
        bounded = ground arith;
        url = u;
        parsed = parsed;
        plain = plain;
        safe = safe;
      })

begun-IsRelay :
    (p : Parsers) (vars : Env) (host backend_url : String) (r : Result ℕ) (c : Ssh)
    → IsHostName host
    → ((n : ℕ) → r ≡ ok n → 0 < n)
    → begun p vars host backend_url r ≡ ok c
    → IsRelay p (getenv vars "NODE_ENV") c
unfolding begun ended
begun-IsRelay p vars host backend_url (err x) c named first e = absurd (ground arith)
begun-IsRelay p vars host backend_url (ok start) c named first e =
    go (env_int p.sscan vars "SSH_PORT_END" "0") e
  where
    go :
        (r : Result ℕ)
        → ended p vars host backend_url start r ≡ ok c
        → IsRelay p (getenv vars "NODE_ENV") c
    go (err x) e' = absurd (ground arith)
    go (ok end) e' = ranged-IsRelay p vars host backend_url start end c named (first start refl) e'

load_ssh-ok :
    (p : Parsers) (vars : Env) (backend_url : String) (c : Ssh)
    → load_ssh p vars backend_url ≡ ok c
    → (c.public_host ≡ "") ⊎ IsRelay p (getenv vars "NODE_ENV") c
unfolding load_ssh
load_ssh-ok p vars backend_url c e =
    let host = getenv vars "SSH_PUBLIC_HOST" in
    let start = getenv vars "SSH_PORT_START" in
    let end = getenv vars "SSH_PORT_END" in
    elim (either (str_eq host "" && str_eq start "" && str_eq end "") _ _ c e) [
      | inl off ↦ inl (ap (λ x. x.public_host) (sym (ok-ok _ c off)))
      | inr on ↦
          let (_, e1) = passed (str_eq host "" || str_eq start "" || str_eq end "") _ _ c on in
          let (good, e2) =
            passed (ltb 253 (host_length host) || not (is_host_name host)) _ _ c e1 in
          let named = is_host_name-IsHostName host (ground arith) (ground arith) in
          inr (
            begun-IsRelay p vars host backend_url _ c named
              (env_int-positive p.sscan vars "SSH_PORT_START" "0") e2)
    ]

-- A configuration that keeps the rules.
pub record IsValid (p : Parsers) (node_env : String) (c : Config) : Type 0 where
  pub vms : 0 < c.max_vms
  pub reserve : 0 < c.host_memory_reserve_mib
  pub memory : 0 < c.vm_memory_mib
  pub dragonfly : c.dragonfly_url ≢ ""
  pub backend : c.backend_url ≢ ""
  pub api_key : c.backend_api_key ≢ ""
  pub relay : (c.ssh.public_host ≡ "") ⊎ IsRelay p node_env c.ssh
  pub noise : (node_env ≡ "production") ⊎ (c.noise_backend_host ≢ "")

abbrev Given : String × String → Type 0
Given (k, v) = v ≢ ""

required-Given :
    (xs : List (String × String)) (done : Unit {0}) → required xs ≡ ok done → All Given xs
unfolding required
required-Given [] done e = tt
required-Given ((k, v) ∷ xs) done e =
    let (given, e1) = passed (str_eq v "") _ _ done e in
    ((λ q. ground (arith, given, eq_iff v "")), required-Given xs done e1)

pub then_check-ok :
    {A B : Type 0} (r : Result A) (f : A → Result B) (b : B)
    → then_check r f ≡ ok b
    → (a : A) × (r ≡ ok a) × (f a ≡ ok b)
then_check-ok (ok a) f b e = (a, refl, e)
then_check-ok (err x) f b e = absurd (ground arith)

noise_host :
    (node_env host : String)
    → (not (str_eq node_env "production") && str_eq host "") ≡ false
    → (node_env ≡ "production") ⊎ (host ≢ "")
noise_host node_env host e = elim (Bool-cases (str_eq node_env "production")) [
  | inl q ↦ inl ((eq_iff node_env "production").0 q)
  | inr q ↦ inr (λ blank. ground (arith, eq_iff host "", blank))
]

-- A configuration that Load returns keeps the rules. Suppose that going through a map visits each of its
-- entries. When Load returns, the three limits are positive and the variables that are required are not
-- empty; outside production the host that VMs enroll against is set; and the SSH relay is off, or it has a
-- host name of at most 253 letters, digits, dots and dashes with a letter or digit at both ends, ports in
-- order from 1 to 65535, and a URL with a host and the path of the route, without credentials, query and
-- fragment, which is https, or http to localhost or a loopback or private address in development or test.
-- NODE_ENV is read after the file is loaded.
pub load-IsValid :
    (p : Parsers) (range : List (String × String) → List (String × String))
    (lines_of : String → Option (List String)) (vars : Env) (c : Config)
    → ((P : String × String → Type 0) (xs : List (String × String)) → All P (range xs) → All P xs)
    → load p range lines_of vars ≡ ok c
    → IsValid p (getenv (load_dot_env lines_of vars) "NODE_ENV") c
unfolding load configured enrolled config_from
load-IsValid p range lines_of vars c visits e =
    let v = load_dot_env lines_of vars in
    let (max_vms, e1, f1) = then_check-ok (env_int p.sscan v "SANDBOX_MAX_VMS" "48") _ c e in
    let (reserve, e2, f2) =
      then_check-ok (env_int p.sscan v "SANDBOX_HOST_MEMORY_RESERVE_MIB" "24576") _ c f1 in
    let (memory, e3, f3) =
      then_check-ok (env_int p.sscan v "SANDBOX_VM_MEMORY_MIB" "2048") _ c f2 in
    let (done, e4, f4) = then_check-ok (required (range (required_of v))) _ c f3 in
    let (ssh, e5, f5) = then_check-ok (load_ssh p v (getenv v "BACKEND_URL")) _ c f4 in
    let (noise, f6) =
      passed
        (not (str_eq (getenv v "NODE_ENV") "production")
          && str_eq (getenv v "NOISE_BACKEND_HOST") "")
        _ _ c f5 in
    let (url, rest) =
      visits Given (required_of v) (required-Given (range (required_of v)) done e4) in
    subst (λ x. IsValid p (getenv v "NODE_ENV") x) (ok-ok _ c f6)
      (record {
        vms = env_int-positive p.sscan v "SANDBOX_MAX_VMS" "48" max_vms e1;
        reserve = env_int-positive p.sscan v "SANDBOX_HOST_MEMORY_RESERVE_MIB" "24576" reserve e2;
        memory = env_int-positive p.sscan v "SANDBOX_VM_MEMORY_MIB" "2048" memory e3;
        dragonfly = url;
        backend = rest.0;
        api_key = rest.1.0;
        relay = load_ssh-ok p v (getenv v "BACKEND_URL") ssh e5;
        noise = noise_host (getenv v "NODE_ENV") (getenv v "NOISE_BACKEND_HOST") noise;
      })
