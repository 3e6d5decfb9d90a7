-- ===== src/Config/Rules.antt =====
-- The rules that a configuration is to keep, apart from the tests of internal/config/config.go.
use Prim.Native.Char.{code}
use sandbox_manager.Prelude.{
  ℕ, ◌≤◌, ◌≡◌, ◌≢◌, ◌⊎◌, refl, String, Bool, true, false, Option, some, none, arith, eq_iff, inl,
  inr, Bool-cases, str_eq,
}
use sandbox_manager.Config.Ssh.{
  Url, Ip, Parsers, is_alnum, is_host_rest, is_host_name, host_length, is_plain, is_near, is_local,
  is_dev, is_safe,
}

-- [a-zA-Z0-9], and with dots and dashes.
abbrev IsAlnum : ℕ → Type 0
IsAlnum c = ((97 ≤ c) × (c ≤ 122)) ⊎ ((65 ≤ c) × (c ≤ 90)) ⊎ ((48 ≤ c) × (c ≤ 57))

abbrev IsHostChar : ℕ → Type 0
IsHostChar c = IsAlnum c ⊎ (c ≡ 46) ⊎ (c ≡ 45)

abbrev AllHostChars : String → Type 0
AllHostChars String.[] = Unit
AllHostChars (String.◌∷◌ c s) = IsHostChar (code c) × AllHostChars s

-- The last character of a text that starts with this one.
abbrev last_code : ℕ → String → ℕ
last_code c String.[] = c
last_code c (String.◌∷◌ d s) = last_code (code d) s

abbrev EndsAlnum : String → Type 0
EndsAlnum String.[] = false ≡ true
EndsAlnum (String.◌∷◌ c s) = IsAlnum (code c) × IsAlnum (last_code (code c) s)

-- Letters, digits, dots and dashes, at most 253 of them, the first and the last a letter or a digit.
pub record IsHostName (s : String) : Type 0 where
  pub chars : AllHostChars s
  pub ends : EndsAlnum s
  pub short : host_length s ≤ 253

pub record IsPlain (u : Url) : Type 0 where
  pub host_given : u.host ≢ ""
  pub no_user : u.has_user ≡ false
  pub no_query : u.raw_query ≡ ""
  pub not_forced : u.force_query ≡ false
  pub no_fragment : u.fragment ≡ ""
  pub at_path : u.path ≡ "/api/cloud-ssh/authorized-key"

abbrev IsNear : Parsers → String → Type 0
IsNear p name =
    (name ≡ "localhost")
    ⊎ ((ip : Ip) × (p.parse_ip name ≡ some ip) × ((ip.is_loopback ≡ true) ⊎ (ip.is_private ≡ true)))

-- https, or http to a near host in development or test.
abbrev pub IsSafe : Parsers → Url → String → Type 0
IsSafe p u node_env =
    (u.scheme ≡ "https")
    ⊎ ((u.scheme ≡ "http")
        × ((node_env ≡ "development") ⊎ (node_env ≡ "test"))
        × IsNear p u.hostname)

alnum : (c : ℕ) → is_alnum c ≡ true → IsAlnum c
unfolding is_alnum
alnum c e = ground arith

rest_chars : (b : Bool) (s : String) → is_host_rest b s ≡ true → AllHostChars s
unfolding is_host_rest is_alnum
rest_chars b String.[] e = tt
rest_chars b (String.◌∷◌ c s) e =
    (ground arith, rest_chars (is_alnum (code c)) s (unfold is_alnum in (ground arith)))

rest_ends : (c : ℕ) (s : String) → is_host_rest (is_alnum c) s ≡ true → IsAlnum (last_code c s)
unfolding is_host_rest
rest_ends c String.[] e = alnum c e
rest_ends c (String.◌∷◌ d s) e = rest_ends (code d) s (ground arith)

pub is_host_name-IsHostName :
    (s : String) → is_host_name s ≡ true → host_length s ≤ 253 → IsHostName s
unfolding is_host_name
is_host_name-IsHostName String.[] e short = absurd (ground arith)
is_host_name-IsHostName (String.◌∷◌ c s) e short =
    let first : is_alnum (code c) ≡ true = ground arith in
    let rest : is_host_rest true s ≡ true = ground arith in
    record {
      chars = (inl (alnum (code c) first), rest_chars true s rest);
      ends = (alnum (code c) first, rest_ends (code c) s (rw first rest));
      short = short;
    }

pub is_plain-IsPlain : (u : Url) → is_plain u ≡ true → IsPlain u
unfolding is_plain
is_plain-IsPlain u e = record {
  host_given = λ q. ground (arith, q, eq_iff u.host "");
  no_user = ground arith;
  no_query = ground (arith, eq_iff u.raw_query "");
  not_forced = ground arith;
  no_fragment = ground (arith, eq_iff u.fragment "");
  at_path = ground (arith, eq_iff u.path "/api/cloud-ssh/authorized-key");
}

near :
    (p : Parsers) (name : String) (o : Option Ip)
    → p.parse_ip name ≡ o
    → is_near o ≡ true
    → (ip : Ip) × (p.parse_ip name ≡ some ip) × ((ip.is_loopback ≡ true) ⊎ (ip.is_private ≡ true))
unfolding is_near
near p name none same e = absurd (ground arith)
near p name (some ip) same e = (ip, same, ground arith)

local : (p : Parsers) (u : Url) → is_local p u ≡ true → IsNear p u.hostname
unfolding is_local
local p u e = elim (Bool-cases (str_eq u.hostname "localhost")) [
  | inl q ↦ inl ((eq_iff u.hostname "localhost").0 q)
  | inr q ↦ inr (near p u.hostname (p.parse_ip u.hostname) refl (ground arith))
]

pub is_safe-IsSafe :
    (p : Parsers) (u : Url) (env : String) → is_safe p u env ≡ true → IsSafe p u env
unfolding is_safe is_dev
is_safe-IsSafe p u env e = elim (Bool-cases (str_eq u.scheme "https")) [
  | inl q ↦ inl ((eq_iff u.scheme "https").0 q)
  | inr q ↦ inr (
    ground (arith, eq_iff u.scheme "http"),
    ground (arith, eq_iff env "development", eq_iff env "test"),
    local p u (ground arith),
  )
]
