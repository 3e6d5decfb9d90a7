-- ===== src/Relay.antt =====
-- internal/sshrelay/relay.go: the listeners of the SSH relay. The map is an association list. What
-- the operating system does with a port (`net.Listen`), and how `net` reads and prints an address,
-- are parameters.
pub mod Ports
pub mod Calls
pub mod Sessions
use Prim.Native.String.{◌++◌ as append}
use Prim.Native.Char.{code}
use sandbox_manager.Prelude.{
  ℕ, ◌+◌, ◌-◌, ◌*◌, ◌≡◌, zero, suc, String, Bool, true, false, ◌&&◌, ◌||◌, not, List, [], ◌∷◌, ◌++◌,
  Option, none, some, str_eq, leb, ltb, ◌==◌, if◌then◌else◌, Result, ok, err, Error, failure,
  length,
}

-- An address that `net.ParseIP` reads: an IPv4 address (also one mapped into IPv6), or another.
pub data Address : Type 0 where
  v4 : ℕ → ℕ → ℕ → ℕ → Address
  v6 : String → Address

-- The functions of `net` on addresses.
pub record Net : Type 0 where
  pub parse_ip : String → Option Address
  pub show_ip : Address → String

-- One relayed connection. `connected` says that the guest's side has been dialled.
pub record Session : Type 0 where
  pub number : ℕ
  pub connected : Bool
  pub start : ℕ

pub record Listener : Type 0 where
  pub port : ℕ
  pub target : String
  pub closed : Bool
  pub sessions : List Session

pub record Relay : Type 0 where
  pub host : String
  pub first : ℕ
  pub last : ℕ
  pub target_port : String
  pub by_id : List (String × Listener)

unfoldable pub new : String → ℕ → ℕ → Relay
new host first last = record {
  host = host;
  first = first;
  last = last;
  target_port = "22";
  by_id = [];
}

-- parsed.IsPrivate() || parsed.IsLoopback(), for an IPv4 address.
unfoldable pub is_inside : Address → Bool
is_inside (v6 _) = false
is_inside (v4 a b c d) =
    a == 10 || (a == 172 && (leb 16 b && leb b 31)) || (a == 192 && b == 168) || a == 127

unfoldable pub has_colon : String → Bool
has_colon String.[] = false
has_colon (String.◌∷◌ c s) = code c == b':' || code c == b'%' || has_colon s

-- net.JoinHostPort
unfoldable pub join_host_port : String → String → String
join_host_port host port =
    if has_colon host
    then append "[" (append host (append "]:" port))
    else append host (append ":" port)

unfoldable pub find : String → List (String × Listener) → Option Listener
find id [] = none
find id ((j, l) ∷ rest) = if str_eq j id then some l else find id rest

unfoldable pub remove : String → List (String × Listener) → List (String × Listener)
remove id [] = []
remove id ((j, l) ∷ rest) = let kept = remove id rest in if str_eq j id then kept else (j, l) ∷ kept

unfoldable pub is_used : ℕ → List (String × Listener) → Bool
is_used port [] = false
is_used port ((j, l) ∷ rest) = l.port == port || is_used port rest

-- The ports from `p` on, as many as `n`.
unfoldable pub ports_from : ℕ → ℕ → List ℕ
ports_from zero p = []
ports_from (suc n) p = p ∷ ports_from n (p + 1)

unfoldable pub candidates : Relay → ℕ → List ℕ
unfolding ports_from
candidates r preferred =
    let range = ports_from (r.last + 1 - r.first) r.first in
    if leb r.first preferred && leb preferred r.last then preferred ∷ range else range

-- The first candidate that is neither used here nor held by another process.
unfoldable pub first_free : (ℕ → Bool) → List (String × Listener) → List ℕ → Option ℕ
unfolding is_used
first_free can_listen used [] = none
first_free can_listen used (p ∷ ps) =
    let rest = first_free can_listen used ps in
    if not (is_used p used) && can_listen p then some p else rest

module _ (net : Net) where
  -- The target of a sandbox's listener, if its address is acceptable.
  unfoldable pub target_for : Relay → String → Option String
  target_for r ip = elim (net.parse_ip ip) [
    | none ↦ none
    | some address ↦
        if is_inside address
        then some (join_host_port (net.show_ip address) r.target_port)
        else none
  ]

  -- The part of Ensure that opens a listener, for a sandbox that has none.
  unfoldable pub open_listener : (ℕ → Bool) → String → String → ℕ → Relay → Result ℕ × Relay
  unfolding candidates first_free
  open_listener can_listen id target preferred r =
      elim (first_free can_listen r.by_id (candidates r preferred)) [
        | none ↦ (err (failure "ssh relay: no free port in range"), r)
        | some p ↦ (
          ok p,
          record r {
            by_id =
                (id, record { port = p; target = target; closed = false; sessions = [] }) ∷ r.by_id;
          },
        )
      ]

  -- Ensure, once the target is known.
  unfoldable pub ensure_target : (ℕ → Bool) → String → String → ℕ → Relay → Result ℕ × Relay
  unfolding find remove open_listener
  ensure_target can_listen id target preferred r = elim (find id r.by_id) [
    | none ↦ open_listener can_listen id target preferred r
    | some l ↦
        if str_eq l.target target
        then (ok l.port, r)
        else open_listener can_listen id target preferred (record r { by_id = remove id r.by_id })
  ]

  unfoldable pub ensure : (ℕ → Bool) → String → String → ℕ → Relay → Result ℕ × Relay
  unfolding target_for ensure_target
  ensure can_listen id ip preferred r = elim (target_for r ip) [
    | none ↦ (err (failure "ssh relay: invalid sandbox IP"), r)
    | some target ↦ ensure_target can_listen id target preferred r
  ]

unfoldable pub close : String → Relay → Relay
unfolding remove
close id r = record r { by_id = remove id r.by_id }

unfoldable pub address_of : String → List (String × String) → Option String
address_of id [] = none
address_of id ((j, ip) ∷ rest) = if str_eq j id then some ip else address_of id rest

-- Does Retain keep this listener?
unfoldable pub is_kept : List (String × String) → String → String → Listener → Bool
unfolding address_of join_host_port
is_kept keep target_port id l = elim (address_of id keep) [
  | none ↦ false
  | some ip ↦ str_eq l.target (join_host_port ip target_port)
]

unfoldable pub retain_from :
    List (String × String) → String → List (String × Listener) → List (String × Listener)
unfolding is_kept
retain_from keep target_port [] = []
retain_from keep target_port ((id, l) ∷ rest) =
    let kept = retain_from keep target_port rest in
    if is_kept keep target_port id l then (id, l) ∷ kept else kept

unfoldable pub retain : List (String × String) → Relay → Relay
unfolding retain_from
retain keep r = record r { by_id = retain_from keep r.target_port r.by_id }

-- Milliseconds that a connection must outlive to count as a session.
abbrev pub count_after : ℕ
count_after = 30 * 1000

unfoldable pub count_sessions : ℕ → List Session → ℕ
count_sessions now [] = 0
count_sessions now (s ∷ rest) =
    let n = count_sessions now rest in
    if s.connected && leb count_after (now - s.start) then n + 1 else n

unfoldable pub connections : ℕ → String → Relay → ℕ
unfolding find count_sessions
connections now id r = elim (find id r.by_id) [ none ↦ 0 | some l ↦ count_sessions now l.sessions ]

-- The methods of a relay that may be nil.
unfoldable pub map_relay : (Relay → Relay) → Option Relay → Option Relay
map_relay f none = none
map_relay f (some r) = some (f r)

unfoldable pub connections_of : ℕ → String → Option Relay → ℕ
unfolding connections
connections_of now id none = 0
connections_of now id (some r) = connections now id r
