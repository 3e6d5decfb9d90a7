-- ===== src/Redis.antt =====
-- What internal/store/store.go relies on of Redis, of the JSON codec and of the connection between
-- them: an interface, since none of them is code of the repository.
pub mod Laws
use sandbox_manager.Prelude.{
  ℕ, ◌≡◌, String, Bool, false, true, ◌&&◌, not, ◌||◌, List, ◌∷◌, Option, none, some, str_eq,
  contains, if◌then◌else◌, Result, ok, err, failure, suc,
}
use sandbox_manager.Sandbox.{Sandbox, State}

-- The keys that hold one text: `sandbox:<id>`, `sandbox:user-slot:<user>`, `sandbox:ssh-port:<id>`,
-- `stats:sandbox:created` and `resource:token:<token>`. They are constructors where the program
-- concatenates texts: sandbox ids are hexadecimal, so no two of these collide.
pub data TextKey : Type 0 where
  record_key slot_key port_key token_key : String → TextKey
  created_key : TextKey

-- The keys that hold a set: `sandbox:all`, `sandbox:active`, `sandbox:user:<user>` and
-- `session:idx:token:<token>`.
pub data SetKey : Type 0 where
  all_key active_key : SetKey
  user_key session_key : String → SetKey

-- The keys that hold a hash: `apikey:<token>`, `session:<sid>` and `user:<user>`.
pub data HashKey : Type 0 where
  apikey session account : String → HashKey

abbrev pub text_key_eq : TextKey → TextKey → Bool
text_key_eq (record_key a) (record_key b) = str_eq a b
text_key_eq (slot_key a) (slot_key b) = str_eq a b
text_key_eq (port_key a) (port_key b) = str_eq a b
text_key_eq (token_key a) (token_key b) = str_eq a b
text_key_eq created_key created_key = true
text_key_eq _ _ = false

abbrev pub set_key_eq : SetKey → SetKey → Bool
set_key_eq all_key all_key = true
set_key_eq active_key active_key = true
set_key_eq (user_key a) (user_key b) = str_eq a b
set_key_eq (session_key a) (session_key b) = str_eq a b
set_key_eq _ _ = false

-- The commands that the program sends, and what the Redis documentation says of them. A script and
-- a MULTI block run alone, so each is a composition of these.
pub record Redis : Type 1 where
  pub Db : Type 0
  pub get : Db → TextKey → Option String
  pub set : Db → TextKey → String → Db
  pub del : Db → TextKey → Db
  pub incr : Db → TextKey → Db
  pub members : Db → SetKey → List String
  pub sadd : Db → SetKey → String → Db
  pub srem : Db → SetKey → String → Db
  pub del_set : Db → SetKey → Db
  pub hget : Db → HashKey → String → Option String
  -- PUBLISH on `sandbox:events:<user>`, and what has been published, the latest first.
  pub publish : Db → String → String → Db
  pub published : Db → List (String × String)
  pub get-set :
      (d : Db) (k j : TextKey) (v : String)
      → get (set d k v) j ≡ (if text_key_eq k j then some v else get d j)
  pub get-del :
      (d : Db) (k j : TextKey) → get (del d k) j ≡ (if text_key_eq k j then none else get d j)
  pub get-incr : (d : Db) (k j : TextKey) → text_key_eq k j ≡ false → get (incr d k) j ≡ get d j
  pub get-sadd : (d : Db) (k : SetKey) (x : String) (j : TextKey) → get (sadd d k x) j ≡ get d j
  pub get-srem : (d : Db) (k : SetKey) (x : String) (j : TextKey) → get (srem d k x) j ≡ get d j
  pub get-del_set : (d : Db) (k : SetKey) (j : TextKey) → get (del_set d k) j ≡ get d j
  pub get-publish : (d : Db) (c x : String) (j : TextKey) → get (publish d c x) j ≡ get d j
  pub mem-set :
      (d : Db) (k : TextKey) (v : String) (j : SetKey) (x : String)
      → contains x (members (set d k v) j) ≡ contains x (members d j)
  pub mem-del :
      (d : Db) (k : TextKey) (j : SetKey) (x : String)
      → contains x (members (del d k) j) ≡ contains x (members d j)
  pub mem-incr :
      (d : Db) (k : TextKey) (j : SetKey) (x : String)
      → contains x (members (incr d k) j) ≡ contains x (members d j)
  pub mem-sadd :
      (d : Db) (k : SetKey) (y : String) (j : SetKey) (x : String)
      → contains x (members (sadd d k y) j)
        ≡ (set_key_eq k j && str_eq y x || contains x (members d j))
  pub mem-srem :
      (d : Db) (k : SetKey) (y : String) (j : SetKey) (x : String)
      → contains x (members (srem d k y) j)
        ≡ (not (set_key_eq k j && str_eq y x) && contains x (members d j))
  pub mem-del_set :
      (d : Db) (k j : SetKey) (x : String)
      → contains x (members (del_set d k) j) ≡ (not (set_key_eq k j) && contains x (members d j))
  pub mem-publish :
      (d : Db) (c y : String) (j : SetKey) (x : String)
      → contains x (members (publish d c y) j) ≡ contains x (members d j)
  pub published-set : (d : Db) (k : TextKey) (v : String) → published (set d k v) ≡ published d
  pub published-del : (d : Db) (k : TextKey) → published (del d k) ≡ published d
  pub published-sadd : (d : Db) (k : SetKey) (x : String) → published (sadd d k x) ≡ published d
  pub published-srem : (d : Db) (k : SetKey) (x : String) → published (srem d k x) ≡ published d
  pub published-publish : (d : Db) (c x : String) → published (publish d c x) ≡ (c, x) ∷ published d

-- encoding/json on records and events, cjson in the scripts, go-redis's numbers as texts.
pub record Codec : Type 0 where
  pub encode : Sandbox → String
  pub decode : String → Option Sandbox
  -- The `state` of a record as a script reads it.
  pub script_state : String → Option State
  pub encode_deleted : String → String → String
  pub show_int : ℕ → String
  pub parse_int : String → Option ℕ
  -- time.Parse with RFC3339, in the milliseconds of the clock below.
  pub parse_time : String → Option ℕ
  pub decode-encode : (sb : Sandbox) → decode (encode sb) ≡ some sb
  pub script_state-encode : (sb : Sandbox) → script_state (encode sb) ≡ some sb.state
  pub parse_int-show_int : (n : ℕ) → parse_int (show_int n) ≡ some n

-- How a round trip to the server ends: the reply arrives; the request never arrives; or the
-- request was carried out and the reply was lost.
pub data Outcome : Type 0 where
  delivered refused lost : Outcome

-- The server as the program sees it. Both functions are arbitrary: they take the number of calls
-- that the program has made to the outside so far.
pub record Server : Type 1 where
  pub redis : Redis
  pub codec : Codec
  pub outcome : ℕ → Outcome
  pub time : ℕ → ℕ

module _ (srv : Server) where
  open srv use {redis.{Db}, outcome}

  pub record Link : Type 0 where
    pub db : Db
    pub calls : ℕ

  -- The server's answer and its database after the request, as far as they get through.
  abbrev pub settle {ℓ} : {A : Type ℓ} → Outcome → A × Db → Link → Result A × Link
  settle delivered (a, d) l = (ok a, record { db = d; calls = suc l.calls })
  settle refused (a, d) l = (err (failure "connection refused"), record l { calls = suc l.calls })
  settle lost (a, d) l = (err (failure "reply lost"), record { db = d; calls = suc l.calls })

  -- One request, carried out by the server as `f`.
  unfoldable pub roundtrip {ℓ} : {A : Type ℓ} → (Db → A × Db) → Link → Result A × Link
  roundtrip f l = settle (outcome l.calls) (f l.db) l

  -- NowMillis
  unfoldable pub now_millis : Link → Result ℕ × Link
  now_millis l = (ok (srv.time l.calls), l)

  -- What holds before a request, and after it if the server carries it out, holds at the end.
  pub roundtrip-db {ℓ κ} :
      {A : Type ℓ} (P : Db → Type κ) (f : Db → A × Db) (l : Link)
      → P l.db
      → P (f l.db).1
      → P (roundtrip f l).1.db
  unfolding roundtrip
  roundtrip-db P f l before after = go (outcome l.calls)
    where
      go : (o : Outcome) → P (settle o (f l.db) l).1.db
      go delivered = after
      go refused = before
      go lost = after
