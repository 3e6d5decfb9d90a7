-- ===== src/Redis/Laws.antt =====
-- The laws of `Redis` as lemmas over any server, in rule sets: what a key holds after a command,
-- who is in a set, and what has been published.
use sandbox_manager.Prelude.{
  ◌≡◌, String, ◌&&◌, not, ◌||◌, ◌∷◌, some, none, str_eq, contains, if◌then◌else◌,
}
use sandbox_manager.Redis.{Redis, TextKey, SetKey, text_key_eq, set_key_eq}

module _ (r : Redis) where
  open r use {Db, get, set, del, members, sadd, srem, del_set, publish, published, incr}

  pub get-set :
      (d : Db) (k j : TextKey) (v : String)
      → get (set d k v) j ≡ (if text_key_eq k j then some v else get d j)
  get-set = r.get-set

  pub get-del :
      (d : Db) (k j : TextKey) → get (del d k) j ≡ (if text_key_eq k j then none else get d j)
  get-del = r.get-del

  pub get-sadd : (d : Db) (k : SetKey) (x : String) (j : TextKey) → get (sadd d k x) j ≡ get d j
  get-sadd = r.get-sadd

  pub get-srem : (d : Db) (k : SetKey) (x : String) (j : TextKey) → get (srem d k x) j ≡ get d j
  get-srem = r.get-srem

  pub get-del_set : (d : Db) (k : SetKey) (j : TextKey) → get (del_set d k) j ≡ get d j
  get-del_set = r.get-del_set

  pub get-publish : (d : Db) (c x : String) (j : TextKey) → get (publish d c x) j ≡ get d j
  get-publish = r.get-publish

  pub mem-set :
      (d : Db) (k : TextKey) (v : String) (j : SetKey) (x : String)
      → contains x (members (set d k v) j) ≡ contains x (members d j)
  mem-set = r.mem-set

  pub mem-del :
      (d : Db) (k : TextKey) (j : SetKey) (x : String)
      → contains x (members (del d k) j) ≡ contains x (members d j)
  mem-del = r.mem-del

  pub mem-incr :
      (d : Db) (k : TextKey) (j : SetKey) (x : String)
      → contains x (members (incr d k) j) ≡ contains x (members d j)
  mem-incr = r.mem-incr

  pub mem-sadd :
      (d : Db) (k : SetKey) (y : String) (j : SetKey) (x : String)
      → contains x (members (sadd d k y) j)
        ≡ (set_key_eq k j && str_eq y x || contains x (members d j))
  mem-sadd = r.mem-sadd

  pub mem-srem :
      (d : Db) (k : SetKey) (y : String) (j : SetKey) (x : String)
      → contains x (members (srem d k y) j)
        ≡ (not (set_key_eq k j && str_eq y x) && contains x (members d j))
  mem-srem = r.mem-srem

  pub mem-del_set :
      (d : Db) (k j : SetKey) (x : String)
      → contains x (members (del_set d k) j) ≡ (not (set_key_eq k j) && contains x (members d j))
  mem-del_set = r.mem-del_set

  pub mem-publish :
      (d : Db) (c y : String) (j : SetKey) (x : String)
      → contains x (members (publish d c y) j) ≡ contains x (members d j)
  mem-publish = r.mem-publish

  pub published-set : (d : Db) (k : TextKey) (v : String) → published (set d k v) ≡ published d
  published-set = r.published-set

  pub published-del : (d : Db) (k : TextKey) → published (del d k) ≡ published d
  published-del = r.published-del

  pub published-sadd : (d : Db) (k : SetKey) (x : String) → published (sadd d k x) ≡ published d
  published-sadd = r.published-sadd

  pub published-srem : (d : Db) (k : SetKey) (x : String) → published (srem d k x) ≡ published d
  published-srem = r.published-srem

  pub published-publish : (d : Db) (c x : String) → published (publish d c x) ≡ (c, x) ∷ published d
  published-publish = r.published-publish

pub ruleset text_laws = (get-set, get-del, get-sadd, get-srem, get-del_set, get-publish)

pub ruleset set_laws = (mem-set, mem-del, mem-incr, mem-sadd, mem-srem, mem-del_set, mem-publish)

pub ruleset event_laws =
    (published-set, published-del, published-sadd, published-srem, published-publish)
