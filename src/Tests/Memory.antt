-- ===== src/Tests/Memory.antt =====
-- A Redis in memory and a codec in unary, for concrete runs.
use Prim.Native.String.{◌++◌ as append}
use Prim.Native.Char.{Char, code}
use sandbox_manager.Prelude.{
  ℕ, zero, suc, ◌≡◌, refl, ap, String, Bool, false, ◌&&◌, not, ◌||◌, List, [], ◌∷◌, Option, none,
  some, str_eq, ◌∙◌, ◌==◌, contains, if◌then◌else◌, arith, eq_iff,
}
use sandbox_manager.Sandbox.{Sandbox, State, creating, running, terminating, error}
use sandbox_manager.Redis.{Redis, Codec, TextKey, SetKey, text_key_eq, set_key_eq}

abbrev pub without : String → List String → List String
without x [] = []
without x (y ∷ ys) = let rest = without x ys in if str_eq x y then rest else y ∷ rest

pub contains-without :
    (x y : String) (ys : List String)
    → contains x (without y ys) ≡ (not (str_eq y x) && contains x ys)
contains-without x y [] = ground arith
contains-without x y (z ∷ zs) =
    ground (arith, contains-without x y zs, eq_iff x z, eq_iff y z, eq_iff y x, eq_iff z x)

pub absent : {b : Bool} (x y : Option String) → b ≡ false → (if b then x else y) ≡ y
absent x y e = rw e refl

pub contains-added :
    (x y : String) (b : Bool) (xs : List String)
    → contains x (if b then y ∷ xs else xs) ≡ (b && str_eq y x || contains x xs)
contains-added x y b xs = ground (arith, eq_iff x y, eq_iff y x)

pub contains-removed :
    (x y : String) (b : Bool) (xs : List String)
    → contains x (if b then without y xs else xs) ≡ (not (b && str_eq y x) && contains x xs)
contains-removed x y b xs = ground (arith, contains-without x y xs)

pub contains-emptied :
    (x : String) (b : Bool) (xs : List String)
    → contains x (if b then [] else xs) ≡ (not b && contains x xs)
contains-emptied x b xs = ground arith

-- What the keys hold; a hash is left empty.
pub record Store : Type 0 where
  pub texts : TextKey → Option String
  pub sets : SetKey → List String
  pub events : List (String × String)

abbrev pub memory : Redis
memory = record {
  Db = Store;
  get = λ d k. d.texts k;
  set = λ d k v. record d { texts = λ j. if text_key_eq k j then some v else d.texts j };
  del = λ d k. record d { texts = λ j. if text_key_eq k j then none else d.texts j };
  incr = λ d k. record d { texts = λ j. if text_key_eq k j then some "1" else d.texts j };
  members = λ d k. d.sets k;
  sadd = λ d k x. record d { sets = λ j. if set_key_eq k j then x ∷ d.sets j else d.sets j };
  srem =
      λ d k x. record d { sets = λ j. if set_key_eq k j then without x (d.sets j) else d.sets j };
  del_set = λ d k. record d { sets = λ j. if set_key_eq k j then [] else d.sets j };
  hget = λ d k f. none;
  publish = λ d c x. record d { events = (c, x) ∷ d.events };
  published = λ d. d.events;
  get-set = λ d k j v. refl;
  get-del = λ d k j. refl;
  get-incr = λ d k j e. absent (some "1") (d.texts j) e;
  get-sadd = λ d k x j. refl;
  get-srem = λ d k x j. refl;
  get-del_set = λ d k j. refl;
  get-publish = λ d c x j. refl;
  mem-set = λ d k v j x. refl;
  mem-del = λ d k j x. refl;
  mem-incr = λ d k j x. refl;
  mem-sadd = λ d k y j x. contains-added x y (set_key_eq k j) (d.sets j);
  mem-srem = λ d k y j x. contains-removed x y (set_key_eq k j) (d.sets j);
  mem-del_set = λ d k j x. contains-emptied x (set_key_eq k j) (d.sets j);
  mem-publish = λ d c y j x. refl;
  published-set = λ d k v. refl;
  published-del = λ d k. refl;
  published-sadd = λ d k x. refl;
  published-srem = λ d k x. refl;
  published-publish = λ d c x. refl;
}

-- A way to write a value in front of a text and to read it back.
pub record Form (A : Type 0) : Type 0 where
  pub show : A → String → String
  pub read : String → Option (A × String)
  pub law : (a : A) (s : String) → read (show a s) ≡ some (a, s)

abbrev pub shown_nat : ℕ → String → String
shown_nat zero s = String.◌∷◌ "z" s
shown_nat (suc n) s = String.◌∷◌ "s" (shown_nat n s)

abbrev pub one_more : Option (ℕ × String) → Option (ℕ × String)
one_more none = none
one_more (some (n, s)) = some (suc n, s)

abbrev pub read_nat : String → Option (ℕ × String)
read_nat String.[] = none
read_nat (String.◌∷◌ c s) =
    let rest = one_more (read_nat s) in
    if code c == b's' then rest else if code c == b'z' then some (0, s) else none

pub nat_law : (n : ℕ) (s : String) → read_nat (shown_nat n s) ≡ some (n, s)
nat_law zero s = refl
nat_law (suc n) s = ap one_more (nat_law n s)

abbrev pub nat_form : Form ℕ
nat_form = record { show = shown_nat; read = read_nat; law = nat_law }

abbrev pub shown_text : String → String → String
shown_text String.[] s = String.◌∷◌ "." s
shown_text (String.◌∷◌ c t) s = String.◌∷◌ "-" (String.◌∷◌ c (shown_text t s))

abbrev pub after_char : Char → Option (String × String) → Option (String × String)
after_char c none = none
after_char c (some (t, s)) = some (String.◌∷◌ c t, s)

abbrev pub read_text : String → Option (String × String)
read_text String.[] = none
read_text (String.◌∷◌ m String.[]) = if code m == b'.' then some ("", String.[]) else none
read_text (String.◌∷◌ m (String.◌∷◌ c s)) =
    let rest = after_char c (read_text s) in
    if code m == b'.' then some ("", String.◌∷◌ c s) else rest

text_end : (s : String) → read_text (String.◌∷◌ "." s) ≡ some ("", s)
text_end String.[] = refl
text_end (String.◌∷◌ c s) = refl

pub text_law : (t s : String) → read_text (shown_text t s) ≡ some (t, s)
text_law String.[] s = text_end s
text_law (String.◌∷◌ c t) s = ap (after_char c) (text_law t s)

abbrev pub text_form : Form String
text_form = record { show = shown_text; read = read_text; law = text_law }

module _ {A B : Type 0} (a : Form A) (b : Form B) where
  abbrev pub second : A → Option (B × String) → Option ((A × B) × String)
  second x none = none
  second x (some (y, s)) = some ((x, y), s)

  abbrev pub both : Option (A × String) → Option ((A × B) × String)
  both none = none
  both (some (x, s)) = second x (b.read s)

  abbrev pub pair_form : Form (A × B)
  pair_form = record {
    show = λ (x, y) s. a.show x (b.show y s);
    read = λ s. both (a.read s);
    law = λ (x, y) s. ap both (a.law x (b.show y s)) ∙ ap (second x) (b.law y s);
  }

abbrev pub state_number : State → ℕ
state_number creating = 0
state_number running = 1
state_number terminating = 2
state_number error = 3

abbrev pub numbered_state : ℕ → State
numbered_state zero = creating
numbered_state (suc zero) = running
numbered_state (suc (suc zero)) = terminating
numbered_state (suc (suc (suc n))) = error

pub numbered_state-state_number : (s : State) → numbered_state (state_number s) ≡ s
numbered_state-state_number creating = refl
numbered_state-state_number running = refl
numbered_state-state_number terminating = refl
numbered_state-state_number error = refl

abbrev pub Texts : Type 0
Texts = String × (String × (String × (String × (String × (String × (String × String))))))

abbrev pub Numbers : Type 0
Numbers = ℕ × (ℕ × (ℕ × (ℕ × (ℕ × (ℕ × (ℕ × (ℕ × ℕ)))))))

abbrev pub texts_form : Form Texts
texts_form =
    let t = text_form in
    pair_form t
      (pair_form t (pair_form t (pair_form t (pair_form t (pair_form t (pair_form t t))))))

abbrev pub numbers_form : Form Numbers
numbers_form =
    let n = nat_form in
    pair_form n (
      pair_form n
        (pair_form n (pair_form n (pair_form n (pair_form n (pair_form n (pair_form n n)))))))

abbrev pub sandbox_form : Form (Texts × Numbers)
sandbox_form = pair_form texts_form numbers_form

abbrev pub parts : Sandbox → Texts × Numbers
parts sb = (
  (
    sb.id,
    (
      sb.user_id,
      (sb.template, (sb.size, (sb.kind, (sb.ip_address, (sb.error_text, sb.device_id))))),
    ),
  ),
  (
    state_number sb.state,
    (
      sb.cost_per_min,
      (
        sb.resources.memory_mib,
        (
          sb.resources.vcpus,
          (
            sb.resources.disk_mib,
            (sb.disk_mib, (sb.created_at, (sb.last_activity, sb.ssh_connections))),
          ),
        ),
      ),
    ),
  ),
)

abbrev pub joined : Texts × Numbers → Sandbox
joined
      (
        (id, (user_id, (template, (size, (kind, (ip, (error_text, device_id))))))),
        (state, (cost, (memory, (vcpus, (disk, (disk_mib, (created, (activity, ssh)))))))),
      ) =
    record {
      id = id;
      user_id = user_id;
      template = template;
      size = size;
      kind = kind;
      state = numbered_state state;
      ip_address = ip;
      cost_per_min = cost;
      resources = record { memory_mib = memory; vcpus = vcpus; disk_mib = disk };
      disk_mib = disk_mib;
      error_text = error_text;
      device_id = device_id;
      created_at = created;
      last_activity = activity;
      ssh_connections = ssh;
    }

pub joined-parts : (sb : Sandbox) → joined (parts sb) ≡ sb
joined-parts sb = ap (λ s. record sb { state = s }) (numbered_state-state_number sb.state)

abbrev pub whole : Option ((Texts × Numbers) × String) → Option Sandbox
whole none = none
whole (some (x, s)) = some (joined x)

abbrev pub first_number : Option (ℕ × String) → Option ℕ
first_number none = none
first_number (some (n, s)) = some n

abbrev pub state_of : Option Sandbox → Option State
state_of none = none
state_of (some sb) = some sb.state

abbrev pub decoded : String → Option Sandbox
decoded js = whole (sandbox_form.read js)

pub decoded-shown : (sb : Sandbox) → decoded (sandbox_form.show (parts sb) "") ≡ some sb
decoded-shown sb = ap whole (sandbox_form.law (parts sb) "") ∙ ap (λ x. some x) (joined-parts sb)

abbrev pub unary : Codec
unary = record {
  encode = λ sb. sandbox_form.show (parts sb) "";
  decode = decoded;
  script_state = λ js. state_of (decoded js);
  encode_deleted = λ user_id id. append "deleted " id;
  show_int = λ n. shown_nat n "";
  parse_int = λ s. first_number (read_nat s);
  parse_time = λ s. none;
  decode-encode = decoded-shown;
  script_state-encode = λ sb. ap state_of (decoded-shown sb);
  parse_int-show_int = λ n. ap first_number (nat_law n "");
}
