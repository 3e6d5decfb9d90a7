-- ===== src/Tests/Hosts.antt =====
-- A containerd whose calls succeed, but for the start of a task, which may be made to report a failure
-- when it has started the task. A Firecracker process outlives its task.
use sandbox_manager.Prelude.{
  ◌≡◌, refl, ap, ◌⊎◌, inl, inr, String, Bool, true, false, [], Option, none, some, str_eq,
  if◌then◌else◌, arith, eq_iff, eq_refl, Bool-cases,
}
use sandbox_manager.Vm.Containerd.{
  Containerd, Cleans, Command, Reply, done, failed, absent, broken, new_container, start_task,
  delete_task, delete_container, kill_firecracker, load_container, load_task,
}

pub record Site : Type 0 where
  pub owners : String → Option String
  pub up : String → Bool
  pub vmms : String → Bool

abbrev pub running_on : Site → String → Option String
running_on h id = if h.up id then h.owners id else none

abbrev pub bring_up : Bool → String → Site → Reply (Unit {0}) × Site
bring_up good i h = (
  if good then done tt else failed broken,
  record h {
    up = λ j. if str_eq i j then true else h.up j;
    vmms = λ j. if str_eq i j then true else h.vmms j;
  },
)

abbrev pub put_down : String → Site → Site
put_down i h = record h { up = λ j. if str_eq i j then false else h.up j }

abbrev pub called : Bool → Command → Site → Reply (Unit {0}) × Site
called good (new_container c) h = (
  done tt,
  record h {
    owners = λ j. if str_eq c.id j then some c.user_id else h.owners j;
    up = λ j. if str_eq c.id j then false else h.up j;
  },
)
called good (start_task i) h = bring_up good i h
called good (delete_task i) h = (done tt, put_down i h)
called good (delete_container i) h = (done tt, put_down i h)
called good (kill_firecracker i) h =
    (done tt, record h { vmms = λ j. if str_eq i j then false else h.vmms j })
called good (load_container i) h = (if h.up i then done tt else failed absent, h)
called good (load_task i) h = (if h.up i then done tt else failed absent, h)
called good _ h = (done tt, h)

pub called_starts :
    (good : Bool) (c : Command) (h : Site) (id user_id : String)
    → running_on (called good c h).1 id ≡ some user_id
    → (running_on h id ≡ some user_id) ⊎ ((c ≡ start_task id) × (h.owners id ≡ some user_id))
called_starts good (new_container c) h id u e = inl (ground arith)
called_starts good (start_task i) h id u e = elim (Bool-cases (str_eq i id)) [
  | inl same ↦ inr (ap start_task ((eq_iff i id).0 same), ground arith)
  | inr other ↦ inl (ground arith)
]
called_starts good (delete_task i) h id u e = inl (ground arith)
called_starts good (delete_container i) h id u e = inl (ground arith)
called_starts good _ h id u e = inl e

pub called_vmm :
    (good : Bool) (c : Command) (h : Site) (id : String)
    → (called good c h).1.vmms id ≡ true
    → (h.vmms id ≡ true) ⊎ (c ≡ start_task id)
called_vmm good (start_task i) h id e = elim (Bool-cases (str_eq i id)) [
  | inl same ↦ inr (ap start_task ((eq_iff i id).0 same))
  | inr other ↦ inl (ground arith)
]
called_vmm good (kill_firecracker i) h id e = inl (ground arith)
called_vmm good _ h id e = inl e

pub killed_down : (i : String) (h : Site) → (if str_eq i i then false else h.vmms i) ≡ false
killed_down i h = rw (eq_refl i) refl

pub down : (h : Site) (i : String) → h.up i ≡ false → running_on h i ≡ none
down h i e = rw e refl

pub absent_down :
    (b : Bool)
    → ◌≡◌ {A = Reply (Unit {0})} (if b then done tt else failed absent) (failed absent)
    → b ≡ false
absent_down true e = absurd (ground arith)
absent_down false e = refl

pub owner_made : (id u : String) (o : Option String) → (if str_eq id id then some u else o) ≡ some u
owner_made id u o = rw (eq_refl id) refl

pub deleted_down : (i : String) (h : Site) → running_on (put_down i h) i ≡ none
deleted_down i h = rw (eq_refl i) refl

pub stopped_down : (h : Site) (i : String) → done (h.up i) ≡ done false → running_on h i ≡ none
stopped_down h i e = down h i (ground arith)

abbrev pub host_with : Bool → Containerd
host_with good = record {
  Host = Site;
  perform = called good;
  is_unpacked = λ h. (done true, h);
  address = λ h i. "10.0.0.2";
  containers = λ h. (done [], h);
  age = λ i h. (done 0, h);
  status = λ i h. (done (h.up i), h);
  spec_env = λ i h. (done [], h);
  output = λ i h. (("", 0), h);
  read_log = λ i n h. ("", h);
  owner = λ h id. h.owners id;
  running = running_on;
  vmm = λ h id. h.vmms id;
  perform_starts = called_starts good;
  perform_vmm = called_vmm good;
  killed_vmm = killed_down;
  is_unpacked_starts = λ h id u e. e;
  containers_starts = λ h id u e. e;
  age_starts = λ i h id u e. e;
  status_starts = λ i h id u e. e;
  spec_env_starts = λ i h id u e. e;
  output_starts = λ i h id u e. e;
  read_log_starts = λ i n h id u e. e;
  new_container_owner = λ c h e. owner_made c.id c.user_id (h.owners c.id);
  new_task_owner = λ i h u e. e;
  absent_container = λ i h e. down h i (absent_down (h.up i) e);
  absent_task = λ i h e. down h i (absent_down (h.up i) e);
  deleted_task = λ i h e. deleted_down i h;
  deleted_container = λ i h e. deleted_down i h;
  stopped_task = λ i h e. stopped_down h i e;
}

pub host_with-Cleans : (good : Bool) → Cleans (host_with good)
host_with-Cleans good i f h failing = inl refl
