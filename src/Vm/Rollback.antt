-- ===== src/Vm/Rollback.antt =====
-- What a Create of the VM manager holds of the machine, read off the calls that it made.
use sandbox_manager.Prelude.{
  ◌≡◌, String, Bool, true, false, [], ◌∷◌, Option, none, some, str_eq, if◌then◌else◌, not, ◌&&◌,
}
use sandbox_manager.Vm.{Spec}
use sandbox_manager.Vm.Containerd.{
  Containerd, Command, Reply, done, failed, Fault, exists, open_lease, close_lease, attach_home,
  detach_home, setup_net, teardown_net, new_container, remove_snapshot, new_task, delete_task,
  delete_container,
}
use sandbox_manager.Vm.Node.{Log, Node, command, attempt, ◌>>=◌}
use sandbox_manager.Vm.Manager.{
  Settings, Texts, config_of, ensure_unpacked, wired, attach, find_image,
}

-- What a sandbox takes on the machine, by its id, and the lease of an unpack.
pub data Resource : Type 0 where
  home net snapshot container task : String → Resource
  lease : Resource

-- What a call does to a resource: `some true` takes it, `some false` is its release, which is counted
-- where it is attempted. A container that cannot be made for another reason than that it is there may
-- leave a snapshot.
abbrev pub effect : Resource → Command → Reply (Unit {0}) → Option Bool
effect (home i) (attach_home j img) (done _) = if str_eq i j then some true else none
effect (home i) (detach_home j) r = if str_eq i j then some false else none
effect (net i) (setup_net j) (done _) = if str_eq i j then some true else none
effect (net i) (teardown_net j) r = if str_eq i j then some false else none
effect (snapshot i) (new_container c) (failed exists) = none
effect (snapshot i) (new_container c) r = if str_eq i c.id then some true else none
effect (snapshot i) (remove_snapshot j) r = if str_eq i j then some false else none
effect (snapshot i) (delete_container j) r = if str_eq i j then some false else none
effect (container i) (new_container c) (done _) = if str_eq i c.id then some true else none
effect (container i) (delete_container j) r = if str_eq i j then some false else none
effect (task i) (new_task j) (done _) = if str_eq i j then some true else none
effect (task i) (delete_task j) r = if str_eq i j then some false else none
effect lease open_lease (done _) = some true
effect lease close_lease r = some false
effect _ _ _ = none

unfoldable pub holds : Resource → Log → Bool
holds r [] = false
holds r ((c, a) ∷ log) = elim (effect r c a) [ none ↦ holds r log | some b ↦ b ]

abbrev is_home : Spec → Resource → Bool
is_home s (home i) = str_eq i s.id && not (str_eq s.home_img "")
is_home s _ = false

abbrev is_net : Spec → Resource → Bool
is_net s (net i) = str_eq i s.id
is_net s _ = false

-- Of the container and its snapshot.
abbrev is_container : Spec → Resource → Bool
is_container s (snapshot i) = str_eq i s.id
is_container s (container i) = str_eq i s.id
is_container s _ = false

abbrev is_task : Spec → Resource → Bool
is_task s (task i) = str_eq i s.id
is_task s _ = false

-- Of the sandbox's snapshot alone.
abbrev is_snapshot : Spec → Resource → Bool
is_snapshot s (snapshot i) = str_eq i s.id
is_snapshot s _ = false

-- What is held afterwards was held before, and is none of these.
abbrev Returned : Bool → Resource → Log → Log → Type 0
Returned these r before after = holds r after ≡ true → (holds r before ≡ true) × (these ≡ false)

module _ (k : Containerd) (t : Texts) (c : Settings) where
  quiet : Command → Node k → Node k
  quiet x n = (attempt (command k x) n).1

  -- The state after a container could not be made.
  abbrev refused : Spec → Fault → Node k → Node k
  refused s g n = record n { log = (new_container (config_of t c s), failed g) ∷ n.log }

  -- With the home disk attached, if there is one.
  networked : Spec → Node k → Reply String × Node k
  networked s n = wired k t c s (command k (setup_net s.id) n).0 (quiet (setup_net s.id) n)

  -- From the home disk on.
  attached : Spec → Node k → Reply String × Node k
  attached s = attach k t c s >>= λ _. networked s

  -- From the unpack on, and from the image on.
  ready : Spec → Node k → Reply String × Node k
  ready s = ensure_unpacked k t c >>= λ _. attached s

  imaged : Spec → Reply (Unit {0}) → Node k → Reply String × Node k
  imaged s image = find_image k t c image >>= λ _. ready s
