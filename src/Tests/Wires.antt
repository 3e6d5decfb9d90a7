-- ===== src/Tests/Wires.antt =====
-- A host with room for one network namespace, on which CNI leases an address and then fails, if told to.
use sandbox_manager.Prelude.{
  ◌≡◌, refl, String, Bool, true, false, List, [], ◌∷◌, Option, none, some, if◌then◌else◌, arith,
  Result, ok, err, Error, failure,
}
use sandbox_manager.Text.{trim}
use sandbox_manager.Vm.Processes.{killed_by}
use sandbox_manager.Vm.Plumbing.{Plumbing}
use sandbox_manager.Vm.Network.{setup_network, Left, setup_network_clean}

record Wires : Type 0 where
  netns : Bool
  lease : Bool

abbrev added_to : Bool → Result (Unit {0})
added_to true = err (failure "exists")
added_to false = ok tt

added_failed : (b : Bool) (e : Error) → added_to b ≡ err e → true ≡ b
added_failed true e failed = refl
added_failed false e failed = absurd (ground arith)

-- Without the namespace CNI removes nothing.
abbrev removed_from : Bool → Result (Unit {0})
removed_from true = ok tt
removed_from false = err (failure "cni")

removed_there : (h : Wires) → h.netns ≡ true → removed_from h.netns ≡ ok tt
removed_there h e = rw e refl

unleased : (h : Wires) → removed_from h.netns ≡ ok tt → (if h.netns then false else h.lease) ≡ false
unleased h e = go h.netns e
  where
    go : (b : Bool) → removed_from b ≡ ok tt → (if b then false else h.lease) ≡ false
    go true e' = refl
    go false e' = absurd (ground arith)

abbrev interfaces : List (List (Option String))
interfaces = (none ∷ []) ∷ (none ∷ some "10.88.0.7" ∷ []) ∷ []

abbrev wires : Bool → Plumbing
wires good = record {
  Host = Wires;
  netns_add = λ id h. (added_to h.netns, record h { netns = true });
  netns_del = λ id h. (ok tt, record h { netns = false });
  cni_setup =
      λ id path h. (if good then ok interfaces else err (failure "cni"), record h { lease = true });
  cni_remove =
      λ id path h. (removed_from h.netns, record h { lease = if h.netns then false else h.lease });
  has_netns = λ h id. h.netns;
  has_lease = λ h id. h.lease;
  netns_added = λ id h e. refl;
  netns_add_failed = λ id h e failed. added_failed h.netns e failed;
  netns_add_leases = λ id h. refl;
  cni_setup_netns = λ id path h. refl;
  cni_remove_netns = λ id path h. refl;
  cni_removed = λ id path h e. unleased h e;
  netns_deleted = λ id h e. refl;
  netns_del_leases = λ id h. refl;
}

abbrev bare : Wires
bare = record { netns = false; lease = false }

-- Setup leases an address, CNI fails, and the lease and the namespace are given back.
setup_network_clean_example : Left (wires false) "s1" (setup_network (wires false) "s1" bare)
setup_network_clean_example =
    setup_network_clean (wires false) (λ id path h e. removed_there h e) (λ id h e. refl) "s1" bare
      (refl, refl)

wired_first : (setup_network (wires true) "s1" bare).0 ≡ ok ("/var/run/netns/s1", "10.88.0.7")
unfolding setup_network
wired_first = refl

-- Of two VMMs and a shell, the one with the id is killed.
killed_one :
    killed_by "a1" (
      record { comm = "firecracker\n"; cmdline = "/firecracker --id b2"; pid = some 11 }
      ∷ record { comm = "bash\n"; cmdline = "bash --id a1"; pid = some 12 }
      ∷ record { comm = "firecracker\n"; cmdline = "/firecracker --id a1 --config"; pid = some 13 }
      ∷ [])
    ≡ 13 ∷ []
unfolding killed_by trim
killed_one = refl
