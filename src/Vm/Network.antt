-- ===== src/Vm/Network.antt =====
-- `Network` of internal/vm/manager.go: the network namespace of a VM.
use Prim.Native.String.{◌++◌ as append}
use sandbox_manager.Prelude.{
  ◌≡◌, refl, ◌∙◌, String, true, false, List, [], ◌∷◌, Option, none, some, Result, ok, err, wrap,
  Exec,
}
use sandbox_manager.Vm.Plumbing.{Plumbing}

abbrev pub netns_path : String → String
netns_path id = append "/var/run/netns/" id

-- The first IPv4 address, empty if there is none.
unfoldable pub first_ip : List (Option String) → Option String
first_ip [] = none
first_ip (some ip ∷ rest) = some ip
first_ip (none ∷ rest) = first_ip rest

unfoldable pub or_next : Option String → String → String
or_next (some ip) next = ip
or_next none next = next

unfoldable pub surfaced : List (List (Option String)) → String
unfolding first_ip or_next
surfaced [] = ""
surfaced (ips ∷ rest) = or_next (first_ip ips) (surfaced rest)

module _ (p : Plumbing) where
  open p use {Host, has_netns, has_lease}

  -- Teardown, in which every failure is ignored.
  unfoldable pub teardown_network : String → Host → Host
  teardown_network id h = (p.netns_del id (p.cni_remove id (netns_path id) h).1).1

  -- What Setup does with the answer of CNI.
  unfoldable pub wired :
      String → Result (List (List (Option String))) → Host → Result (String × String) × Host
  unfolding surfaced
  wired id (ok interfaces) h = (ok (netns_path id, surfaced interfaces), h)
  wired id (err e) h =
      (err (wrap "cni setup" e), (p.netns_del id (p.cni_remove id (netns_path id) h).1).1)

  unfoldable pub spaced : String → Result (Unit {0}) → Host → Result (String × String) × Host
  unfolding wired
  spaced id (ok done) h = let (r, h') = p.cni_setup id (netns_path id) h in wired id r h'
  spaced id (err e) h = (err (wrap "netns add" e), h)

  unfoldable pub setup_network : String → Exec Host (String × String)
  unfolding spaced
  setup_network id h = let (r, h') = p.netns_add id h in spaced id r h'

  -- A sandbox of which the host has neither a namespace nor a lease.
  abbrev pub IsUnplugged : String → Host → Type 0
  IsUnplugged id h = (has_netns h id ≡ false) × (has_lease h id ≡ false)

  abbrev pub Left : String → Result (String × String) × Host → Type 0
  Left id (ok wire, h) = IsUnplugged id (teardown_network id h)
  Left id (err e, h) = IsUnplugged id h

  module _
      (removes : (id path : String) (h : Host)
        → has_netns h id ≡ true
        → (p.cni_remove id path h).0 ≡ ok tt)
      (deletes : (id : String) (h : Host)
        → has_netns h id ≡ true
        → (p.netns_del id h).0 ≡ ok tt) where
    teardown_network-IsUnplugged :
        (id : String) (h : Host) → has_netns h id ≡ true → IsUnplugged id (teardown_network id h)
    unfolding teardown_network
    teardown_network-IsUnplugged id h there =
        let h1 = (p.cni_remove id (netns_path id) h).1 in
        let still = p.cni_remove_netns id (netns_path id) h ∙ there in
        (
          p.netns_deleted id h1 (deletes id h1 still),
          p.netns_del_leases id h1
              ∙ p.cni_removed id (netns_path id) h (removes id (netns_path id) h there),
        )

    wired-Left :
        (id : String) (r : Result (List (List (Option String)))) (h : Host)
        → has_netns h id ≡ true
        → Left id (wired id r h)
    unfolding wired teardown_network
    wired-Left id (ok interfaces) h there = teardown_network-IsUnplugged id h there
    wired-Left id (err e) h there = teardown_network-IsUnplugged id h there

    spaced-Left :
        (id : String) (r : Result (Unit {0})) (h : Host)
        → (p.netns_add id h).0 ≡ r
        → IsUnplugged id h
        → Left id (spaced id r (p.netns_add id h).1)
    unfolding spaced
    spaced-Left id (err e) h same bare =
        (p.netns_add_failed id h e same ∙ bare.0, p.netns_add_leases id h ∙ bare.1)
    spaced-Left id (ok done) h same bare =
        let h1 = (p.netns_add id h).1 in
        let there = p.cni_setup_netns id (netns_path id) h1 ∙ p.netns_added id h same in
        let asked = p.cni_setup id (netns_path id) h1 in wired-Left id asked.0 asked.1 there

    -- The network of a sandbox leaves nothing behind, if the calls that give it back can be made. Suppose
    -- the sandbox has neither a namespace nor a lease, and that CNI's Remove and `ip netns del` succeed
    -- for a namespace that is there; so the context of the calls has not ended. Then it has neither after a Setup that fails, at whichever step, nor after a Setup that
    -- returns followed by Teardown.
    pub setup_network_clean :
        (id : String) (h : Host) → IsUnplugged id h → Left id (setup_network id h)
    unfolding setup_network
    setup_network_clean id h bare = spaced-Left id (p.netns_add id h).0 h refl bare
