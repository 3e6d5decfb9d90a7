-- ===== src/Vm/Plumbing.antt =====
-- What `Network` of internal/vm/manager.go relies on of `ip netns` and of go-cni.
use sandbox_manager.Prelude.{◌≡◌, String, Bool, true, false, List, Option, ok, err, Error, Exec}

pub record Plumbing : Type 1 where
  pub Host : Type 0
  pub netns_add : String → Exec Host (Unit {0})
  pub netns_del : String → Exec Host (Unit {0})
  -- Setup, with the addresses of each interface in the order in which Go runs through them, each as
  -- To4 and String give it; and Remove.
  pub cni_setup : String → String → Exec Host (List (List (Option String)))
  pub cni_remove : String → String → Exec Host (Unit {0})
  -- The namespace, and what CNI holds for it: the lease, the devices and the rules.
  pub has_netns : Host → String → Bool
  pub has_lease : Host → String → Bool
  pub netns_added :
      (id : String) (h : Host) → (netns_add id h).0 ≡ ok tt → has_netns (netns_add id h).1 id ≡ true
  pub netns_add_failed :
      (id : String) (h : Host) (e : Error)
      → (netns_add id h).0 ≡ err e
      → has_netns (netns_add id h).1 id ≡ has_netns h id
  pub netns_add_leases : (id : String) (h : Host) → has_lease (netns_add id h).1 id ≡ has_lease h id
  pub cni_setup_netns :
      (id path : String) (h : Host) → has_netns (cni_setup id path h).1 id ≡ has_netns h id
  pub cni_remove_netns :
      (id path : String) (h : Host) → has_netns (cni_remove id path h).1 id ≡ has_netns h id
  pub cni_removed :
      (id path : String) (h : Host)
      → (cni_remove id path h).0 ≡ ok tt
      → has_lease (cni_remove id path h).1 id ≡ false
  pub netns_deleted :
      (id : String) (h : Host)
      → (netns_del id h).0 ≡ ok tt
      → has_netns (netns_del id h).1 id ≡ false
  pub netns_del_leases : (id : String) (h : Host) → has_lease (netns_del id h).1 id ≡ has_lease h id
