-- ===== src/Service/Histories.antt =====
-- Any sequence of creates, deletes and slot healings, with whatever faults of Redis, the VM manager,
-- the home disks and the backend the platform brings.
use sandbox_manager.Prelude.{◌≡◌, String, some}
use sandbox_manager.Sandbox.{Resources, Identity}
use sandbox_manager.Store.Covers.{IsCovered-unique}
use sandbox_manager.Service.World.{Platform, World}
use sandbox_manager.Service.Teardown.{delete, reconcile_user_slot}
use sandbox_manager.Service.Create.{create}
use sandbox_manager.Service.Steps.{owner_of, AllCovered}
use sandbox_manager.Service.Slots.{Keeps-delete}
use sandbox_manager.Service.Healing.{Keeps-reconcile_user_slot}
use sandbox_manager.Service.Creation.{DrawsFresh, create-AllCovered}

module _ (p : Platform) where
  open p use {server}

  -- The states after a sequence of calls from `w` on.
  pub data History (w : World p) : World p → Type 0 where
    start : History w w
    creates :
        {v : World p} (caller : Identity) (template size : String) (resources : Resources)
        → History w v
        → DrawsFresh p v
        → History w (create p caller template size resources v).1
    deletes :
        {v : World p} (caller : Identity) (id : String)
        → History w v
        → History w (delete p caller id v).1
    heals :
        {v : World p} (user_id : String)
        → History w v
        → History w (reconcile_user_slot p user_id v).1

  History-AllCovered : {w v : World p} → History w v → AllCovered p w → AllCovered p v
  History-AllCovered start h = h
  History-AllCovered (creates {v} caller template size resources before fresh) h =
      create-AllCovered p caller template size resources v (History-AllCovered before h) fresh
  History-AllCovered (deletes {v} caller id before) h =
      let h1 = History-AllCovered before h in (Keeps-delete p caller id v h1).covered h1
  History-AllCovered (heals {v} user_id before) h =
      let h1 = History-AllCovered before h in (Keeps-reconcile_user_slot p user_id v h1).covered h1

  -- One VM per user: after any sequence of calls of Create, Delete and reconcileUserSlot from a state
  -- in which every VM is covered, each with any faults, two VMs that run for the same user are one.
  -- The condition is that each create draws an id that no running VM has.
  pub History-one_vm :
      {w v : World p} (i j user_id : String)
      → AllCovered p w
      → History w v
      → owner_of p v i ≡ some user_id
      → owner_of p v j ≡ some user_id
      → i ≡ j
  History-one_vm i j user_id h calls =
      IsCovered-unique server i j user_id (History-AllCovered calls h)
