-- ===== src/Service/Outcomes.antt =====
-- What Delete, AttachDevice and the healing of a slot leave behind.
use sandbox_manager.Prelude.{String}
use sandbox_manager.Sandbox.{Identity}
use sandbox_manager.Service.World.{Platform, World}
use sandbox_manager.Service.Teardown.{delete, reconcile_user_slot}
use sandbox_manager.Service.Requests.{attach_device, Keeps-attach_device}
use sandbox_manager.Service.Steps.{AllCovered, Fewer}
use sandbox_manager.Service.Slots.{Keeps-delete}
use sandbox_manager.Service.Healing.{Keeps-reconcile_user_slot}

module _ (p : Platform) where
  -- From a state in which every running VM has its owner's slot and record, Delete leads to such a
  -- state, whatever fails on the way, so it frees neither while the VM may run; and every VM that
  -- runs afterwards ran before, under the same owner.
  pub delete-AllCovered :
      (caller : Identity) (id : String) (w : World p)
      → AllCovered p w
      → AllCovered p (delete p caller id w).1 × Fewer p w (delete p caller id w).1
  delete-AllCovered caller id w h = let k = Keeps-delete p caller id w h in (k.covered h, k.fewer)

  -- From a state in which every running VM has its owner's slot and record, the healing of a user's
  -- slot leads to such a state, whatever fails on the way; and every VM that runs afterwards ran
  -- before, under the same owner.
  pub reconcile_user_slot-AllCovered :
      (user_id : String) (w : World p)
      → AllCovered p w
      → AllCovered p (reconcile_user_slot p user_id w).1
        × Fewer p w (reconcile_user_slot p user_id w).1
  reconcile_user_slot-AllCovered user_id w h =
      let k = Keeps-reconcile_user_slot p user_id w h in (k.covered h, k.fewer)

  -- From a state in which every running VM has its owner's slot and record, AttachDevice leads to
  -- such a state, whatever fails on the way; and every VM that runs afterwards ran before, under the
  -- same owner.
  pub attach_device-AllCovered :
      (caller : Identity) (id device_id : String) (w : World p)
      → AllCovered p w
      → AllCovered p (attach_device p caller id device_id w).1
        × Fewer p w (attach_device p caller id device_id w).1
  attach_device-AllCovered caller id device_id w h =
      let k = Keeps-attach_device p caller id device_id w h in (k.covered h, k.fewer)
