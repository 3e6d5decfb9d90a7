-- ===== src/Service/Healing.antt =====
-- The proofs about reconcileUserSlot and teardownDead (internal/service/service.go).
use sandbox_manager.Prelude.{
  ◌≡◌, refl, String, not, Option, none, some, arith, str_eq, Result, ok, err, pure, attempt,
}
use sandbox_manager.Sandbox.{Sandbox, error, reconciler, is_state}
use sandbox_manager.Store
use sandbox_manager.Store.Requests
use sandbox_manager.Service.World.{Platform, World, on_store}
use sandbox_manager.Service.Teardown.{
  is_live_no, is_live, vm_delete, delete, stale_dead, teardown_dead, release_orphan, orphan_deleted,
  heal_orphan, heal_holder, heal_slot, reconcile_user_slot,
}
use sandbox_manager.Service.Steps.{
  AllCovered, Keeps, Keeps-bind, Keeps-pure, Keeps-attempt, Keeps-if, Keeps-store, NoVm, OwnedBy,
  OwnedBy-Fewer,
}
use sandbox_manager.Service.Slots.{
  Keeps-read, Keeps-fetch, Keeps-is_live, Keeps-vm_delete, is_live-NoVm, vm_delete-NoVm,
  fetch-OwnedBy, Keeps-delete, Keeps-stale_dead, Keeps-teardown_dead,
}

module _ (p : Platform) where
  open p use {server}

  Keeps-release_orphan :
      (user_id id : String) (w : World p)
      → NoVm p id w
      → Keeps p w (release_orphan p user_id id w).1
  unfolding release_orphan
  Keeps-release_orphan user_id id w gone =
      let release = Store.release_user_slot server user_id id in
      Keeps-bind p (attempt (on_store p release)) _ w
        (Keeps-attempt p (on_store p release) w
          (Keeps-store p release w (Requests.release-IsCovered server user_id id w.link gone)))
        (λ _ _. Keeps-pure p tt _)

  Keeps-orphan_deleted :
      (user_id id : String) (deleted : Result (Unit {0})) (w : World p)
      → (deleted ≡ ok tt → NoVm p id w)
      → Keeps p w (orphan_deleted p user_id id deleted w).1
  unfolding orphan_deleted
  Keeps-orphan_deleted user_id id (ok tt) w gone = Keeps-release_orphan user_id id w (gone refl)
  Keeps-orphan_deleted user_id id (err e) w gone =
      Keeps-bind p (is_live p id) _ w (Keeps-is_live p id w) (λ live answer.
        Keeps-if p (is_live_no live) (release_orphan p user_id id) (pure tt) _
          (λ no_vm. Keeps-release_orphan user_id id _ (is_live-NoVm p id w live answer no_vm))
          (λ _. Keeps-pure p tt _))

  Keeps-heal_orphan : (user_id id : String) (w : World p) → Keeps p w (heal_orphan p user_id id w).1
  unfolding heal_orphan attempt
  Keeps-heal_orphan user_id id w = Keeps-bind p (is_live p id) _ w (Keeps-is_live p id w) (λ live _.
      let w1 = (is_live p id w).1 in
      Keeps-if p (not (is_live_no live)) _ _ w1 (λ _. Keeps-pure p tt w1)
        (λ _.
          Keeps-bind p (attempt (vm_delete p id)) (orphan_deleted p user_id id) w1
            (Keeps-attempt p (vm_delete p id) w1 (Keeps-vm_delete p id w1))
            (λ deleted e.
              Keeps-orphan_deleted user_id id deleted (vm_delete p id w1).1
                (λ done. vm_delete-NoVm p id w1 (ground arith)))))

  Keeps-heal_holder :
      (user_id id : String) (found : Result (Option Sandbox)) (w : World p)
      → AllCovered p w
      → ((sb : Sandbox) → found ≡ ok (some sb) → OwnedBy p sb w)
      → Keeps p w (heal_holder p user_id id found w).1
  unfolding heal_holder
  Keeps-heal_holder user_id id (err e) w h own = Keeps-pure p tt w
  Keeps-heal_holder user_id id (ok none) w h own = Keeps-heal_orphan user_id id w
  Keeps-heal_holder user_id id (ok (some sb)) w h own =
      Keeps-if p (is_state sb.state error) _ _ w
        (λ _.
          Keeps-bind p (attempt (delete p reconciler id)) _ w
            (Keeps-attempt p (delete p reconciler id) w (Keeps-delete p reconciler id w h))
            (λ _ _. Keeps-pure p tt _))
        (λ _. Keeps-bind p (stale_dead p sb) _ w (Keeps-stale_dead p sb w) (λ dead _.
          Keeps-if p dead (teardown_dead p sb) (pure tt) _
            (λ _.
              Keeps-teardown_dead p sb _
                (OwnedBy-Fewer p sb (Keeps-stale_dead p sb w).fewer (own sb refl)))
            (λ _. Keeps-pure p tt _)))

  Keeps-heal_slot :
      (user_id : String) (holder : Result String) (w : World p)
      → AllCovered p w
      → Keeps p w (heal_slot p user_id holder w).1
  unfolding heal_slot attempt on_store
  Keeps-heal_slot user_id (err e) w h = Keeps-pure p tt w
  Keeps-heal_slot user_id (ok id) w h =
      let read = on_store p (Store.fetch server id) in
      Keeps-if p (str_eq id "") _ _ w (λ _. Keeps-pure p tt w)
        (λ _.
          Keeps-bind p (attempt read) (heal_holder p user_id id) w
            (Keeps-attempt p read w (Keeps-fetch p id w))
            (λ found e.
              Keeps-heal_holder user_id id found (read w).1 ((Keeps-fetch p id w).covered h)
                (λ sb f.
                  OwnedBy-Fewer p sb (Keeps-fetch p id w).fewer
                    (fetch-OwnedBy p id w sb h (ground arith)).1)))

  -- reconcileUserSlot
  pub Keeps-reconcile_user_slot :
      (user_id : String) (w : World p)
      → AllCovered p w
      → Keeps p w (reconcile_user_slot p user_id w).1
  unfolding reconcile_user_slot
  Keeps-reconcile_user_slot user_id w h =
      let read = on_store p (Store.user_slot server user_id) in
      let first = Keeps-attempt p read w (
        Keeps-read p (Store.user_slot server user_id) w
          (Requests.user_slot-quiet server user_id w.link)) in
      Keeps-bind p (attempt read) (heal_slot p user_id) w first
        (λ holder _. Keeps-heal_slot user_id holder _ (first.covered h))
