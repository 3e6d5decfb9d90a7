-- ===== src/Service/Upkeep.antt =====
-- The proofs about Reconcile (internal/service/service.go).
use sandbox_manager.Prelude.{
  eq_refl, ℕ, ◌≡◌, refl, String, false, List, [], ◌∷◌, arith, str_eq, ltb, ◌-◌, ◌>>◌, Result, ok,
  err, pure, attempt, All,
}
use sandbox_manager.Sandbox.{Sandbox, is_state, error, reconciler}
use sandbox_manager.Store
use sandbox_manager.Store.{fetch, list, collect, keep_found, user_slot}
use sandbox_manager.Store.Requests
use sandbox_manager.Store.Listing.{list-Owns, user_slot-holder}
use sandbox_manager.Service.World.{Platform, World, Do, on_store, on_vms}
use sandbox_manager.Service.Teardown.{now, delete, stale_dead}
use sandbox_manager.Service.Reconcile.{
  error_gc_millis, collect_error, reconcile_error, reconcile_one, reconcile_each, reconcile,
  reconcile_round,
}
use sandbox_manager.Service.Steps.{
  AllCovered, Fewer, Keeps, Keeps-bind, Keeps-pure, Keeps-attempt, Keeps-if, Keeps-on_vms, owner_of,
  NoVm, NoVm-Fewer, OwnedBy, OwnedBy-Fewer,
}
use sandbox_manager.Service.Slots.{
  Keeps-store_delete, Keeps-read, Keeps-now, Keeps-delete, Keeps-stale_dead, Keeps-teardown_dead,
}
use sandbox_manager.Service.Listeners.{Keeps-list, Keeps-reconcile_ssh}

module _ (p : Platform) where
  open p use {server, manager}

  Keeps-user_slot : (u : String) (w : World p) → Keeps p w (on_store p (user_slot server u) w).1
  Keeps-user_slot u w =
      Keeps-read p (user_slot server u) w (Requests.user_slot-quiet server u w.link)

  Keeps-collect_error :
      (sb : Sandbox) (w : World p) → NoVm p sb.id w → Keeps p w (collect_error p sb w).1
  unfolding collect_error
  Keeps-collect_error sb w gone = Keeps-bind p (now p) _ w (Keeps-now p w) (λ t _.
      let w1 = (now p w).1 in
      let drop = on_store p (Store.delete server sb.id) in
      Keeps-if p (ltb error_gc_millis (t - sb.last_activity)) (do attempt drop; pure tt) (pure tt)
        w1
        (λ _.
          Keeps-bind p (attempt drop) (λ _. pure tt) w1
            (Keeps-attempt p drop w1
              (Keeps-store_delete p sb.id w1 (NoVm-Fewer p sb.id (Keeps-now p w).fewer gone)))
            (λ _ _. Keeps-pure p tt _))
        (λ _. Keeps-pure p tt w1))

  -- A user's slot names another sandbox, so no VM runs under this one's id.
  unheld-NoVm :
      (sb : Sandbox) (holder : String) (w : World p)
      → AllCovered p w
      → OwnedBy p sb w
      → (user_slot server sb.user_id w.link).0 ≡ ok holder
      → str_eq holder sb.id ≡ false
      → NoVm p sb.id w
  unheld-NoVm sb holder w h own slot other u r =
      let held = (h.covers sb.id u r).slot in
      let same =
        user_slot-holder server sb.user_id holder sb.id w.link slot
          (ground (arith, own u r, held)) in
      absurd (ground (arith, eq_refl sb.id))

  Keeps-reconcile_error :
      (sb : Sandbox) (r : Result String) (w : World p)
      → AllCovered p w
      → ((holder : String) → r ≡ ok holder → str_eq holder sb.id ≡ false → NoVm p sb.id w)
      → Keeps p w (reconcile_error p sb r w).1
  unfolding reconcile_error
  Keeps-reconcile_error sb (err e) w h gone = Keeps-pure p tt w
  Keeps-reconcile_error sb (ok holder) w h gone =
      Keeps-if p (str_eq holder sb.id) _ _ w
        (λ _.
          Keeps-bind p (attempt (delete p reconciler sb.id)) _ w
            (Keeps-attempt p (delete p reconciler sb.id) w (Keeps-delete p reconciler sb.id w h))
            (λ _ _. Keeps-pure p tt _))
        (λ other. Keeps-collect_error sb w (gone holder refl other))

  slot_answer :
      (u holder : String) (w : World p) (r : Result String)
      → (attempt (on_store p (user_slot server u)) w).0 ≡ ok r
      → r ≡ ok holder
      → (user_slot server u w.link).0 ≡ ok holder
  unfolding attempt on_store
  slot_answer u holder w r e f = ground arith

  Keeps-reconcile_one :
      (sb : Sandbox) (w : World p)
      → AllCovered p w
      → OwnedBy p sb w
      → Keeps p w (reconcile_one p sb w).1
  unfolding reconcile_one attempt on_store reconcile_error
  Keeps-reconcile_one sb w h own =
      let ask = on_store p (user_slot server sb.user_id) in
      let asked = Keeps-user_slot sb.user_id w in
      Keeps-if p (is_state sb.state error) _ _ w
        (λ _. Keeps-bind p (attempt ask) _ w (Keeps-attempt p ask w asked) (λ r e.
          Keeps-reconcile_error sb r (ask w).1 (asked.covered h) (λ holder f other.
            NoVm-Fewer p sb.id asked.fewer
              (unheld-NoVm sb holder w h own (slot_answer sb.user_id holder w r e f) other))))
        (λ _. Keeps-bind p (stale_dead p sb) _ w (Keeps-stale_dead p sb w) (λ dead _.
          let w1 = (stale_dead p sb w).1 in
          Keeps-if p dead _ _ w1
            (λ _.
              Keeps-teardown_dead p sb w1 (OwnedBy-Fewer p sb (Keeps-stale_dead p sb w).fewer own))
            (λ _. Keeps-pure p tt w1)))

  All-Fewer :
      {w w' : World p} (sbs : List Sandbox)
      → Fewer p w w'
      → All (λ sb. OwnedBy p sb w) sbs
      → All (λ sb. OwnedBy p sb w') sbs
  All-Fewer [] f own = tt
  All-Fewer (sb ∷ rest) f (one, own) = (OwnedBy-Fewer p sb f one, All-Fewer rest f own)

  Keeps-reconcile_each :
      (sbs : List Sandbox) (w : World p)
      → AllCovered p w
      → All (λ sb. OwnedBy p sb w) sbs
      → Keeps p w (reconcile_each p sbs w).1
  unfolding reconcile_each
  Keeps-reconcile_each [] w h own = Keeps-pure p tt w
  Keeps-reconcile_each (sb ∷ rest) w h (one, own) =
      let first = Keeps-reconcile_one sb w h one in
      Keeps-bind p (reconcile_one p sb) _ w first (λ _ _.
        Keeps-reconcile_each rest (reconcile_one p sb w).1 (first.covered h)
          (All-Fewer rest first.fewer own))

  Keeps-reconcile : (w : World p) → AllCovered p w → Keeps p w (reconcile p w).1
  unfolding reconcile on_store
  Keeps-reconcile w h =
      let asked = Keeps-list p w in
      let w1 = (on_store p (list server "") w).1 in
      Keeps-bind p (on_store p (list server "")) _ w asked (λ all e.
        let own = list-Owns server (owner_of p w) "" w.link all h e in
        Keeps-bind p (reconcile_each p all) _ w1
          (Keeps-reconcile_each all w1 (asked.covered h) (All-Fewer all asked.fewer own))
          (λ _ _. Keeps-reconcile_ssh p _))

  -- From a state in which the running VMs are covered, a round of the reconcile loop ends in one,
  -- whatever of it fails, and starts no VM.
  pub reconcile_round-AllCovered :
      (w : World p)
      → AllCovered p w
      → AllCovered p (reconcile_round p w).1 × Fewer p w (reconcile_round p w).1
  unfolding reconcile_round
  reconcile_round-AllCovered w h = (kept.covered h, kept.fewer)
    where
      sweep : Do p ℕ
      sweep = on_vms p manager.cleanup_stopped

      kept : Keeps p w (reconcile_round p w).1
      kept =
          Keeps-bind p (attempt (reconcile p)) _ w
            (Keeps-attempt p (reconcile p) w (Keeps-reconcile w h))
            (λ _ _.
              Keeps-bind p (attempt sweep) (λ _. pure tt) _
                (Keeps-attempt p sweep _
                  (Keeps-on_vms p manager.cleanup_stopped _ (manager.cleanup_stopped_starts _)))
                (λ _ _. Keeps-pure p tt _))
