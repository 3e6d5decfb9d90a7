-- ===== src/Service/Slots.antt =====
-- The proofs about Get, Delete and the teardowns (internal/service/service.go).
use sandbox_manager.Prelude.{
  ◌≡◌, refl, sym, ap, ◌∙◌, String, true, false, not, Option, none, some, arith, str_eq,
  if◌then◌else◌, Result-cases, inl, inr, Result, ok, err, pure, raise, attempt, ◌>>=◌, subst,
}
use sandbox_manager.Sandbox.{Sandbox, terminating, error, Identity, is_active}
use sandbox_manager.Redis.{Link, now_millis}
use sandbox_manager.Store
use sandbox_manager.Store.Requests
use sandbox_manager.Store.Covers.{IsCovered}
use sandbox_manager.Vm.{Liveness, live_no}
use sandbox_manager.Service.World.{
  Platform, World, on_store, on_vms, ask_vms, on_relay, ssh_connections,
}
use sandbox_manager.Service.Teardown.{
  is_live_no, now, is_live, vm_delete, put, relay_close, authorize, get, finish_deleted,
  finish_teardown, delete, in_grace, stale_dead, teardown_dead,
}
use sandbox_manager.Service.Steps.{
  owner_of, AllCovered, Keeps, Keeps-refl, Keeps-bind, Keeps-pure, Keeps-raise, Keeps-attempt,
  Keeps-if, Keeps-store, Keeps-on_vms, Keeps-ask_vms, NoVm, OwnedBy, OwnedBy-Fewer,
}

module _ (p : Platform) where
  open p use {server, manager}

  -- A request that leaves the database as it is.
  pub Keeps-read :
      {A : Type 0} (m : Link server → Result A × Link server) (w : World p)
      → (m w.link).1.db ≡ w.link.db
      → Keeps p w (on_store p m w).1
  Keeps-read m w e = Keeps-store p m w (λ h. subst (IsCovered server (owner_of p w)) (sym e) h)

  pub Keeps-now : (w : World p) → Keeps p w (now p w).1
  unfolding now now_millis
  Keeps-now w = Keeps-read (now_millis server) w refl

  pub Keeps-is_live : (id : String) (w : World p) → Keeps p w (is_live p id w).1
  unfolding is_live
  Keeps-is_live id w = Keeps-ask_vms p (manager.is_live id) w (manager.is_live_starts id w.vms)

  pub Keeps-vm_delete : (id : String) (w : World p) → Keeps p w (vm_delete p id w).1
  unfolding vm_delete
  Keeps-vm_delete id w = Keeps-on_vms p (manager.delete id) w (manager.delete_starts id w.vms)

  pub Keeps-relay_close : (id : String) (w : World p) → Keeps p w (relay_close p id w).1
  unfolding relay_close on_relay
  Keeps-relay_close id w = record { covered = λ h. h; fewer = record { runs = λ j u e. e } }

  pub Keeps-ssh_connections : (id : String) (w : World p) → Keeps p w (ssh_connections p id w).1
  unfolding ssh_connections
  Keeps-ssh_connections id w = Keeps-refl p w

  -- The record of a sandbox whose VM is gone can be dropped.
  pub Keeps-store_delete :
      (id : String) (w : World p)
      → NoVm p id w
      → Keeps p w (on_store p (Store.delete server id) w).1
  Keeps-store_delete id w gone =
      Keeps-store p (Store.delete server id) w (Requests.delete-IsCovered server id w.link gone)

  is_live_no-eq : (live : Liveness) → is_live_no live ≡ true → live ≡ live_no
  is_live_no-eq live e = ground arith

  -- IsLive says definitely not, so no VM runs.
  pub is_live-NoVm :
      (id : String) (w : World p) (live : Liveness)
      → (is_live p id w).0 ≡ ok live
      → is_live_no live ≡ true
      → NoVm p id (is_live p id w).1
  unfolding is_live ask_vms
  is_live-NoVm id w live e gone u r =
      cc (manager.is_live_gone id w.vms (ground (arith, is_live_no-eq live gone)))

  pub vm_delete-NoVm :
      (id : String) (w : World p) → (vm_delete p id w).0 ≡ ok tt → NoVm p id (vm_delete p id w).1
  unfolding vm_delete on_vms
  vm_delete-NoVm id w e u r = cc (manager.delete_gone id w.vms e)

  Keeps-finish_deleted :
      (id : String) (deleted : Result (Unit {0})) (w : World p)
      → (deleted ≡ ok tt → NoVm p id w)
      → Keeps p w (finish_deleted p id deleted w).1
  unfolding finish_deleted
  Keeps-finish_deleted id (ok tt) w gone = Keeps-store_delete id w (gone refl)
  Keeps-finish_deleted id (err e) w gone =
      Keeps-bind p (is_live p id) _ w (Keeps-is_live id w) (λ live answer.
        Keeps-if p (is_live_no live) (on_store p (Store.delete server id)) (raise e) _
          (λ no_vm. Keeps-store_delete id _ (is_live-NoVm id w live answer no_vm))
          (λ _. Keeps-raise p (Unit {0}) e _))

  -- finishTeardown keeps the slot until the VM is gone.
  pub Keeps-finish_teardown : (sb : Sandbox) (w : World p) → Keeps p w (finish_teardown p sb w).1
  unfolding finish_teardown attempt
  Keeps-finish_teardown sb w =
      Keeps-bind p (attempt (vm_delete p sb.id)) (finish_deleted p sb.id) w
        (Keeps-attempt p (vm_delete p sb.id) w (Keeps-vm_delete sb.id w))
        (λ deleted e.
          Keeps-finish_deleted sb.id deleted (vm_delete p sb.id w).1
            (λ done. vm_delete-NoVm sb.id w (ground arith)))

  pub Keeps-put : (sb : Sandbox) (w : World p) → OwnedBy p sb w → Keeps p w (put p sb w).1
  unfolding put
  Keeps-put sb w own =
      Keeps-store p (Store.put server sb) w (Requests.put-IsCovered server sb w.link own)

  Keeps-authorize :
      (caller : Identity) (found : Option Sandbox) (w : World p)
      → Keeps p w (authorize p caller found w).1
  unfolding authorize pure raise
  Keeps-authorize caller none w = Keeps-refl p w
  Keeps-authorize caller (some sb) w = ground (arith, Keeps-refl p w)

  pub Keeps-fetch : (id : String) (w : World p) → Keeps p w (on_store p (Store.fetch server id) w).1
  Keeps-fetch id w = Keeps-read (Store.fetch server id) w (Requests.fetch-quiet server id w.link)

  pub Keeps-get : (caller : Identity) (id : String) (w : World p) → Keeps p w (get p caller id w).1
  unfolding get
  Keeps-get caller id w =
      Keeps-bind p (on_store p (Store.fetch server id)) _ w (Keeps-fetch id w) (λ found _.
        Keeps-bind p (authorize p caller found) _ _ (Keeps-authorize caller found _) (λ sb _.
          Keeps-bind p (ssh_connections p sb.id) _ _ (Keeps-ssh_connections sb.id _)
            (λ n _. Keeps-pure p _ _)))

  -- The sandbox that Get returns, but for the connections, is the one in the store.
  get-fetched :
      (caller : Identity) (id : String) (w : World p) (sb : Sandbox)
      → (get p caller id w).0 ≡ ok sb
      → (stored : Sandbox) × ((Store.fetch server id w.link).0 ≡ ok (some stored))
        × (sb.id ≡ stored.id)
        × (sb.user_id ≡ stored.user_id)
  unfolding get authorize on_store ssh_connections ◌>>=◌ pure raise
  get-fetched caller id w sb e = elim (Result-cases (Store.fetch server id w.link).0) [
    | inr (bad, f) ↦ absurd (grind arith)
    | inl (none, f) ↦ absurd (grind arith)
    | inl (some stored, f) ↦ (stored, f, ground arith, ground arith)
  ]

  pub fetch-OwnedBy :
      (id : String) (w : World p) (sb : Sandbox)
      → AllCovered p w
      → (Store.fetch server id w.link).0 ≡ ok (some sb)
      → (sb.id ≡ id) × OwnedBy p sb w
  fetch-OwnedBy id w sb h e = Requests.fetch-Owns server id w.link sb h e

  get-OwnedBy :
      (caller : Identity) (id : String) (w : World p) (sb : Sandbox)
      → AllCovered p w
      → (get p caller id w).0 ≡ ok sb
      → OwnedBy p sb w
  get-OwnedBy caller id w sb h e =
      let (stored, f, ids, users) = get-fetched caller id w sb e in
      let (named, own) = fetch-OwnedBy id w stored h f in
      λ u r. users ∙ own u (ap (owner_of p w) (sym ids) ∙ r)

  -- Delete, by whoever may see the sandbox.
  pub Keeps-delete :
      (caller : Identity) (id : String) (w : World p)
      → AllCovered p w
      → Keeps p w (delete p caller id w).1
  unfolding delete
  Keeps-delete caller id w h = Keeps-bind p (get p caller id) _ w (Keeps-get caller id w) (λ sb e.
      let w1 = (get p caller id w).1 in
      let own = OwnedBy-Fewer p sb (Keeps-get caller id w).fewer (get-OwnedBy caller id w sb h e) in
      Keeps-bind p (now p) _ w1 (Keeps-now w1) (λ t _.
        let w2 = (now p w1).1 in
        let marked = record sb { state = terminating; last_activity = t } in
        Keeps-bind p (put p marked) _ w2
          (Keeps-put marked w2 (OwnedBy-Fewer p marked (Keeps-now w1).fewer own))
          (λ _ _.
            Keeps-bind p (relay_close p id) _ _ (Keeps-relay_close id _)
              (λ _ _. Keeps-finish_teardown marked _))))

  pub Keeps-stale_dead : (sb : Sandbox) (w : World p) → Keeps p w (stale_dead p sb w).1
  unfolding stale_dead
  Keeps-stale_dead sb w =
      Keeps-if p (not (is_active sb)) _ _ w (λ _. Keeps-pure p false w)
        (λ _. Keeps-bind p (now p) _ w (Keeps-now w) (λ t _.
          Keeps-if p (in_grace p sb t) _ _ _ (λ _. Keeps-pure p false _)
            (λ _.
              Keeps-bind p (is_live p sb.id) _ _ (Keeps-is_live sb.id _)
                (λ live _. Keeps-pure p (is_live_no live) _))))

  pub Keeps-teardown_dead :
      (sb : Sandbox) (w : World p) → OwnedBy p sb w → Keeps p w (teardown_dead p sb w).1
  unfolding teardown_dead
  Keeps-teardown_dead sb w own =
      let tail = ask_vms p (manager.guest_log_tail sb.id 512) in
      let first =
        Keeps-ask_vms p (manager.guest_log_tail sb.id 512) w
          (manager.guest_log_tail_starts sb.id 512 w.vms) in
      Keeps-bind p tail _ w first (λ text _.
        let w1 = (tail w).1 in
        Keeps-bind p (now p) _ w1 (Keeps-now w1) (λ t _.
          let w2 = (now p w1).1 in
          let dead = record sb {
            state = error;
            error_text = if str_eq text "" then "VM exited before it came online" else text;
            last_activity = t;
          } in
          Keeps-bind p (attempt (put p dead)) _ w2
            (Keeps-attempt p (put p dead) w2 (
              Keeps-put dead w2
                (OwnedBy-Fewer p dead (Keeps-now w1).fewer (OwnedBy-Fewer p dead first.fewer own))))
            (λ _ _. Keeps-bind p (relay_close p sb.id) _ _ (Keeps-relay_close sb.id _) (λ _ _.
              Keeps-bind p (attempt (finish_teardown p sb)) _ _
                (Keeps-attempt p (finish_teardown p sb) _ (Keeps-finish_teardown sb _))
                (λ _ _. Keeps-pure p tt _)))))
