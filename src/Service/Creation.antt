-- ===== src/Service/Creation.antt =====
-- The proofs about Create (internal/service/service.go): what each stretch of it does to the slots
-- and records of running VMs.
use sandbox_manager.Prelude.{
  ℕ, suc, ◌≤◌, ◌≡◌, refl, sym, ap, ◌∙◌, String, Option, none, some, arith, ltb, leb, if◌then◌else◌,
  Result, ok, err, Error, continue, wrap, pure, raise, attempt, lift, ◌>>=◌, subst, Bool-cases, inl,
  inr,
}
use sandbox_manager.Sandbox.{Sandbox, Resources, Identity, running, error}
use sandbox_manager.Redis.{now_millis}
use sandbox_manager.Store
use sandbox_manager.Store.Requests
use sandbox_manager.Store.Covers.{IsCovered, fewer-IsCovered, Covers}
use sandbox_manager.Vm.{Spec}
use sandbox_manager.Vm.Sizes.{clamp, memory_for}
use sandbox_manager.Host.{mem_available_mib, disk_usage_percent, max_disk_percent}
use sandbox_manager.Admission.{Gate, admit}
use sandbox_manager.Service.World.{
  Platform, World, Do, on_store, on_vms, on_homes, ask_homes, observe, fallible, on_gate, err_quota,
  err_anonymous, device_name_for,
}
use sandbox_manager.Service.Teardown.{now, put, finish_teardown, reconcile_user_slot}
use sandbox_manager.Service.Create.{
  Order, refuse_full, check_disk, admit_create, release_gate, count_rejected, fail_create,
  home_size, record_running, booted, minted, ensured, shrink_first, boot, retry_reserve,
  create_admitted, admitted, create,
}
use sandbox_manager.Service.Steps.{
  owner_of, AllCovered, Keeps, Keeps-trans, Keeps-bind, Keeps-pure, Keeps-raise, Keeps-attempt,
  Keeps-store, Keeps-on_vms, NoVm, OwnedBy, NoVm-Fewer, OwnedBy-Fewer,
}
use sandbox_manager.Service.Slots.{Keeps-now, Keeps-put, Keeps-finish_teardown}
use sandbox_manager.Service.Healing.{Keeps-reconcile_user_slot}

module _ (p : Platform) where
  open p use {server, manager, home_store}

  -- What touches neither the database nor the VMs.
  pub record Still (w w' : World p) : Type 0 where
    pub same_db : w'.link.db ≡ w.link.db
    pub same_vms : w'.vms ≡ w.vms

  Still-AllCovered : {w w' : World p} → Still w w' → AllCovered p w → AllCovered p w'
  Still-AllCovered {w} {w'} s h =
      subst (λ d. IsCovered server (owner_of p w') d) (sym s.same_db)
        (fewer-IsCovered server (λ id u e. ap (λ v. manager.running v id) (sym s.same_vms) ∙ e) h)

  pub Keeps-Still : {w w' : World p} → Still w w' → Keeps p w w'
  Keeps-Still {w} {w'} s = record {
    covered = λ h. Still-AllCovered s h;
    fewer = record { runs = λ id u e. ap (λ v. manager.running v id) (sym s.same_vms) ∙ e };
  }

  -- The state in which the VM is created: its slot and record are there, and no VM is.
  pub record IsReserved (order : Order) (sb : Sandbox) (w : World p) : Type 0 where
    pub covered : AllCovered p w
    pub slot : Covers server w.link.db sb.id order.user_id
    pub vacant : NoVm p sb.id w
    pub owner : sb.user_id ≡ order.user_id

  -- The rest of a method that ends covered on whatever the first action returned.
  covered-bind :
      {A B : Type 0} (m : Do p A) (f : A → Do p B) (w : World p)
      → AllCovered p (m w).1
      → ((a : A) → (m w).0 ≡ ok a → AllCovered p (f a (m w).1).1)
      → AllCovered p ((m >>= f) w).1
  unfolding ◌>>=◌
  covered-bind {A} {B} m f w first rest = go (m w).0 refl
    where
      go : (r : Result A) → (m w).0 ≡ r → AllCovered p (continue r f (m w).1).1
      go (ok a) e = rest a e
      go (err e') e = first

  -- failCreate, where no VM of the sandbox runs.
  Keeps-fail_create :
      (sb : Sandbox) (e : Error) (w : World p) → NoVm p sb.id w → Keeps p w (fail_create p sb e w).1
  unfolding fail_create
  Keeps-fail_create sb e w gone =
      let failed = record sb { state = error; error_text = e.message } in
      let first =
        Keeps-attempt p (put p failed) w (Keeps-put p failed w (λ u r. absurd (gone u r))) in
      let release = Store.release_user_slot server sb.user_id sb.id in
      let w1 = (attempt (put p failed) w).1 in
      Keeps-bind p (attempt (put p failed)) _ w first (λ _ _.
        Keeps-bind p (attempt (on_store p release)) _ w1
          (Keeps-attempt p (on_store p release) w1 (
            Keeps-store p release w1 (
              Requests.release-IsCovered server sb.user_id sb.id w1.link
                (NoVm-Fewer p {w = w} sb.id first.fewer gone))))
          (λ _ _. Keeps-pure p tt _))

  Keeps-record_running :
      (sb : Sandbox) (stored : Result (Unit {0})) (w : World p)
      → Keeps p w (record_running p sb stored w).1
  unfolding record_running
  Keeps-record_running sb (ok _) w =
      let count = Store.inc_created server in
      Keeps-bind p (attempt (on_store p count)) _ w
        (Keeps-attempt p (on_store p count) w
          (Keeps-store p count w (Requests.inc_created-IsCovered server w.link)))
        (λ _ _. Keeps-pure p sb _)
  Keeps-record_running sb (err e) w =
      Keeps-bind p (attempt (finish_teardown p sb)) _ w
        (Keeps-attempt p (finish_teardown p sb) w (Keeps-finish_teardown p sb w))
        (λ _ _. Keeps-raise p Sandbox (wrap "persist running sandbox" e) _)

  Keeps-booted :
      (sb : Sandbox) (created : Result String) (w : World p)
      → OwnedBy p sb w
      → ((e : Error) → created ≡ err e → NoVm p sb.id w)
      → Keeps p w (booted p sb created w).1
  unfolding booted
  Keeps-booted sb (err e) w own gone =
      Keeps-bind p (fail_create p sb e) _ w (Keeps-fail_create sb e w (gone e refl))
        (λ _ _. Keeps-raise p Sandbox e _)
  Keeps-booted sb (ok ip) w own gone = Keeps-bind p (now p) _ w (Keeps-now p w) (λ t _.
      let w1 = (now p w).1 in
      let running_sb = record sb { state = running; ip_address = ip; last_activity = t } in
      let commit = Store.put_running server running_sb in
      let own1 = OwnedBy-Fewer p {w = w} running_sb (Keeps-now p w).fewer own in
      Keeps-bind p (attempt (on_store p commit)) _ w1
        (Keeps-attempt p (on_store p commit) w1
          (Keeps-store p commit w1 (Requests.put_running-IsCovered server running_sb w1.link own1)))
        (λ stored _. Keeps-record_running running_sb stored _))

  IsReserved-Still :
      {order : Order} {sb : Sandbox} {w w' : World p}
      → Still w w'
      → IsReserved order sb w
      → IsReserved order sb w'
  IsReserved-Still {order} {sb} {w} {w'} s h = record {
    covered = Still-AllCovered s h.covered;
    slot = subst (λ d. Covers server d sb.id order.user_id) (sym s.same_db) h.slot;
    vacant = NoVm-Fewer p {w = w} {w' = w'} sb.id (Keeps-Still {w = w} {w' = w'} s).fewer h.vacant;
    owner = h.owner;
  }

  abbrev spec_of : Order → Sandbox → String → String → Spec
  spec_of order sb home_img token = record {
    id = sb.id;
    user_id = order.user_id;
    template = order.template;
    size = order.size;
    resources = order.resources;
    enroll_token = token;
    home_img = home_img;
    device_name = device_name_for p order.user_id;
  }

  -- The VM that a create may have started is covered by the reservation.
  created-AllCovered :
      (order : Order) (sb : Sandbox) (home_img token : String) (w : World p)
      → IsReserved order sb w
      → AllCovered p (on_vms p (manager.create (spec_of order sb home_img token)) w).1
  unfolding on_vms
  created-AllCovered order sb home_img token w h = record {
    covers = λ id u e. elim (manager.create_starts (spec_of order sb home_img token) w.vms id u e) [
      | inl before ↦ h.covered.covers id u before
      | inr (same_id, same_user, _, _) ↦
          subst (λ i. Covers server w.link.db i u) (sym same_id)
            (subst (Covers server w.link.db sb.id) (sym same_user) h.slot)
    ];
    at_id = h.covered.at_id;
  }

  -- The VM that runs under the new id after the create is the order's, and the create succeeded.
  created-starts :
      (order : Order) (sb : Sandbox) (home_img token : String) (w : World p) (u : String)
      → IsReserved order sb w
      → owner_of p (on_vms p (manager.create (spec_of order sb home_img token)) w).1 sb.id ≡ some u
      → (sb.user_id ≡ u)
        × ((ip : String) × ((on_vms p (manager.create (spec_of order sb home_img token)) w).0
              ≡ ok ip))
  unfolding on_vms
  created-starts order sb home_img token w u h e =
      elim (manager.create_starts (spec_of order sb home_img token) w.vms sb.id u e) [
        | inl before ↦ absurd (h.vacant u before)
        | inr (_, same_user, ip, done) ↦ (h.owner ∙ sym same_user, (ip, done))
      ]

  minted-AllCovered :
      (order : Order) (sb : Sandbox) (home_img : String) (token : Result String) (w : World p)
      → IsReserved order sb w
      → AllCovered p (minted p order sb home_img token w).1
  unfolding minted attempt
  minted-AllCovered order sb home_img (err e) w h =
      (Keeps-bind p (fail_create p sb e) _ w (Keeps-fail_create sb e w h.vacant)
          (λ _ _. Keeps-raise p Sandbox (wrap "mint enroll token" e) _)).covered
        h.covered
  minted-AllCovered order sb home_img (ok token) w h =
      let start = on_vms p (manager.create (spec_of order sb home_img token)) in
      covered-bind (attempt start) (booted p sb) w (created-AllCovered order sb home_img token w h)
        (λ created e.
          (Keeps-booted sb created (start w).1
              (λ u r. (created-starts order sb home_img token w u h r).0)
              (λ e' bad u r.
                let done = (created-starts order sb home_img token w u h r).1.1 in
                absurd (ground (arith, done)))).covered
            (created-AllCovered order sb home_img token w h))

  ensured-AllCovered :
      (order : Order) (sb : Sandbox) (image : Result String) (w : World p)
      → IsReserved order sb w
      → AllCovered p (ensured p order sb image w).1
  unfolding ensured ◌>>=◌ attempt ask_homes fallible
  ensured-AllCovered order sb (err e) w h =
      (Keeps-bind p (fail_create p sb e) _ w (Keeps-fail_create sb e w h.vacant)
          (λ _ _. Keeps-raise p Sandbox (wrap "ensure home disk" e) _)).covered
        h.covered
  ensured-AllCovered order sb (ok home_img) w h =
      minted-AllCovered order _ home_img _ _
        (record { covered = h.covered; slot = h.slot; vacant = h.vacant; owner = h.owner })

  shrink_first-Still : (order : Order) (w : World p) → Still w (shrink_first p order w).1
  unfolding shrink_first ◌>>=◌ attempt on_homes pure
  shrink_first-Still order w = elim (Bool-cases (ltb 0 order.resources.disk_mib)) [
    | inl e ↦ rw (e, shrink_first) (record { same_db = refl; same_vms = refl })
    | inr e ↦ rw (e, shrink_first) (record { same_db = refl; same_vms = refl })
  ]

  ensure_disk-Still :
      (user_id : String) (mib : ℕ) (w : World p)
      → Still w (attempt (on_homes p (home_store.ensure_disk user_id mib)) w).1
  unfolding attempt on_homes
  ensure_disk-Still user_id mib w = record { same_db = refl; same_vms = refl }

  boot-AllCovered :
      (order : Order) (sb : Sandbox) (w : World p)
      → IsReserved order sb w
      → AllCovered p (boot p order sb w).1
  unfolding boot
  boot-AllCovered order sb w h =
      let s = shrink_first-Still order w in
      let h1 = IsReserved-Still s h in
      covered-bind (shrink_first p order) _ w (Still-AllCovered s h.covered) (λ _ _.
        let image = on_homes p (home_store.ensure_disk order.user_id (home_size p order)) in
        let w1 = (shrink_first p order w).1 in
        let t = ensure_disk-Still order.user_id (home_size p order) w1 in
        covered-bind (attempt image) (ensured p order sb) w1 (Still-AllCovered t h1.covered)
          (λ r _. ensured-AllCovered order sb r _ (IsReserved-Still t h1)))

  -- With the slot reserved the VM is created; without, the rest is run.
  reserved-AllCovered :
      (order : Order) (sb : Sandbox) (other : Do p Sandbox) (w : World p)
      → sb.user_id ≡ order.user_id
      → AllCovered p w
      → NoVm p sb.id w
      → ((w' : World p) → AllCovered p w' → NoVm p sb.id w' → AllCovered p (other w').1)
      → AllCovered p
          ((on_store p (Store.reserve_user_slot server sb) >>= λ reserved.
              if reserved then boot p order sb else other)
            w).1
  unfolding on_store
  reserved-AllCovered order sb other w owner h gone rest =
      let ask = on_store p (Store.reserve_user_slot server sb) in
      let after = Requests.reserve-IsCovered server sb w.link gone h in
      covered-bind ask (λ reserved. if reserved then boot p order sb else other) w after
        (λ reserved e. elim (Bool-cases reserved) [
          | inl got ↦ rw got (
              boot-AllCovered order sb (ask w).1 (record {
                covered = after;
                slot =
                    subst (Covers server (ask w).1.link.db sb.id) owner
                      (Requests.reserve-Covers server sb w.link (e ∙ ap (λ b. ok b) got));
                vacant = gone;
                owner = owner;
              }))
          | inr held ↦ rw held (rest (ask w).1 after gone)
        ])

  retry_reserve-AllCovered :
      (order : Order) (sb : Sandbox) (w : World p)
      → sb.user_id ≡ order.user_id
      → AllCovered p w
      → NoVm p sb.id w
      → AllCovered p (retry_reserve p order sb w).1
  unfolding retry_reserve
  retry_reserve-AllCovered order sb w owner h gone =
      let healed = Keeps-reconcile_user_slot p order.user_id w h in
      covered-bind (reconcile_user_slot p order.user_id) _ w (healed.covered h) (λ _ _.
        reserved-AllCovered order sb (raise err_quota) (reconcile_user_slot p order.user_id w).1
          owner (healed.covered h) (NoVm-Fewer p {w = w} sb.id healed.fewer gone)
          (λ w' h' _. (Keeps-raise p Sandbox err_quota w').covered h'))

  create_admitted-AllCovered :
      (order : Order) (w : World p)
      → AllCovered p w
      → NoVm p (p.random_id w.link.calls) w
      → AllCovered p (create_admitted p order w).1
  unfolding create_admitted observe now now_millis on_store ◌>>=◌
  create_admitted-AllCovered order w h gone =
      reserved-AllCovered order _ _ _ refl h gone
        (λ w' h' gone'. retry_reserve-AllCovered order _ w' refl h' gone')

  Keeps-observe : {A : Type 0} (f : ℕ → A) (w : World p) → Keeps p w (observe p f w).1
  unfolding observe
  Keeps-observe f w = Keeps-Still (record { same_db = refl; same_vms = refl })

  Keeps-on_gate :
      {A : Type 0} (f : Gate → Result A × Gate) (w : World p) → Keeps p w (on_gate p f w).1
  unfolding on_gate
  Keeps-on_gate f w = Keeps-Still (record { same_db = refl; same_vms = refl })

  admitted-AllCovered :
      (order : Order) (place : Result ℕ) (w : World p)
      → AllCovered p w
      → NoVm p (p.random_id w.link.calls) w
      → AllCovered p (admitted p order place w).1
  unfolding admitted count_rejected raise ◌>>=◌ attempt release_gate lift
  admitted-AllCovered order (err e) w h gone = h
  admitted-AllCovered order (ok mib) w h gone = create_admitted-AllCovered order w h gone

  refuse_full-Still : (used : Option ℕ) (w : World p) → Still w (refuse_full p used w).1
  unfolding refuse_full pure raise
  refuse_full-Still none w = record { same_db = refl; same_vms = refl }
  refuse_full-Still (some used) w = elim (Bool-cases (leb max_disk_percent used)) [
    | inl e ↦ rw (e, refuse_full) (record { same_db = refl; same_vms = refl })
    | inr e ↦ rw (e, refuse_full) (record { same_db = refl; same_vms = refl })
  ]

  Keeps-check_disk : (w : World p) → Keeps p w (check_disk p w).1
  unfolding check_disk
  Keeps-check_disk w =
      Keeps-bind p (observe p (λ n. disk_usage_percent (p.statfs n))) _ w
        (Keeps-observe (λ n. disk_usage_percent (p.statfs n)) w)
        (λ used _. Keeps-Still (refuse_full-Still used _))

  Keeps-admit_create : (vm_mib : ℕ) (w : World p) → Keeps p w (admit_create p vm_mib w).1
  unfolding admit_create
  Keeps-admit_create vm_mib w =
      let ask = on_vms p manager.running_count in
      Keeps-bind p (attempt ask) _ w
        (Keeps-attempt p ask w
          (Keeps-on_vms p manager.running_count w (manager.running_count_starts w.vms)))
        (λ count _.
          Keeps-bind p (observe p (λ n. mem_available_mib (p.meminfo n))) _ _
            (Keeps-observe (λ n. mem_available_mib (p.meminfo n)) _)
            (λ available _. Keeps-on_gate (admit p.limits vm_mib count available) _))

  -- The ids still to be drawn are not those of VMs that run.
  abbrev pub DrawsFresh : World p → Type 0
  DrawsFresh w = (n : ℕ) → w.link.calls ≤ n → NoVm p (p.random_id n) w

  refuse_full-calls :
      (used : Option ℕ) (w : World p) → (refuse_full p used w).1.link.calls ≡ w.link.calls
  unfolding refuse_full pure raise
  refuse_full-calls none w = refl
  refuse_full-calls (some used) w = ground arith

  check_disk-calls : (w : World p) → (check_disk p w).1.link.calls ≡ suc w.link.calls
  unfolding check_disk observe ◌>>=◌
  check_disk-calls w = refuse_full-calls _ _

  admit_create-calls :
      (mib : ℕ) (w : World p) → (admit_create p mib w).1.link.calls ≡ suc (suc w.link.calls)
  unfolding admit_create observe on_vms on_gate attempt ◌>>=◌
  admit_create-calls mib w = refl

  -- A create leaves every running VM covered, its own included, on every path: a refusal before the
  -- reservation, a held slot that is healed or not, a failure after the reservation, and a commit
  -- that fails or is lost. The condition is that no VM runs under an id that is still to be drawn.
  pub create-AllCovered :
      (caller : Identity) (template size : String) (resources : Resources) (w : World p)
      → AllCovered p w
      → DrawsFresh w
      → AllCovered p (create p caller template size resources w).1
  unfolding create attempt
  create-AllCovered caller template size resources w h fresh =
      elim (Bool-cases caller.is_anonymous) [
        | inl e ↦ rw (e, create) ((Keeps-raise p Sandbox err_anonymous w).covered h)
        | inr e ↦
            let disk = Keeps-check_disk w in
            let h1 = disk.covered h in
            let w1 = (check_disk p w).1 in
            let mib = memory_for size (clamp resources) in
            let asked = Keeps-admit_create mib w1 in
            let both = Keeps-trans p disk asked in
            rw (e, create)
              (covered-bind (check_disk p) _ w h1 (λ _ _.
                covered-bind (attempt (admit_create p mib)) _ w1 (asked.covered h1) (λ place _.
                  admitted-AllCovered _ place _ (asked.covered h1) (
                    NoVm-Fewer p {w = w} (p.random_id _) both.fewer
                      (fresh _ (omega (arith, check_disk-calls w, admit_create-calls mib w1)))))))
      ]
