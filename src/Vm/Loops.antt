-- ===== src/Vm/Loops.antt =====
-- The loop devices that `homeDisk` of internal/vm/manager.go takes and gives back.
use sandbox_manager.Prelude.{
  ◌≡◌, refl, sym, ◌∙◌, String, true, false, arith, str_eq, eq_refl, eq_iff, if◌then◌else◌, Result,
  ok, err, Error, continue, ◌>>=◌, bind-eq-ok, Bool-cases, inl, inr,
}
use sandbox_manager.Text.{trim, trim-trim}
use sandbox_manager.Vm.Devices.{Devices}
use sandbox_manager.Vm.HomeDisk.{
  volume_path, noted_loop, recorded_loop, release_loop, detach_disk, undo, added, looped,
  attach_clean, attach_disk,
}

module _ (d : Devices) where
  open d use {Host, in_use}

  module _
      (releases : (l : String) (h : Host)
        → in_use h l ≡ true
        → (d.losetup_detach l h).0 ≡ ok tt) where
    detached_loops :
        (loop : String) (h : Host) (l : String)
        → in_use h loop ≡ true
        → in_use (d.losetup_detach loop h).1 l ≡ (if str_eq loop l then false else in_use h l)
    detached_loops loop h l held = d.detached_loops loop h l (releases loop h held)

    recorded_loop-eq :
        (vp loop : String) (h : Host)
        → (d.read_loop vp h).0 ≡ ok loop
        → trim loop ≡ loop
        → str_eq loop "" ≡ false
        → recorded_loop d vp h ≡ (loop, (d.read_loop vp h).1)
    unfolding recorded_loop
    recorded_loop-eq vp loop h read trimmed named = rw read (noted_loop-eq vp loop _ trimmed named)
      where
        noted_loop-eq :
            (v t : String) (g : Host)
            → trim t ≡ t
            → str_eq t "" ≡ false
            → noted_loop d v (ok t) g ≡ (t, g)
        noted_loop-eq v t g same dark = rw (same, dark) refl

    -- What Detach does to the devices: the one on record is free.
    detach_disk-loops :
        (id loop : String) (h : Host) (l : String)
        → (d.read_loop (volume_path id) h).0 ≡ ok loop
        → trim loop ≡ loop
        → str_eq loop "" ≡ false
        → in_use h loop ≡ true
        → in_use (detach_disk d id h) l ≡ (if str_eq loop l then false else in_use h l)
    unfolding detach_disk release_loop
    detach_disk-loops id loop h l read trimmed named held =
        let vp = volume_path id in
        let h1 = (d.read_loop vp h).1 in
        rw
          (
            d.remove_all_loops,
            d.volume_remove_loops,
            recorded_loop-eq vp loop h read trimmed named,
            named,
          )
          (detached_loops loop h1 l (d.read_loop_loops vp h loop ∙ held)
            ∙ ground (arith, d.read_loop_loops vp h l))

    undo-loops :
        (vp loop : String) (h : Host) (l : String)
        → in_use h loop ≡ true
        → in_use (undo d vp loop h) l ≡ (if str_eq loop l then false else in_use h l)
    unfolding undo
    undo-loops vp loop h l held =
        rw (d.remove_all_loops, d.volume_remove_loops) (detached_loops loop h l held)

    added-failed :
        (vp loop : String) (r : Result (Unit {0})) (h : Host) (e : Error) (l : String)
        → (added d vp r loop h).0 ≡ err e
        → in_use h loop ≡ true
        → in_use (added d vp r loop h).1 l ≡ (if str_eq loop l then false else in_use h l)
    unfolding added
    added-failed vp loop (ok done) h e l failed held = absurd (ground arith)
    added-failed vp loop (err x) h e l failed held = undo-loops vp loop h l held

    looped-failed :
        (vp loop : String) (h : Host) (e : Error) (l : String)
        → (looped d vp loop h).0 ≡ err e
        → in_use h loop ≡ true
        → in_use (looped d vp loop h).1 l ≡ (if str_eq loop l then false else in_use h l)
    unfolding looped
    looped-failed vp loop h e l failed held =
        let h1 = (d.write_loop vp loop h).1 in
        let asked = d.volume_add vp loop h1 in
        let same : (x : String) → in_use asked.1 x ≡ in_use h x =
          λ x. d.volume_add_loops vp loop h1 x ∙ d.write_loop_loops vp loop h x in
        added-failed vp loop asked.0 asked.1 e l failed (same loop ∙ held) ∙ ground (arith, same l)

    added-ok :
        (vp loop x : String) (r : Result (Unit {0})) (h : Host)
        → (added d vp r loop h).0 ≡ ok x
        → (added d vp r loop h).1 ≡ h
    unfolding added
    added-ok vp loop x (ok done) h e = refl
    added-ok vp loop x (err y) h e = absurd (ground arith)

    looped-detached :
        (id loop x : String) (h : Host) (l : String)
        → ((v t : String) (g : Host) → (d.write_loop v t g).0 ≡ ok tt)
        → trim loop ≡ loop
        → str_eq loop "" ≡ false
        → in_use h loop ≡ true
        → (looped d (volume_path id) loop h).0 ≡ ok x
        → in_use (detach_disk d id (looped d (volume_path id) loop h).1) l
          ≡ (if str_eq loop l then false else in_use h l)
    unfolding looped
    looped-detached id loop x h l writes trimmed named held e =
        let vp = volume_path id in
        let h1 = (d.write_loop vp loop h).1 in
        let asked = d.volume_add vp loop h1 in
        let same : (y : String) → in_use asked.1 y ≡ in_use h y =
          λ y. d.volume_add_loops vp loop h1 y ∙ d.write_loop_loops vp loop h y in
        rw (added-ok vp loop x asked.0 asked.1 e) (
          detach_disk-loops id loop asked.1 l (d.read_added vp loop loop h (writes vp loop h))
            trimmed named (same loop ∙ held)
          ∙ ground (arith, same l))

    -- The device that losetup finds is in use from then on, and was free.
    found_held :
        (img out : String) (h : Host)
        → (d.losetup_find img h).0 ≡ ok out
        → in_use (d.losetup_find img h).1 (trim out) ≡ true
    found_held img out h e =
        d.found_loops img h out (trim out) e ∙ ground (arith, eq_refl (trim out))

    found_freed :
        (img out : String) (h : Host) (l : String)
        → (d.losetup_find img h).0 ≡ ok out
        → (if str_eq (trim out) l then false else in_use (d.losetup_find img h).1 l) ≡ in_use h l
    found_freed img out h l e = elim (Bool-cases (str_eq (trim out) l)) [
      | inl same ↦
          rw same (sym (rw (sym ((eq_iff (trim out) l).0 same)) ((d.found_loop img h out e).1)))
      | inr apart ↦ rw apart (d.found_loops img h out l e ∙ rw apart refl)
    ]

    attach_clean-detached :
        (id img vp : String) (h : Host) (l : String)
        → ((v t : String) (g : Host) → (d.write_loop v t g).0 ≡ ok tt)
        → (attach_clean d id img h).0 ≡ ok vp
        → in_use (detach_disk d id (attach_clean d id img h).1) l ≡ in_use h l
    unfolding attach_clean
    attach_clean-detached id img vp h l writes e =
        let vol = volume_path id in
        let find = λ (_ : Unit {0}). d.losetup_find img >>= λ out. looped d vol (trim out) in
        let (_, made, e1, eq1) = bind-eq-ok (d.mkdir_all vol) find h vp e in
        let h1 = (d.mkdir_all vol h).1 in
        let (out, found, e2, eq2) =
          bind-eq-ok (d.losetup_find img) (λ o. looped d vol (trim o)) h1 vp e1 in
        let h2 = (d.losetup_find img h1).1 in
        rw (eq1, eq2)
          (looped-detached id (trim out) vp h2 l writes (trim-trim out)
              ((d.found_loop img h1 out found).0) (found_held img out h1 found) e2
            ∙ found_freed img out h1 l found
            ∙ d.mkdir_all_loops vol h l)

    -- Attaching a home disk and then detaching it gives back the loop device. Suppose the record of the
    -- device can be written, and `losetup -d` succeeds on every device in use. When Attach returns, a
    -- later Detach leaves in use exactly the devices that a Detach in the place of both had left.
    pub attach_disk-detach_disk :
        (id img vp : String) (h : Host)
        → ((v t : String) (g : Host) → (d.write_loop v t g).0 ≡ ok tt)
        → (attach_disk d id img h).0 ≡ ok vp
        → (l : String)
        → in_use (detach_disk d id (attach_disk d id img h).1) l ≡ in_use (detach_disk d id h) l
    unfolding attach_disk
    attach_disk-detach_disk id img vp h writes e l =
        attach_clean-detached id img vp (detach_disk d id h) l writes e

    found-failed :
        (vp img : String) (h : Host) (r : Result String) (e : Error) (l : String)
        → (d.losetup_find img h).0 ≡ r
        → (continue r (λ out. looped d vp (trim out)) (d.losetup_find img h).1).0 ≡ err e
        → in_use (continue r (λ out. looped d vp (trim out)) (d.losetup_find img h).1).1 l
          ≡ in_use h l
    found-failed vp img h (err x) e l same f = d.unfound_loops img h x l same
    found-failed vp img h (ok out) e l same f =
        looped-failed vp (trim out) (d.losetup_find img h).1 e l f (found_held img out h same)
        ∙ found_freed img out h l same

    attach_clean-failed :
        (id img : String) (h : Host) (e : Error) (l : String)
        → (attach_clean d id img h).0 ≡ err e
        → in_use (attach_clean d id img h).1 l ≡ in_use h l
    unfolding attach_clean ◌>>=◌
    attach_clean-failed id img h e l failed =
        made (d.mkdir_all (volume_path id) h).0 failed ∙ d.mkdir_all_loops (volume_path id) h l
      where
        made :
            let h1 = (d.mkdir_all (volume_path id) h).1 in
            let next = λ (_ : Unit {0}).
              d.losetup_find img >>= λ out. looped d (volume_path id) (trim out) in
            (r : Result (Unit {0}))
            → (continue r next h1).0 ≡ err e
            → in_use (continue r next h1).1 l ≡ in_use h1 l
        made (err x) f = refl
        made (ok done) f =
            let h1 = (d.mkdir_all (volume_path id) h).1 in
            found-failed (volume_path id) img h1 (d.losetup_find img h1).0 e l refl f

    -- An Attach that fails leaks no loop device. Suppose `losetup -d` succeeds on every device in use.
    -- When Attach fails, the devices in use are those that the Detach it begins with left.
    pub attach_disk-failed :
        (id img : String) (h : Host) (e : Error)
        → (attach_disk d id img h).0 ≡ err e
        → (l : String) → in_use (attach_disk d id img h).1 l ≡ in_use (detach_disk d id h) l
    unfolding attach_disk
    attach_disk-failed id img h e failed l =
        attach_clean-failed id img (detach_disk d id h) e l failed
