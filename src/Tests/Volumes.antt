-- ===== src/Tests/Volumes.antt =====
-- A host with one loop device, on which Kata takes every volume or none.
use sandbox_manager.Prelude.{
  ◌≡◌, refl, sym, subst, String, Bool, true, false, ◌&&◌, Option, none, some, str_eq, eq_refl,
  eq_iff, if◌then◌else◌, arith, Result, ok, err, Error, failure, wrap, ◌>>=◌,
}
use sandbox_manager.Text.{trim, trim_left, trim_right, is_white}
use sandbox_manager.Vm.Devices.{Devices}
use sandbox_manager.Vm.HomeDisk.{
  attach_disk, detach_disk, attach_clean, looped, release_loop, recorded_loop,
}
use sandbox_manager.Vm.Loops.{attach_disk-detach_disk, attach_disk-failed}

record Bench : Type 0 where
  busy : Bool
  notes : String → Option String

abbrev loop0 : String
loop0 = "/dev/loop0"

abbrev held : Bench → String → Bool
held h l = h.busy && str_eq loop0 l

abbrev note : String → Option String → Bench → Bench
note v t h = record h { notes = λ x. if str_eq v x then t else h.notes x }

abbrev found : Bool → Result String
found true = err (failure "losetup")
found false = ok "/dev/loop0\n"

abbrev noted : Option String → Result String
noted none = err (failure "loop")
noted (some t) = ok t

abbrev freed : String → Bench → Bench
freed l h = record h { busy = if str_eq l loop0 then false else h.busy }

trimmed : trim "/dev/loop0\n" ≡ loop0
unfolding trim trim_left trim_right is_white
trimmed = refl

found_out : (out : String) → found false ≡ ok out → "/dev/loop0\n" ≡ out
found_out out e = ground arith

found_free :
    (b : Bool) (out : String)
    → found b ≡ ok out
    → (str_eq (trim out) "" ≡ false) × ((b && str_eq loop0 (trim out)) ≡ false)
found_free true out e = absurd (ground arith)
found_free false out e =
    subst (λ o. (str_eq (trim o) "" ≡ false) × (false ≡ false)) (found_out out e)
      (rw trimmed refl, refl)

found_taken :
    (b : Bool) (l out : String)
    → found b ≡ ok out
    → str_eq loop0 l ≡ (if str_eq (trim out) l then true else (b && str_eq loop0 l))
found_taken true l out e = absurd (ground arith)
found_taken false l out e = rw (sym (found_out out e), trimmed) (ground arith)

found_none :
    (b : Bool) (l : String) (e : Error) → found b ≡ err e → str_eq loop0 l ≡ (b && str_eq loop0 l)
found_none true l e failed = refl
found_none false l e failed = absurd (ground arith)

freed_keeps :
    (d : String) (h : Bench) (l : String)
    → held (freed d h) l ≡ (if str_eq d l then false else held h l)
freed_keeps d h l = ground (arith, eq_iff d loop0, eq_iff loop0 l, eq_iff d l, eq_refl loop0)

abbrev bench : Bool → Devices
bench takes = record {
  Host = Bench;
  mkdir_all = λ v h. (ok tt, h);
  remove_all = λ v h. (ok tt, note v none h);
  losetup_find = λ img h. (found h.busy, record h { busy = true });
  losetup_detach = λ l h. (ok tt, freed l h);
  write_loop = λ v t h. (ok tt, note v (some t) h);
  read_loop = λ v h. (noted (h.notes v), h);
  volume_add = λ v d h. (if takes then ok tt else err (failure "volume"), h);
  volume_remove = λ v h. (ok tt, h);
  kata_device = λ v h. ("", h);
  in_use = held;
  mkdir_all_loops = λ v h l. refl;
  remove_all_loops = λ v h l. refl;
  write_loop_loops = λ v t h l. refl;
  read_loop_loops = λ v h l. refl;
  volume_add_loops = λ v d h l. refl;
  volume_remove_loops = λ v h l. refl;
  kata_device_loops = λ v h l. refl;
  found_loop = λ img h out e. found_free h.busy out e;
  found_loops = λ img h out l e. found_taken h.busy l out e;
  unfound_loops = λ img h e l e'. found_none h.busy l e e';
  detached_loops = λ d h l e. freed_keeps d h l;
  read_added = λ v t d h e. rw (eq_refl v) refl;
}

abbrev idle : Bench
idle = record { busy = false; notes = λ v. none }

-- A device that an earlier start left behind for this sandbox.
abbrev stale : Bench
stale = record { busy = true; notes = λ v. some loop0 }

attached :
    (attach_disk (bench true) "s1" "ann/home.img" idle).0
    ≡ ok "/run/sandbox-manager/home-volumes/s1"
unfolding attach_disk attach_clean ◌>>=◌ detach_disk release_loop recorded_loop looped
attached = refl

attach_disk-detach_disk_example :
    held (detach_disk (bench true) "s1" (attach_disk (bench true) "s1" "ann/home.img" idle).1) loop0
    ≡ held (detach_disk (bench true) "s1" idle) loop0
attach_disk-detach_disk_example =
    attach_disk-detach_disk (bench true) (λ l h e. refl) "s1" "ann/home.img"
      "/run/sandbox-manager/home-volumes/s1" idle (λ v t g. refl) attached loop0

refused :
    (attach_disk (bench false) "s1" "ann/home.img" stale).0
    ≡ err (wrap "direct-volume add" (failure "volume"))
unfolding attach_disk attach_clean ◌>>=◌ detach_disk release_loop recorded_loop trim looped
refused = refl

attach_disk-failed_example :
    held (attach_disk (bench false) "s1" "ann/home.img" stale).1 loop0
    ≡ held (detach_disk (bench false) "s1" stale) loop0
attach_disk-failed_example =
    attach_disk-failed (bench false) (λ l h e. refl) "s1" "ann/home.img" stale
      (wrap "direct-volume add" (failure "volume")) refused loop0
