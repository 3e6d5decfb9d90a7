-- ===== src/Vm/HomeDisk.antt =====
-- `homeDisk` of internal/vm/manager.go: the block device that a home image becomes.
use Prim.Native.String.{◌++◌ as append}
use sandbox_manager.Prelude.{
  String, str_eq, if◌then◌else◌, Result, ok, err, wrap, Exec, ◌>>=◌, ◌>>◌,
}
use sandbox_manager.Text.{trim}
use sandbox_manager.Vm.Devices.{Devices}
use sandbox_manager.Vm.Manager.{volume_root}

abbrev pub volume_path : String → String
volume_path id = append volume_root id

module _ (d : Devices) where
  open d use {Host, in_use}

  abbrev Do : Type 0 → Type 0
  Do A = Exec Host A

  -- Our own record of the device, or else Kata's.
  unfoldable pub noted_loop : String → Result String → Host → String × Host
  noted_loop vp (err e) h = d.kata_device vp h
  noted_loop vp (ok text) h = if str_eq (trim text) "" then d.kata_device vp h else (trim text, h)

  unfoldable pub recorded_loop : String → Host → String × Host
  unfolding noted_loop
  recorded_loop vp h = let (r, h') = d.read_loop vp h in noted_loop vp r h'

  unfoldable pub release_loop : String → Host → Host
  release_loop loop h = if str_eq loop "" then h else (d.losetup_detach loop h).1

  -- Detach, in which every failure is ignored.
  unfoldable pub detach_disk : String → Host → Host
  detach_disk id h =
      let (loop, h1) = recorded_loop (volume_path id) h in
      let h2 = release_loop loop h1 in
      let h3 = (d.volume_remove (volume_path id) h2).1 in (d.remove_all (volume_path id) h3).1

  -- The volume, as Attach leaves it when Kata did not take it.
  unfoldable pub undo : String → String → Host → Host
  undo vp loop h =
      let h1 = (d.losetup_detach loop h).1 in
      let h2 = (d.volume_remove vp h1).1 in (d.remove_all vp h2).1

  unfoldable pub added : String → Result (Unit {0}) → String → Do String
  unfolding undo
  added vp (ok done) loop h = (ok vp, h)
  added vp (err e) loop h = (err (wrap "direct-volume add" e), undo vp loop h)

  unfoldable pub looped : String → String → Do String
  unfolding added
  looped vp loop h =
      let h1 = (d.write_loop vp loop h).1 in
      let (r, h2) = d.volume_add vp loop h1 in added vp r loop h2

  -- Attach, once the remains of an earlier one are gone.
  unfoldable pub attach_clean : String → String → Do String
  attach_clean id img = do
    d.mkdir_all (volume_path id)
    out ← d.losetup_find img
    looped (volume_path id) (trim out)

  unfoldable pub attach_disk : String → String → Do String
  attach_disk id img h = attach_clean id img (detach_disk id h)
