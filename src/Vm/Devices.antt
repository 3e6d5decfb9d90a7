-- ===== src/Vm/Devices.antt =====
-- What `homeDisk` of internal/vm/manager.go relies on of losetup, of Kata's direct volumes and of the
-- directory of a volume. A volume is named by its path.
use sandbox_manager.Prelude.{
  ◌≡◌, String, Bool, true, false, str_eq, if◌then◌else◌, ok, err, Error, Exec,
}
use sandbox_manager.Text.{trim}

pub record Devices : Type 1 where
  pub Host : Type 0
  pub mkdir_all : String → Exec Host (Unit {0})
  pub remove_all : String → Exec Host (Unit {0})
  -- losetup --find --show, and losetup -d.
  pub losetup_find : String → Exec Host String
  pub losetup_detach : String → Exec Host (Unit {0})
  -- The file `loop` in the directory of the volume.
  pub write_loop : String → String → Exec Host (Unit {0})
  pub read_loop : String → Exec Host String
  -- kata-runtime direct-volume add and remove, and the device that Kata's record of the volume names,
  -- empty if that cannot be read.
  pub volume_add : String → String → Exec Host (Unit {0})
  pub volume_remove : String → Exec Host (Unit {0})
  pub kata_device : String → Host → String × Host
  -- Is a loop device in use?
  pub in_use : Host → String → Bool
  pub mkdir_all_loops :
      (v : String) (h : Host) (l : String) → in_use (mkdir_all v h).1 l ≡ in_use h l
  pub remove_all_loops :
      (v : String) (h : Host) (l : String) → in_use (remove_all v h).1 l ≡ in_use h l
  pub write_loop_loops :
      (v t : String) (h : Host) (l : String) → in_use (write_loop v t h).1 l ≡ in_use h l
  pub read_loop_loops :
      (v : String) (h : Host) (l : String) → in_use (read_loop v h).1 l ≡ in_use h l
  pub volume_add_loops :
      (v d : String) (h : Host) (l : String) → in_use (volume_add v d h).1 l ≡ in_use h l
  pub volume_remove_loops :
      (v : String) (h : Host) (l : String) → in_use (volume_remove v h).1 l ≡ in_use h l
  pub kata_device_loops :
      (v : String) (h : Host) (l : String) → in_use (kata_device v h).1 l ≡ in_use h l
  -- A device that is found was free, is named, and is then in use; a failure takes none.
  pub found_loop :
      (img : String) (h : Host) (out : String)
      → (losetup_find img h).0 ≡ ok out
      → (str_eq (trim out) "" ≡ false) × (in_use h (trim out) ≡ false)
  pub found_loops :
      (img : String) (h : Host) (out : String) (l : String)
      → (losetup_find img h).0 ≡ ok out
      → in_use (losetup_find img h).1 l ≡ (if str_eq (trim out) l then true else in_use h l)
  pub unfound_loops :
      (img : String) (h : Host) (e : Error) (l : String)
      → (losetup_find img h).0 ≡ err e
      → in_use (losetup_find img h).1 l ≡ in_use h l
  -- A device that is detached is free, and the others stay as they are.
  pub detached_loops :
      (d : String) (h : Host) (l : String)
      → (losetup_detach d h).0 ≡ ok tt
      → in_use (losetup_detach d h).1 l ≡ (if str_eq d l then false else in_use h l)
  -- The file is read as it was written, also after Kata has added the volume.
  pub read_added :
      (v t d : String) (h : Host)
      → (write_loop v t h).0 ≡ ok tt
      → (read_loop v (volume_add v d (write_loop v t h).1).1).0 ≡ ok t
