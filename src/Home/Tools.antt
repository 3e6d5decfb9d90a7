-- ===== src/Home/Tools.antt =====
-- What internal/userhome/userhome.go relies on of the file system and of the ext4 tools. A home image is
-- named by its user, whose directory holds nothing else.
use sandbox_manager.Prelude.{
  ℕ, ◌*◌, ◌≤◌, ◌≡◌, String, Bool, true, false, Option, none, some, str_eq, ok, err, Error, Exec,
}
use sandbox_manager.Host.{Bytes}
use sandbox_manager.Home.Numbers.{last_number, block_size_line}

-- How e2fsck ended: with an exit code, by a signal, or without having been started.
pub data Exit : Type 0 where
  exited : ℕ → Exit
  killed unstarted : Exit

-- A home image: the size of the file, how much of it the file system in it takes, the files in that,
-- whether it needs no repair, the blocks that its files need at least, and the size of a block.
pub record Image (Content : Type 0) : Type 0 where
  pub size : ℕ
  pub extent : ℕ
  pub content : Content
  pub clean : Bool
  pub min_blocks : ℕ
  pub block_size : ℕ

pub record Files : Type 1 where
  pub Host : Type 0
  pub Content : Type 0
  pub mkdir_all : String → Exec Host (Unit {0})
  pub remove_all : String → Exec Host (Unit {0})
  pub create : String → Exec Host (Unit {0})
  pub remove : String → Exec Host (Unit {0})
  pub format : String → Exec Host (Unit {0})
  pub grow : String → Exec Host (Unit {0})
  pub stat : String → Exec Host ℕ
  pub truncate : String → ℕ → Exec Host (Unit {0})
  pub check : String → Host → Exit × Host
  -- resize2fs -P, dumpe2fs -h, and resize2fs to a size in KiB.
  pub min_blocks : String → Exec Host Bytes
  pub header : String → Exec Host Bytes
  pub shrink_to : String → ℕ → Exec Host (Unit {0})
  -- float64(bytes) * shrinkHeadroom > float64(size), of 64-bit words that stand for an int64.
  pub exceeds : ℕ → ℕ → Bool
  -- The path of a user's image.
  pub home_img : String → String
  -- A user's image, if there is one.
  pub image : Host → String → Option (Image Content)
  -- Making the directory and asking leave every image as it is.
  pub mkdir_all_image : (u : String) (h : Host) (v : String) → image (mkdir_all u h).1 v ≡ image h v
  pub stat_image : (u : String) (h : Host) (v : String) → image (stat u h).1 v ≡ image h v
  -- e2fsck -fp may repair the file system, without losing a file; and an exit with 0 or 1 tells that it
  -- needs no further repair.
  pub check_repairs :
      (u : String) (h : Host) (i : Image Content)
      → image h u ≡ some i
      → (b : Bool) × (image (check u h).1 u ≡ some (record i { clean = b }))
        × ((n : ℕ) → (check u h).0 ≡ exited n → n ≤ 1 → b ≡ true)
  pub min_blocks_image :
      (u : String) (h : Host) (v : String) → image (min_blocks u h).1 v ≡ image h v
  pub header_image : (u : String) (h : Host) (v : String) → image (header u h).1 v ≡ image h v
  -- The answers of resize2fs -P and dumpe2fs -h.
  pub min_blocks_tells :
      (u : String) (h : Host) (i : Image Content) (out : Bytes) (n : ℕ)
      → image h u ≡ some i
      → (min_blocks u h).0 ≡ ok out
      → last_number out ≡ some n
      → n ≡ i.min_blocks
  pub header_tells :
      (u : String) (h : Host) (i : Image Content) (out : Bytes) (n : ℕ)
      → image h u ≡ some i
      → (header u h).0 ≡ ok out
      → last_number (block_size_line out) ≡ some n
      → n ≡ i.block_size
  -- Stat answers with the size.
  pub stat_size :
      (u : String) (h : Host) (n : ℕ)
      → (stat u h).0 ≡ ok n
      → (i : Image Content) × (image h u ≡ some i) × (i.size ≡ n)
  -- A truncation that fails does nothing; else the file has that size, and a file system that fits in
  -- it is still there.
  pub truncate_failed :
      (u : String) (n : ℕ) (h : Host) (e : Error)
      → (truncate u n h).0 ≡ err e
      → image (truncate u n h).1 u ≡ image h u
  pub truncate_size :
      (u : String) (n : ℕ) (h : Host) (i : Image Content)
      → image h u ≡ some i
      → (truncate u n h).0 ≡ ok tt
      → (j : Image Content) × (image (truncate u n h).1 u ≡ some j) × (j.size ≡ n)
  pub truncate_keeps :
      (u : String) (n : ℕ) (h : Host) (i : Image Content)
      → image h u ≡ some i
      → i.extent ≤ n
      → (truncate u n h).0 ≡ ok tt
      → image (truncate u n h).1 u ≡ some (record i { size = n })
  -- resize2fs grows a file system that needs no repair up to the size of its file, and loses nothing,
  -- also where it fails.
  pub grow_keeps :
      (u : String) (h : Host) (i : Image Content)
      → image h u ≡ some i
      → i.clean ≡ true
      → i.extent ≤ i.size
      → (e : ℕ) × (image (grow u h).1 u ≡ some (record i { extent = e })) × (e ≤ i.size)
  -- It leaves the size of the file, whatever the file system is like.
  pub grow_size :
      (u : String) (h : Host) (i : Image Content)
      → image h u ≡ some i
      → (j : Image Content) × (image (grow u h).1 u ≡ some j) × (j.size ≡ i.size)
  -- It shrinks such a file system to the size that it is given, or fails, and loses nothing.
  pub shrink_to_keeps :
      (u : String) (k : ℕ) (h : Host) (i : Image Content)
      → image h u ≡ some i
      → i.clean ≡ true
      → i.extent ≤ i.size
      → (e : ℕ) × (image (shrink_to u k h).1 u ≡ some (record i { extent = e }))
        × (e ≤ i.size)
        × ((shrink_to u k h).0 ≡ ok tt → e ≤ k * 1024)
  -- A new file, and what mkfs makes of it.
  pub create_image :
      (u : String) (h : Host)
      → (create u h).0 ≡ ok tt
      → (i : Image Content) × (image (create u h).1 u ≡ some i)
  pub format_image :
      (u : String) (h : Host) (i : Image Content)
      → image h u ≡ some i
      → (format u h).0 ≡ ok tt
      → (j : Image Content) × (image (format u h).1 u ≡ some j)
        × (j.size ≡ i.size)
        × (j.extent ≤ j.size)
  -- Each of these changes the image of its own user only.
  pub elsewhere_remove_all :
      (u : String) (h : Host) (v : String)
      → str_eq u v ≡ false
      → image (remove_all u h).1 v ≡ image h v
  -- A directory that was removed holds no image.
  pub removed :
      (u : String) (h : Host) → (remove_all u h).0 ≡ ok tt → image (remove_all u h).1 u ≡ none
