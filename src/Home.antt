-- ===== src/Home.antt =====
-- internal/userhome/userhome.go: each user's home image.
pub mod Tools
pub mod Numbers
pub mod Keeps
pub mod Shrunk
pub mod Grown
use Prim.Native.Char.{code}
use sandbox_manager.Prelude.{
  ℕ, ◌+◌, ◌-◌, ◌*◌, ◌/◌, ◌%◌, ◌^◌, String, Bool, true, false, not, ◌&&◌, ◌||◌, Option, none, some,
  str_eq, leb, ltb, ◌==◌, if◌then◌else◌, Result, ok, err, Error, failure, wrap, Exec, pure, raise,
  attempt, ◌>>=◌, ◌>>◌,
}
use sandbox_manager.Host.{Bytes}
use sandbox_manager.Service.World.{HomeStore}
use sandbox_manager.Home.Tools.{Files, Exit, exited, killed, unstarted}
use sandbox_manager.Home.Numbers.{last_number, block_size_line}

-- [A-Za-z0-9_.-]
unfoldable pub is_id_char : ℕ → Bool
is_id_char c =
    (leb 65 c && leb c 90)
    || (leb 97 c && leb c 122)
    || (leb 48 c && leb c 57)
    || c == 95
    || c == 46
    || c == 45

unfoldable pub all_id_chars : String → Bool
unfolding is_id_char
all_id_chars String.[] = true
all_id_chars (String.◌∷◌ c s) = is_id_char (code c) && all_id_chars s

-- len, of an ASCII text.
unfoldable pub text_length : String → ℕ
text_length String.[] = 0
text_length (String.◌∷◌ c s) = 1 + text_length s

-- The test of `dir`.
unfoldable pub is_valid_user : String → Bool
unfolding all_id_chars text_length
is_valid_user u = not (
    str_eq u "" || str_eq u "." || str_eq u ".." || ltb 128 (text_length u) || not (all_id_chars u))

-- int64(sizeMiB) * 1024 * 1024, as a 64-bit word; and the order of such words as signed numbers.
unfoldable pub mib_bytes : ℕ → ℕ
mib_bytes n = (n * 1048576) % 2 ^ 64

unfoldable pub signed_ltb : ℕ → ℕ → Bool
signed_ltb a b = ltb ((a + 2 ^ 63) % 2 ^ 64) ((b + 2 ^ 63) % 2 ^ 64)

-- err == nil, an exit code of at most 1, or the code -1 that ExitCode gives for a signal.
unfoldable pub is_clean : Exit → Bool
is_clean (exited n) = leb n 1
is_clean killed = true
is_clean unstarted = false

module _ (f : Files) where
  open f use {Host}

  abbrev Do : Type 0 → Type 0
  Do A = Exec Host A

  -- e2fsck -fp, and the handling of its exit.
  unfoldable pub fsck : String → Do (Unit {0})
  unfolding is_clean
  fsck u h = let (e, h') = f.check u h in (if is_clean e then ok tt else err (failure "e2fsck"), h')

  unfoldable pub grow_disk : String → ℕ → Do (Unit {0})
  grow_disk u size = do f.truncate u size; fsck u; f.grow u

  unfoldable pub number : Bytes → Do ℕ
  number b h = (elim (last_number b) [ none ↦ err (failure "parse") | some n ↦ ok n ], h)

  unfoldable pub resize : String → ℕ → Do (Unit {0})
  resize u size = do f.shrink_to u (size / 1024); f.truncate u size

  unfoldable pub shrink_image : String → ℕ → Do (Unit {0})
  shrink_image u size = do
    fsck u
    out ← f.min_blocks u
    blocks ← number out
    header ← f.header u
    block_size ← number (block_size_line header)
    if f.exceeds ((blocks * block_size) % 2 ^ 64) size then pure tt else resize u size

  unfoldable pub mib_of : Result ℕ → ℕ
  mib_of (ok size) = size / 1048576
  mib_of (err e) = 0

  unfoldable pub disk_mib : String → Host → ℕ × Host
  disk_mib u h = if is_valid_user u then (let (r, h') = f.stat u h in (mib_of r, h')) else (0, h)

  unfoldable pub shrink_disk : String → ℕ → Do (Unit {0})
  shrink_disk u mib h =
      let (now, h') = disk_mib u h in
      (if leb now mib then pure tt else shrink_image u (mib_bytes mib)) h'

  unfoldable pub formatted : String → Result (Unit {0}) → Do String
  formatted u (ok done) = pure (f.home_img u)
  formatted u (err e) = do attempt (f.remove u); raise e

  -- The part of EnsureDisk for a user without an image.
  unfoldable pub new_disk : String → ℕ → Do String
  new_disk u mib = do
    f.create u
    f.truncate u (mib_bytes mib)
    made ← attempt (f.format u)
    formatted u made

  -- The part that depends on Stat.
  unfoldable pub ensured : String → ℕ → Result ℕ → Do String
  ensured u mib (ok size) = do
    if signed_ltb size (mib_bytes mib) then grow_disk u (mib_bytes mib) else pure tt
    pure (f.home_img u)
  ensured u mib (err e) = new_disk u mib

  unfoldable pub ensure_disk : String → ℕ → Do String
  ensure_disk u mib =
      if not (is_valid_user u)
      then raise (failure "invalid user_id")
      else do f.mkdir_all u; found ← attempt (f.stat u); ensured u mib found

  unfoldable pub delete_home : String → Do (Unit {0})
  delete_home u =
      if not (is_valid_user u) then raise (failure "invalid user_id") else f.remove_all u

  -- The store as the service uses it.
  abbrev pub home_store_over : HomeStore
  home_store_over = record {
    Homes = Host;
    shrink_disk = shrink_disk;
    ensure_disk = ensure_disk;
    disk_mib = disk_mib;
    delete = delete_home;
  }
