-- ===== src/Tests/Disks.antt =====
-- Home images in memory, on which every tool succeeds.
use sandbox_manager.Prelude.{
  ℕ, ◌*◌, ◌^◌, ◌≤◌, ◌<◌, min, ◌≡◌, ◌≢◌, refl, sym, ap, ◌∙◌, ◌%◌, ◌==◌, subst, String, Bool, true,
  false, [], ◌∷◌, Option, none, some, str_eq, eq_refl, ltb, if◌then◌else◌, arith, Result, ok, err,
  Error, failure, ◌>>=◌, attempt, pure,
}
use sandbox_manager.Host.{Bytes}
use sandbox_manager.Home.{
  ensure_disk, shrink_disk, is_valid_user, ensured, signed_ltb, mib_bytes, grow_disk, fsck,
}
use sandbox_manager.Home.Tools.{exited, killed, Image, Files}
use sandbox_manager.Home.Numbers.{last_number, block_size_line}
use sandbox_manager.Home.Keeps.{ensure_disk_keeps}
use sandbox_manager.Home.Shrunk.{shrink_disk_keeps}
use sandbox_manager.Home.Grown.{ensure_disk_large}

abbrev Shelf : Type 0
Shelf = String → Option (Image ℕ)

abbrev put : String → Option (Image ℕ) → Shelf → Shelf
put u o h v = if str_eq u v then o else h v

put_here : (u : String) (o : Option (Image ℕ)) (h : Shelf) → put u o h u ≡ o
put_here u o h = rw (eq_refl u) refl

abbrev changed : (Image ℕ → Image ℕ) → Option (Image ℕ) → Option (Image ℕ)
changed f none = none
changed f (some i) = some (f i)

abbrev sized : Option (Image ℕ) → Result ℕ
sized none = err (failure "stat")
sized (some i) = ok i.size

abbrev cut_to : ℕ → Image ℕ → Image ℕ
cut_to n i = record i { size = n }

abbrev fill : Image ℕ → Image ℕ
fill i = record i { extent = i.size }

abbrev shrunk : ℕ → Image ℕ → Image ℕ
shrunk k i = record i { extent = min i.extent (k * 1024) }

abbrev fresh : Image ℕ
fresh = record {
  size = 0;
  extent = 0;
  content = 0;
  clean = false;
  min_blocks = 2048;
  block_size = 512;
}

-- "Block size: 512" and ": 2048"
abbrev block_size : Bytes
block_size =
    66 ∷ 108 ∷ 111 ∷ 99 ∷ 107 ∷ 32 ∷ 115 ∷ 105 ∷ 122 ∷ 101 ∷ 58 ∷ 32 ∷ 53 ∷ 49 ∷ 50 ∷ 10 ∷ []

abbrev estimate : Bytes
estimate = 58 ∷ 32 ∷ 50 ∷ 48 ∷ 52 ∷ 56 ∷ 10 ∷ []

abbrev repaired : Image ℕ → Image ℕ
repaired i = record i { clean = true }

abbrev estimated : Option (Image ℕ) → Result Bytes
estimated none = err (failure "resize2fs")
estimated (some i) = if i.min_blocks == 2048 then ok estimate else err (failure "resize2fs")

abbrev described : Option (Image ℕ) → Result Bytes
described none = err (failure "dumpe2fs")
described (some i) = if i.block_size == 512 then ok block_size else err (failure "dumpe2fs")

-- What the two texts say.
estimate_says : last_number estimate ≡ some 2048
unfolding last_number
estimate_says = refl

block_size_says : last_number (block_size_line block_size) ≡ some 512
unfolding last_number block_size_line
block_size_says = refl

asked :
    (b : Bool) (text out : Bytes) (e : Error)
    → (if b then ok text else err e) ≡ ok out
    → (b ≡ true) × (text ≡ out)
asked true text out e same = (refl, ground arith)
asked false text out e same = absurd (ground arith)

estimated_found :
    (o : Option (Image ℕ)) (i : Image ℕ) (out : Bytes) (n : ℕ)
    → o ≡ some i
    → estimated o ≡ ok out
    → last_number out ≡ some n
    → n ≡ i.min_blocks
estimated_found none i out n e told read = absurd (ground arith)
estimated_found (some j) i out n e told read =
    let (size, text) = asked (j.min_blocks == 2048) estimate out _ told in
    let says = sym estimate_says ∙ ap last_number text ∙ read in
    let same : j ≡ i = ground arith in
    let blocks : j.min_blocks ≡ i.min_blocks = ap (λ (x : Image ℕ). x.min_blocks) same in
    ground (arith, says, size, blocks)

described_found :
    (o : Option (Image ℕ)) (i : Image ℕ) (out : Bytes) (n : ℕ)
    → o ≡ some i
    → described o ≡ ok out
    → last_number (block_size_line out) ≡ some n
    → n ≡ i.block_size
described_found none i out n e told read = absurd (ground arith)
described_found (some j) i out n e told read =
    let (size, text) = asked (j.block_size == 512) block_size out _ told in
    let says = sym block_size_says ∙ ap (λ x. last_number (block_size_line x)) text ∙ read in
    let same : j ≡ i = ground arith in
    let sizes : j.block_size ≡ i.block_size = ap (λ (x : Image ℕ). x.block_size) same in
    ground (arith, says, size, sizes)

sized_found :
    (o : Option (Image ℕ)) (n : ℕ) → sized o ≡ ok n → (i : Image ℕ) × (o ≡ some i) × (i.size ≡ n)
sized_found none n e = absurd (ground arith)
sized_found (some i) n e = (i, refl, ground arith)

ok_fails : {P : Type 0} (e : Error) → ◌≡◌ {A = Result (Unit {0})} (ok tt) (err e) → P
ok_fails e same = absurd (ground arith)

abbrev shelf : Files
shelf = record {
  Host = Shelf;
  Content = ℕ;
  mkdir_all = λ u h. (ok tt, h);
  remove_all = λ u h. (ok tt, put u none h);
  create = λ u h. (ok tt, put u (some fresh) h);
  remove = λ u h. (ok tt, put u none h);
  format = λ u h. (ok tt, put u (changed fill (h u)) h);
  grow = λ u h. (ok tt, put u (changed fill (h u)) h);
  stat = λ u h. (sized (h u), h);
  truncate = λ u n h. (ok tt, put u (changed (cut_to n) (h u)) h);
  check = λ u h. (exited 1, put u (changed repaired (h u)) h);
  min_blocks = λ u h. (estimated (h u), h);
  header = λ u h. (described (h u), h);
  shrink_to = λ u k h. (ok tt, put u (changed (shrunk k) (h u)) h);
  exceeds = λ bytes size. ltb (size * 10) (bytes * 12);
  home_img = λ u. u;
  image = λ h u. h u;
  mkdir_all_image = λ u h v. refl;
  stat_image = λ u h v. refl;
  check_repairs = λ u h i e. (true, rw (eq_refl u, e) refl, λ n ends few. refl);
  min_blocks_tells = λ u h i out n e told read. estimated_found (h u) i out n e told read;
  header_tells = λ u h i out n e told read. described_found (h u) i out n e told read;
  min_blocks_image = λ u h v. refl;
  header_image = λ u h v. refl;
  stat_size = λ u h n e. sized_found (h u) n e;
  truncate_failed = λ u n h e e'. ok_fails e e';
  truncate_size = λ u n h i e e'. (cut_to n i, rw (eq_refl u, e) refl, refl);
  truncate_keeps = λ u n h i e fits e'. rw (eq_refl u, e) refl;
  grow_keeps = λ u h i e clean fits. (i.size, rw (eq_refl u, e) refl, omega arith);
  grow_size = λ u h i e. (fill i, rw (eq_refl u, e) refl, refl);
  shrink_to_keeps = λ u k h i e clean fits.
      (min i.extent (k * 1024), rw (eq_refl u, e) refl, omega arith, λ done. omega arith);
  create_image = λ u h e. (fresh, rw (eq_refl u) refl);
  format_image = λ u h i e e'. (fill i, rw (eq_refl u, e) refl, refl, omega arith);
  elsewhere_remove_all = λ u h v apart. rw apart refl;
  removed = λ u h e. rw (eq_refl u) refl;
}

-- 10 MiB, of which the file system takes half.
abbrev ten : Image ℕ
ten = record {
  size = 10485760;
  extent = 5242880;
  content = 7;
  clean = false;
  min_blocks = 2048;
  block_size = 512;
}

abbrev of_ann : Shelf
of_ann v = if str_eq "ann" v then some ten else none

shelf_alive : (u : String) (h : Shelf) → exited 1 ≢ killed
shelf_alive u h e = absurd (ground arith)

stat_answers : (v : Shelf) → v "ann" ≢ none → (s : ℕ) × ((shelf.stat "ann" v).0 ≡ ok s)
stat_answers v there = go (v "ann") there
  where
    go : (o : Option (Image ℕ)) → o ≢ none → (s : ℕ) × (sized o ≡ ok s)
    go none e = absurd (e refl)
    go (some i) e = (i.size, refl)

ensure_disk_keeps_example :
    (j : Image ℕ) × ((ensure_disk shelf "ann" 20 of_ann).1 "ann" ≡ some j)
    × (j.content ≡ 7)
    × (j.extent ≤ j.size)
    × (10485760 ≤ j.size)
ensure_disk_keeps_example =
    ensure_disk_keeps shelf shelf_alive "ann" 20 of_ann ten refl (omega arith) (omega arith)
      stat_answers

shrink_disk_keeps_example :
    (j : Image ℕ) × ((shrink_disk shelf "ann" 1 of_ann).1 "ann" ≡ some j)
    × (j.content ≡ 7)
    × (j.extent ≤ j.size)
    × (shelf.exceeds ((2048 * 512) % 2 ^ 64) (mib_bytes 1) ≡ true
        → (j.size ≡ 10485760) × (j.extent ≡ 5242880))
shrink_disk_keeps_example =
    shrink_disk_keeps shelf shelf_alive "ann" 1 of_ann ten refl (omega arith)

of_ann_whole : (i : Image ℕ) → of_ann "ann" ≡ some i → (i.size < 2 ^ 63) × (i.extent ≤ i.size)
of_ann_whole i e =
    let same : ten ≡ i = ground arith in
    subst (λ (x : Image ℕ). (x.size < 2 ^ 63) × (x.extent ≤ x.size)) same (omega arith, omega arith)

ensured_ann : (ensure_disk shelf "ann" 20 of_ann).0 ≡ ok "ann"
unfolding ensure_disk is_valid_user ◌>>=◌ attempt ensured signed_ltb mib_bytes grow_disk fsck pure
ensured_ann = refl

ensure_disk_large_example :
    (j : Image ℕ) × ((ensure_disk shelf "ann" 20 of_ann).1 "ann" ≡ some j) × (20971520 ≤ j.size)
ensure_disk_large_example =
    ensure_disk_large shelf "ann" 20 of_ann "ann" (omega arith) of_ann_whole ensured_ann
