-- ===== src/Home/Shrunk.antt =====
-- ShrinkDisk of internal/userhome/userhome.go: the files, and the room that is left for them.
use sandbox_manager.Prelude.{
  ℕ, ◌*◌, ◌%◌, ◌^◌, ◌≤◌, ◌≡◌, ◌≢◌, refl, ap, ◌∙◌, String, Bool, true, Option, none, some, arith,
  leb, if◌then◌else◌, Result, ok, err, failure, Exec, continue, pure, ◌>>=◌, Bool-cases, inl, inr,
}
use sandbox_manager.Host.{Bytes}
use sandbox_manager.Home.Tools.{Files, Image, killed}
use sandbox_manager.Home.Numbers.{last_number, block_size_line}
use sandbox_manager.Home.{
  mib_bytes, is_valid_user, fsck, number, resize, shrink_image, disk_mib, shrink_disk,
}
use sandbox_manager.Home.Keeps.{Holds, shrink_disk-Holds}

module _ (f : Files) where
  open f use {Host, Content, image}

  -- The user's image is this one, repaired or not.
  abbrev Repaired : String → Image Content → Host → Type 0
  Repaired u i h = (b : Bool) × (image h u ≡ some (record i { clean = b }))

  module _ (u : String) (i : Image Content) where
    Repaired-same : (h h' : Host) → image h' u ≡ image h u → Repaired u i h → Repaired u i h'
    Repaired-same h h' e (b, there) = (b, e ∙ there)

    Repaired-bind :
        {A B : Type 0} (m : Exec Host A) (g : A → Exec Host B) (h : Host)
        → Repaired u i (m h).1
        → ((a : A) → (m h).0 ≡ ok a → Repaired u i (g a (m h).1).1)
        → Repaired u i ((m >>= g) h).1
    unfolding ◌>>=◌
    Repaired-bind {A} {B} m g h first rest = go (m h).0 refl
      where
        go : (r : Result A) → (m h).0 ≡ r → Repaired u i (continue r g (m h).1).1
        go (ok a) e = rest a e
        go (err x) e = first

    Repaired-fsck : (h : Host) → Repaired u i h → Repaired u i (fsck f u h).1
    unfolding fsck
    Repaired-fsck h (b, there) =
        let (c, after, told) = f.check_repairs u h (record i { clean = b }) there in (c, after)

    number-ok : (b : Bytes) (h : Host) (n : ℕ) → (number f b h).0 ≡ ok n → last_number b ≡ some n
    unfolding number
    number-ok b h n = go (last_number b)
      where
        go :
            (o : Option ℕ)
            → elim o [ none ↦ err (failure "parse") | some m ↦ ok m ] ≡ ok n
            → o ≡ some n
        go none e = absurd (ground arith)
        go (some m) e = ap some (ground arith)

    shrink_image-Repaired :
        (s : ℕ) (h : Host)
        → f.exceeds ((i.min_blocks * i.block_size) % 2 ^ 64) s ≡ true
        → Repaired u i h
        → Repaired u i (shrink_image f u s h).1
    unfolding shrink_image number
    shrink_image-Repaired s h full k =
        let k1 = Repaired-fsck h k in
        let h1 = (fsck f u h).1 in
        Repaired-bind (fsck f u) _ h k1 (λ _ _.
          let h2 = (f.min_blocks u h1).1 in
          let k2 = Repaired-same h1 h2 (f.min_blocks_image u h1 u) k1 in
          Repaired-bind (f.min_blocks u) _ h1 k2 (λ out told.
            Repaired-bind (number f out) _ h2 k2 (λ blocks read.
              let h3 = (f.header u h2).1 in
              let k3 = Repaired-same h2 h3 (f.header_image u h2 u) k2 in
              Repaired-bind (f.header u) _ h2 k3 (λ header told'.
                Repaired-bind (number f (block_size_line header)) _ h3 k3 (λ size read'.
                  let at_blocks =
                    f.min_blocks_tells u h1 (record i { clean = k1.0 }) out blocks k1.1 told
                      (number-ok out h2 blocks read) in
                  let at_size =
                    f.header_tells u h2 (record i { clean = k2.0 }) header size k2.1 told'
                      (number-ok (block_size_line header) h3 size read') in
                  kept s h3 blocks size at_blocks at_size full k3)))))
      where
        kept :
            (s : ℕ) (h' : Host) (blocks size : ℕ)
            → blocks ≡ i.min_blocks
            → size ≡ i.block_size
            → f.exceeds ((i.min_blocks * i.block_size) % 2 ^ 64) s ≡ true
            → Repaired u i h'
            → Repaired u i
                ((if f.exceeds ((blocks * size) % 2 ^ 64) s then pure tt else resize f u s) h').1
        kept s h' blocks size e e' full' k' = rw (e, e', full') (unfold pure in k')

    shrink_disk-Repaired :
        (mib : ℕ) (h : Host)
        → f.exceeds ((i.min_blocks * i.block_size) % 2 ^ 64) (mib_bytes mib) ≡ true
        → Repaired u i h
        → Repaired u i (shrink_disk f u mib h).1
    unfolding shrink_disk pure disk_mib
    shrink_disk-Repaired mib h full k =
        let asked : Repaired u i (disk_mib f u h).1 = elim (Bool-cases (is_valid_user u)) [
          | inl valid ↦ rw valid (Repaired-same h _ (f.stat_image u h u) k)
          | inr other ↦ rw other k
        ] in
        elim (Bool-cases (leb (disk_mib f u h).0 mib)) [
          | inl small ↦ rw small asked
          | inr large ↦ rw large (shrink_image-Repaired (mib_bytes mib) _ full asked)
        ]

  -- ShrinkDisk loses nothing, if e2fsck is not killed by a signal: on every other path, also one that
  -- fails, a user who has a home image still has one, with the same files, and with a file system that
  -- fits in it; and if the files do not fit in the size that is asked for with the headroom, the image
  -- and its file system stay as large as they are. The image may need a repair before; it is shrunk only
  -- after e2fsck. The other condition is that the file system fitted before.
  pub shrink_disk_keeps :
      ((u : String) (h : Host) → (f.check u h).0 ≢ killed)
      → (u : String) (mib : ℕ) (h : Host) (i : Image Content) → image h u ≡ some i
      → i.extent ≤ i.size
      → (j : Image Content) × (image (shrink_disk f u mib h).1 u ≡ some j)
        × (j.content ≡ i.content)
        × (j.extent ≤ j.size)
        × (f.exceeds ((i.min_blocks * i.block_size) % 2 ^ 64) (mib_bytes mib) ≡ true
            → (j.size ≡ i.size) × (j.extent ≡ i.extent))
  shrink_disk_keeps alive u mib h i there fits =
      let k : Holds f alive u i.content 0 h = record {
        found = i;
        there = there;
        same = refl;
        fits = fits;
        large = omega arith;
      } in
      let k' = shrink_disk-Holds f alive u i.content mib h k in
      (
        k'.found,
        k'.there,
        k'.same,
        k'.fits,
        λ full.
            let (b, left) = shrink_disk-Repaired u i mib h full (i.clean, there) in
            let same : k'.found ≡ record i { clean = b } = ground (arith, k'.there, left) in
            (ap (λ (x : Image Content). x.size) same, ap (λ (x : Image Content). x.extent) same),
      )
