-- ===== src/Home/Keeps.antt =====
-- The files in a home image through the methods of internal/userhome/userhome.go.
use sandbox_manager.Prelude.{
  ℕ, ◌*◌, ◌/◌, ◌%◌, ◌^◌, ◌≤◌, ◌<◌, ◌≡◌, ◌≢◌, refl, sym, ap, ◌∙◌, String, Bool, true, false, none,
  some, arith, leb, if◌then◌else◌, Result, ok, err, Exec, continue, pure, raise, attempt, ◌>>=◌,
  Result-cases, Bool-cases, inl, inr,
}
use sandbox_manager.Host.{Bytes}
use sandbox_manager.Home.Tools.{Files, Image, Exit, exited, killed, unstarted}
use sandbox_manager.Home.Numbers.{block_size_line}
use sandbox_manager.Home.{
  mib_bytes, signed_ltb, is_valid_user, is_clean, fsck, grow_disk, number, resize, shrink_image,
  disk_mib, shrink_disk, ensured, ensure_disk,
}

-- An image that is too small for an int64 of bytes is so for the number.
pub signed_ltb-le : (a b : ℕ) → a < 2 ^ 63 → signed_ltb a (mib_bytes b) ≡ true → a ≤ mib_bytes b
unfolding signed_ltb mib_bytes
signed_ltb-le a b small e = ground arith

is_clean-exited : (e : Exit) → e ≢ killed → is_clean e ≡ true → (n : ℕ) × (e ≡ exited n) × (n ≤ 1)
unfolding is_clean
is_clean-exited (exited n) alive e = (n, refl, ground arith)
is_clean-exited killed alive e = absurd (alive refl)
is_clean-exited unstarted alive e = absurd (ground arith)

module _ (f : Files) (alive : (u : String) (h : f.Host) → (f.check u h).0 ≢ killed) where
  open f use {Host, Content, image}

  -- The user has an image of at least that size, in which the file system fits and has that content.
  pub record Holds (u : String) (c : Content) (n : ℕ) (h : Host) : Type 0 where
    pub found : Image Content
    pub there : image h u ≡ some found
    pub same : found.content ≡ c
    pub fits : found.extent ≤ found.size
    pub large : n ≤ found.size

  module _ (u : String) (c : Content) (n : ℕ) where
    pub Holds-image : (h h' : Host) → image h' u ≡ image h u → Holds u c n h → Holds u c n h'
    Holds-image h h' e k = record {
      found = k.found;
      there = e ∙ k.there;
      same = k.same;
      fits = k.fits;
      large = k.large;
    }

    Holds-bind :
        {A B : Type 0} (m : Exec Host A) (g : A → Exec Host B) (h : Host)
        → Holds u c n (m h).1
        → ((a : A) → (m h).0 ≡ ok a → Holds u c n (g a (m h).1).1)
        → Holds u c n ((m >>= g) h).1
    unfolding ◌>>=◌
    Holds-bind {A} {B} m g h first rest = go (m h).0 refl
      where
        go : (r : Result A) → (m h).0 ≡ r → Holds u c n (continue r g (m h).1).1
        go (ok a) e = rest a e
        go (err x) e = first

    fsck-Holds : (h : Host) → Holds u c n h → Holds u c n (fsck f u h).1
    unfolding fsck
    fsck-Holds h k =
        let (b, there, told) = f.check_repairs u h k.found k.there in
        record {
          found = record k.found { clean = b };
          there = there;
          same = k.same;
          fits = k.fits;
          large = k.large;
        }

    -- What passes the test of e2fsck's exit needs no repair, if e2fsck was not killed.
    fsck-clean :
        (h : Host) (k : Holds u c n h)
        → ((f.check u h).0 ≢ killed)
        → (fsck f u h).0 ≡ ok tt
        → (fsck-Holds h k).found.clean ≡ true
    unfolding fsck fsck-Holds
    fsck-clean h k alive e =
        let (b, there, told) = f.check_repairs u h k.found k.there in
        let (m, ends, few) = is_clean-exited (f.check u h).0 alive (ground arith) in told m ends few

    number-Holds : (b : Bytes) (h : Host) → Holds u c n h → Holds u c n (number f b h).1
    unfolding number
    number-Holds b h k = k

    -- A truncation to a size in which the file system fits.
    truncate-Holds :
        (s : ℕ) (h : Host) (k : Holds u c n h)
        → k.found.extent ≤ s
        → n ≤ s
        → Holds u c n (f.truncate u s h).1
    truncate-Holds s h k fits large = elim (Result-cases (f.truncate u s h).0) [
      | inr (e, failed) ↦ Holds-image h _ (f.truncate_failed u s h e failed) k
      | inl (_, done) ↦ record {
        found = record k.found { size = s };
        there = f.truncate_keeps u s h k.found k.there fits done;
        same = k.same;
        fits = fits;
        large = large;
      }
    ]

    grow-Holds : (h : Host) (k : Holds u c n h) → k.found.clean ≡ true → Holds u c n (f.grow u h).1
    grow-Holds h k clean =
        let (e, there, fits) = f.grow_keeps u h k.found k.there clean k.fits in
        record {
          found = record k.found { extent = e };
          there = there;
          same = k.same;
          fits = fits;
          large = k.large;
        }

    pub grow_disk-Holds :
        (s : ℕ) (h : Host) (k : Holds u c n h)
        → k.found.size ≤ s
        → Holds u c n (grow_disk f u s h).1
    unfolding grow_disk
    grow_disk-Holds s h k larger =
        let grown = truncate-Holds s h k (omega (arith, k.fits)) (omega (arith, k.large)) in
        Holds-bind (f.truncate u s) _ h grown (λ _ _.
          Holds-bind (fsck f u) _ _ (fsck-Holds _ grown)
            (λ _ sound. grow-Holds _ (fsck-Holds _ grown) (fsck-clean _ grown (alive u _) sound)))

  module _ (u : String) (c : Content) where
    resize-Holds :
        (s : ℕ) (h : Host) (k : Holds u c 0 h)
        → k.found.clean ≡ true
        → Holds u c 0 (resize f u s h).1
    unfolding resize
    resize-Holds s h k clean =
        let (e, there, fits, small) =
          f.shrink_to_keeps u (s / 1024) h k.found k.there clean k.fits in
        let shrunk : Holds u c 0 (f.shrink_to u (s / 1024) h).1 = record {
          found = record k.found { extent = e };
          there = there;
          same = k.same;
          fits = fits;
          large = omega arith;
        } in
        Holds-bind u c 0 (f.shrink_to u (s / 1024)) _ h shrunk (λ _ done.
          let room = small done in
          truncate-Holds u c 0 s _ shrunk (omega (arith, room)) (omega arith))

    shrink_image-Holds : (s : ℕ) (h : Host) → Holds u c 0 h → Holds u c 0 (shrink_image f u s h).1
    unfolding shrink_image ◌>>=◌ number Holds-image
    shrink_image-Holds s h k =
        let k1 = fsck-Holds u c 0 h k in
        Holds-bind u c 0 (fsck f u) _ h k1 (λ _ sound.
          let clean = fsck-clean u c 0 h k (alive u h) sound in
          let k2 = Holds-image u c 0 _ _ (f.min_blocks_image u _ u) k1 in
          Holds-bind u c 0 (f.min_blocks u) _ _ k2 (λ out _.
            Holds-bind u c 0 (number f out) _ _ (number-Holds u c 0 out _ k2) (λ blocks _.
              let k3 = Holds-image u c 0 _ _ (f.header_image u _ u) k2 in
              Holds-bind u c 0 (f.header u) _ _ k3 (λ header _.
                let line = block_size_line header in
                Holds-bind u c 0 (number f line) _ _ (number-Holds u c 0 line _ k3)
                  (λ size _. if-Holds (f.exceeds ((blocks * size) % 2 ^ 64) s) _ k3 clean)))))
      where
        if-Holds :
            (b : Bool) (h' : Host)
            → (k' : Holds u c 0 h') → k'.found.clean ≡ true
            → Holds u c 0 ((if b then pure tt else resize f u s) h').1
        if-Holds true h' k' clean = unfold pure in k'
        if-Holds false h' k' clean = resize-Holds s h' k' clean

    disk_mib-Holds : (n : ℕ) (h : Host) → Holds u c n h → Holds u c n (disk_mib f u h).1
    unfolding disk_mib
    disk_mib-Holds n h k = elim (Bool-cases (is_valid_user u)) [
      | inl valid ↦ rw valid (Holds-image u c n _ _ (f.stat_image u h u) k)
      | inr other ↦ rw other k
    ]

    pub shrink_disk-Holds :
        (mib : ℕ) (h : Host) → Holds u c 0 h → Holds u c 0 (shrink_disk f u mib h).1
    unfolding shrink_disk pure
    shrink_disk-Holds mib h k =
        let k1 = disk_mib-Holds 0 h k in
        elim (Bool-cases (leb (disk_mib f u h).0 mib)) [
          | inl small ↦ rw small k1
          | inr large ↦ rw large (shrink_image-Holds (mib_bytes mib) _ k1)
        ]

    ensured-Holds :
        (n mib size : ℕ) (h : Host) (k : Holds u c n h)
        → k.found.size ≡ size
        → size < 2 ^ 63
        → Holds u c n (ensured f u mib (ok size) h).1
    unfolding ensured pure
    ensured-Holds n mib size h k at_size small =
        let first =
          if signed_ltb size (mib_bytes mib) then grow_disk f u (mib_bytes mib) else pure tt in
        let grown : Holds u c n (first h).1 = elim (Bool-cases (signed_ltb size (mib_bytes mib))) [
          | inl less ↦ rw less (
              grow_disk-Holds u c n (mib_bytes mib) h k
                (omega (arith, at_size, signed_ltb-le size mib small less)))
          | inr enough ↦ rw enough k
        ] in
        Holds-bind u c n first _ h grown (λ _ _. grown)

    found-Holds :
        (n mib : ℕ) (h : Host) (k : Holds u c n h)
        → k.found.size < 2 ^ 63
        → ((v : Host) → image v u ≢ none → (s : ℕ) × ((f.stat u v).0 ≡ ok s))
        → Holds u c n ((attempt (f.stat u) >>= ensured f u mib) h).1
    unfolding attempt ◌>>=◌ Holds-image
    found-Holds n mib h k small answers =
        let (size, e) = answers h (λ q. absurd (ground arith)) in
        let (i, there, at_size) = f.stat_size u h size e in
        let same : i ≡ k.found = ground arith in
        let k1 = Holds-image u c n h (f.stat u h).1 (f.stat_image u h u) k in
        let sizes : k.found.size ≡ size = ap (λ (x : Image Content). x.size) (sym same) ∙ at_size in
        rw e (ensured-Holds n mib size _ k1 sizes (omega (arith, sizes)))

  -- EnsureDisk loses nothing, if Stat finds an image that is there and e2fsck is not killed by a signal:
  -- on every other path, also one that fails, a user who has a home image still has one, with the same
  -- files, with a file system that fits in it, and not smaller. The image may need a repair before; it is
  -- grown only after e2fsck. The other conditions are that the file system fitted before and that the
  -- size fits an int64.
  pub ensure_disk_keeps :
      (u : String) (mib : ℕ) (h : Host) (i : Image Content)
      → image h u ≡ some i
      → i.extent ≤ i.size
      → i.size < 2 ^ 63
      → ((v : Host) → image v u ≢ none → (s : ℕ) × ((f.stat u v).0 ≡ ok s))
      → (j : Image Content) × (image (ensure_disk f u mib h).1 u ≡ some j)
        × (j.content ≡ i.content)
        × (j.extent ≤ j.size)
        × (i.size ≤ j.size)
  unfolding ensure_disk raise Holds-image
  ensure_disk_keeps u mib h i there fits small answers =
      (k'.found, k'.there, k'.same, k'.fits, k'.large)
    where
      k : Holds u i.content i.size h
      k = record { found = i; there = there; same = refl; fits = fits; large = omega arith }

      k1 : Holds u i.content i.size (f.mkdir_all u h).1
      k1 = Holds-image u i.content i.size h (f.mkdir_all u h).1 (f.mkdir_all_image u h u) k

      k' : Holds u i.content i.size (ensure_disk f u mib h).1
      k' = elim (Bool-cases (is_valid_user u)) [
        | inr bad ↦ rw bad k
        | inl valid ↦ rw valid (
            Holds-bind u i.content i.size (f.mkdir_all u) _ h k1
              (λ _ _. found-Holds u i.content i.size mib (f.mkdir_all u h).1 k1 small answers))
      ]
