-- ===== src/Home/Grown.antt =====
-- The size of the home image that EnsureDisk of internal/userhome/userhome.go gives.
use sandbox_manager.Prelude.{
  ℕ, ◌*◌, ◌^◌, ◌≤◌, ◌<◌, ◌≡◌, refl, sym, ap, ◌∙◌, String, Bool, true, false, some, arith,
  if◌then◌else◌, Result, ok, err, pure, raise, attempt, ◌>>=◌, bind-eq-ok, subst,
}
use sandbox_manager.Home.Tools.{Files, Image}
use sandbox_manager.Home.{
  mib_bytes, signed_ltb, is_valid_user, fsck, grow_disk, formatted, new_disk, ensured, ensure_disk,
}
use sandbox_manager.Home.Keeps.{signed_ltb-le}

module _ (f : Files) where
  open f use {Host, Content, image}

  -- The user has an image of at least that size.
  pub record Provided (u : String) (n : ℕ) (h : Host) : Type 0 where
    pub found : Image Content
    pub there : image h u ≡ some found
    pub large : n ≤ found.size

  signed_ltb-ge :
      (a b : ℕ) → a < 2 ^ 63 → b < 2 ^ 43 → signed_ltb a (mib_bytes b) ≡ false → b * 1048576 ≤ a
  unfolding signed_ltb mib_bytes
  signed_ltb-ge a b small few e = ground arith

  mib_bytes_lem : (b : ℕ) → b < 2 ^ 43 → mib_bytes b ≡ b * 1048576
  unfolding mib_bytes
  mib_bytes_lem b few = omega arith

  module _ (u : String) where
    Provided-image :
        (n : ℕ) (h h' : Host) → image h' u ≡ image h u → Provided u n h → Provided u n h'
    Provided-image n h h' e k = record { found = k.found; there = e ∙ k.there; large = k.large }

    formatted-ok :
        (r : Result (Unit {0})) (h : Host) (path : String)
        → (formatted f u r h).0 ≡ ok path
        → (r ≡ ok tt) × ((formatted f u r h).1 ≡ h)
    unfolding formatted pure raise attempt ◌>>=◌
    formatted-ok (ok tt) h path e = (refl, refl)
    formatted-ok (err x) h path e = absurd (ground arith)

    format-ok :
        (h : Host) (made : Result (Unit {0}))
        → (attempt (f.format u) h).0 ≡ ok made
        → made ≡ ok tt
        → (f.format u h).0 ≡ ok tt
    unfolding attempt
    format-ok h made e good = ground arith

    new_disk-Provided :
        (mib : ℕ) (h : Host) (path : String)
        → (new_disk f u mib h).0 ≡ ok path
        → Provided u (mib_bytes mib) (new_disk f u mib h).1
    unfolding new_disk attempt
    new_disk-Provided mib h path e =
        let (_, e0, r0, s0) = bind-eq-ok (f.create u) _ h path e in
        let h0 = (f.create u h).1 in
        let (i, there) = f.create_image u h e0 in
        let (_, e1, r1, s1) = bind-eq-ok (f.truncate u (mib_bytes mib)) _ h0 path r0 in
        let h1 = (f.truncate u (mib_bytes mib) h0).1 in
        let (j, there1, size1) = f.truncate_size u (mib_bytes mib) h0 i there e1 in
        let (made, e2, r2, s2) = bind-eq-ok (attempt (f.format u)) (formatted f u) h1 path r1 in
        let (good, state) = formatted-ok made (attempt (f.format u) h1).1 path r2 in
        let (k, there2, size2, fits) = f.format_image u h1 j there1 (format-ok h1 made e2 good) in
        let ends = ap (λ x. x.1) s0 ∙ ap (λ x. x.1) s1 ∙ ap (λ x. x.1) s2 ∙ state in
        record {
          found = k;
          there = ap (λ (x : Host). image x u) ends ∙ there2;
          large = omega (arith, size1, size2);
        }

    grow_disk-Provided :
        (n : ℕ) (h : Host) (i : Image Content)
        → image h u ≡ some i
        → i.extent ≤ i.size
        → i.size ≤ n
        → (grow_disk f u n h).0 ≡ ok tt
        → Provided u n (grow_disk f u n h).1
    unfolding grow_disk fsck
    grow_disk-Provided n h i there fits small e =
        let (_, e0, r0, s0) = bind-eq-ok (f.truncate u n) _ h tt e in
        let h0 = (f.truncate u n h).1 in
        let there0 = f.truncate_keeps u n h i there (omega arith) e0 in
        let (_, e1, r1, s1) = bind-eq-ok (fsck f u) (λ _. f.grow u) h0 tt r0 in
        let h1 = (f.check u h0).1 in
        let (b, there1, told) = f.check_repairs u h0 (record i { size = n }) there0 in
        let (j, there2, size2) = f.grow_size u h1 (record i { size = n; clean = b }) there1 in
        let ends = ap (λ y. y.1) s0 ∙ ap (λ y. y.1) s1 in
        record {
          found = j;
          there = ap (λ (y : Host). image y u) ends ∙ there2;
          large = omega (arith, size2);
        }

    ensured-Provided :
        (mib size : ℕ) (h : Host) (i : Image Content) (path : String)
        → image h u ≡ some i
        → i.size ≡ size
        → i.extent ≤ i.size
        → size < 2 ^ 63
        → mib < 2 ^ 43
        → (ensured f u mib (ok size) h).0 ≡ ok path
        → Provided u (mib * 1048576) (ensured f u mib (ok size) h).1
    unfolding ensured pure
    ensured-Provided mib size h i path there at_size fits small few e =
        let first =
          if signed_ltb size (mib_bytes mib) then grow_disk f u (mib_bytes mib) else pure tt in
        let (_, e0, r0, s0) = bind-eq-ok first (λ _. pure (f.home_img u)) h path e in
        subst (Provided u (mib * 1048576)) (sym (ap (λ y. y.1) s0))
          (go (signed_ltb size (mib_bytes mib)) refl e0)
      where
        go :
            (b : Bool)
            → signed_ltb size (mib_bytes mib) ≡ b
            → ((if b then grow_disk f u (mib_bytes mib) else pure tt) h).0 ≡ ok tt
            → Provided u
                (mib * 1048576)
                ((if b then grow_disk f u (mib_bytes mib) else pure tt) h).1
        go true less done =
            subst (λ n. Provided u n (grow_disk f u (mib_bytes mib) h).1) (mib_bytes_lem mib few)
              (grow_disk-Provided (mib_bytes mib) h i there fits
                (omega (arith, at_size, signed_ltb-le size mib small less)) done)
        go false enough done = record {
          found = i;
          there = there;
          large = omega (arith, at_size, signed_ltb-ge size mib small few enough);
        }

    found-Provided :
        (mib : ℕ) (found : Result ℕ) (h0 h : Host) (path : String)
        → mib < 2 ^ 43
        → ((i : Image Content) → image h0 u ≡ some i → (i.size < 2 ^ 63) × (i.extent ≤ i.size))
        → (f.stat u h0).0 ≡ found
        → h ≡ (f.stat u h0).1
        → (ensured f u mib found h).0 ≡ ok path
        → Provided u (mib * 1048576) (ensured f u mib found h).1
    unfolding ensured
    found-Provided mib (ok size) h0 h path few whole answer same e =
        let (i, there, at_size) = f.stat_size u h0 size answer in
        let (small, fits) = whole i there in
        let still = ap (λ (x : Host). image x u) same ∙ f.stat_image u h0 u ∙ there in
        ensured-Provided mib size h i path still at_size fits (omega (arith, at_size)) few e
    found-Provided mib (err x) h0 h path few whole answer same e =
        subst (λ n. Provided u n (new_disk f u mib h).1) (mib_bytes_lem mib few)
          (new_disk-Provided mib h path e)

    ensure_disk-valid :
        (mib : ℕ) (h : Host) (path : String)
        → (ensure_disk f u mib h).0 ≡ ok path
        → is_valid_user u ≡ true
    unfolding ensure_disk raise
    ensure_disk-valid mib h path e = ground arith

    valid-Provided :
        (mib : ℕ) (h : Host) (path : String)
        → mib < 2 ^ 43
        → ((i : Image Content) → image h u ≡ some i → (i.size < 2 ^ 63) × (i.extent ≤ i.size))
        → is_valid_user u ≡ true
        → (ensure_disk f u mib h).0 ≡ ok path
        → Provided u (mib * 1048576) (ensure_disk f u mib h).1
    unfolding ensure_disk attempt
    valid-Provided mib h path few whole valid = rw valid (λ e.
        let (_, e0, r0, s0) = bind-eq-ok (f.mkdir_all u) _ h path e in
        let h0 = (f.mkdir_all u h).1 in
        let (found, e1, r1, s1) = bind-eq-ok (attempt (f.stat u)) (ensured f u mib) h0 path r0 in
        let ends = ap (λ y. y.1) s0 ∙ ap (λ y. y.1) s1 in
        subst (Provided u (mib * 1048576)) (sym ends) (
          found-Provided mib found h0 (f.stat u h0).1 path few
            (λ i there. whole i (sym (f.mkdir_all_image u h u) ∙ there)) (ground arith) refl r1))

  -- What EnsureDisk promises: when it succeeds, the user has an image of at least the size that was asked
  -- for, whether it was there, was grown or is new. The conditions are that the size in MiB is below
  -- 2^43, that an image's size fits an int64 before, and that its file system fits in it.
  pub ensure_disk_large :
      (u : String) (mib : ℕ) (h : Host) (path : String)
      → mib < 2 ^ 43
      → ((i : Image Content) → image h u ≡ some i → (i.size < 2 ^ 63) × (i.extent ≤ i.size))
      → (ensure_disk f u mib h).0 ≡ ok path
      → (j : Image Content) × (image (ensure_disk f u mib h).1 u ≡ some j)
        × (mib * 1048576 ≤ j.size)
  ensure_disk_large u mib h path few whole e =
      let k = valid-Provided u mib h path few whole (ensure_disk-valid u mib h path e) e in
      (k.found, k.there, k.large)
