-- ===== src/Admission/Capacity.antt =====
-- Any number of creates at once: each is admitted, may boot its VM, and releases its reservation,
-- in any order, while VMs die as they please.
use native.Mathlib.Nat.{mul-le-mul_right}
use sandbox_manager.Prelude.{
  ℕ, suc, ◌+◌, ◌%◌, ◌≤◌, ◌<◌, ◌≡◌, refl, List, [], ◌∷◌, some, arith, length, ap, All, ◌*◌, ◌^◌, ok,
  if◌then◌else◌, Bool, true, false,
}
use sandbox_manager.Admission.{Limits, Gate, u64_mod, budget, admit, release, reserve}

-- A create between its admission and its release: what it reserved, and whether its VM has booted.
pub record Flight : Type 0 where
  pub mib : ℕ
  pub booted : Bool

-- The host: the counters, the creates in flight, and how many VMs run.
pub record HostState : Type 0 where
  pub gate : Gate
  pub flights : List Flight
  pub running : ℕ

abbrev pub total_mib : List Flight → ℕ
total_mib [] = 0
total_mib (f ∷ fs) = f.mib + total_mib fs

-- The creates in flight whose VM does not run yet.
abbrev pub unbooted : List Flight → ℕ
unbooted [] = 0
unbooted (f ∷ fs) = (if f.booted then 0 else 1) + unbooted fs

-- One create somewhere in the list ends, or boots its VM.
pub data Takes : Flight → List Flight → List Flight → Type 0 where
  first : {f : Flight} {fs : List Flight} → Takes f (f ∷ fs) fs
  later : {f g : Flight} {fs gs : List Flight} → Takes f fs gs → Takes f (g ∷ fs) (g ∷ gs)

-- A step of the host under these limits. RunningCount answers the number of running VMs, and the size
-- that is asked for is a uint32.
pub data Step (limits : Limits) (h : HostState) : HostState → Type 0 where
  admits :
      (vm_mib mib available : ℕ) (g : Gate)
      → vm_mib < 2 ^ 32
      → admit limits vm_mib (ok h.running) (some available) h.gate ≡ (ok mib, g)
      → Step limits h (record {
        gate = g;
        flights = record { mib = mib; booted = false } ∷ h.flights;
        running = h.running;
      })
  boots :
      (mib : ℕ) (rest : List Flight)
      → Takes (record { mib = mib; booted = false }) h.flights rest
      → Step limits h (record {
        gate = h.gate;
        flights = record { mib = mib; booted = true } ∷ rest;
        running = h.running + 1;
      })
  ends :
      (f : Flight) (rest : List Flight)
      → Takes f h.flights rest
      → Step limits h (record { gate = release f.mib h.gate; flights = rest; running = h.running })
  dies : (n : ℕ) → h.running ≡ suc n → Step limits h (record h { running = n })

pub data Reach (limits : Limits) (h : HostState) : HostState → Type 0 where
  here : Reach limits h h
  next : {s t : HostState} → Reach limits h s → Step limits s t → Reach limits h t

-- The most that one create reserves.
abbrev pub most : Limits → ℕ
most limits = 2 ^ 32 + limits.vm_memory_mib

-- The limits leave the memory sums within a word.
abbrev pub IsSane : Limits → Type 0
IsSane limits =
    limits.host_memory_reserve_mib + (limits.max_vms * most limits + most limits) < u64_mod

-- The counters are exactly the creates in flight, and VMs that run or may still boot fit the limit.
pub record IsAccounted (limits : Limits) (h : HostState) : Type 0 where
  pub counted : h.gate.pending_creates ≡ length h.flights
  pub budgeted : h.gate.pending_mib ≡ total_mib h.flights
  pub each : All (λ f. f.mib ≤ most limits) h.flights
  pub few : length h.flights ≤ limits.max_vms
  pub fits : h.running + unbooted h.flights ≤ limits.max_vms

Takes-sums :
    {f : Flight} {fs gs : List Flight}
    → Takes f fs gs
    → (length fs ≡ suc (length gs))
      × (total_mib fs ≡ f.mib + total_mib gs)
      × (unbooted fs ≡ (if f.booted then 0 else 1) + unbooted gs)
Takes-sums first = (omega arith, omega arith, refl)
Takes-sums (later t) = let (a, b, c) = Takes-sums t in (omega arith, omega arith, omega arith)

unbooted-le-length : (fs : List Flight) → unbooted fs ≤ length fs
unbooted-le-length [] = omega arith
unbooted-le-length (f ∷ fs) = ground (arith, unbooted-le-length fs)

total_mib-le : (m : ℕ) (fs : List Flight) → All (λ f. f.mib ≤ m) fs → total_mib fs ≤ length fs * m
total_mib-le m [] h = omega arith
total_mib-le m (f ∷ fs) h = grind (arith, total_mib-le m fs h.1)

-- No reservation overflows the counter of memory.
no_overflow :
    (limits : Limits) (h : HostState)
    → IsSane limits
    → IsAccounted limits h
    → limits.host_memory_reserve_mib + total_mib h.flights + most limits < u64_mod
no_overflow limits h sane a =
    let many : length h.flights * most limits ≤ limits.max_vms * most limits =
      mul-le-mul_right (most limits) a.few in
    omega (arith, total_mib-le (most limits) h.flights a.each)

-- What a successful admission means: there was room, the VM is budgeted at its real size or the
-- default, the memory covers the reserve and every create in flight, and that much is reserved.
pub admit-eq-ok :
    (limits : Limits) (vm_mib running available mib : ℕ) (before after : Gate)
    → admit limits vm_mib (ok running) (some available) before ≡ (ok mib, after)
    → (running + before.pending_creates < limits.max_vms)
      × (mib ≡ budget limits vm_mib)
      × ((limits.host_memory_reserve_mib + before.pending_mib + mib) % u64_mod ≤ available)
      × (after ≡ reserve before mib)
unfolding admit
admit-eq-ok limits vm_mib running available mib before after e = ground arith

admits-IsAccounted :
    (limits : Limits) (h : HostState) (vm_mib mib available : ℕ) (g : Gate)
    → IsSane limits
    → vm_mib < 2 ^ 32
    → admit limits vm_mib (ok h.running) (some available) h.gate ≡ (ok mib, g)
    → IsAccounted limits h
    → IsAccounted limits (record {
      gate = g;
      flights = record { mib = mib; booted = false } ∷ h.flights;
      running = h.running;
    })
admits-IsAccounted limits h vm_mib mib available g sane small e a =
    let room = no_overflow limits h sane a in
    let pending = unbooted-le-length h.flights in
    let (below, size, _, after) = admit-eq-ok limits vm_mib h.running available mib h.gate g e in
    let fits : mib ≤ most limits = omega arith in
    record {
      counted = omega (arith, ap (λ (x : Gate). x.pending_creates) after);
      budgeted = omega (arith, ap (λ (x : Gate). x.pending_mib) after);
      each = (fits, a.each);
      few = omega arith;
      fits = omega arith;
    }

Takes-All :
    {f : Flight} {fs gs : List Flight} (m : ℕ)
    → Takes f fs gs
    → All (λ x. x.mib ≤ m) fs
    → (f.mib ≤ m) × All (λ x. x.mib ≤ m) gs
Takes-All m first h = h
Takes-All m (later t) h = let (a, b) = Takes-All m t h.1 in (a, (h.0, b))

boots-IsAccounted :
    (limits : Limits) (h : HostState) (mib : ℕ) (rest : List Flight)
    → Takes (record { mib = mib; booted = false }) h.flights rest
    → IsAccounted limits h
    → IsAccounted limits (record {
      gate = h.gate;
      flights = record { mib = mib; booted = true } ∷ rest;
      running = h.running + 1;
    })
boots-IsAccounted limits h mib rest t a =
    let (len, sum, waiting) = Takes-sums t in
    let (one, others) = Takes-All (most limits) t a.each in
    record {
      counted = omega arith;
      budgeted = omega arith;
      each = (one, others);
      few = omega arith;
      fits = omega arith;
    }

ends-IsAccounted :
    (limits : Limits) (h : HostState) (f : Flight) (rest : List Flight)
    → IsSane limits
    → Takes f h.flights rest
    → IsAccounted limits h
    → IsAccounted limits
        (record { gate = release f.mib h.gate; flights = rest; running = h.running })
unfolding release
ends-IsAccounted limits h f rest sane t a =
    let (len, sum, waiting) = Takes-sums t in
    let room = no_overflow limits h sane a in
    record {
      counted = omega arith;
      budgeted = omega arith;
      each = (Takes-All (most limits) t a.each).1;
      few = omega arith;
      fits = ground arith;
    }

Step-IsAccounted :
    (limits : Limits) {s t : HostState}
    → IsSane limits
    → IsAccounted limits s
    → Step limits s t
    → IsAccounted limits t
Step-IsAccounted limits {s} sane a (admits vm_mib mib available g small e) =
    admits-IsAccounted limits s vm_mib mib available g sane small e a
Step-IsAccounted limits {s} sane a (boots mib rest t) = boots-IsAccounted limits s mib rest t a
Step-IsAccounted limits {s} sane a (ends f rest t) = ends-IsAccounted limits s f rest sane t a
Step-IsAccounted limits {s} sane a (dies n e) = record {
  counted = a.counted;
  budgeted = a.budgeted;
  each = a.each;
  few = a.few;
  fits = omega arith;
}

-- A host where nothing is in flight, with VMs from before that fit the limit.
abbrev pub quiet : ℕ → HostState
quiet running = record {
  gate = record { pending_creates = 0; pending_mib = 0 };
  flights = [];
  running = running;
}

-- In every interleaving of admissions, boots, ends and deaths, from a quiet host: the counters are
-- exactly the creates in flight (so no release ever underflows or leaks), and the running VMs with
-- those that may still boot never exceed the limit.
pub Reach-IsAccounted :
    (limits : Limits) (running : ℕ) {t : HostState}
    → IsSane limits
    → running ≤ limits.max_vms
    → Reach limits (quiet running) t
    → IsAccounted limits t
Reach-IsAccounted limits running sane fits here = record {
  counted = refl;
  budgeted = refl;
  each = tt;
  few = omega arith;
  fits = omega arith;
}
Reach-IsAccounted limits running sane fits (next r st) =
    Step-IsAccounted limits sane (Reach-IsAccounted limits running sane fits r) st
