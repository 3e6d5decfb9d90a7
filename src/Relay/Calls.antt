-- ===== src/Relay/Calls.antt =====
-- What the methods of the relay promise their callers.
use sandbox_manager.Prelude.{
  ℕ, ◌≤◌, ◌≡◌, ◌≢◌, refl, ap, String, Bool, true, false, List, [], ◌∷◌, none, some, str_eq, eq_iff,
  eq_refl, if◌then◌else◌, arith, Result, ok, Bool-cases, Option-cases, inl, inr, subst, ◌∙◌, ◌↔◌,
  sym, Option,
}
use sandbox_manager.Relay.{
  Relay, Listener, Net, new, find, remove, is_used, candidates, first_free, target_for,
  open_listener, ensure_target, ensure, close, is_kept, address_of, join_host_port, retain,
}
use sandbox_manager.Relay.Ports.{
  IsValid, find-remove, find-retain_from, retain_from-Distinct, retain_from-InRange, remove-IsValid,
  ensure-IsValid, candidates_exhausted,
}

-- A call of the relay; an Ensure brings what the system lets it listen on at that time.
pub data Call : Type 0 where
  ensures : (ℕ → Bool) → String → String → ℕ → Call
  closes : String → Call
  retains : List (String × String) → Call

module _ (net : Net) where
  unfoldable pub step : Call → Relay → Relay
  step (ensures can_listen id ip preferred) r = (ensure net can_listen id ip preferred r).1
  step (closes id) r = close id r
  step (retains keep) r = retain keep r

  unfoldable pub run : List Call → Relay → Relay
  unfolding step
  run [] r = r
  run (c ∷ cs) r = run cs (step c r)

  step-IsValid : (c : Call) (r : Relay) → IsValid r → IsValid (step c r)
  unfolding step close retain
  step-IsValid (ensures can_listen id ip preferred) r h =
      ensure-IsValid net can_listen id ip preferred r h
  step-IsValid (closes id) r h = remove-IsValid net id r h
  step-IsValid (retains keep) r h = record {
    distinct = retain_from-Distinct keep r.target_port r.by_id h.distinct;
    in_range = retain_from-InRange r.first r.last keep r.target_port r.by_id h.in_range;
  }

  run_from : (cs : List Call) (r : Relay) → IsValid r → IsValid (run cs r)
  unfolding run
  run_from [] r h = h
  run_from (c ∷ cs) r h = run_from cs (step c r) (step-IsValid c r h)

  -- After any calls on a new relay, no two listeners share a port, no sandbox has two listeners, and
  -- every port lies in the range that the relay was made with.
  pub run-IsValid :
      (cs : List Call) (host : String) (first last : ℕ) → IsValid (run cs (new host first last))
  unfolding new
  run-IsValid cs host first last = run_from cs _ (record { distinct = tt; in_range = tt })

  -- A sandbox's listener: its port and its target.
  pub record Serves (r : Relay) (id target : String) (port : ℕ) : Type 0 where
    pub listener : Listener
    pub found : find id r.by_id ≡ some listener
    pub at_port : listener.port ≡ port
    pub to_target : listener.target ≡ target

  open_listener-Serves :
      (can_listen : ℕ → Bool) (id target : String) (preferred : ℕ) (r : Relay) (p : ℕ)
      → (open_listener net can_listen id target preferred r).0 ≡ ok p
      → Serves (open_listener net can_listen id target preferred r).1 id target p
  unfolding open_listener find
  open_listener-Serves can_listen id target preferred r p e =
      elim (Option-cases (first_free can_listen r.by_id (candidates r preferred))) [
        | inl none_left ↦ absurd (ground arith)
        | inr (q, free) ↦
            rw (free, open_listener)
              (record {
                listener = record { port = q; target = target; closed = false; sessions = [] };
                found = ground (arith, eq_refl id);
                at_port = ground arith;
                to_target = refl;
              })
      ]

  open_listener-others :
      (can_listen : ℕ → Bool) (id target : String) (preferred : ℕ) (r : Relay) (j : String)
      → str_eq id j ≡ false
      → find j (open_listener net can_listen id target preferred r).1.by_id ≡ find j r.by_id
  unfolding open_listener find
  open_listener-others can_listen id target preferred r j h = ground arith

  -- The relay without the sandbox's listener.
  abbrev without : String → Relay → Relay
  without id r = record r { by_id = remove id r.by_id }

  remove_absent :
      (id : String) (ls : List (String × Listener)) → find id ls ≡ none → remove id ls ≡ ls
  unfolding find remove
  remove_absent id [] e = refl
  remove_absent id ((j, l) ∷ rest) e = ground (arith, remove_absent id rest)

  -- Ensure either keeps the listener that it finds, or opens one where none is left.
  ensure_cases {ℓ} :
      (P : Result ℕ × Relay → Type ℓ) (can_listen : ℕ → Bool) (id ip target : String)
      (preferred : ℕ) (r : Relay)
      → target_for net r ip ≡ some target
      → ((l : Listener) → find id r.by_id ≡ some l → l.target ≡ target → P (ok l.port, r))
      → P (open_listener net can_listen id target preferred (without id r))
      → P (ensure net can_listen id ip preferred r)
  unfolding ensure ensure_target
  ensure_cases P can_listen id ip target preferred r known kept opened =
      rw (known, ensure)
        (elim (Option-cases (find id r.by_id)) [
          | inl e ↦
              rw (e, ensure_target)
                (subst
                  (λ ls.
                    P (open_listener net can_listen id target preferred (record r { by_id = ls })))
                  (remove_absent id r.by_id e) opened)
          | inr (l, e) ↦ elim (Bool-cases (str_eq l.target target)) [
            | inl same ↦
                rw (e, ensure_target) (rw same (kept l e ((eq_iff l.target target).0 same)))
            | inr other ↦ rw (e, ensure_target) (rw other opened)
          ]
        ])

  -- Ensure's answer is the port of the sandbox's listener, and that listener relays to the address
  -- that the sandbox has now.
  pub ensure-Serves :
      (can_listen : ℕ → Bool) (id ip target : String) (preferred : ℕ) (r : Relay) (p : ℕ)
      → target_for net r ip ≡ some target
      → (ensure net can_listen id ip preferred r).0 ≡ ok p
      → Serves (ensure net can_listen id ip preferred r).1 id target p
  ensure-Serves can_listen id ip target preferred r p known =
      ensure_cases (λ x. x.0 ≡ ok p → Serves x.1 id target p) can_listen id ip target preferred r
        known
        (λ l found same e. record {
          listener = l;
          found = found;
          at_port = ground arith;
          to_target = same;
        })
        (λ e. open_listener-Serves can_listen id target preferred (without id r) p e)

  -- Ensure leaves the listener of every other sandbox as it is, whether it succeeds or fails.
  pub find-ensure_ne :
      (can_listen : ℕ → Bool) (id ip j : String) (preferred : ℕ) (r : Relay)
      → j ≢ id
      → find j (ensure net can_listen id ip preferred r).1.by_id ≡ find j r.by_id
  unfolding ensure
  find-ensure_ne can_listen id ip j preferred r ne =
      let apart : str_eq id j ≡ false = ground (arith, eq_iff id j) in
      elim (Option-cases (target_for net r ip)) [
        | inl e ↦ rw (e, ensure) refl
        | inr (target, e) ↦
            ensure_cases (λ x. find j x.1.by_id ≡ find j r.by_id) can_listen id ip target preferred
              r e (λ l found same. refl)
              (open_listener-others can_listen id target preferred (without id r) j apart
                ∙ find-remove id j r.by_id
                ∙ rw apart)
      ]

  target_for-ensure :
      (can_listen : ℕ → Bool) (id ip target : String) (preferred : ℕ) (r : Relay)
      → target_for net r ip ≡ some target
      → target_for net (ensure net can_listen id ip preferred r).1 ip ≡ some target
  unfolding target_for open_listener
  target_for-ensure can_listen id ip target preferred r known =
      ensure_cases (λ x. target_for net x.1 ip ≡ some target) can_listen id ip target preferred r
        known (λ l found same. known) (ground arith)

  -- A second Ensure for the same address answers the same port and changes nothing, whatever port is
  -- preferred and whatever the system would let it listen on by then.
  pub ensure_again :
      (can_listen later : ℕ → Bool) (id ip target : String) (preferred other : ℕ) (r : Relay)
      (p : ℕ)
      → target_for net r ip ≡ some target
      → (ensure net can_listen id ip preferred r).0 ≡ ok p
      → ensure net later id ip other (ensure net can_listen id ip preferred r).1
        ≡ (ok p, (ensure net can_listen id ip preferred r).1)
  unfolding ensure ensure_target
  ensure_again can_listen later id ip target preferred other r p known e =
      let s = ensure-Serves can_listen id ip target preferred r p known e in
      let same : str_eq s.listener.target target ≡ true =
        (eq_iff s.listener.target target).1 s.to_target in
      rw (target_for-ensure can_listen id ip target preferred r known, ensure)
        (rw (s.found, ensure_target) (rw same (rw s.at_port)))

  -- While some port of the range is free, that is, used by no other sandbox and open to the process,
  -- Ensure succeeds; so it reports exhaustion only when there is none.
  pub ensure_finds :
      (can_listen : ℕ → Bool) (id ip target : String) (preferred : ℕ) (r : Relay) (p : ℕ)
      → target_for net r ip ≡ some target
      → r.first ≤ p
      → p ≤ r.last
      → can_listen p ≡ true
      → is_used p (remove id r.by_id) ≡ false
      → (q : ℕ) × ((ensure net can_listen id ip preferred r).0 ≡ ok q)
  unfolding open_listener
  ensure_finds can_listen id ip target preferred r p known low high opens unused =
      ensure_cases (λ x. (q : ℕ) × (x.0 ≡ ok q)) can_listen id ip target preferred r known
        (λ l found same. (l.port, refl))
        (elim (Option-cases
          (first_free can_listen (remove id r.by_id) (candidates (without id r) preferred))) [
            | inl e ↦ absurd (
                ground
                  (arith, candidates_exhausted can_listen (without id r) preferred p e low high))
            | inr (q, e) ↦ (q, rw (e, open_listener) refl)
          ])

  -- A sandbox without a listener gets the preferred port, if that lies in the range, no other sandbox
  -- uses it and the process may listen on it: so a restarted manager keeps the ports.
  pub ensure_preferred :
      (can_listen : ℕ → Bool) (id ip target : String) (preferred : ℕ) (r : Relay)
      → target_for net r ip ≡ some target
      → find id r.by_id ≡ none
      → r.first ≤ preferred
      → preferred ≤ r.last
      → can_listen preferred ≡ true
      → is_used preferred r.by_id ≡ false
      → (ensure net can_listen id ip preferred r).0 ≡ ok preferred
  unfolding ensure ensure_target open_listener candidates first_free
  ensure_preferred can_listen id ip target preferred r known new low high opens unused =
      rw (known, ensure) (rw (new, ensure_target) (ground arith))

-- A listener is to be kept exactly if its target is the address that is told for its sandbox.
is_kept_iff :
    (keep : List (String × String)) (port id : String) (l : Listener)
    → (is_kept keep port id l ≡ true)
      ↔ ((ip : String) × (address_of id keep ≡ some ip) × (l.target ≡ join_host_port ip port))
unfolding is_kept
is_kept_iff keep port id l = elim (Option-cases (address_of id keep)) [
  | inl e ↦ (λ q. absurd (ground (arith, is_kept, e)), λ (ip, known, same). absurd (ground arith))
  | inr (ip, e) ↦
      rw (is_kept, e)
        (
          λ q. (ip, refl, (eq_iff l.target (join_host_port ip port)).0 q),
          λ (ip', known, same).
              (eq_iff l.target (join_host_port ip port)).1 (ground (arith, known, same)),
        )
]

kept_iff :
    (o : Option Listener) (f : Listener → Bool) (l : Listener)
    → ((elim o [ none ↦ none | some k ↦ if f k then some k else none ]) ≡ some l)
      ↔ ((o ≡ some l) × (f l ≡ true))
kept_iff none f l = (λ e. absurd (ground arith), λ (e, q). absurd (ground arith))
kept_iff (some k) f l = go (f k) refl
  where
    go :
        (b : Bool)
        → f k ≡ b
        → ((if b then some k else none) ≡ some l) ↔ ((some k ≡ some l) × (f l ≡ true))
    go true y = (λ e. let same : k ≡ l = ground arith in (e, ap f (sym same) ∙ y), λ (e, q). e)
    go false y = (
      λ e. absurd (ground arith),
      λ (e, q). let same : k ≡ l = ground arith in absurd (ground (arith, ap f same, y, q)),
    )

-- Retain leaves exactly the listeners of the sandboxes that it is told to keep, at the addresses
-- that it is told, each as it was: in a valid relay, a sandbox has a listener afterwards exactly if it
-- had that listener before, an address is told for it, and the listener relays to that address.
pub find-retain :
    (keep : List (String × String)) (r : Relay) (id : String) (l : Listener)
    → IsValid r
    → (find id (retain keep r).by_id ≡ some l) ↔ (
        (find id r.by_id ≡ some l)
        × (ip : String) × (address_of id keep ≡ some ip)
        × (l.target ≡ join_host_port ip r.target_port))
unfolding retain
find-retain keep r id l h =
    let kept = is_kept_iff keep r.target_port id l in
    let found = kept_iff (find id r.by_id) (is_kept keep r.target_port id) l in
    let same = find-retain_from keep r.target_port id r.by_id h.distinct in
    (
      λ e.
          let (before, q) = found.0 (sym same ∙ e) in
          let (ip, known, target) = kept.0 q in (before, ip, known, target),
      λ (before, ip, known, target). same ∙ found.1 (before, kept.1 (ip, known, target)),
    )

-- Close ends the sandbox's listener and no other one.
pub find-close :
    (id j : String) (r : Relay)
    → find j (close id r).by_id ≡ (if str_eq id j then none else find j r.by_id)
unfolding close
find-close id j r = find-remove id j r.by_id
