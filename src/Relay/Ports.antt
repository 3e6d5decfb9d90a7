-- ===== src/Relay/Ports.antt =====
-- Valid maps of listeners (internal/sshrelay/relay.go), and what the operations do to them.
use sandbox_manager.Prelude.{
  ℕ, ◌+◌, ◌-◌, ◌≤◌, ◌<◌, ◌≡◌, refl, zero, suc, String, Bool, true, false, ◌||◌, not, ◌&&◌, List, [],
  ◌∷◌, none, some, str_eq, eq_iff, eq_refl, leb, ◌==◌, if◌then◌else◌, arith, All, Bool-cases,
  Option-cases, inl, inr, ==_iff, subst,
}
use sandbox_manager.Relay.{
  Relay, Listener, Net, find, remove, is_used, ports_from, candidates, first_free, target_for,
  open_listener, ensure_target, ensure, is_kept, retain_from,
}

abbrev pub Distinct : List (String × Listener) → Type 0
Distinct [] = Unit
Distinct ((id, l) ∷ rest) = (is_used l.port rest ≡ false) × (find id rest ≡ none) × Distinct rest

abbrev pub InRange : ℕ → ℕ → List (String × Listener) → Type 0
InRange first last = All (λ e. (first ≤ e.1.port) × (e.1.port ≤ last))

pub record IsValid (r : Relay) : Type 0 where
  pub distinct : Distinct r.by_id
  pub in_range : InRange r.first r.last r.by_id

pub find-remove :
    (id j : String) (ls : List (String × Listener))
    → find j (remove id ls) ≡ (if str_eq id j then none else find j ls)
unfolding find remove
find-remove id j [] = ground arith
find-remove id j ((k, l) ∷ rest) =
    ground (arith, find-remove id j rest, eq_iff k id, eq_iff k j, eq_iff id j)

is_used-remove :
    (p : ℕ) (id : String) (ls : List (String × Listener))
    → is_used p ls ≡ false
    → is_used p (remove id ls) ≡ false
unfolding is_used remove
is_used-remove p id [] h = refl
is_used-remove p id ((k, l) ∷ rest) h = ground (arith, is_used-remove p id rest)

pub remove-Distinct :
    (id : String) (ls : List (String × Listener)) → Distinct ls → Distinct (remove id ls)
unfolding remove
remove-Distinct id [] h = tt
remove-Distinct id ((k, l) ∷ rest) h =
    ground
      (arith, remove-Distinct id rest h.2, is_used-remove l.port id rest h.0, find-remove id k rest)

pub remove-InRange :
    (a b : ℕ) (id : String) (ls : List (String × Listener))
    → InRange a b ls
    → InRange a b (remove id ls)
unfolding remove
remove-InRange a b id [] h = tt
remove-InRange a b id ((k, l) ∷ rest) h = ground (arith, remove-InRange a b id rest h.1)

pub find-retain_from :
    (keep : List (String × String)) (port j : String) (ls : List (String × Listener))
    → Distinct ls
    → find j (retain_from keep port ls)
      ≡ (elim (find j ls) [ none ↦ none | some l ↦ if is_kept keep port j l then some l else none ])
unfolding find retain_from
find-retain_from keep port j [] h = refl
find-retain_from keep port j ((k, l) ∷ rest) h = ground (
  arith,
  find-retain_from keep port j rest h.2,
  eq_iff k j,
  find-retain_from keep port k rest h.2,
)

is_used-retain_from :
    (keep : List (String × String)) (port : String) (p : ℕ) (ls : List (String × Listener))
    → is_used p ls ≡ false
    → is_used p (retain_from keep port ls) ≡ false
unfolding is_used retain_from
is_used-retain_from keep port p [] h = refl
is_used-retain_from keep port p ((k, l) ∷ rest) h =
    ground (arith, is_used-retain_from keep port p rest)

pub retain_from-Distinct :
    (keep : List (String × String)) (port : String) (ls : List (String × Listener))
    → Distinct ls
    → Distinct (retain_from keep port ls)
unfolding retain_from
retain_from-Distinct keep port [] h = tt
retain_from-Distinct keep port ((k, l) ∷ rest) h = ground (
  arith,
  retain_from-Distinct keep port rest h.2,
  is_used-retain_from keep port l.port rest h.0,
  find-retain_from keep port k rest h.2,
)

pub retain_from-InRange :
    (a b : ℕ) (keep : List (String × String)) (port : String) (ls : List (String × Listener))
    → InRange a b ls
    → InRange a b (retain_from keep port ls)
unfolding retain_from
retain_from-InRange a b keep port [] h = tt
retain_from-InRange a b keep port ((k, l) ∷ rest) h =
    ground (arith, retain_from-InRange a b keep port rest h.1)

abbrev pub Between : ℕ → ℕ → List ℕ → Type 0
Between a b = All (λ p. (a ≤ p) × (p ≤ b))

-- What is found can be listened on, is unused, and lies where the candidates do.
pub first_free-some :
    (can_listen : ℕ → Bool) (used : List (String × Listener)) (a b : ℕ) (ps : List ℕ) (p : ℕ)
    → first_free can_listen used ps ≡ some p
    → Between a b ps
    → (is_used p used ≡ false) × (can_listen p ≡ true) × (a ≤ p) × (p ≤ b)
unfolding first_free
first_free-some can_listen used a b [] p e h = absurd (grind arith)
first_free-some can_listen used a b (q ∷ qs) p e h =
    elim (Bool-cases (not (is_used q used) && can_listen q)) [
      | inl free ↦ ground arith
      | inr taken ↦ first_free-some can_listen used a b qs p (rw taken at e) h.1
    ]

-- Where nothing is found, every candidate is used here or refused by the system.
first_free-none :
    (can_listen : ℕ → Bool) (used : List (String × Listener)) (ps : List ℕ)
    → first_free can_listen used ps ≡ none
    → All (λ p. is_used p used || not (can_listen p) ≡ true) ps
unfolding first_free
first_free-none can_listen used [] e = tt
first_free-none can_listen used (q ∷ qs) e =
    elim (Bool-cases (not (is_used q used) && can_listen q)) [
      | inl free ↦ absurd (grind arith)
      | inr taken ↦ (ground arith, first_free-none can_listen used qs (rw taken at e))
    ]

ports_from-Between : (n p b : ℕ) → n ≤ b + 1 - p → Between p b (ports_from n p)
unfolding ports_from
ports_from-Between zero p b h = tt
ports_from-Between (suc n) p b h = (
  (omega arith, omega arith),
  weaken (ports_from n (p + 1)) (ports_from-Between n (p + 1) b (omega arith)),
)
  where
    weaken : (ps : List ℕ) → Between (p + 1) b ps → Between p b ps
    weaken [] h = tt
    weaken (q ∷ qs) h = ((omega arith, omega arith), weaken qs h.1)

-- Every port from `p` on is among them.
ports_from_all {ℓ} : (P : ℕ → Type ℓ) (n p q : ℕ) → All P (ports_from n p) → p ≤ q → q < p + n → P q
unfolding ports_from
ports_from_all P zero p q h a b = absurd (omega arith)
ports_from_all P (suc n) p q h a b = elim (Bool-cases (p == q)) [
  | inl same ↦ subst P ((==_iff p q).0 same) h.0
  | inr other ↦ ports_from_all P n (p + 1) q h.1 (ground arith) (omega arith)
]

pub candidates-Between :
    (r : Relay) (preferred : ℕ) → Between r.first r.last (candidates r preferred)
unfolding candidates
candidates-Between r preferred =
    let all = ports_from-Between (r.last + 1 - r.first) r.first r.last (omega arith) in
    elim (Bool-cases (leb r.first preferred && leb preferred r.last)) [
      | inl e ↦ rw e ((ground arith, ground arith), all)
      | inr e ↦ rw e all
    ]

-- Where Ensure finds no port, every port of the range is used here or refused by the system.
pub candidates_exhausted :
    (can_listen : ℕ → Bool) (r : Relay) (preferred p : ℕ)
    → first_free can_listen r.by_id (candidates r preferred) ≡ none
    → r.first ≤ p
    → p ≤ r.last
    → is_used p r.by_id || not (can_listen p) ≡ true
unfolding candidates
candidates_exhausted can_listen r preferred p e a b =
    let range = ports_from (r.last + 1 - r.first) r.first in
    let Taken : ℕ → Type 0 = λ q. is_used q r.by_id || not (can_listen q) ≡ true in
    elim (Bool-cases (leb r.first preferred && leb preferred r.last)) [
      | inl inside ↦
          ports_from_all Taken (r.last + 1 - r.first) r.first p
            (first_free-none can_listen r.by_id (preferred ∷ range) (rw inside at e)).1 a
            (omega arith)
      | inr outside ↦
          ports_from_all Taken (r.last + 1 - r.first) r.first p
            (first_free-none can_listen r.by_id range (rw outside at e)) a (omega arith)
    ]

module _ (net : Net) where
  open_listener-IsValid :
      (can_listen : ℕ → Bool) (id target : String) (preferred : ℕ) (r : Relay)
      → find id r.by_id ≡ none
      → IsValid r
      → IsValid (open_listener net can_listen id target preferred r).1
  unfolding open_listener
  open_listener-IsValid can_listen id target preferred r new h =
      elim (Option-cases (first_free can_listen r.by_id (candidates r preferred))) [
        | inl e ↦ rw (e, open_listener) h
        | inr (p, e) ↦
            let (unused, _, low, high) =
              first_free-some can_listen r.by_id r.first r.last (candidates r preferred) p e
                (candidates-Between r preferred) in
            rw (e, open_listener)
              (record {
                distinct = (unused, new, h.distinct);
                in_range = ((low, high), h.in_range);
              })
      ]

  pub remove-IsValid :
      (id : String) (r : Relay) → IsValid r → IsValid (record r { by_id = remove id r.by_id })
  remove-IsValid id r h = record {
    distinct = remove-Distinct id r.by_id h.distinct;
    in_range = remove-InRange r.first r.last id r.by_id h.in_range;
  }

  pub find_removed : (id : String) (r : Relay) → find id (remove id r.by_id) ≡ none
  find_removed id r = rw (find-remove, eq_refl id)

  ensure_target-IsValid :
      (can_listen : ℕ → Bool) (id target : String) (preferred : ℕ) (r : Relay)
      → IsValid r
      → IsValid (ensure_target net can_listen id target preferred r).1
  unfolding ensure_target
  ensure_target-IsValid can_listen id target preferred r h = elim (Option-cases (find id r.by_id)) [
    | inl e ↦ rw (e, ensure_target) (open_listener-IsValid can_listen id target preferred r e h)
    | inr (l, e) ↦ elim (Bool-cases (str_eq l.target target)) [
      | inl same ↦ rw (e, ensure_target) (rw same h)
      | inr other ↦
          rw (e, ensure_target)
            (rw other (
              open_listener-IsValid can_listen id target preferred
                (record r { by_id = remove id r.by_id }) (find_removed id r)
                (remove-IsValid id r h)))
    ]
  ]

  pub ensure-IsValid :
      (can_listen : ℕ → Bool) (id ip : String) (preferred : ℕ) (r : Relay)
      → IsValid r
      → IsValid (ensure net can_listen id ip preferred r).1
  unfolding ensure
  ensure-IsValid can_listen id ip preferred r h = elim (Option-cases (target_for net r ip)) [
    | inl e ↦ rw (e, ensure) h
    | inr (target, e) ↦ rw (e, ensure) (ensure_target-IsValid can_listen id target preferred r h)
  ]
