-- ===== src/Relay/Sessions.antt =====
-- internal/sshrelay/relay.go: the connections of one listener (serve, pipe, drop and close). Each
-- function is what runs under the listener's mutex, or between two such stretches.
use sandbox_manager.Prelude.{
  ℕ, ◌+◌, ◌≤◌, ◌≡◌, Bool, true, false, ◌&&◌, ◌||◌, not, List, [], ◌∷◌, ltb, ◌==◌, if◌then◌else◌,
  arith, All, refl, subst,
}

-- Where the goroutine of `pipe` stands: before the answer to its dial, copying, about to take the
-- mutex in `drop`, past it, or ended.
pub data Stage : Type 0 where
  dialing copying dropping closing ended : Stage

-- One accepted connection. `listed` says that it is in the map `sessions`; `joined`, that its
-- `upstream` is set.
pub record Conn : Type 0 where
  pub number : ℕ
  pub stage : Stage
  pub listed : Bool
  pub joined : Bool
  pub client_open : Bool
  pub upstream_open : Bool

pub record Serving : Type 0 where
  pub closed : Bool
  pub conns : List Conn

abbrev pub max_sessions : ℕ
max_sessions = 8

abbrev pub count_listed : List Conn → ℕ
count_listed [] = 0
count_listed (c ∷ cs) = (if c.listed then 1 else 0) + count_listed cs

abbrev pub fresh : ℕ → Conn
fresh n = record {
  number = n;
  stage = dialing;
  listed = true;
  joined = false;
  client_open = true;
  upstream_open = false;
}

-- A connection that is refused is closed and gets no goroutine.
abbrev pub refused : ℕ → Conn
refused n = record {
  number = n;
  stage = ended;
  listed = false;
  joined = false;
  client_open = false;
  upstream_open = false;
}

-- serve, once Accept has returned a connection: it is closed at once if there is no room.
unfoldable pub accept : ℕ → Serving → Serving
accept n l =
    if not l.closed && ltb (count_listed l.conns) max_sessions
    then record l { conns = fresh n ∷ l.conns }
    else record l { conns = refused n ∷ l.conns }

-- What a goroutine does to its own connection.
unfoldable pub at : ℕ → (Conn → Conn) → List Conn → List Conn
at n f [] = []
at n f (c ∷ cs) = let rest = at n f cs in if c.number == n then f c ∷ rest else c ∷ rest

-- pipe, after its dial. A connection that was dialled too late is closed again.
unfoldable pub dialled : Bool → Bool → Conn → Conn
dialled succeeds closed c = elim c.stage [
  | dialing ↦
      if succeeds && not closed
      then record c { stage = copying; joined = true; upstream_open = true }
      else record c { stage = dropping }
  | _ ↦ c
]

-- One of the two copies has ended.
unfoldable pub finished : Conn → Conn
finished c = elim c.stage [ copying ↦ record c { stage = dropping } | _ ↦ c ]

-- drop, up to the release of the mutex.
unfoldable pub dropped : Conn → Conn
dropped c = elim c.stage [ dropping ↦ record c { stage = closing; listed = false } | _ ↦ c ]

-- drop, after it.
unfoldable pub shut : Conn → Conn
shut c = elim c.stage [
  | closing ↦ record c { stage = ended; client_open = false; upstream_open = false }
  | _ ↦ c
]

-- The body of the loop of close.
unfoldable pub cut : Conn → Conn
cut c = if c.listed then record c { client_open = false; upstream_open = false } else c

unfoldable pub cut_all : List Conn → List Conn
cut_all [] = []
cut_all (c ∷ cs) = cut c ∷ cut_all cs

unfoldable pub close_listener : Serving → Serving
unfolding cut_all
close_listener l = record { closed = true; conns = cut_all l.conns }

-- What can happen next at a listener.
pub data Event : Type 0 where
  accepts finishes drops shuts : ℕ → Event
  dials : ℕ → Bool → Event
  closes : Event

unfoldable pub react : Event → Serving → Serving
unfolding accept at dialled finished dropped shut close_listener
react (accepts n) l = accept n l
react (dials n succeeds) l = record l { conns = at n (dialled succeeds l.closed) l.conns }
react (finishes n) l = record l { conns = at n finished l.conns }
react (drops n) l = record l { conns = at n dropped l.conns }
react (shuts n) l = record l { conns = at n shut l.conns }
react closes l = close_listener l

unfoldable pub react_all : List Event → Serving → Serving
unfolding react
react_all [] l = l
react_all (e ∷ es) l = react_all es (react e l)

abbrev pub new_listener : Serving
new_listener = record { closed = false; conns = [] }

-- Both sides of the connection are closed.
abbrev pub is_cut : Conn → Bool
is_cut c = not c.client_open && not c.upstream_open

-- Of one connection, where `closed` is the listener's flag: its goroutine is at work exactly if it is
-- in the map, and then it is cut if the listener is closed; once the goroutine has ended, it is cut;
-- and no upstream is open that is not recorded.
abbrev pub is_sound : Bool → Conn → Bool
is_sound closed c = (not c.upstream_open || c.joined) && (elim c.stage [
  | ended ↦ not c.listed && is_cut c
  | closing ↦ not c.listed
  | _ ↦ c.listed && (not closed || is_cut c)
])

abbrev pub AllSound : Bool → List Conn → Type 0
AllSound closed = All (λ c. is_sound closed c ≡ true)

at-AllSound :
    (closed : Bool) (n : ℕ) (f : Conn → Conn) (cs : List Conn)
    → ((c : Conn) → is_sound closed c ≡ true → is_sound closed (f c) ≡ true)
    → AllSound closed cs
    → AllSound closed (at n f cs)
unfolding at
at-AllSound closed n f [] keep h = tt
at-AllSound closed n f (c ∷ cs) keep h =
    ground (arith, keep c h.0, at-AllSound closed n f cs keep h.1)

count_listed-at :
    (n : ℕ) (f : Conn → Conn) (cs : List Conn)
    → ((c : Conn) → (f c).listed ≡ true → c.listed ≡ true)
    → count_listed (at n f cs) ≤ count_listed cs
unfolding at
count_listed-at n f [] keep = omega arith
count_listed-at n f (c ∷ cs) keep = ground (arith, keep c, count_listed-at n f cs keep)

cut_all-AllSound :
    (closed : Bool) (cs : List Conn) → AllSound closed cs → AllSound true (cut_all cs)
unfolding cut_all cut
cut_all-AllSound closed [] h = tt
cut_all-AllSound closed (c ∷ cs) h = ground (arith, cut_all-AllSound closed cs h.1)

count_listed-cut_all : (cs : List Conn) → count_listed (cut_all cs) ≡ count_listed cs
unfolding cut_all cut
count_listed-cut_all [] = refl
count_listed-cut_all (c ∷ cs) = ground (arith, count_listed-cut_all cs)

pub record IsSafe (l : Serving) : Type 0 where
  pub few : count_listed l.conns ≤ max_sessions
  pub sound : AllSound l.closed l.conns

react-IsSafe : (e : Event) (l : Serving) → IsSafe l → IsSafe (react e l)
unfolding react accept dialled finished dropped shut close_listener
react-IsSafe (accepts n) l h = ground arith
react-IsSafe (dials n succeeds) l h = record {
  few =
      omega
        (arith, h.few, count_listed-at n (dialled succeeds l.closed) l.conns (λ c e. ground arith));
  sound = at-AllSound l.closed n (dialled succeeds l.closed) l.conns (λ c e. ground arith) h.sound;
}
react-IsSafe (finishes n) l h = record {
  few = omega (arith, h.few, count_listed-at n finished l.conns (λ c e. ground arith));
  sound = at-AllSound l.closed n finished l.conns (λ c e. ground arith) h.sound;
}
react-IsSafe (drops n) l h = record {
  few = omega (arith, h.few, count_listed-at n dropped l.conns (λ c e. ground arith));
  sound = at-AllSound l.closed n dropped l.conns (λ c e. ground arith) h.sound;
}
react-IsSafe (shuts n) l h = record {
  few = omega (arith, h.few, count_listed-at n shut l.conns (λ c e. ground arith));
  sound = at-AllSound l.closed n shut l.conns (λ c e. ground arith) h.sound;
}
react-IsSafe closes l h = record {
  few = omega (arith, h.few, count_listed-cut_all l.conns);
  sound = cut_all-AllSound l.closed l.conns h.sound;
}

react_all_from : (es : List Event) (l : Serving) → IsSafe l → IsSafe (react_all es l)
unfolding react_all
react_all_from [] l h = h
react_all_from (e ∷ es) l h = react_all_from es (react e l) (react-IsSafe e l h)

-- In every interleaving of accepts, dials, copies, drops and a close of a listener: at most eight
-- connections are in its map; a connection is in the map exactly until its goroutine is past the mutex in
-- drop; once the listener is closed, every connection in the map is closed on both sides, also one that
-- was being dialled; and a connection that was refused, or whose goroutine has ended, is closed on both
-- sides.
pub react_all-IsSafe : (es : List Event) → IsSafe (react_all es new_listener)
react_all-IsSafe es = react_all_from es new_listener (record { few = omega arith; sound = tt })

-- A close ends for good: whatever happens after it, the listener stays closed.
react_all-closed :
    (es : List Event) (l : Serving) → l.closed ≡ true → (react_all es l).closed ≡ true
unfolding react_all react accept close_listener
react_all-closed [] l e = e
react_all-closed (accepts n ∷ es) l e = react_all-closed es (accept n l) (ground arith)
react_all-closed (dials n b ∷ es) l e = react_all-closed es _ e
react_all-closed (finishes n ∷ es) l e = react_all-closed es _ e
react_all-closed (drops n ∷ es) l e = react_all-closed es _ e
react_all-closed (shuts n ∷ es) l e = react_all-closed es _ e
react_all-closed (closes ∷ es) l e = react_all-closed es _ refl

-- Once a listener was closed, whatever happened before and whatever happens after, every connection in
-- its map is closed on both sides and has a goroutine that will remove it, and every connection whose
-- goroutine has ended is closed.
pub closed_cut-AllSound :
    (before after : List Event)
    → AllSound true (react_all after (react closes (react_all before new_listener))).conns
unfolding react close_listener
closed_cut-AllSound before after =
    let l = react closes (react_all before new_listener) in
    let safe = react_all_from after l (react-IsSafe closes _ (react_all-IsSafe before)) in
    subst (λ b. AllSound b (react_all after l).conns) (react_all-closed after l refl) safe.sound
