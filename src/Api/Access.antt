-- ===== src/Api/Access.antt =====
-- Who gets past internal/api/api.go, and what a caller may ask for.
use sandbox_manager.Prelude.{
  ◌≡◌, refl, String, Bool, true, false, Option, none, some, arith, str_eq, if◌then◌else◌, Result,
  ok, err, Bool-cases, inl, inr,
}
use sandbox_manager.Sandbox.{Identity, is_admin}
use sandbox_manager.Store.Tokens.{resolve_identity}
use sandbox_manager.Store.Quiet.{resolve_identity-quiet}
use sandbox_manager.Service.World.{Platform, World, on_store}
use sandbox_manager.Api.{
  CreateBody, Route, health, lists, gets, deletes, reports, prepares, erases, Request, http_err,
  refuse, handle_create, authed, auth, route_to, handle, nothing_asked,
}
use sandbox_manager.Api.Traffic.{looked_up}

module _ (p : Platform) where
  open p use {server}

  -- Is the route one that needs no token?
  abbrev pub is_open : Route → Bool
  is_open health = true
  is_open _ = false

  abbrev identified : Result (Option Identity) → Option Identity
  identified (ok found) = found
  identified (err e) = none

  -- The caller that the header stands for.
  abbrev pub caller_of : Option String → World p → Option Identity
  caller_of none w = none
  caller_of (some token) w =
      if str_eq token "" then none else identified (resolve_identity server token w.link).0

  -- What a refused request must leave alone.
  pub record Untouched (w w' : World p) : Type 0 where
    pub database : w'.link.db ≡ w.link.db
    pub machines : w'.vms ≡ w.vms
    pub disks : w'.homes ≡ w.homes
    pub listeners : w'.relay ≡ w.relay

  Untouched-refl : (w : World p) → Untouched w w
  Untouched-refl w = record { database = refl; machines = refl; disks = refl; listeners = refl }

  Untouched-looked_up : (token : String) (w : World p) → Untouched w (looked_up p token w)
  unfolding on_store
  Untouched-looked_up token w = record {
    database = resolve_identity-quiet server token w.link;
    machines = refl;
    disks = refl;
    listeners = refl;
  }

  -- The answer and the state that a caller gets by her identity.
  refused_by :
      (route : Route) (r : Result (Option Identity)) (w : World p)
      → identified r ≡ none
      → authed p route r w ≡ refuse p 401 "invalid token" w
  unfolding authed
  refused_by route (ok (some caller)) w e = absurd (ground arith)
  refused_by route (ok none) w e = refl
  refused_by route (err e') w e = refl

  auth_refuses :
      (route : Route) (header : Option String) (w : World p)
      → caller_of header w ≡ none
      → ((auth p route header w).0.status ≡ 401) × Untouched w (auth p route header w).1
  unfolding auth on_store http_err
  auth_refuses route none w e = (refl, Untouched-refl w)
  auth_refuses route (some token) w e = elim (Bool-cases (str_eq token "")) [
    | inl blank ↦ rw blank (refl, Untouched-refl w)
    | inr given ↦
        let r = (resolve_identity server token w.link).0 in
        let nobody : identified r ≡ none = ground arith in
        rw given
          (rw (refused_by route r (looked_up p token w) nobody) (refl, Untouched-looked_up token w))
  ]

  route_refuses :
      (route : Route) (header : Option String) (w : World p)
      → is_open route ≡ false
      → caller_of header w ≡ none
      → ((route_to p route header w).0.status ≡ 401) × Untouched w (route_to p route header w).1
  unfolding route_to
  route_refuses health header w c e = absurd (ground arith)
  route_refuses route header w c e = auth_refuses route header w e

  -- A request to any route but /health is answered 401 when its header has no bearer token, or one
  -- that resolves to nobody or cannot be looked up; and it leaves the database, the VMs, the home
  -- disks and the relay as they were.
  pub handle_unauthorized :
      (q : Request) (w : World p)
      → is_open q.route ≡ false
      → caller_of q.token w ≡ none
      → ((handle p q w).0.status ≡ 401) × Untouched w (handle p q w).1
  unfolding handle
  handle_unauthorized q w closed e = route_refuses q.route q.token w closed e

  -- The routes that only the panel of an administrator uses: those under /panel/, the preparation of SSH,
  -- and the erasure of a user's data.
  abbrev pub is_panel : Route → Bool
  is_panel (lists true user_id) = true
  is_panel (gets true id) = true
  is_panel (deletes true id) = true
  is_panel (reports true) = true
  is_panel (prepares id) = true
  is_panel (erases user_id) = true
  is_panel _ = false

  -- What a caller who is no administrator asks for as owner, size and resources of a new sandbox has no
  -- effect: her request does what it does with none of them given.
  pub handle_create_plain :
      (caller : Identity) (body : CreateBody) (w : World p)
      → is_admin caller ≡ false
      → handle_create p caller (some body) w
        ≡ handle_create p caller
            (some (record body { user_id = ""; size = ""; resources = nothing_asked }))
            w
  unfolding handle_create
  handle_create_plain caller body w plain = rw plain refl
