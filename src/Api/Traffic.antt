-- ===== src/Api/Traffic.antt =====
-- The running VMs through requests to internal/api/api.go and rounds of the reconcile loop.
use sandbox_manager.Prelude.{
  ◌≡◌, refl, String, Bool, true, false, List, [], ◌∷◌, Option, none, some, arith, Result, ok, err,
}
use sandbox_manager.Sandbox.{Identity}
use sandbox_manager.Store.Tokens.{resolve_identity}
use sandbox_manager.Store.Quiet.{resolve_identity-quiet}
use sandbox_manager.Service.World.{Platform, World, on_store}
use sandbox_manager.Service.Requests.{Keeps-attach_device}
use sandbox_manager.Service.Steps.{owner_of, AllCovered}
use sandbox_manager.Service.Slots.{Keeps-get, Keeps-delete, Keeps-read}
use sandbox_manager.Service.Reads.{Keeps-list, Keeps-exec, Keeps-stats, Keeps-prepare_ssh}
use sandbox_manager.Service.Creation.{DrawsFresh, create-AllCovered}
use sandbox_manager.Api.{
  CreateBody, Route, health, templates, lists, creates, gets, deletes, execs, attaches, prepares,
  reports, erases, Request, handle_create, handle_get, handle_list, handle_delete, handle_exec,
  handle_attach_device, handle_prepare_ssh, handle_stats, serve, gated, authed, auth, route_to,
  handle,
}
use sandbox_manager.Store.Covers.{IsCovered-unique}
use sandbox_manager.Service.Reconcile.{reconcile_round}
use sandbox_manager.Service.Upkeep.{reconcile_round-AllCovered}

module _ (p : Platform) where
  open p use {server}

  -- The state after the look-up of a token.
  abbrev pub looked_up : String → World p → World p
  looked_up token w = (on_store p (resolve_identity server token) w).1

  -- The route that erases a user's data.
  abbrev pub erases_data : Route → Bool
  erases_data (erases user_id) = true
  erases_data _ = false

  attach-AllCovered :
      (caller : Identity) (id : String) (body : Option String) (w : World p)
      → AllCovered p w
      → AllCovered p (handle_attach_device p caller id body w).1
  unfolding handle_attach_device
  attach-AllCovered caller id none w h = h
  attach-AllCovered caller id (some device_id) w h =
      let k = Keeps-attach_device p caller id device_id w h in ground (arith, h, k.covered h)

  exec-AllCovered :
      (caller : Identity) (id : String) (body : Option (List String)) (w : World p)
      → AllCovered p w
      → AllCovered p (handle_exec p caller id body w).1
  unfolding handle_exec
  exec-AllCovered caller id none w h = h
  exec-AllCovered caller id (some []) w h = h
  exec-AllCovered caller id (some (arg ∷ args)) w h =
      (Keeps-exec p caller id (arg ∷ args) w).covered h

  created-AllCovered :
      (caller : Identity) (body : Option CreateBody) (w : World p)
      → AllCovered p w
      → DrawsFresh p w
      → AllCovered p (handle_create p caller body w).1
  unfolding handle_create
  created-AllCovered caller none w h fresh = h
  created-AllCovered caller (some body) w h fresh = create-AllCovered p _ _ _ _ w h fresh

  serve-AllCovered :
      (route : Route) (caller : Identity) (w : World p)
      → AllCovered p w
      → DrawsFresh p w
      → erases_data route ≡ false
      → AllCovered p (serve p route caller w).1
  unfolding serve handle_list handle_get handle_delete handle_prepare_ssh handle_stats
  serve-AllCovered health caller w h fresh e = h
  serve-AllCovered templates caller w h fresh e = h
  serve-AllCovered (lists panel user_id) caller w h fresh e = (Keeps-list p _ w).covered h
  serve-AllCovered (creates body) caller w h fresh e = created-AllCovered caller body w h fresh
  serve-AllCovered (gets panel id) caller w h fresh e = (Keeps-get p caller id w).covered h
  serve-AllCovered (deletes panel id) caller w h fresh e = (Keeps-delete p caller id w h).covered h
  serve-AllCovered (execs id argv) caller w h fresh e = exec-AllCovered caller id argv w h
  serve-AllCovered (attaches id body) caller w h fresh e = attach-AllCovered caller id body w h
  serve-AllCovered (prepares id) caller w h fresh e = (Keeps-prepare_ssh p caller id w).covered h
  serve-AllCovered (reports panel) caller w h fresh e = (Keeps-stats p w).covered h
  serve-AllCovered (erases user_id) caller w h fresh e = absurd (ground arith)

  gated-AllCovered :
      (route : Route) (caller : Identity) (w : World p)
      → AllCovered p w
      → DrawsFresh p w
      → erases_data route ≡ false
      → AllCovered p (gated p route caller w).1
  unfolding gated
  gated-AllCovered route caller w h fresh e =
      let served = serve-AllCovered route caller w h fresh e in ground (arith, h, served)

  authed-AllCovered :
      (route : Route) (r : Result (Option Identity)) (w : World p)
      → AllCovered p w
      → DrawsFresh p w
      → erases_data route ≡ false
      → AllCovered p (authed p route r w).1
  unfolding authed
  authed-AllCovered route (ok (some caller)) w h fresh e = gated-AllCovered route caller w h fresh e
  authed-AllCovered route (ok none) w h fresh e = h
  authed-AllCovered route (err e') w h fresh e = h

  looked_up-AllCovered :
      (token : String) (w : World p) → AllCovered p w → AllCovered p (looked_up token w)
  looked_up-AllCovered token w h =
      (Keeps-read p (resolve_identity server token) w
          (resolve_identity-quiet server token w.link)).covered
        h

  auth-AllCovered :
      (route : Route) (header : Option String) (w : World p)
      → AllCovered p w
      → ((token : String) → header ≡ some token → DrawsFresh p (looked_up token w))
      → erases_data route ≡ false
      → AllCovered p (auth p route header w).1
  unfolding auth
  auth-AllCovered route none w h fresh e = h
  auth-AllCovered route (some token) w h fresh e =
      let done =
        authed-AllCovered route (on_store p (resolve_identity server token) w).0 (looked_up token w)
          (looked_up-AllCovered token w h) (fresh token refl) e in
      ground (arith, h, done)

  route_to-AllCovered :
      (route : Route) (header : Option String) (w : World p)
      → AllCovered p w
      → ((token : String) → header ≡ some token → DrawsFresh p (looked_up token w))
      → erases_data route ≡ false
      → AllCovered p (route_to p route header w).1
  unfolding route_to
  route_to-AllCovered health header w h fresh e = h
  route_to-AllCovered route header w h fresh e = auth-AllCovered route header w h fresh e

  -- A request other than the erasure of a user's data leaves every running VM with its owner's slot
  -- and record, whoever sends it and whatever fails. The conditions are that this was so before, and
  -- that the ids drawn after the look-up of the token are of no running VM.
  pub handle-AllCovered :
      (q : Request) (w : World p)
      → AllCovered p w
      → ((token : String) → q.token ≡ some token → DrawsFresh p (looked_up token w))
      → erases_data q.route ≡ false
      → AllCovered p (handle p q w).1
  unfolding handle
  handle-AllCovered q w h fresh e = route_to-AllCovered q.route q.token w h fresh e

  -- The states after a sequence of requests and of rounds of the reconcile loop, from `w` on. A request
  -- draws ids that no running VM has, and is none that erases a user's data.
  pub data Traffic (w : World p) : World p → Type 0 where
    start : Traffic w w
    requests :
        {v : World p} (q : Request)
        → Traffic w v
        → ((token : String) → q.token ≡ some token → DrawsFresh p (looked_up token v))
        → erases_data q.route ≡ false
        → Traffic w (handle p q v).1
    rounds : {v : World p} → Traffic w v → Traffic w (reconcile_round p v).1

  Traffic-AllCovered : {w v : World p} → Traffic w v → AllCovered p w → AllCovered p v
  Traffic-AllCovered start h = h
  Traffic-AllCovered (requests {v} q before fresh kept) h =
      handle-AllCovered q v (Traffic-AllCovered before h) fresh kept
  Traffic-AllCovered (rounds {v} before) h =
      (reconcile_round-AllCovered p v (Traffic-AllCovered before h)).0

  -- One VM per user, over HTTP: after any sequence of requests, by whomever, and of rounds of the
  -- reconcile loop, each with any faults, two VMs that run for the same user are one. The conditions are
  -- that every VM was covered at the start, that no request erases a user's data, and that the
  -- ids that can be drawn once a request's token is looked up are of no running VM.
  pub Traffic-one_vm :
      {w v : World p} (i j user_id : String)
      → AllCovered p w
      → Traffic w v
      → owner_of p v i ≡ some user_id
      → owner_of p v j ≡ some user_id
      → i ≡ j
  Traffic-one_vm i j user_id h traffic =
      IsCovered-unique server i j user_id (Traffic-AllCovered traffic h)
