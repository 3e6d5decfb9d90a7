-- ===== src/Api.antt =====
-- internal/api/api.go: the routes, who may call them, what they ask of the service, and the status
-- of the answer.
pub mod Traffic
pub mod Access
use sandbox_manager.Prelude.{
  ℕ, String, Bool, true, false, not, ◌&&◌, List, [], ◌∷◌, Option, none, some, str_eq, if◌then◌else◌,
  Result, ok, err, ErrorKind, Error, quota, anonymous, not_found, forbidden, disk_full, capacity,
  ssh, other,
}
use sandbox_manager.Sandbox.{Sandbox, Identity, is_admin, Resources}
use sandbox_manager.Store.Tokens.{resolve_identity}
use sandbox_manager.Service.World.{Platform, World, Do, on_store}
use sandbox_manager.Service.Create.{create}
use sandbox_manager.Service.Teardown.{get, delete}
use sandbox_manager.Service.Requests.{
  StatsReport, attach_device, list, exec, delete_user_data, stats,
}
use sandbox_manager.Service.Ssh.{SshEndpoint, prepare_ssh}

-- The body of a create, as it is decoded.
pub record CreateBody : Type 0 where
  pub user_id : String
  pub template : String
  pub size : String
  pub resources : Resources

-- The routes of NewServer, with what the handler reads of the path, the query and the body; `none`
-- is a body that json.Decode refuses. `panel` tells whether the route is one under /admin/api.
pub data Route : Type 0 where
  health templates : Route
  lists : (panel : Bool) (user_id : String) → Route
  creates : Option CreateBody → Route
  gets deletes : (panel : Bool) (id : String) → Route
  execs : (id : String) → Option (List String) → Route
  attaches : (id : String) → Option String → Route
  prepares : (id : String) → Route
  reports : (panel : Bool) → Route
  erases : (user_id : String) → Route

-- A request, with its bearer token: `none` where the header lacks the prefix.
pub record Request : Type 0 where
  pub token : Option String
  pub route : Route

-- What an answer carries.
pub data Payload : Type 0 where
  empty known_templates : Payload
  text problem : String → Payload
  sandbox : Sandbox → Payload
  sandboxes : List Sandbox → Payload
  output : String → ℕ → Payload
  reached : SshEndpoint → Payload
  counters : StatsReport → Payload

pub record Response : Type 0 where
  pub status : ℕ
  pub payload : Payload
  pub retry_after : Bool

abbrev pub reply : ℕ → Payload → Response
reply status payload = record { status = status; payload = payload; retry_after = false }

unfoldable pub http_err : ℕ → String → Response
http_err status message = reply status (problem message)

abbrev pub status_of : ErrorKind → ℕ
status_of not_found = 404
status_of forbidden = 403
status_of quota = 409
status_of anonymous = 409
status_of disk_full = 503
status_of ssh = 503
status_of capacity = 503
status_of other = 500

abbrev pub is_capacity : ErrorKind → Bool
is_capacity capacity = true
is_capacity _ = false

-- writeServiceErr
unfoldable pub write_service_err : Error → Response
write_service_err e = record {
  status = status_of e.kind;
  payload = problem e.message;
  retry_after = is_capacity e.kind;
}

-- The answer to a call of the service.
unfoldable pub answered {ℓ} : {A : Type ℓ} → (A → Response) → Result A → Response
answered good (ok a) = good a
answered good (err e) = write_service_err e

-- The same, where every error is a 500.
unfoldable pub reported {ℓ} : {A : Type ℓ} → (A → Response) → Result A → Response
reported good (ok a) = good a
reported good (err e) = http_err 500 e.message

-- The identity under which a create runs, and what it may ask for.
abbrev pub on_behalf : Identity → CreateBody → Identity
on_behalf caller body =
    if is_admin caller && not (str_eq body.user_id "")
    then record caller { user_id = body.user_id }
    else caller

abbrev pub nothing_asked : Resources
nothing_asked = record { memory_mib = 0; vcpus = 0; disk_mib = 0 }

abbrev pub size_for : Identity → CreateBody → String
size_for caller body = if is_admin caller then body.size else ""

abbrev pub resources_for : Identity → CreateBody → Resources
resources_for caller body = if is_admin caller then body.resources else nothing_asked

module _ (p : Platform) where
  open p use {server}

  -- A handler: its answer, and the state that it leaves.
  abbrev pub Handler : Type 0
  Handler = World p → Response × World p

  abbrev pub refuse : ℕ → String → Handler
  refuse status message w = (http_err status message, w)

  abbrev pub call : {A : Type 0} → (Result A → Response) → Do p A → Handler
  call f m w = let (r, w') = m w in (f r, w')

  unfoldable pub handle_create : Identity → Option CreateBody → Handler
  handle_create caller none = refuse 400 "invalid JSON body"
  handle_create caller (some body) = call (answered (λ sb. reply 201 (sandbox sb))) (
      create p (on_behalf caller body) body.template (size_for caller body)
        (resources_for caller body))

  unfoldable pub handle_get : Identity → String → Handler
  handle_get caller id = call (answered (λ sb. reply 200 (sandbox sb))) (get p caller id)

  unfoldable pub handle_list : Identity → String → Handler
  handle_list caller user_id =
      call (reported (λ sbs. reply 200 (sandboxes sbs)))
        (list p (if is_admin caller then record caller { scope_user_id = user_id } else caller))

  unfoldable pub handle_delete : Identity → String → Handler
  handle_delete caller id = call (answered (λ _. reply 204 empty)) (delete p caller id)

  unfoldable pub handle_delete_user_data : Identity → String → Handler
  handle_delete_user_data caller user_id =
      call (answered (λ _. reply 204 empty)) (delete_user_data p caller user_id)

  unfoldable pub handle_exec : Identity → String → Option (List String) → Handler
  handle_exec caller id none = refuse 400 "invalid JSON body"
  handle_exec caller id (some []) = refuse 400 "argv is required"
  handle_exec caller id (some (arg ∷ args)) =
      call (answered (λ r. reply 200 (output r.0 r.1))) (exec p caller id (arg ∷ args))

  unfoldable pub handle_attach_device : Identity → String → Option String → Handler
  handle_attach_device caller id none = refuse 400 "invalid JSON body"
  handle_attach_device caller id (some device_id) =
      if str_eq device_id ""
      then refuse 400 "device_id is required"
      else call (answered (λ _. reply 204 empty)) (attach_device p caller id device_id)

  unfoldable pub handle_prepare_ssh : Identity → String → Handler
  handle_prepare_ssh caller id =
      call (answered (λ e. reply 200 (reached e))) (prepare_ssh p caller id)

  unfoldable pub handle_stats : Handler
  handle_stats = call (reported (λ r. reply 200 (counters r))) (stats p)

  -- What a route does for a caller who may use it.
  unfoldable pub serve : Route → Identity → Handler
  serve health caller w = (reply 200 (text "ok"), w)
  serve templates caller w = (reply 200 known_templates, w)
  serve (lists panel user_id) caller w = handle_list caller user_id w
  serve (creates body) caller w = handle_create caller body w
  serve (gets panel id) caller w = handle_get caller id w
  serve (deletes panel id) caller w = handle_delete caller id w
  serve (execs id argv) caller w = handle_exec caller id argv w
  serve (attaches id device_id) caller w = handle_attach_device caller id device_id w
  serve (prepares id) caller w = handle_prepare_ssh caller id w
  serve (reports panel) caller w = handle_stats w
  serve (erases user_id) caller w = handle_delete_user_data caller user_id w

  -- Is the route registered under `admin`?
  unfoldable pub needs_admin : Route → Bool
  needs_admin (lists panel user_id) = panel
  needs_admin (gets panel id) = panel
  needs_admin (deletes panel id) = panel
  needs_admin (prepares id) = true
  needs_admin (reports panel) = panel
  needs_admin (erases user_id) = true
  needs_admin _ = false

  -- admin
  unfoldable pub gated : Route → Identity → Handler
  gated route caller =
      if needs_admin route && not (is_admin caller)
      then refuse 403 "admin role required"
      else serve route caller

  unfoldable pub authed : Route → Result (Option Identity) → Handler
  authed route (ok (some caller)) = gated route caller
  authed route (ok none) = refuse 401 "invalid token"
  authed route (err e) = refuse 401 "invalid token"

  -- auth
  unfoldable pub auth : Route → Option String → Handler
  auth route none w = refuse 401 "missing bearer token" w
  auth route (some token) w =
      if str_eq token ""
      then refuse 401 "missing bearer token" w
      else let (r, w') = on_store p (resolve_identity server token) w in authed route r w'

  -- Health alone is open.
  unfoldable pub route_to : Route → Option String → Handler
  route_to health token w = (reply 200 (text "ok"), w)
  route_to route token w = auth route token w

  unfoldable pub handle : Request → Handler
  unfolding route_to
  handle q w = route_to q.route q.token w
