-- ===== src/Service/Endpoint.antt =====
-- What a PrepareSSH that succeeds has done (internal/service/service.go).
use sandbox_manager.Prelude.{
  ℕ, ◌≡◌, ◌≢◌, refl, sym, ap, ◌∙◌, String, Bool, true, false, not, Option, none, some, arith,
  if◌then◌else◌, Result, ok, err, Error, pure, raise, attempt, ◌>>=◌, bind-eq-ok, ◌>>◌, subst, [],
  ◌∷◌, Option-cases, inl, inr,
}
use sandbox_manager.Sandbox.{Sandbox, Identity, is_admin}
use sandbox_manager.Relay.{Relay, ensure, target_for}
use sandbox_manager.Relay.Calls.{Serves, ensure-Serves}
use sandbox_manager.Store
use sandbox_manager.Service.World.{Platform, World, Do, err_forbidden, calls, on_store, on_vms}
use sandbox_manager.Service.Reconcile.{
  ensure_on, ssh_ensure, close_unless, close_ssh_unless_running, has_relay,
}
use sandbox_manager.Service.Ssh.{
  SshEndpoint, reachable, guest_key, opened, noted, remember, endpoint, listen, prepare_reachable,
  prepare_ssh, is_host_key, port_or_zero,
}

module _ (p : Platform) where
  open p use {server, manager, net}

  -- The guest's key has the form of one, and the relay has a listener for the sandbox, at the port
  -- that is answered.
  pub record Reachable (id : String) (w : World p) (ep : SshEndpoint) : Type 0 where
    pub key : is_host_key ep.host_key ≡ true
    pub relay : Relay
    pub there : w.relay ≡ some relay
    pub target : String
    pub serves : Serves net relay id target ep.port

  guard-ok :
      {A : Type 0} (b : Bool) (e : Error) (m : Do p A) (w : World p) (a : A)
      → ((if b then raise e else m) w).0 ≡ ok a
      → (b ≡ false) × ((m w).0 ≡ ok a) × ((if b then raise e else m) w ≡ m w)
  unfolding raise
  guard-ok true e m w a h = absurd (ground arith)
  guard-ok false e m w a h = (refl, h, refl)

  guest_key-ok :
      (r : Result (String × ℕ)) (w : World p) (key : String)
      → (guest_key p r w).0 ≡ ok key
      → is_host_key key ≡ true
  unfolding guest_key pure raise
  guest_key-ok (err e) w key h = absurd (ground arith)
  guest_key-ok (ok (out, exit_code)) w key h = ground arith

  opened-ok : (r : Result ℕ) (w : World p) (port : ℕ) → (opened p r w).0 ≡ ok port → r ≡ ok port
  unfolding opened pure raise
  opened-ok (ok n) w port h = h
  opened-ok (err e) w port h = absurd (ground arith)

  opened-relay : (r : Result ℕ) (w : World p) → (opened p r w).1 ≡ w
  unfolding opened pure raise
  opened-relay (ok n) w = refl
  opened-relay (err e) w = refl

  remember-relay :
      (id : String) (port preferred : ℕ) (w : World p)
      → (remember p id port preferred w).0 ≡ ok tt
      → (remember p id port preferred w).1.relay ≡ w.relay
  unfolding remember noted on_store attempt pure raise ◌>>=◌
  remember-relay id port preferred w h = ground arith

  close_unless-relay :
      (id : String) (r : Result (Option Sandbox)) (w : World p)
      → (close_unless p id r w).0 ≡ ok true
      → (close_unless p id r w).1.relay ≡ w.relay
  unfolding close_unless pure ◌>>=◌
  close_unless-relay id r w h = ground arith

  ensure_unknown :
      (can_listen : ℕ → Bool) (id ip : String) (preferred port : ℕ) (r : Relay)
      → target_for net r ip ≡ none
      → (ensure net can_listen id ip preferred r).0 ≢ ok port
  unfolding ensure
  ensure_unknown can_listen id ip preferred port r unknown h = absurd (ground arith)

  ensure_on-Serves :
      (can_listen : ℕ → Bool) (id ip : String) (preferred port : ℕ) (at_first : Option Relay)
      → (ensure_on p id ip preferred can_listen at_first).0 ≡ ok port
      → (r : Relay) × ((ensure_on p id ip preferred can_listen at_first).1 ≡ some r)
        × (target : String) × Serves net r id target port
  unfolding ensure_on
  ensure_on-Serves can_listen id ip preferred port none e = absurd (ground arith)
  ensure_on-Serves can_listen id ip preferred port (some r) e =
      elim (Option-cases (target_for net r ip)) [
        | inl unknown ↦ absurd (ensure_unknown can_listen id ip preferred port r unknown e)
        | inr (target, known) ↦ (
          (ensure net can_listen id ip preferred r).1,
          refl,
          target,
          ensure-Serves net can_listen id ip target preferred r port known e,
        )
      ]

  endpoint-ok :
      (id : String) (sb : Sandbox) (key : String) (port : ℕ) (still : Bool) (w : World p)
      (ep : SshEndpoint)
      → (endpoint p sb key port still w).0 ≡ ok ep
      → (still ≡ true)
        × (ep.host_key ≡ key)
        × (ep.port ≡ port)
        × ((endpoint p sb key port still w).1 ≡ w)
  unfolding endpoint
  endpoint-ok id sb key port true w ep h = (refl, ground arith, ground arith, refl)
  endpoint-ok id sb key port false w ep h = absurd (ground arith)

  close_ssh-relay :
      (id : String) (w : World p)
      → (close_ssh_unless_running p id w).0 ≡ ok true
      → (close_ssh_unless_running p id w).1.relay ≡ w.relay
  unfolding close_ssh_unless_running on_store attempt ◌>>=◌
  close_ssh-relay id w h =
      close_unless-relay id (Store.fetch server id w.link).0
        (on_store p (Store.fetch server id) w).1 h

  -- From the listener on.
  kept : (id : String) (sb : Sandbox) (key : String) (port preferred : ℕ) → Do p SshEndpoint
  kept id sb key port preferred = do
    remember p id port preferred
    still ← close_ssh_unless_running p id
    endpoint p sb key port still

  kept-ok :
      (id : String) (sb : Sandbox) (key : String) (port preferred : ℕ) (w : World p)
      (ep : SshEndpoint)
      → (kept id sb key port preferred w).0 ≡ ok ep
      → (ep.host_key ≡ key)
        × (ep.port ≡ port)
        × ((kept id sb key port preferred w).1.relay ≡ w.relay)
  unfolding kept
  kept-ok id sb key port preferred w ep h =
      let (done, e1, h1, s1) = bind-eq-ok (remember p id port preferred) _ w ep h in
      let w1 = (remember p id port preferred w).1 in
      let (still, e2, h2, s2) =
        bind-eq-ok (close_ssh_unless_running p id) (endpoint p sb key port) w1 ep h1 in
      let w2 = (close_ssh_unless_running p id w1).1 in
      let (stayed, keys, ports, s3) = endpoint-ok id sb key port still w2 ep h2 in
      let same1 = remember-relay id port preferred w e1 in
      let same2 = close_ssh-relay id w1 (e2 ∙ ap (λ b. ok b) stayed) in
      (
        keys,
        ports,
        ap (λ x. x.1.relay) s1
            ∙ ap (λ x. x.1.relay) s2
            ∙ ap (λ (x : World p). x.relay) s3
            ∙ same2
            ∙ same1,
      )

  opened-Serves :
      (id ip : String) (preferred port : ℕ) (w : World p) (got : Result ℕ)
      → (attempt (ssh_ensure p id ip preferred) w).0 ≡ ok got
      → got ≡ ok port
      → (r : Relay) × ((attempt (ssh_ensure p id ip preferred) w).1.relay ≡ some r)
        × (target : String) × Serves net r id target port
  unfolding attempt ssh_ensure
  opened-Serves id ip preferred port w got e f =
      ensure_on-Serves (p.can_listen (calls p w)) id ip preferred port w.relay (ground arith)

  -- From the preferred port on.
  at_port : String → Sandbox → String → ℕ → Result ℕ → Do p SshEndpoint
  at_port id sb key preferred got = do port ← opened p got; kept id sb key port preferred

  listen-Reachable :
      (id : String) (sb : Sandbox) (key : String) (w : World p) (ep : SshEndpoint)
      → is_host_key key ≡ true
      → (listen p id sb key w).0 ≡ ok ep
      → Reachable id (listen p id sb key w).1 ep
  unfolding listen kept at_port
  listen-Reachable id sb key w ep good h =
      let ask = attempt (on_store p (Store.ssh_port server id)) in
      let (preferred, e0, h0, s0) = bind-eq-ok ask _ w ep h in
      let w0 = (ask w).1 in
      let n = port_or_zero preferred in
      let open_it = attempt (ssh_ensure p id sb.ip_address n) in
      let (got, e1, h1, s1) = bind-eq-ok open_it (at_port id sb key n) w0 ep h0 in
      let w1 = (open_it w0).1 in
      let (port, e2, h2, s2) = bind-eq-ok (opened p got) (λ q. kept id sb key q n) w1 ep h1 in
      let w2 = (opened p got w1).1 in
      let (keys, ports, s3) = kept-ok id sb key port n w2 ep h2 in
      let (relay, there, target, serves) =
        opened-Serves id sb.ip_address n port w0 got e1 (opened-ok got w1 port e2) in
      let ends : (listen p id sb key w).1.relay ≡ w1.relay =
        ap (λ x. x.1.relay) s0
        ∙ ap (λ x. x.1.relay) s1
        ∙ ap (λ x. x.1.relay) s2
        ∙ s3
        ∙ ap (λ (x : World p). x.relay) (opened-relay got w1) in
      record {
        key = ap is_host_key keys ∙ good;
        relay = relay;
        there = ends ∙ there;
        target = target;
        serves = subst (λ q. Serves net relay id target q) (sym ports) serves;
      }

  Reachable-subst :
      (id : String) (ep : SshEndpoint) (x y : Result SshEndpoint × World p)
      → x ≡ y
      → Reachable id y.1 ep
      → Reachable id x.1 ep
  Reachable-subst id ep x y e h =
      subst (λ (z : Result SshEndpoint × World p). Reachable id z.1 ep) (sym e) h

  prepare_reachable-Reachable :
      (id : String) (w : World p) (ep : SshEndpoint)
      → (prepare_reachable p id w).0 ≡ ok ep
      → Reachable id (prepare_reachable p id w).1 ep
  unfolding prepare_reachable
  prepare_reachable-Reachable id w ep h =
      let argv = "/usr/local/sbin/cloud-ssh-setup" ∷ p.ssh_auth_url ∷ [] in
      let read = on_store p (Store.fetch server id) in
      let run = attempt (on_vms p (manager.exec id argv)) in
      let (found, e0, h0, s0) = bind-eq-ok read _ w ep h in
      let w0 = (read w).1 in
      let (sb, e1, h1, s1) = bind-eq-ok (reachable p found) _ w0 ep h0 in
      let w1 = (reachable p found w0).1 in
      let (ran, e2, h2, s2) = bind-eq-ok run _ w1 ep h1 in
      let w2 = (run w1).1 in
      let (key, e3, h3, s3) = bind-eq-ok (guest_key p ran) (listen p id sb) w2 ep h2 in
      let w3 = (guest_key p ran w2).1 in
      Reachable-subst id ep _ _ (s0 ∙ s1 ∙ s2 ∙ s3)
        (listen-Reachable id sb key w3 ep (guest_key-ok ran w2 key e3) h3)

  -- A PrepareSSH that succeeds was asked for by an administrator. It answers with a host key of the
  -- right form, and the relay then has a listener for the sandbox, at the port in the answer.
  pub prepare_ssh-Reachable :
      (caller : Identity) (id : String) (w : World p) (ep : SshEndpoint)
      → (prepare_ssh p caller id w).0 ≡ ok ep
      → (is_admin caller ≡ true) × Reachable id (prepare_ssh p caller id w).1 ep
  unfolding prepare_ssh
  prepare_ssh-Reachable caller id w ep h =
      let (admin, h0, s0) = guard-ok (not (is_admin caller)) err_forbidden _ w ep h in
      let (there, h1, s1) =
        guard-ok (not (has_relay p w.relay)) _ (prepare_reachable p id) w ep h0 in
      (ground arith, Reachable-subst id ep _ _ (s0 ∙ s1) (prepare_reachable-Reachable id w ep h1))
