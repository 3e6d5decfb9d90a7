-- ===== src/Vm/Lifecycle.antt =====
-- The VM manager as the service sees it: internal/vm/manager.go fills the interface of the service.
use sandbox_manager.Prelude.{
  ◌≡◌, ◌⊎◌, refl, ap, String, Bool, true, false, none, some, arith, inl, inr, Option-cases,
  Bool-cases, ok,
}
use sandbox_manager.Vm.{VmManager, Spec, Liveness, live_unknown, live_no}
use sandbox_manager.Vm.Containerd.{
  Containerd, Cleans, Command, Reply, done, failed, absent, exists, broken, delete_container,
  load_container, load_task, kill_firecracker, teardown_net, detach_home, remove_log,
}
use sandbox_manager.Vm.Node.{
  Node, M, command, query, pure, fail, attempt, lift, answer, continue, ◌>>=◌,
}
use sandbox_manager.Vm.Manager.{
  Settings, Texts, create, exec, live_status, live_task, live_container, is_live, end_container,
  sweep, delete, running_count, cleanup_stopped, guest_log_tail,
}
use sandbox_manager.Vm.Starts
use sandbox_manager.Vm.Launch.{create-StartsAt}

module _ (k : Containerd) (t : Texts) (c : Settings) where
  open k use {running, owner}

  still_gone :
      {A : Type 0} (m : M k A) (n : Node k) (id : String)
      → Starts.Quiet k m
      → running n.host id ≡ none
      → running (m n).1.host id ≡ none
  still_gone m n id q gone = elim (Option-cases (running (m n).1.host id)) [
    | inl e ↦ e
    | inr (u, e) ↦ absurd (ground (arith, q.starts n id u e))
  ]

  -- An action that succeeds leaves no VM under the id.
  abbrev Ends : {A : Type 0} → String → M k A → Node k → Type 0
  Ends {A} id m n = (a : A) → (m n).0 ≡ done a → running (m n).1.host id ≡ none

  bind-Ends :
      {A B : Type 0} (id : String) (m : M k A) (f : A → M k B) (n : Node k)
      → ((a : A) → (m n).0 ≡ done a → Ends id (f a) (m n).1)
      → Ends id (m >>= f) n
  unfolding ◌>>=◌
  bind-Ends {A} {B} id m f n rest = go (m n).0 refl
    where
      go :
          (r : Reply A)
          → (m n).0 ≡ r
          → (b : B) → (continue r f (m n).1).0 ≡ done b
          → running (continue r f (m n).1).1.host id ≡ none
      go (done a) e b h = rest a e b h
      go (failed g) e b h = absurd (ground arith)

  delete_container-Ends : (id : String) (n : Node k) → Ends id (command k (delete_container id)) n
  unfolding command
  delete_container-Ends id n a e = k.deleted_container id n.host e

  end_container-Ends :
      (id : String) (r : Reply (Unit {0})) (n : Node k)
      → (r ≡ failed absent → running n.host id ≡ none)
      → Ends id (end_container k t c id r) n
  unfolding end_container pure fail
  end_container-Ends id (done _) n gone a e =
      bind-Ends id _ _ n (λ a _. bind-Ends id _ _ _ (λ _ _. delete_container-Ends id _)) a e
  end_container-Ends id (failed absent) n gone a e = gone refl
  end_container-Ends id (failed exists) n gone a e = absurd (ground arith)
  end_container-Ends id (failed broken) n gone a e = absurd (ground arith)

  lift-done : {A : Type 0} (r : Reply A) (n : Node k) (a : A) → (lift r n).0 ≡ done a → r ≡ done a
  unfolding lift
  lift-done r n a e = e

  sweep-reply : (id : String) (e : Reply (Unit {0})) (n : Node k) → (sweep k t c id e n).0 ≡ e
  unfolding sweep ◌>>=◌ attempt command lift
  sweep-reply id e n = refl

  delete-Ends : (id : String) (n : Node k) → Ends id (delete k t c id) n
  unfolding delete sweep ◌>>=◌ attempt command
  delete-Ends id n a e =
      let found = k.perform (load_container id) n.host in
      let n1 = (command k (load_container id) n).1 in
      let gone = end_container-Ends id found.0 n1 (λ q. k.absent_container id n.host q) in
      let ended = end_container k t c id found.0 n1 in
      still_gone (sweep k t c id ended.0) ended.1 id (Starts.Quiet-sweep k t c id ended.0)
        (gone tt (ground (arith, e, sweep-reply id ended.0 ended.1)))

  command-vmm :
      (x : Command) (n : Node k) (id : String)
      → Starts.is_start x ≡ false
      → k.vmm n.host id ≡ false
      → k.vmm (command k x n).1.host id ≡ false
  unfolding command
  command-vmm x n id quiet gone = elim (Bool-cases (k.vmm (k.perform x n.host).1 id)) [
    | inr away ↦ away
    | inl there ↦ elim (k.perform_vmm x n.host id there) [
      | inl before ↦ absurd (ground arith)
      | inr starting ↦ absurd (ground arith)
    ]
  ]

  sweep-vmm :
      (id : String) (e : Reply (Unit {0})) (n : Node k)
      → k.vmm (sweep k t c id e n).1.host id ≡ false
  unfolding sweep ◌>>=◌ attempt lift command
  sweep-vmm id e n =
      let n1 = (command k (kill_firecracker id) n).1 in
      let n2 = (command k (teardown_net id) n1).1 in
      let n3 = (command k (detach_home id) n2).1 in
      command-vmm (remove_log id) n3 id refl (
        command-vmm (detach_home id) n2 id refl
          (command-vmm (teardown_net id) n1 id refl (k.killed_vmm id n.host)))

  pub delete-gone :
      (id : String) (n : Node k)
      → (k.vmm (delete k t c id n).1.host id ≡ false)
        × ((delete k t c id n).0 ≡ done tt → running (delete k t c id n).1.host id ≡ none)
  unfolding delete ◌>>=◌ attempt
  delete-gone id n = (sweep-vmm id _ _, λ e. delete-Ends id n tt e)

  live_status-gone :
      (id : String) (r : Reply Bool) (n : Node k)
      → (r ≡ done false → running n.host id ≡ none)
      → (live_status k t c r n).0 ≡ done live_no
      → running (live_status k t c r n).1.host id ≡ none
  unfolding live_status pure
  live_status-gone id (done true) n gone e = absurd (ground arith)
  live_status-gone id (done false) n gone e = gone refl
  live_status-gone id (failed f) n gone e = absurd (ground arith)

  live_task-gone :
      (id : String) (r : Reply (Unit {0})) (n : Node k)
      → (r ≡ failed absent → running n.host id ≡ none)
      → (live_task k t c id r n).0 ≡ done live_no
      → running (live_task k t c id r n).1.host id ≡ none
  unfolding live_task ◌>>=◌ attempt query pure
  live_task-gone id (done _) n gone e =
      live_status-gone id (k.status id n.host).0 (query k (k.status id) n).1
        (k.stopped_task id n.host) e
  live_task-gone id (failed absent) n gone e = gone refl
  live_task-gone id (failed exists) n gone e = absurd (ground arith)
  live_task-gone id (failed broken) n gone e = absurd (ground arith)

  live_container-gone :
      (id : String) (r : Reply (Unit {0})) (n : Node k)
      → (r ≡ failed absent → running n.host id ≡ none)
      → (live_container k t c id r n).0 ≡ done live_no
      → running (live_container k t c id r n).1.host id ≡ none
  unfolding live_container ◌>>=◌ attempt command pure
  live_container-gone id (done _) n gone e =
      live_task-gone id (k.perform (load_task id) n.host).0 (command k (load_task id) n).1
        (k.absent_task id n.host) e
  live_container-gone id (failed absent) n gone e = gone refl
  live_container-gone id (failed exists) n gone e = absurd (ground arith)
  live_container-gone id (failed broken) n gone e = absurd (ground arith)

  -- IsLive answers LiveNo only if no task runs under the id.
  pub is_live-gone :
      (id : String) (n : Node k)
      → (is_live k t c id n).0 ≡ done live_no
      → running (is_live k t c id n).1.host id ≡ none
  unfolding is_live ◌>>=◌ attempt command
  is_live-gone id n e =
      live_container-gone id (k.perform (load_container id) n.host).0
        (command k (load_container id) n).1 (k.absent_container id n.host) e

  -- The answers that are no errors of the interface.
  abbrev pub liveness : Reply Liveness → Liveness
  liveness (done l) = l
  liveness (failed f) = live_unknown

  abbrev pub tail_text : Reply String → String
  tail_text (done s) = s
  tail_text (failed f) = ""

  pub answer-ok : {A : Type 0} (r : Reply A) (a : A) → answer r ≡ ok a → r ≡ done a
  unfolding answer
  answer-ok (done b) a e = ground arith
  answer-ok (failed f) a e = absurd (ground arith)

  -- A task that runs after Create ran before under the same owner, or it is the one that Create was asked
  -- for: under the spec's id and owner, with an address as the answer. So a Create that fails has started
  -- nothing that still runs, also where Start failed after it had started the task. The condition is that
  -- after a Start that fails task.Delete succeeds, or else container.Delete does.
  pub create_starts_one :
      (cleans : Cleans k) (s : Spec) (n : Node k) (id user_id : String)
      → running (create k t c s n).1.host id ≡ some user_id
      → (running n.host id ≡ some user_id)
        ⊎ ((id ≡ s.id)
            × (user_id ≡ s.user_id)
            × (ip : String) × (answer (create k t c s n).0 ≡ ok ip))
  unfolding answer
  create_starts_one cleans s n id u h = elim (create-StartsAt k t c cleans s n id u h) [
    | inl before ↦ inl before
    | inr (same, user, ip, e) ↦ inr (same, user, ip, rw e refl)
  ]

  pub liveness-no : (r : Reply Liveness) → liveness r ≡ live_no → r ≡ done live_no
  liveness-no (done l) e = ap (λ x. done x) e
  liveness-no (failed f) e = absurd (ground arith)

  -- The manager as the service uses it.
  abbrev pub manager_over : Cleans k → VmManager
  manager_over cleans = record {
    Vms = Node k;
    create = λ s n. (answer (create k t c s n).0, (create k t c s n).1);
    delete = λ id n. (answer (delete k t c id n).0, (delete k t c id n).1);
    is_live = λ id n. (liveness (is_live k t c id n).0, (is_live k t c id n).1);
    guest_log_tail =
        λ id m n. (tail_text (guest_log_tail k t c id m n).0, (guest_log_tail k t c id m n).1);
    exec = λ id argv n. (answer (exec k t c id argv n).0, (exec k t c id argv n).1);
    cleanup_stopped = λ n. (answer (cleanup_stopped k t c n).0, (cleanup_stopped k t c n).1);
    running_count = λ n. (answer (running_count k t c n).0, (running_count k t c n).1);
    running = λ n id. running n.host id;
    create_starts = create_starts_one cleans;
    delete_starts = λ i. (Starts.Quiet-delete k t c i).starts;
    is_live_starts = λ i. (Starts.Quiet-is_live k t c i).starts;
    guest_log_tail_starts = λ i m. (Starts.Quiet-guest_log_tail k t c i m).starts;
    exec_starts = λ i argv. (Starts.Quiet-exec k t c i argv).starts;
    cleanup_stopped_starts = (Starts.Quiet-cleanup_stopped k t c).starts;
    running_count_starts = (Starts.Quiet-running_count k t c).starts;
    delete_gone = λ i n e. (delete-gone i n).1 (answer-ok (delete k t c i n).0 tt e);
    is_live_gone = λ i n e. is_live-gone i n (liveness-no (is_live k t c i n).0 e);
  }
