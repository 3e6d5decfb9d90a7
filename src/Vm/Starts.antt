-- ===== src/Vm/Starts.antt =====
-- The methods of internal/vm/manager.go that start no VM.
use sandbox_manager.Prelude.{
  ℕ, ◌≡◌, refl, String, Bool, true, false, List, [], ◌∷◌, some, str_eq, ltb, if◌then◌else◌, arith,
  inl, inr,
}
use sandbox_manager.Vm.{Spec}
use sandbox_manager.Vm.Containerd.{
  Containerd, Command, Reply, done, failed, Fault, absent, exists, broken, pull, open_lease, unpack,
  close_lease, await_unpack, attach_home, detach_home, teardown_net, start_task, kill_task,
  delete_task, delete_container, load_container, load_task, exec_process, wait_process,
  start_process, delete_process, kill_firecracker, remove_log,
}
use sandbox_manager.Vm.Node.{Node, M, command, query, pure, fail, attempt, lift, continue, ◌>>=◌}
use sandbox_manager.Vm.Manager.{
  Settings, Texts, unpack_image, unpack_if, ensure_unpacked, detach, unwind, attach, find_image,
  executed, processed, exec_args, exec_env, exec, live_status, live_task, live_container, is_live,
  end_task, end_container, sweep, delete, count_status, count_task, count_all, running_count,
  reaped, reap, reap_stopped, reap_task, reap_old, reap_all, cleanup_stopped, guest_log_tail,
  cleanup_grace,
}

abbrev pub is_start : Command → Bool
is_start (start_task i) = true
is_start _ = false

module _ (k : Containerd) where
  open k use {running}

  -- Every VM that runs after the action ran before it, under the same owner.
  pub record Quiet {A : Type 0} (m : M k A) : Type 0 where
    pub starts :
        (n : Node k) (id user_id : String)
        → running (m n).1.host id ≡ some user_id
        → running n.host id ≡ some user_id

  pub Quiet-command : (x : Command) → is_start x ≡ false → Quiet (command k x)
  unfolding command
  Quiet-command x e = record {
    starts = λ n id u h. elim (k.perform_starts x n.host id u h) [
      | inl before ↦ before
      | inr (starting, _) ↦ absurd (ground arith)
    ];
  }

  module _ {A : Type 0} where
    pub Quiet-query :
        (f : k.Host → Reply A × k.Host)
        → ((h : k.Host) (id u : String) → running (f h).1 id ≡ some u → running h id ≡ some u)
        → Quiet (query k f)
    unfolding query
    Quiet-query f q = record { starts = λ n. q n.host }

    pub Quiet-pure : (a : A) → Quiet (pure a)
    unfolding pure
    Quiet-pure a = record { starts = λ n id u h. h }

    pub Quiet-fail : (f : Fault) → Quiet {A = A} (fail f)
    unfolding fail
    Quiet-fail f = record { starts = λ n id u h. h }

    pub Quiet-lift : (r : Reply A) → Quiet (lift r)
    unfolding lift
    Quiet-lift r = record { starts = λ n id u h. h }

    pub Quiet-attempt : (m : M k A) → Quiet m → Quiet (attempt m)
    unfolding attempt
    Quiet-attempt m q = record { starts = q.starts }

    pub Quiet-if : (b : Bool) (m m' : M k A) → Quiet m → Quiet m' → Quiet (if b then m else m')
    Quiet-if true m m' q q' = q
    Quiet-if false m m' q q' = q'

  module _ {A B : Type 0} where
    pub Quiet-bind :
        (m : M k A) (f : A → M k B) → Quiet m → ((a : A) → Quiet (f a)) → Quiet (m >>= f)
    unfolding ◌>>=◌
    Quiet-bind m f q rest = record { starts = λ n. go n (m n).0 }
      where
        go :
            (n : Node k) (r : Reply A) (id u : String)
            → running (continue r f (m n).1).1.host id ≡ some u
            → running n.host id ≡ some u
        go n (done a) id u h = q.starts n id u ((rest a).starts (m n).1 id u h)
        go n (failed g) id u h = q.starts n id u h

  Quiet-quietly : (x : Command) → is_start x ≡ false → Quiet (attempt (command k x))
  Quiet-quietly x e = Quiet-attempt (command k x) (Quiet-command x e)

  module _ (t : Texts) (c : Settings) where
    Quiet-unpack_image : Quiet (unpack_image k t c)
    unfolding unpack_image
    Quiet-unpack_image =
        (Quiet-bind _ _ (Quiet-command (open_lease) refl) (λ _.
          (Quiet-bind _ _ (Quiet-quietly (unpack) refl)
            (λ r. (Quiet-bind _ _ (Quiet-quietly (close_lease) refl) (λ _. (Quiet-lift r)))))))

    Quiet-unpack_if : (b : Bool) → Quiet (unpack_if k t c b)
    unfolding unpack_if
    Quiet-unpack_if true = Quiet-pure tt
    Quiet-unpack_if false =
        (Quiet-bind _ _ (Quiet-attempt _ Quiet-unpack_image)
          (λ r. (Quiet-bind _ _ (Quiet-command (await_unpack) refl) (λ _. (Quiet-lift r)))))

    pub Quiet-ensure_unpacked : Quiet (ensure_unpacked k t c)
    unfolding ensure_unpacked
    Quiet-ensure_unpacked =
        Quiet-bind _ _ (Quiet-query k.is_unpacked k.is_unpacked_starts) Quiet-unpack_if

    pub Quiet-detach : (s : Spec) → Quiet (detach k t c s)
    unfolding detach
    Quiet-detach s =
        Quiet-if (str_eq s.home_img "") _ _ (Quiet-pure tt)
          (Quiet-bind _ _ (Quiet-quietly (detach_home s.id) refl) (λ _. (Quiet-pure tt)))

    pub Quiet-unwind : (s : Spec) (f : Fault) → Quiet (unwind k t c s f)
    unfolding unwind
    Quiet-unwind s f =
        (Quiet-bind _ _ (Quiet-quietly (teardown_net s.id) refl)
          (λ _. (Quiet-bind _ _ (Quiet-detach s) (λ _. (Quiet-fail f)))))

    pub Quiet-attach : (s : Spec) → Quiet (attach k t c s)
    unfolding attach
    Quiet-attach s =
        Quiet-if (str_eq s.home_img "") _ _ (Quiet-pure tt)
          (Quiet-command (attach_home s.id s.home_img) refl)

    pub Quiet-find_image : (r : Reply (Unit {0})) → Quiet (find_image k t c r)
    unfolding find_image
    Quiet-find_image (done _) = Quiet-pure tt
    Quiet-find_image (failed f) = (Quiet-command (pull) refl)

    Quiet-executed : (id : String) → Quiet (executed k t c id)
    unfolding executed
    Quiet-executed id =
        (Quiet-bind _ _ (Quiet-command (wait_process id) refl) (λ _.
          (Quiet-bind _ _ (Quiet-command (start_process id) refl)
            (λ _. (Quiet-query _ (k.output_starts id))))))

    Quiet-processed : (id : String) (r : Reply (Unit {0})) → Quiet (processed k t c id r)
    unfolding processed
    Quiet-processed id (failed f) = Quiet-fail f
    Quiet-processed id (done _) =
        (Quiet-bind _ _ (Quiet-attempt _ (Quiet-executed id))
          (λ r. (Quiet-bind _ _ (Quiet-quietly (delete_process id) refl) (λ _. (Quiet-lift r)))))

    Quiet-exec_args : (id : String) (argv : List String) → Quiet (exec_args k t c id argv)
    unfolding exec_args
    Quiet-exec_args id [] = Quiet-fail broken
    Quiet-exec_args id (a ∷ args) =
        (Quiet-bind _ _ (Quiet-attempt _ (Quiet-query (k.spec_env id) (k.spec_env_starts id)))
          (λ env.
            (Quiet-bind _ _ (Quiet-quietly (exec_process id (a ∷ args) (exec_env env)) refl)
              (λ r. (Quiet-processed id r)))))

    pub Quiet-exec : (id : String) (argv : List String) → Quiet (exec k t c id argv)
    unfolding exec
    Quiet-exec id argv =
        (Quiet-bind _ _ (Quiet-command (load_container id) refl) (λ _.
          (Quiet-bind _ _ (Quiet-command (load_task id) refl) (λ _. (Quiet-exec_args id argv)))))

    Quiet-live_status : (r : Reply Bool) → Quiet (live_status k t c r)
    unfolding live_status
    Quiet-live_status (done true) = Quiet-pure _
    Quiet-live_status (done false) = Quiet-pure _
    Quiet-live_status (failed f) = Quiet-pure _

    Quiet-live_task : (id : String) (r : Reply (Unit {0})) → Quiet (live_task k t c id r)
    unfolding live_task
    Quiet-live_task id (done _) =
        (Quiet-bind _ _ (Quiet-attempt _ (Quiet-query (k.status id) (k.status_starts id)))
          (λ r. (Quiet-live_status r)))
    Quiet-live_task id (failed absent) = Quiet-pure _
    Quiet-live_task id (failed exists) = Quiet-pure _
    Quiet-live_task id (failed broken) = Quiet-pure _

    Quiet-live_container : (id : String) (r : Reply (Unit {0})) → Quiet (live_container k t c id r)
    unfolding live_container
    Quiet-live_container id (done _) =
        (Quiet-bind _ _ (Quiet-quietly (load_task id) refl) (λ r. (Quiet-live_task id r)))
    Quiet-live_container id (failed absent) = Quiet-pure _
    Quiet-live_container id (failed exists) = Quiet-pure _
    Quiet-live_container id (failed broken) = Quiet-pure _

    pub Quiet-is_live : (id : String) → Quiet (is_live k t c id)
    unfolding is_live
    Quiet-is_live id =
        (Quiet-bind _ _ (Quiet-quietly (load_container id) refl) (λ r. (Quiet-live_container id r)))

    Quiet-end_task : (id : String) (r : Reply (Unit {0})) → Quiet (end_task k t c id r)
    unfolding end_task
    Quiet-end_task id (failed f) = Quiet-pure tt
    Quiet-end_task id (done _) =
        (Quiet-bind _ _ (Quiet-quietly (kill_task id) refl)
          (λ _. (Quiet-bind _ _ (Quiet-quietly (delete_task id) refl) (λ _. (Quiet-pure tt)))))

    Quiet-end_container : (id : String) (r : Reply (Unit {0})) → Quiet (end_container k t c id r)
    unfolding end_container
    Quiet-end_container id (done _) =
        (Quiet-bind _ _ (Quiet-quietly (load_task id) refl) (λ r.
          (Quiet-bind _ _ (Quiet-end_task id r) (λ _. (Quiet-command (delete_container id) refl)))))
    Quiet-end_container id (failed absent) = Quiet-pure tt
    Quiet-end_container id (failed exists) = Quiet-fail exists
    Quiet-end_container id (failed broken) = Quiet-fail broken

    pub Quiet-sweep : (id : String) (e : Reply (Unit {0})) → Quiet (sweep k t c id e)
    unfolding sweep
    Quiet-sweep id e =
        (Quiet-bind _ _ (Quiet-quietly (kill_firecracker id) refl) (λ _.
          (Quiet-bind _ _ (Quiet-quietly (teardown_net id) refl) (λ _.
            (Quiet-bind _ _ (Quiet-quietly (detach_home id) refl) (λ _.
              (Quiet-bind _ _ (Quiet-quietly (remove_log id) refl) (λ _. (Quiet-lift e)))))))))

    pub Quiet-delete : (id : String) → Quiet (delete k t c id)
    unfolding delete
    Quiet-delete id =
        (Quiet-bind _ _ (Quiet-quietly (load_container id) refl) (λ r.
          (Quiet-bind _ _ (Quiet-attempt _ (Quiet-end_container id r)) (λ e. (Quiet-sweep id e)))))

    Quiet-count_status : (b : Bool) → Quiet (count_status k t c b)
    unfolding count_status
    Quiet-count_status b = Quiet-pure _

    Quiet-count_task : (id : String) (r : Reply (Unit {0})) → Quiet (count_task k t c id r)
    unfolding count_task
    Quiet-count_task id (done _) =
        (Quiet-bind _ _ (Quiet-query (k.status id) (k.status_starts id))
          (λ b. (Quiet-count_status b)))
    Quiet-count_task id (failed absent) = Quiet-pure 0
    Quiet-count_task id (failed exists) = Quiet-fail exists
    Quiet-count_task id (failed broken) = Quiet-fail broken

    Quiet-count_all : (ids : List String) → Quiet (count_all k t c ids)
    unfolding count_all
    Quiet-count_all [] = Quiet-pure 0
    Quiet-count_all (id ∷ ids) =
        (Quiet-bind _ _ (Quiet-quietly (load_task id) refl) (λ r.
          (Quiet-bind _ _ (Quiet-count_task id r)
            (λ n. (Quiet-bind _ _ (Quiet-count_all ids) (λ _. (Quiet-pure _)))))))

    pub Quiet-running_count : Quiet (running_count k t c)
    unfolding running_count
    Quiet-running_count =
        Quiet-bind _ _ (Quiet-query k.containers k.containers_starts) Quiet-count_all

    Quiet-reaped : (r : Reply (Unit {0})) → Quiet (reaped k t c r)
    unfolding reaped
    Quiet-reaped (done _) = Quiet-pure 1
    Quiet-reaped (failed absent) = Quiet-pure 1
    Quiet-reaped (failed exists) = Quiet-fail exists
    Quiet-reaped (failed broken) = Quiet-fail broken

    Quiet-reap : (id : String) → Quiet (reap k t c id)
    unfolding reap
    Quiet-reap id = (Quiet-bind _ _ (Quiet-attempt _ (Quiet-delete id)) (λ r. (Quiet-reaped r)))

    Quiet-reap_stopped : (id : String) (b : Bool) → Quiet (reap_stopped k t c id b)
    unfolding reap_stopped
    Quiet-reap_stopped id b = Quiet-if b _ _ (Quiet-pure 0) (Quiet-reap id)

    Quiet-reap_task : (id : String) (r : Reply (Unit {0})) → Quiet (reap_task k t c id r)
    unfolding reap_task
    Quiet-reap_task id (done _) =
        (Quiet-bind _ _ (Quiet-query (k.status id) (k.status_starts id))
          (λ b. (Quiet-reap_stopped id b)))
    Quiet-reap_task id (failed absent) = Quiet-reap id
    Quiet-reap_task id (failed exists) = Quiet-fail exists
    Quiet-reap_task id (failed broken) = Quiet-fail broken

    Quiet-reap_old : (id : String) (r : Reply ℕ) → Quiet (reap_old k t c id r)
    unfolding reap_old
    Quiet-reap_old id (done age) =
        Quiet-if (ltb age cleanup_grace) _ _ (Quiet-pure 0)
          (Quiet-bind _ _ (Quiet-quietly (load_task id) refl) (λ r. (Quiet-reap_task id r)))
    Quiet-reap_old id (failed absent) = Quiet-pure 0
    Quiet-reap_old id (failed exists) = Quiet-fail exists
    Quiet-reap_old id (failed broken) = Quiet-fail broken

    Quiet-reap_all : (ids : List String) → Quiet (reap_all k t c ids)
    unfolding reap_all
    Quiet-reap_all [] = Quiet-pure 0
    Quiet-reap_all (id ∷ ids) =
        (Quiet-bind _ _ (Quiet-attempt _ (Quiet-query (k.age id) (k.age_starts id))) (λ age.
          (Quiet-bind _ _ (Quiet-reap_old id age)
            (λ n. (Quiet-bind _ _ (Quiet-reap_all ids) (λ _. (Quiet-pure _)))))))

    pub Quiet-cleanup_stopped : Quiet (cleanup_stopped k t c)
    unfolding cleanup_stopped
    Quiet-cleanup_stopped =
        Quiet-bind _ _ (Quiet-query k.containers k.containers_starts) Quiet-reap_all

    pub Quiet-guest_log_tail : (id : String) (n : ℕ) → Quiet (guest_log_tail k t c id n)
    unfolding guest_log_tail
    Quiet-guest_log_tail id n = Quiet-query _ (k.read_log_starts id n)
