-- ===== src/Vm/Launch.antt =====
-- Which VM a Create of internal/vm/manager.go can start.
use sandbox_manager.Prelude.{◌≡◌, ◌≢◌, ◌⊎◌, refl, sym, String, some, arith, subst, inl, inr}
use sandbox_manager.Vm.{Spec}
use sandbox_manager.Vm.Containerd.{
  Containerd, Cleans, Reply-cases, Reply, done, failed, Fault, absent, exists, broken, get_image,
  setup_net, new_container, remove_snapshot, new_task, start_task, delete_task, delete_container,
}
use sandbox_manager.Vm.Node.{Node, M, command, query, attempt, continue, ◌>>=◌}
use sandbox_manager.Vm.Manager.{
  Settings, Texts, config_of, unwind, started, tasked, contained, wired, create,
}
use sandbox_manager.Vm.Starts

module _ (k : Containerd) (t : Texts) (c : Settings) (cleans : Cleans k) where
  open k use {running, owner}

  -- What a VM that runs after a stretch of Create may be: one that ran before, or the one that was
  -- asked for, under its user, if the stretch succeeded.
  abbrev pub StartsAt : Spec → M k String → Node k → Type 0
  StartsAt s m n =
      (id user_id : String)
      → running (m n).1.host id ≡ some user_id
      → (running n.host id ≡ some user_id)
        ⊎ ((id ≡ s.id) × (user_id ≡ s.user_id) × (ip : String) × ((m n).0 ≡ done ip))

  Quiet-StartsAt : (s : Spec) (m : M k String) (n : Node k) → Starts.Quiet k m → StartsAt s m n
  Quiet-StartsAt s m n q id u h = inl (q.starts n id u h)

  bind-StartsAt :
      {A : Type 0} (s : Spec) (m : M k A) (f : A → M k String) (n : Node k)
      → Starts.Quiet k m
      → ((a : A) → (m n).0 ≡ done a → StartsAt s (f a) (m n).1)
      → StartsAt s (m >>= f) n
  unfolding ◌>>=◌
  bind-StartsAt {A} s m f n q rest = go (m n).0 refl
    where
      go :
          (r : Reply A)
          → (m n).0 ≡ r
          → (id u : String) → running (continue r f (m n).1).1.host id ≡ some u
          → (running n.host id ≡ some u)
            ⊎ ((id ≡ s.id) × (u ≡ s.user_id) × (ip : String) × ((continue r f (m n).1).0 ≡ done ip))
      go (done a) e id u h = elim (rest a e id u h) [
        | inl before ↦ inl (q.starts n id u before)
        | inr new ↦ inr new
      ]
      go (failed g) e id u h = inl (q.starts n id u h)

  -- A label on the sandbox's container is its user's.
  abbrev Owned : Spec → Node k → Type 0
  Owned s n = (user_id : String) → owner n.host s.id ≡ some user_id → user_id ≡ s.user_id

  Quiet-rollback :
      (s : Spec) (f : Fault)
      → Starts.Quiet k (attempt (command k (delete_container s.id)) >>= λ _. unwind k t c s f)
  Quiet-rollback s f =
      Starts.Quiet-bind k _ _
        (Starts.Quiet-attempt k _ (Starts.Quiet-command k (delete_container s.id) refl))
        (λ _. Starts.Quiet-unwind k t c s f)

  Quiet-started : (s : Spec) (a : Reply (Unit {0})) → Starts.Quiet k (started k t c s a)
  unfolding started
  Quiet-started s (done _) = Starts.Quiet-query k _ (λ h id u e. e)
  Quiet-started s (failed f) =
      Starts.Quiet-bind k _ _
        (Starts.Quiet-attempt k _ (Starts.Quiet-command k (delete_task s.id) refl))
        (λ _. Quiet-rollback s f)

  -- After a Start that failed, whatever it started is gone.
  failed_start_gone :
      (s : Spec) (f : Fault) (n : Node k)
      → (k.perform (start_task s.id) n.host).0 ≡ failed f
      → (u : String)
      → running (started k t c s (failed f) (command k (start_task s.id) n).1).1.host s.id ≢ some u
  unfolding started ◌>>=◌ attempt command
  failed_start_gone s f n failing u up =
      let n0 = (command k (start_task s.id) n).1 in
      let n1 = (command k (delete_task s.id) n0).1 in
      let n2 = (command k (delete_container s.id) n1).1 in
      elim (cleans s.id f n.host failing) [
        | inl done1 ↦
            let up1 = (Quiet-rollback s f).starts n1 s.id u up in
            let gone = k.deleted_task s.id n0.host done1 in absurd (ground (arith, up1, gone))
        | inr done2 ↦
            let up2 = (Starts.Quiet-unwind k t c s f).starts n2 s.id u up in
            let gone = k.deleted_container s.id n1.host done2 in absurd (ground (arith, up2, gone))
      ]

  -- The start itself.
  start-StartsAt :
      (s : Spec) (n : Node k)
      → Owned s n
      → StartsAt s (attempt (command k (start_task s.id)) >>= started k t c s) n
  unfolding ◌>>=◌ attempt command started query
  start-StartsAt s n own id u h =
      let now = k.perform (start_task s.id) n.host in
      let after = (command k (start_task s.id) n).1 in
      let started_now = (Quiet-started s now.0).starts after id u h in
      elim (k.perform_starts (start_task s.id) n.host id u started_now) [
        | inl before ↦ inl before
        | inr (starting, label) ↦
            let same : s.id ≡ id = ground arith in
            let mine = own u (subst (λ i. owner n.host i ≡ some u) (sym same) label) in
            elim (Reply-cases now.0) [
              | inl (_, reply) ↦ inr (sym same, mine, k.address now.1 s.id, rw reply refl)
              | inr (f, reply) ↦ absurd (
                  failed_start_gone s f n reply u (
                    subst (λ r. running (started k t c s r after).1.host s.id ≡ some u) reply
                      (subst (λ i. running (started k t c s now.0 after).1.host i ≡ some u)
                        (sym same) h)))
            ]
      ]

  tasked-StartsAt :
      (s : Spec) (a : Reply (Unit {0})) (n : Node k) → Owned s n → StartsAt s (tasked k t c s a) n
  unfolding tasked
  tasked-StartsAt s (failed f) n own = Quiet-StartsAt s _ n (Quiet-rollback s f)
  tasked-StartsAt s (done _) n own = start-StartsAt s n own

  Quiet-container_refused : (s : Spec) (f : Fault) → Starts.Quiet k (contained k t c s (failed f))
  unfolding contained
  Quiet-container_refused s exists = Starts.Quiet-unwind k t c s exists
  Quiet-container_refused s absent =
      Starts.Quiet-bind k _ _
        (Starts.Quiet-attempt k _ (Starts.Quiet-command k (remove_snapshot s.id) refl))
        (λ _. Starts.Quiet-unwind k t c s absent)
  Quiet-container_refused s broken =
      Starts.Quiet-bind k _ _
        (Starts.Quiet-attempt k _ (Starts.Quiet-command k (remove_snapshot s.id) refl))
        (λ _. Starts.Quiet-unwind k t c s broken)

  contained-StartsAt :
      (s : Spec) (n : Node k) → Owned s n → StartsAt s (contained k t c s (done tt)) n
  unfolding contained command attempt
  contained-StartsAt s n own =
      bind-StartsAt s (attempt (command k (new_task s.id))) (tasked k t c s) n
        (Starts.Quiet-attempt k _ (Starts.Quiet-command k (new_task s.id) refl))
        (λ r _. tasked-StartsAt s r _ (λ u e. own u (k.new_task_owner s.id n.host u e)))

  wired-StartsAt : (s : Spec) (a : Reply (Unit {0})) (n : Node k) → StartsAt s (wired k t c s a) n
  unfolding wired command attempt config_of
  wired-StartsAt s (failed f) n =
      Quiet-StartsAt s _ n
        (Starts.Quiet-bind k _ _ (Starts.Quiet-detach k t c s) (λ _. Starts.Quiet-fail k f))
  wired-StartsAt s (done _) n =
      let x = new_container (config_of t c s) in
      bind-StartsAt s (attempt (command k x)) (contained k t c s) n
        (Starts.Quiet-attempt k _ (Starts.Quiet-command k x refl)) (λ r e. made r e)
    where
      made :
          (r : Reply (Unit {0}))
          → done (k.perform (new_container (config_of t c s)) n.host).0 ≡ done r
          → StartsAt s (contained k t c s r) (command k (new_container (config_of t c s)) n).1
      made (failed f) e = Quiet-StartsAt s _ _ (Quiet-container_refused s f)
      made (done _) e =
          contained-StartsAt s _ (λ u q.
            ground (arith, q, k.new_container_owner (config_of t c s) n.host (ground arith)))

  pub create-StartsAt : (s : Spec) (n : Node k) → StartsAt s (create k t c s) n
  unfolding create
  create-StartsAt s n =
      bind-StartsAt s _ _ n (Starts.Quiet-attempt k _ (Starts.Quiet-command k get_image refl))
        (λ image _. bind-StartsAt s _ _ _ (Starts.Quiet-find_image k t c image) (λ _ _.
          bind-StartsAt s _ _ _ (Starts.Quiet-ensure_unpacked k t c) (λ _ _.
            bind-StartsAt s _ _ _ (Starts.Quiet-attach k t c s) (λ _ _.
              bind-StartsAt s _ _ _
                (Starts.Quiet-attempt k _ (Starts.Quiet-command k (setup_net s.id) refl))
                (λ r _. wired-StartsAt s r _)))))
