-- ===== src/Vm/Node.antt =====
-- The machine that the VM manager works on: containerd and the host, with the calls made so far; and
-- actions on it, which end in a reply.
use sandbox_manager.Prelude.{List, ◌∷◌, Result, ok, err, failure}
use sandbox_manager.Vm.Containerd.{Containerd, Command, Reply, done, failed, Fault}

abbrev pub Act : Type 0 → Type 0 → Type 0
Act S A = S → Reply A × S

module _ {S A : Type 0} where
  unfoldable pub pure : A → Act S A
  pure a n = (done a, n)

  unfoldable pub fail : Fault → Act S A
  fail f n = (failed f, n)

  -- A failure that the caller handles, or ignores.
  unfoldable pub attempt : Act S A → Act S (Reply A)
  attempt m n = let (r, n') = m n in (done r, n')

  unfoldable pub lift : Reply A → Act S A
  lift r n = (r, n)

module _ {S A B : Type 0} where
  abbrev pub continue : Reply A → (A → Act S B) → Act S B
  continue (done a) f n = f a n
  continue (failed e) f n = (failed e, n)

  infixl 10 ◌>>=◌ ◌>>◌
  unfoldable pub ◌>>=◌ : Act S A → (A → Act S B) → Act S B
  ◌>>=◌ m f n = let (r, n') = m n in continue r f n'

  abbrev pub ◌>>◌ : Act S A → Act S B → Act S B
  m >> f = m >>= λ _. f

-- The calls with their replies, the latest first.
abbrev pub Log : Type 0
Log = List (Command × Reply (Unit {0}))

module _ (k : Containerd) where
  open k use {Host, perform}

  pub record Node : Type 0 where
    pub host : Host
    pub log : Log

  abbrev pub M : Type 0 → Type 0
  M A = Act Node A

  unfoldable pub command : Command → M (Unit {0})
  command c n = let (r, h) = perform c n.host in (r, record { host = h; log = (c, r) ∷ n.log })

  unfoldable pub query : {A : Type 0} → (Host → Reply A × Host) → M A
  query f n = let (r, h) = f n.host in (r, record n { host = h })

-- As the callers of the manager see an error.
unfoldable pub answer : {A : Type 0} → Reply A → Result A
answer (done a) = ok a
answer (failed f) = err (failure "containerd")
