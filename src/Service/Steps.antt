-- ===== src/Service/Steps.antt =====
-- The relation between the states before and after a step of internal/service/service.go that may
-- lose VMs, which die at any time, and starts none; and how it composes.
use sandbox_manager.Prelude.{
  ◌≡◌, refl, String, Bool, true, false, Option, some, if◌then◌else◌, Result, ok, err, Error,
  continue, pure, raise, attempt, ◌>>=◌,
}
use sandbox_manager.Sandbox.{Sandbox}
use sandbox_manager.Redis.{Link}
use sandbox_manager.Store.Covers.{IsCovered, fewer-IsCovered, Gone, Owns}
use sandbox_manager.Service.World.{Platform, World, Do, on_store, on_vms, ask_vms}

module _ (p : Platform) where
  open p use {server, manager}

  -- The owner of the VM that runs under an id.
  abbrev pub owner_of : World p → String → Option String
  owner_of w = manager.running w.vms

  abbrev pub AllCovered : World p → Type 0
  AllCovered w = IsCovered server (owner_of w) w.link.db

  pub record Fewer (w w' : World p) : Type 0 where
    pub runs : (id user_id : String) → owner_of w' id ≡ some user_id → owner_of w id ≡ some user_id

  -- From a covered state to another, with no VM that did not run before.
  pub record Keeps (w w' : World p) : Type 0 where
    pub covered : AllCovered w → AllCovered w'
    pub fewer : Fewer w w'

  pub Keeps-refl : (w : World p) → Keeps w w
  Keeps-refl w = record { covered = λ h. h; fewer = record { runs = λ id u e. e } }

  pub Keeps-trans : {u v w : World p} → Keeps u v → Keeps v w → Keeps u w
  Keeps-trans a b = record {
    covered = λ h. b.covered (a.covered h);
    fewer = record { runs = λ id u e. a.fewer.runs id u (b.fewer.runs id u e) };
  }

  module _ {A B : Type 0} where
    -- The rest of the method is run only on the value that the first action returned.
    pub Keeps-bind :
        (m : Do p A) (f : A → Do p B) (w : World p)
        → Keeps w (m w).1
        → ((a : A) → (m w).0 ≡ ok a → Keeps (m w).1 (f a (m w).1).1)
        → Keeps w ((m >>= f) w).1
    unfolding ◌>>=◌
    Keeps-bind m f w first rest = go (m w).0 refl
      where
        go : (r : Result A) → (m w).0 ≡ r → Keeps w (continue r f (m w).1).1
        go (ok a) e = Keeps-trans first (rest a e)
        go (err e') e = first

  pub Keeps-raise : (A : Type 0) (e : Error) (w : World p) → Keeps w (raise {A = A} e w).1
  unfolding raise
  Keeps-raise A e w = Keeps-refl w

  module _ {A : Type 0} where
    pub Keeps-pure : (a : A) (w : World p) → Keeps w (pure a w).1
    unfolding pure
    Keeps-pure a w = Keeps-refl w

    pub Keeps-attempt : (m : Do p A) (w : World p) → Keeps w (m w).1 → Keeps w (attempt m w).1
    unfolding attempt
    Keeps-attempt m w k = k

    pub Keeps-if :
        (b : Bool) (m n : Do p A) (w : World p)
        → (b ≡ true → Keeps w (m w).1)
        → (b ≡ false → Keeps w (n w).1)
        → Keeps w ((if b then m else n) w).1
    Keeps-if true m n w km kn = km refl
    Keeps-if false m n w km kn = kn refl

    -- A request to Redis, given that the database stays covered.
    pub Keeps-store :
        (m : Link server → Result A × Link server) (w : World p)
        → (AllCovered w → IsCovered server (owner_of w) (m w.link).1.db)
        → Keeps w (on_store p m w).1
    unfolding on_store
    Keeps-store m w k = record { covered = k; fewer = record { runs = λ id u e. e } }

    -- A call of the VM manager that starts nothing.
    pub Keeps-on_vms :
        (m : manager.Vms → Result A × manager.Vms) (w : World p)
        → ((id u : String) → manager.running (m w.vms).1 id ≡ some u → owner_of w id ≡ some u)
        → Keeps w (on_vms p m w).1
    unfolding on_vms
    Keeps-on_vms m w starts = record {
      covered = fewer-IsCovered server starts;
      fewer = record { runs = starts };
    }

    pub Keeps-ask_vms :
        (m : manager.Vms → A × manager.Vms) (w : World p)
        → ((id u : String) → manager.running (m w.vms).1 id ≡ some u → owner_of w id ≡ some u)
        → Keeps w (ask_vms p m w).1
    unfolding ask_vms
    Keeps-ask_vms m w starts = record {
      covered = fewer-IsCovered server starts;
      fewer = record { runs = starts };
    }

  -- No VM runs under the id, or only one of the sandbox's user: both last.
  abbrev pub NoVm : String → World p → Type 0
  NoVm id w = Gone server (owner_of w) id

  abbrev pub OwnedBy : Sandbox → World p → Type 0
  OwnedBy sb w = Owns server (owner_of w) sb

  pub NoVm-Fewer : {w w' : World p} (id : String) → Fewer w w' → NoVm id w → NoVm id w'
  NoVm-Fewer id f gone u e = gone u (f.runs id u e)

  pub OwnedBy-Fewer : {w w' : World p} (sb : Sandbox) → Fewer w w' → OwnedBy sb w → OwnedBy sb w'
  OwnedBy-Fewer sb f own u e = own u (f.runs sb.id u e)
