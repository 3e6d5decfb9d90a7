-- ===== src/Prelude/Action.antt =====
-- Go functions that return `(value, error)` and change state: actions on a state, with the
-- sentinel errors of internal/service/service.go and the wrapping of `fmt.Errorf("...: %w")`.
-- The numbers that some messages quote are left out.
use Prim.Native.String.{String, ◌++◌ as append}
use mathlib.Core.Path.{◌≡◌, refl}
use mathlib.Core.Logic.{◌⊎◌, inl, inr}
use native.Mathlib.Omega.{arith}

-- Which sentinel `errors.Is` finds in an error; `other` for none of them.
pub data ErrorKind : Type 0 where
  quota anonymous not_found forbidden disk_full capacity ssh other : ErrorKind

pub record Error : Type 0 where
  pub kind : ErrorKind
  pub message : String

abbrev pub failure : String → Error
failure text = record { kind = other; message = text }

-- fmt.Errorf("prefix: %w", err): the sentinel stays visible to errors.Is.
abbrev pub wrap : String → Error → Error
wrap prefix e = record e { message = append prefix (append ": " e.message) }

-- fmt.Errorf("%w: %v", sentinel, err): only the sentinel stays visible.
abbrev pub because : Error → Error → Error
because sentinel e = record sentinel { message = append sentinel.message (append ": " e.message) }

pub data Result {ℓ} (A : Type ℓ) : Type ℓ where
  ok : A → Result A
  err : Error → Result A

pub Result-cases {ℓ} :
    {A : Type ℓ} (r : Result A) → ((a : A) × (r ≡ ok a)) ⊎ ((e : Error) × (r ≡ err e))
Result-cases (ok a) = inl (a, refl)
Result-cases (err e) = inr (e, refl)

abbrev pub Exec {ℓ} : Type ℓ → Type ℓ → Type ℓ
Exec S A = S → Result A × S

module _ {ℓ} {S A : Type ℓ} where
  unfoldable pub pure : A → Exec S A
  pure a s = (ok a, s)

  unfoldable pub raise : Error → Exec S A
  raise e s = (err e, s)

  -- An error that the caller handles instead of passing it on.
  unfoldable pub attempt : Exec S A → Exec S (Result A)
  attempt m s = let (r, s') = m s in (ok r, s')

  unfoldable pub lift : Result A → Exec S A
  lift r s = (r, s)

module _ {ℓ} {S A B : Type ℓ} where
  abbrev pub continue : Result A → (A → Exec S B) → Exec S B
  continue (ok a) f s = f a s
  continue (err e) f s = (err e, s)

  infixl 10 ◌>>=◌ ◌>>◌
  unfoldable pub ◌>>=◌ : Exec S A → (A → Exec S B) → Exec S B
  ◌>>=◌ m f s = let (r, s') = m s in continue r f s'

  abbrev pub ◌>>◌ : Exec S A → Exec S B → Exec S B
  m >> n = m >>= λ _. n

  -- What follows leaves the state alone, so the state is that of the first action.
  pub continue-quiet :
      (r : Result A) (f : A → Exec S B) (s : S) → ((a : A) → (f a s).1 ≡ s) → (continue r f s).1 ≡ s
  continue-quiet (ok a) f s h = h a
  continue-quiet (err e) f s h = refl

  pub continue-keeps {κ} :
      (P : S → Type κ) (r : Result A) (f : A → Exec S B) (s : S)
      → P s
      → ((a : A) → P (f a s).1)
      → P (continue r f s).1
  continue-keeps P (ok a) f s p h = h a
  continue-keeps P (err e) f s p h = p

  -- What an action that succeeded did first, and then.
  pub bind-eq-ok :
      (m : Exec S A) (f : A → Exec S B) (s : S) (b : B)
      → ((m >>= f) s).0 ≡ ok b
      → (a : A) × ((m s).0 ≡ ok a) × ((f a (m s).1).0 ≡ ok b) × ((m >>= f) s ≡ f a (m s).1)
  unfolding ◌>>=◌
  bind-eq-ok m f s b e = go (m s).0 refl e
    where
      go :
          (r : Result A)
          → (m s).0 ≡ r
          → (continue r f (m s).1).0 ≡ ok b
          → (a : A) × (r ≡ ok a) × ((f a (m s).1).0 ≡ ok b) × (continue r f (m s).1 ≡ f a (m s).1)
      go (ok a) same e' = (a, refl, e', refl)
      go (err x) same e' = absurd (ground arith)
