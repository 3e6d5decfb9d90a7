-- ===== src/Prelude/Lists.antt =====
-- Lists measured by native numbers, Boolean membership of texts, and predicates on all members.
use Prim.Native.Nat.{ℕ, suc, ◌+◌}
use Prim.Native.String.{String}
use mathlib.Core.Path.{◌≡◌, sym, subst}
use mathlib.Core.Bool.{Bool, true, false, ◌||◌, false≢true}
use mathlib.Core.List.{List, [], ◌∷◌, ◌++◌}
use mathlib.Core.Logic.{inl, inr}
use native.Mathlib.Omega.{arith}
use sandbox_manager.Prelude.Tests.{str_eq, eq_iff, Bool-cases}

module _ {ℓ} {A : Type ℓ} where
  abbrev pub length : List A → ℕ
  length [] = 0
  length (x ∷ xs) = suc (length xs)

  pub length-append : (xs ys : List A) → length (xs ++ ys) ≡ length xs + length ys
  length-append [] ys = omega arith
  length-append (x ∷ xs) ys = omega (arith, length-append xs ys)

  -- A predicate of every member, by recursion.
  abbrev pub All {κ} : (A → Type κ) → List A → Type κ
  All P [] = Unit
  All P (x ∷ xs) = P x × All P xs

-- Is the text among the members?
abbrev pub contains : String → List String → Bool
contains x [] = false
contains x (y ∷ ys) = str_eq x y || contains x ys

pub All-contains {κ} :
    (P : String → Type κ) (x : String) (xs : List String) → All P xs → contains x xs ≡ true → P x
All-contains P x [] h e = absurd (false≢true e)
All-contains P x (y ∷ ys) h e = elim (Bool-cases (str_eq x y)) [
  | inl same ↦ subst P (sym ((eq_iff x y).0 same)) h.0
  | inr other ↦ All-contains P x ys h.1 (rw other at e)
]
