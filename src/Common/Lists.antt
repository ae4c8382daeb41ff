-- ===== src/Common/Lists.antt =====
-- Lists measured and indexed by native numbers, under the library's names.
use Prim.Native.Nat.{ℕ, zero, suc, ◌+◌}
use Prim.Native.Char.{code}
use Prim.Native.String.{String}
use mathlib.Core.Path.{◌≡◌, refl}
use mathlib.Core.Logic.{◌⊎◌, inl, inr, ◌↔◌}
use mathlib.Core.List.{List, [], ◌∷◌, ◌++◌}
use mathlib.Core.Option.{Option, none, some}
use mathlib.Core.Bool.{Bool, true, false}
use native.Mathlib.Omega.{arith}
use git_cdc.Common.Tests.{if◌then◌else◌, Bool-cases}

-- The code points of a text: its bytes, if it is ASCII.
abbrev pub codes : String → List ℕ
codes String.[] = []
codes (String.◌∷◌ c s) = code c ∷ codes s

module _ {ℓ} {A : Type ℓ} where
  abbrev pub length : List A → ℕ
  length [] = 0
  length (x ∷ xs) = suc (length xs)

  abbrev pub get_elem? : List A → ℕ → Option A
  get_elem? [] i = none
  get_elem? (x ∷ xs) zero = some x
  get_elem? (x ∷ xs) (suc i) = get_elem? xs i

  abbrev pub take : ℕ → List A → List A
  take zero xs = []
  take (suc n) [] = []
  take (suc n) (x ∷ xs) = x ∷ take n xs

  pub length-append : (xs ys : List A) → length (xs ++ ys) ≡ length xs + length ys
  length-append [] ys = omega arith
  length-append (x ∷ xs) ys = omega (arith, length-append xs ys)

  -- A predicate at every element, by recursion.
  abbrev pub All {κ} : (A → Type κ) → List A → Type κ
  All P [] = Unit
  All P (x ∷ xs) = P x × All P xs

  -- The elements that pass a test, in order.
  abbrev pub keep : (A → Bool) → List A → List A
  keep p [] = []
  keep p (x ∷ xs) = if p x then x ∷ keep p xs else keep p xs

  -- Does some element pass the test?
  abbrev pub any : (A → Bool) → List A → Bool
  any p [] = false
  any p (x ∷ xs) = if p x then true else any p xs

-- Some element has the property.
abbrev pub Any : {A : Type 0} → (A → Type 0) → List A → Type 0
Any P [] = ⊥
Any P (x ∷ xs) = P x ⊎ Any P xs

-- The second list is the first without the elements that have the property: the others are all
-- there, in the same order.
abbrev pub Without : {A : Type 0} → (A → Type 0) → List A → List A → Type 0
Without P [] ys = ys ≡ []
Without {A} P (x ∷ xs) ys =
    (P x × Without P xs ys) ⊎ (¬ P x) × ((zs : List A) × (ys ≡ x ∷ zs) × Without P xs zs)

-- A removal that tests its elements one by one.
pub keep-Without :
    {A : Type 0} (P : A → Type 0) (test : A → Bool) (xs : List A)
    → ((x : A) → (test x ≡ false) ↔ P x)
    → Without P xs (keep test xs)
keep-Without P test [] h = refl
keep-Without P test (x ∷ xs) h = elim (Bool-cases (test x)) [
  | inl stays ↦
      rw stays (inr (λ p. cc (stays, (h x).1 p), (keep test xs, refl, keep-Without P test xs h)))
  | inr goes ↦ rw goes (inl ((h x).0 goes, keep-Without P test xs h))
]
