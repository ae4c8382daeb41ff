-- ===== src/Common/Results.antt =====
-- Rust's `Result`, with its `?` as the bind of a do block.
use mathlib.Core.Path.{◌≡◌, refl}
use mathlib.Core.Logic.{◌⊎◌, inl, inr}
use mathlib.Core.Bool.{Bool, true, false}
use mathlib.Core.Option.{Option, none, some}

pub data Result (A E : Type 0) : Type 0 where
  err : E → Result A E
  ok : A → Result A E

-- `?`
infixl 5 ◌>>=◌ ◌>>◌
abbrev pub ◌>>=◌ : {A B E : Type 0} → Result A E → (A → Result B E) → Result B E
err failure >>= next = err failure
ok value >>= next = next value

abbrev pub ◌>>◌ : {B E : Type 0} → Result (Unit {0}) E → Result B E → Result B E
err failure >> next = err failure
ok _ >> next = next

-- `if test { return Err(e) }`
abbrev pub refuse_if : {E : Type 0} → Bool → E → Result (Unit {0}) E
refuse_if false failure = ok tt
refuse_if true failure = err failure

-- `ok_or`
abbrev pub ok_or : {A E : Type 0} → Option A → E → Result A E
ok_or none e = err e
ok_or (some a) e = ok a

-- `map_err`
abbrev pub map_err : {A E F : Type 0} → (E → F) → Result A E → Result A F
map_err f (ok a) = ok a
map_err f (err e) = err (f e)

pub Result-cases :
    {A E : Type 0} (r : Result A E) → ((a : A) × (r ≡ ok a)) ⊎ ((e : E) × (r ≡ err e))
Result-cases (ok a) = inl (a, refl)
Result-cases (err e) = inr (e, refl)

-- What a chain that gives a result has passed.
pub passed :
    {A B E : Type 0} (r : Result A E) (f : A → Result B E) (b : B)
    → (r >>= f) ≡ ok b
    → (a : A) × (r ≡ ok a) × (f a ≡ ok b)
passed (ok a) f b h = (a, refl, h)
passed (err e) f b h = absurd (cc)

pub passed_unit :
    {B E : Type 0} (r : Result (Unit {0}) E) (k : Result B E) (b : B)
    → (r >> k) ≡ ok b
    → (r ≡ ok tt) × (k ≡ ok b)
passed_unit (ok a) k b h = (refl, h)
passed_unit (err e) k b h = absurd (cc)

pub refuse_if-ok : {E : Type 0} (test : Bool) (e : E) → refuse_if test e ≡ ok tt → test ≡ false
refuse_if-ok false e h = refl
refuse_if-ok true e h = absurd (cc)

pub map_err-ok :
    {A E F : Type 0} (f : E → F) (r : Result A E) (a : A) → map_err f r ≡ ok a → r ≡ ok a
map_err-ok f (ok x) a h = cc
map_err-ok f (err e) a h = absurd (cc)
