-- ===== src/Common/Result.antt =====
-- Outcomes of the library's C functions, with the ways in which a call can fail to return.
use Prim.Native.Nat.{ℕ, ◌^◌, ◌<◌}
use pointcloud.Common.Tests.{ltb, lt→ltb}
use mathlib.Core.Bool.{Bool, true, false}
use mathlib.Core.Option.{Option, none, some}
use mathlib.Core.Path.{◌≡◌, refl, ap}
use mathlib.Core.Logic.{◌⊎◌, inl, inr}

-- `pcerror` does not return (the host's handler longjmps or exits); `out_of_bounds` is an access
-- outside an allocation and `undefined` anything else that C leaves undefined: an `int` that
-- overflows, a shift by a negative count, a null pointer that is followed; `assertion` is a failed
-- `assert`; `out_of_fuel` is no outcome of the code: a fuelled loop was not given enough rounds.
pub data Fault : Type 0 where
  pcerror out_of_bounds undefined assertion out_of_fuel : Fault

pub data Result {ℓ} (A : Type ℓ) : Type ℓ where
  ok : A → Result A
  fail : Fault → Result A

infixl 5 ◌>>=◌ ◌>>◌
abbrev pub ◌>>=◌ {ℓ κ} : {A : Type ℓ} {B : Type κ} → Result A → (A → Result B) → Result B
ok a >>= f = f a
fail e >>= f = fail e

abbrev pub ◌>>◌ {ℓ} : {B : Type ℓ} → Result (Unit {0}) → Result B → Result B
m >> k = m >>= λ _. k

abbrev pub guard : Bool → Fault → Result (Unit {0})
guard true e = ok tt
guard false e = fail e

-- An `int` variable that reaches the value `n`; past the greatest `int` it overflows.
unfoldable pub counts_to : ℕ → Result (Unit {0})
counts_to n = guard (ltb n (2 ^ 31)) undefined

pub counts_to_ok : (n : ℕ) → n < 2 ^ 31 → counts_to n ≡ ok tt
unfolding counts_to
counts_to_ok n h = rw (lt→ltb n 2147483648 h)

-- A memory access: `none` is outside the allocation.
abbrev pub access {ℓ} : {A : Type ℓ} → Option A → Result A
access none = fail out_of_bounds
access (some a) = ok a

pub Result-cases {ℓ} :
    {A : Type ℓ} (r : Result A) → ((a : A) × (r ≡ ok a)) ⊎ ((e : Fault) × (r ≡ fail e))
Result-cases (ok a) = inl (a, refl)
Result-cases (fail e) = inr (e, refl)

-- When a sequence returns, so did its first call, and the rest returned on that value.
pub bind_returned {ℓ κ} :
    {A : Type ℓ} {B : Type κ} {b : B} (call : Result A) (rest : A → Result B)
    → (call >>= rest) ≡ ok b
    → (value : A) × (call ≡ ok value) × (rest value ≡ ok b)
bind_returned (fail fault) rest returned = cc
bind_returned (ok value) rest returned = (value, refl, returned)

value_or {ℓ} : {A : Type ℓ} → A → Result A → A
value_or a (ok b) = b
value_or a (fail e) = a

pub ok_injective {ℓ} : {A : Type ℓ} {a b : A} → ok a ≡ ok b → a ≡ b
unfolding value_or
ok_injective {A} {a} h = ap (value_or a) h

pub some_injective {ℓ} : {A : Type ℓ} {a b : A} → some a ≡ some b → a ≡ b
some_injective {a = a} e = ap (λ o. elim o [ some x ↦ x | none ↦ a ]) e
