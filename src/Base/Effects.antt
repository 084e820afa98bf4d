-- ===== src/Base/Effects.antt =====
-- Panics as values. A panic unwinds and ends the program, so no state is kept with it. The debug
-- profile is modelled: `debug_assert!` is checked and an arithmetic overflow panics.
use Prim.Native.Nat.{ℕ, ◌+◌, ◌-◌, ◌^◌}
use mathlib.Core.Path.{◌≡◌, refl}
use mathlib.Core.Logic.{◌⊎◌, inl, inr}
use mathlib.Core.Bool.{Bool, true, false}
use mathlib.Core.Option.{Option, none, some}
use uring_ws.Base.Tests.{ltb, ◌==◌, if◌then◌else◌}

-- `undefined` is no panic but undefined behaviour: a null or dangling pointer is read.
pub data Panic : Type 0 where
  overflow out_of_bounds unwrap_failed assertion_failed unreachable unimplemented : Panic
  unknown_event todo undefined : Panic
  out_of_memory explicit : Panic
  os_error : ℕ → Panic

pub data Result {ℓ} (A : Type ℓ) : Type ℓ where
  ok : A → Result A
  panic : Panic → Result A

module _ {ℓ κ} {A : Type ℓ} {B : Type κ} where
  infixl 5 ◌>>=◌
  abbrev pub ◌>>=◌ : Result A → (next : A → Result B) → Result B
  panic p >>= next = panic p
  ok x >>= next = next x

  -- Inversion of a step that succeeded.
  pub >>=-eq-ok :
      (step : Result A) (next : A → Result B) {y : B}
      → (step >>= next) ≡ ok y
      → (x : A) × (step ≡ ok x) × (next x ≡ ok y)
  >>=-eq-ok (panic p) next e = absurd (cc)
  >>=-eq-ok (ok x) next e = (x, refl, e)

  -- The same with what follows from it as a continuation, which sees the value of the step alone.
  pub >>=-cases_ok {ι} :
      {C : Type ι} (step : Result A) (next : A → Result B) {y : B}
      → (step >>= next) ≡ ok y
      → ((x : A) → step ≡ ok x → next x ≡ ok y → C)
      → C
  >>=-cases_ok (panic p) next e k = absurd (cc)
  >>=-cases_ok (ok x) next e k = k x refl e

infixl 5 ◌>>◌
abbrev pub ◌>>◌ {ℓ} : {B : Type ℓ} → Result (Unit {0}) → Result B → Result B
step >> next = step >>= λ _. next

-- `assert!` and its variants.
abbrev pub check : Bool → Result (Unit {0})
check true = ok tt
check false = panic assertion_failed

-- What panics, or is undefined, where a value is missing.
abbrev pub or_panic {ℓ} : {A : Type ℓ} → Panic → Option A → Result A
or_panic p none = panic p
or_panic p (some a) = ok a

pub or_panic-eq_ok {ℓ} :
    {A : Type ℓ} (p : Panic) (m : Option A) {a : A} → or_panic p m ≡ ok a → m ≡ some a
or_panic-eq_ok p none e = absurd (cc)
or_panic-eq_ok p (some x) e = cc

-- `a + b` and `a - b` on a machine integer of `w` bits.
abbrev pub add_checked : ℕ → ℕ → ℕ → Result ℕ
add_checked w a b = if ltb (a + b) (2 ^ w) then ok (a + b) else panic overflow

abbrev pub sub_checked : ℕ → ℕ → Result ℕ
sub_checked a b = if ltb a b then panic overflow else ok (a - b)

-- `|a|` of an i32 by its bit pattern.
abbrev pub abs_i32 : ℕ → Result ℕ
abs_i32 a = if a == 2 ^ 31 then panic overflow else ok (if ltb a (2 ^ 31) then a else 2 ^ 32 - a)

-- `std::io::Result`: an error here is a value, not a panic.
pub data IoError : Type 0 where
  would_block : IoError
  no_memory : IoError
  raw_os : ℕ → IoError

pub data Io {ℓ} (A : Type ℓ) : Type ℓ where
  done : A → Io A
  fail : IoError → Io A

abbrev pub unwrap {ℓ} : {A : Type ℓ} → Io A → Result A
unwrap (done a) = ok a
unwrap (fail e) = panic unwrap_failed

pub Result-cases {ℓ} :
    {A : Type ℓ} (r : Result A) → ((a : A) × (r ≡ ok a)) ⊎ ((p : Panic) × (r ≡ panic p))
Result-cases (ok a) = inl (a, refl)
Result-cases (panic p) = inr (p, refl)

pub ok-injective {ℓ} : {A : Type ℓ} (a b : A) → ok a ≡ ok b → a ≡ b
ok-injective a b e = cc

-- Inversion of a case split on an option or a Boolean as a step that succeeded.
pub on_option {ℓ} :
    {E X : Type 0} {P : Type ℓ} (o : Option E) (a : Result X) (f : E → Result X) {y : X}
    → elim o [ none ↦ a | some x ↦ f x ] ≡ ok y
    → (a ≡ ok y → P)
    → ((x : E) → f x ≡ ok y → P)
    → P
on_option none a f e k l = k e
on_option (some x) a f e k l = l x e

pub on_bool {ℓ} :
    {X : Type 0} {P : Type ℓ} (b : Bool) (x y : Result X) {z : X}
    → elim b [ true ↦ x | false ↦ y ] ≡ ok z
    → (x ≡ ok z → P)
    → (y ≡ ok z → P)
    → P
on_bool true x y e k l = k e
on_bool false x y e k l = l e
