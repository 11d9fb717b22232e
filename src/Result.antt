-- ===== src/Result.antt =====
-- Python exceptions as values: what the modelled code raises, and code that may raise.
use autonomous_rc_taxi.Prelude.{Bool, true, false, ◌≡◌, refl, ap, Option, none, some, arith}

pub data Error : Type 0 where
  value_error key_error index_error zero_division overflow_error assertion_error type_error : Error
  route_error lane_route_error map_error config_error attribute_error : Error
  -- the model's own: a loop was given too few rounds
  out_of_fuel : Error

-- a call's value, or what it raised
pub data Result {ℓ} (A : Type ℓ) : Type ℓ where
  err : Error → Result A
  ok : A → Result A

-- `if not test: raise error`
abbrev pub guard : (test : Bool) → (raised : Error) → Result (Unit {0})
guard false raised = err raised
guard true raised = ok tt

-- a lookup whose miss raises
abbrev pub from_option {ℓ} : {V : Type ℓ} → Option V → Error → Result V
from_option (some v) raised = ok v
from_option none raised = err raised

-- the next statement of a body, with or without the value of the one before
infixl 5 ◌>>=◌
abbrev pub ◌>>=◌ {ℓ κ} : {V : Type ℓ} {W : Type κ} → Result V → (V → Result W) → Result W
err raised >>= next = err raised
ok v >>= next = next v

infixl 5 ◌>>◌
abbrev pub ◌>>◌ {κ} : {W : Type κ} → Result (Unit {0}) → Result W → Result W
first >> rest = first >>= λ done. rest

-- A bind that returns went through both parts.
pub >>=-eq-ok {ℓ κ} :
    {V : Type ℓ} {W : Type κ} (call : Result V) (next : V → Result W) {w : W}
    → (call >>= next) ≡ ok w
    → (v : V) × (call ≡ ok v) × (next v ≡ ok w)
>>=-eq-ok (err raised) next returned = absurd (ground arith)
>>=-eq-ok (ok v) next returned = (v, refl, returned)

pub ok-injective {ℓ} : {A : Type ℓ} {a b : A} → ok a ≡ ok b → a ≡ b
ok-injective {a = a} e = ap (λ r. elim r [ ok x ↦ x | err _ ↦ a ]) e

-- A lookup that returns found its value.
pub from_option-eq-ok {ℓ} :
    {A : Type ℓ} (o : Option A) (e : Error) {a : A} → from_option o e ≡ ok a → o ≡ some a
from_option-eq-ok none e h = absurd (ground arith)
from_option-eq-ok (some b) e h = ap some (ok-injective h)

-- what a call that returns satisfies
pub Lands {ℓ κ} : {A : Type ℓ} → (A → Type κ) → Result A → Type κ
Lands P (err raised) = Unit
Lands P (ok a) = P a

pub Lands-ok {ℓ κ} : {A : Type ℓ} (P : A → Type κ) (a : A) → P a → Lands P (ok a)
unfolding Lands
Lands-ok P a h = h

pub Lands-err {ℓ κ} : {A : Type ℓ} (P : A → Type κ) (e : Error) → Lands P (err e)
unfolding Lands
Lands-err P e = tt

pub Lands-bind {ℓ κ ι μ} :
    {A : Type ℓ} {B : Type κ} (Q : A → Type μ) (P : B → Type ι) (m : Result A) (next : A → Result B)
    → Lands Q m
    → ((a : A) → Q a → Lands P (next a))
    → Lands P (m >>= next)
unfolding Lands
Lands-bind Q P (err raised) next h step = tt
Lands-bind Q P (ok a) next h step = step a h

pub Lands-any {ℓ} : {A : Type ℓ} (m : Result A) → Lands (λ a. Unit {0}) m
unfolding Lands
Lands-any (err raised) = tt
Lands-any (ok a) = tt

pub Lands-eq {ℓ κ} :
    {A : Type ℓ} (P : A → Type κ) (m : Result A) {a : A} → Lands P m → m ≡ ok a → P a
unfolding Lands
Lands-eq P m h e = rw e at h
