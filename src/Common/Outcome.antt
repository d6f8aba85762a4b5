-- ===== src/Common/Outcome.antt =====
-- The outcome of running a piece of C: a value, a trap (a division that traps, a read of an
-- indeterminate value, an access outside an object), or the end of the rounds given to a loop.
use mathlib.Core.Path.{◌≡◌, refl, ap}
use mathlib.Core.Option.{Option, none, some}
use mathlib.Core.Logic.{◌≢◌, ◌⊎◌, inl, inr}
use mathlib.Core.Bool.{Bool, true, false}
use good_command.Common.Tests.{if◌then◌else◌}

pub data Exec {ℓ} (A : Type ℓ) : Type ℓ where
  value : A → Exec A
  trap : Exec A
  no_fuel : Exec A

infixl 5 ◌>>=◌
abbrev pub ◌>>=◌ {ℓ κ} : {A : Type ℓ} {B : Type κ} → Exec A → (A → Exec B) → Exec B
value a >>= f = f a
trap >>= f = trap
no_fuel >>= f = no_fuel

module _ {ℓ κ} {A : Type ℓ} {B : Type κ} where
  pub >>=_assoc {μ} :
      {C : Type μ} (m : Exec A) (f : A → Exec B) (g : B → Exec C)
      → (m >>= f >>= g) ≡ (m >>= λ a. f a >>= g)
  >>=_assoc (value a) f g = refl
  >>=_assoc trap f g = refl
  >>=_assoc no_fuel f g = refl

  pub >>=_congr : (m : Exec A) {f g : A → Exec B} → ((a : A) → f a ≡ g a) → (m >>= f) ≡ (m >>= g)
  >>=_congr (value a) p = p a
  >>=_congr trap p = refl
  >>=_congr no_fuel p = refl

-- What to do without and with a result.
abbrev pub match_option {ℓ κ} : {A : Type ℓ} {B : Type κ} → Option A → B → (A → B) → B
match_option none b f = b
match_option (some a) b f = f a

-- Two runs end the same way, with values that `R` relates.
pub data Agree {ℓ κ} {A : Type ℓ} {B : Type κ} (R : A → B → Type 0)
    : Exec A → Exec B → Type (ℓ ⊔ κ) where
  values : {a : A} {b : B} → R a b → Agree R (value a) (value b)
  traps : Agree R trap trap
  no_fuels : Agree R no_fuel no_fuel

module _ {ℓ κ} {A : Type ℓ} {B : Type κ} {R : A → B → Type 0} where
  pub Agree-bind {μ ν} :
      {C : Type μ} {D : Type ν} {Q : C → D → Type 0} {m : Exec A} {n : Exec B} {f : A → Exec C}
      {g : B → Exec D}
      → Agree R m n
      → ((a : A) (b : B) → R a b → Agree Q (f a) (g b))
      → Agree Q (m >>= f) (n >>= g)
  Agree-bind (values r) next = next _ _ r
  Agree-bind traps next = traps
  Agree-bind no_fuels next = no_fuels

pub Agree-eq {ℓ} :
    {A : Type ℓ} {m n : Exec A} {R : A → A → Type 0}
    → Agree R m n
    → ((a b : A) → R a b → a ≡ b)
    → m ≡ n
Agree-eq (values r) same = ap value (same _ _ r)
Agree-eq traps same = refl
Agree-eq no_fuels same = refl

-- The same first step on both sides.
pub Agree-same {ℓ κ μ} :
    {A : Type ℓ} {C : Type κ} {D : Type μ} {Q : C → D → Type 0} (m : Exec A) {f : A → Exec C}
    {g : A → Exec D}
    → ((a : A) → Agree Q (f a) (g a))
    → Agree Q (m >>= f) (m >>= g)
Agree-same (value a) next = next a
Agree-same trap next = traps
Agree-same no_fuel next = no_fuels

-- The same test on both sides.
pub Agree-if {ℓ κ} :
    {A : Type ℓ} {B : Type κ} {R : A → B → Type 0} (b : Bool) {m m' : Exec A} {n n' : Exec B}
    → Agree R m n
    → Agree R m' n'
    → Agree R (if b then m else m') (if b then n else n')
Agree-if true h h' = h
Agree-if false h h' = h'

pub Agree-option {ℓ κ μ} :
    {X : Type ℓ} {A : Type κ} {B : Type μ} {R : A → B → Type 0} (o : Option X) {m : Exec A}
    {n : Exec B} {f : X → Exec A} {g : X → Exec B}
    → Agree R m n
    → ((x : X) → o ≡ some x → Agree R (f x) (g x))
    → Agree R (match_option o m f) (match_option o n g)
Agree-option none h k = h
Agree-option (some x) h k = k x refl

pub bind-value {ℓ} : {A : Type ℓ} (m : Exec A) → (m >>= value) ≡ m
bind-value (value a) = refl
bind-value trap = refl
bind-value no_fuel = refl

-- The run ends with a value, and `P` holds of it.
abbrev pub Yields {ℓ} : {A : Type ℓ} → (A → Type 0) → Exec A → Type 0
Yields P (value a) = P a
Yields P trap = ⊥
Yields P no_fuel = ⊥

pub Yields-bind {ℓ κ} :
    {A : Type ℓ} {B : Type κ} (P : A → Type 0) (Q : B → Type 0) (m : Exec A) (f : A → Exec B)
    → Yields P m
    → ((a : A) → P a → Yields Q (f a))
    → Yields Q (m >>= f)
Yields-bind P Q (value a) f p next = next a p
Yields-bind P Q trap f p next = p
Yields-bind P Q no_fuel f p next = p

pub Yields-mono {ℓ} :
    {A : Type ℓ} (P Q : A → Type 0) (m : Exec A) → Yields P m → ((a : A) → P a → Q a) → Yields Q m
Yields-mono P Q (value a) p weaken = weaken a p
Yields-mono P Q trap p weaken = p
Yields-mono P Q no_fuel p weaken = p

pub value-inj {ℓ} : {A : Type ℓ} {a b : A} → value a ≡ value b → a ≡ b
value-inj h = cc

pub trap-ne-value {ℓ} : {A : Type ℓ} {a : A} → trap ≢ value a
trap-ne-value h = cc

pub if-value {ℓ} :
    {A : Type ℓ} (b : Bool) {m m' : Exec A} {v : A}
    → (if b then m else m') ≡ value v
    → (m ≡ value v) ⊎ ((b ≡ false) × (m' ≡ value v))
if-value true h = inl h
if-value false h = inr (refl, h)

-- The same first step on both sides, with the value it ends with.
pub Agree-value {ℓ κ μ} :
    {A : Type ℓ} {C : Type κ} {D : Type μ} {Q : C → D → Type 0} (m : Exec A) {f : A → Exec C}
    {g : A → Exec D}
    → ((a : A) → m ≡ value a → Agree Q (f a) (g a))
    → Agree Q (m >>= f) (m >>= g)
Agree-value (value a) next = next a refl
Agree-value trap next = traps
Agree-value no_fuel next = no_fuels

pub Agree-mono {ℓ κ} :
    {A : Type ℓ} {B : Type κ} {R Q : A → B → Type 0} {m : Exec A} {n : Exec B}
    → Agree R m n
    → ((a : A) (b : B) → R a b → Q a b)
    → Agree Q m n
Agree-mono (values r) weaken = values (weaken _ _ r)
Agree-mono traps weaken = traps
Agree-mono no_fuels weaken = no_fuels

pub Agree-Yields {ℓ κ} :
    {A : Type ℓ} {B : Type κ} {R : A → B → Type 0} (P : A → Type 0) {m : Exec A} {b : B}
    → Agree R m (value b)
    → ((a : A) → R a b → P a)
    → Yields P m
Agree-Yields P (values r) show = show _ r

-- A first step on the left that ends with a value.
pub Yields-Agree {ℓ κ μ} :
    {A : Type ℓ} {C : Type κ} {D : Type μ} {Q : C → D → Type 0} (P : A → Type 0) (m : Exec A)
    {f : A → Exec C} {n : Exec D}
    → Yields P m
    → ((a : A) → P a → Agree Q (f a) n)
    → Agree Q (m >>= f) n
Yields-Agree P (value a) p next = next a p
Yields-Agree P trap p next = absurd p
Yields-Agree P no_fuel p next = absurd p

pub bind-value_inv {ℓ κ} :
    {A : Type ℓ} {B : Type κ} (m : Exec A) (f : A → Exec B) {b : B}
    → (m >>= f) ≡ value b
    → (a : A) × (m ≡ value a) × (f a ≡ value b)
bind-value_inv (value a) f h = (a, refl, h)
bind-value_inv trap f h = cc
bind-value_inv no_fuel f h = cc

-- To split on a computed option and keep the equation.
pub option-cases {ℓ} : {A : Type ℓ} (o : Option A) → (o ≡ none) ⊎ ((a : A) × (o ≡ some a))
option-cases none = inl refl
option-cases (some a) = inr (a, refl)
