-- ===== src/Prelude/Result.antt =====
-- What a Python function that may raise gives: its value, a ValueError with its text, or any other
-- exception, which the callers of this program do not take for a ValueError.
use mathlib.Core.Path.{◌≡◌, refl}
use mathlib.Core.Bool.{Bool, true, false}
use py_uart_proxy.Prelude.Tests.{if◌then◌else◌}
use Prim.Native.String.{String}

pub data Result {ℓ} (A : Type ℓ) : Type ℓ where
  ok : A → Result A
  value_error : String → Result A
  raised : Result A

infixl 5 ◌>>=◌ ◌>>◌
abbrev pub ◌>>=◌ {ℓ κ} : {A : Type ℓ} {B : Type κ} → Result A → (A → Result B) → Result B
ok a >>= f = f a
value_error e >>= f = value_error e
raised >>= f = raised

abbrev pub ◌>>◌ {ℓ} : {B : Type ℓ} → Result (Unit {0}) → Result B → Result B
m >> k = m >>= λ _. k

-- `if not test: raise ValueError(text)`
abbrev pub demand : Bool → String → Result (Unit {0})
demand true text = ok tt
demand false text = value_error text

-- What holds of the value, where there is one.
abbrev pub Gives {ℓ κ} : {A : Type ℓ} → (A → Type κ) → Result A → Type κ
Gives P (ok a) = P a
Gives P (value_error e) = Unit
Gives P raised = Unit

-- A rule for each step of a `do` block.
pub Gives-bind {ℓ κ ι μ} :
    {A : Type ℓ} {B : Type κ} (Q : A → Type ι) (P : B → Type μ) (m : Result A) (f : A → Result B)
    → Gives Q m
    → ((a : A) → Q a → Gives P (f a))
    → Gives P (m >>= f)
Gives-bind Q P (ok a) f q k = k a q
Gives-bind Q P (value_error e) f q k = tt
Gives-bind Q P raised f q k = tt

pub Gives-demand {ℓ μ} :
    {B : Type ℓ} (P : B → Type μ) (test : Bool) (text : String) (k : Result B)
    → (test ≡ true → Gives P k)
    → Gives P (demand test text >> k)
Gives-demand P true text k h = h refl
Gives-demand P false text k h = tt

-- A demand that stands last.
pub Gives-demand_last {μ} :
    (P : Unit {0} → Type μ) (test : Bool) (text : String)
    → (test ≡ true → P tt)
    → Gives P (demand test text)
Gives-demand_last P true text h = h refl
Gives-demand_last P false text h = tt

-- A branch of the source's conditionals.
pub either_way {ℓ κ} :
    {A : Type ℓ} (P : A → Type κ) (b : Bool) (x y : Result A)
    → Gives P x
    → Gives P y
    → Gives P (if b then x else y)
either_way P true x y h k = h
either_way P false x y h k = k

pub anything {ℓ} : {A : Type ℓ} (x : Result A) → Gives (λ a. Unit {0}) x
anything (ok a) = tt
anything (value_error e) = tt
anything raised = tt

pub Gives-weaken {ℓ κ μ} :
    {A : Type ℓ} (P : A → Type κ) (Q : A → Type μ) (x : Result A)
    → Gives P x
    → ((a : A) → P a → Q a)
    → Gives Q x
Gives-weaken P Q (ok a) h f = f a h
Gives-weaken P Q (value_error e) h f = tt
Gives-weaken P Q raised h f = tt
