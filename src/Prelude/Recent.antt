-- ===== src/Prelude/Recent.antt =====
-- Deques of times from which the front is dropped while it is older than a window, and what they hold:
-- of all times so far, those within the window.
use Prim.Native.Nat.{ℕ, ◌+◌, ◌≤◌}
use mathlib.Core.Path.{◌≡◌, refl}
use mathlib.Core.Logic.{inl, inr}
use mathlib.Core.List.{List, [], ◌∷◌, ◌++◌}
use native.Mathlib.Omega.{arith}
use py_uart_proxy.Prelude.Tests.{ltb, leb, if◌then◌else◌, Bool-cases}
use py_uart_proxy.Prelude.Lists.{keep, All}

-- `while times and now - times[0] > window: times.popleft()`
unfoldable pub prune : ℕ → ℕ → List ℕ → List ℕ
prune window now [] = []
prune window now (t ∷ ts) = if ltb (t + window) now then prune window now ts else t ∷ ts

-- The times of a history that are at most `window` old.
abbrev pub within : ℕ → ℕ → List ℕ → List ℕ
within window now = keep (λ t. leb now (t + window))

abbrev pub Ascending : List ℕ → Type 0
Ascending [] = Unit {0}
Ascending (t ∷ ts) = All (λ u. t ≤ u) ts × Ascending ts

within-All :
    (window now t : ℕ) (ts : List ℕ)
    → now ≤ t + window
    → All (λ u. t ≤ u) ts
    → within window now ts ≡ ts
within-All window now t [] h a = refl
within-All window now t (u ∷ ts) h a = ground (arith, within-All window now t ts h a.1)

pub prune-eq-within :
    (window now : ℕ) (ts : List ℕ) → Ascending ts → prune window now ts ≡ within window now ts
unfolding prune
prune-eq-within window now [] a = refl
prune-eq-within window now (t ∷ ts) a =
    ground (arith, prune-eq-within window now ts a.1, within-All window now t ts)

-- What is older than the window stays so.
pub within-within :
    (window now later : ℕ) (ts : List ℕ)
    → now ≤ later
    → within window later (within window now ts) ≡ within window later ts
within-within window now later [] h = refl
within-within window now later (t ∷ ts) h = ground (arith, within-within window now later ts h)

pub All-within :
    (P : ℕ → Type 0) (window now : ℕ) (ts : List ℕ) → All P ts → All P (within window now ts)
All-within P window now [] a = tt
All-within P window now (u ∷ ts) a = elim (Bool-cases (leb now (u + window))) [
  | inl e ↦ rw (e, All) (a.0, All-within P window now ts a.1)
  | inr e ↦ rw (e, All) (All-within P window now ts a.1)
]

pub Ascending-within :
    (window now : ℕ) (ts : List ℕ) → Ascending ts → Ascending (within window now ts)
Ascending-within window now [] a = tt
Ascending-within window now (t ∷ ts) a =
    ground (arith, Ascending-within window now ts a.1, All-within (λ v. t ≤ v) window now ts a.0)

pub All-snoc : (P : ℕ → Type 0) (ts : List ℕ) (t : ℕ) → All P ts → P t → All P (ts ++ t ∷ [])
All-snoc P [] t a p = (p, tt)
All-snoc P (u ∷ ts) t a p = (a.0, All-snoc P ts t a.1 p)

pub Ascending-snoc :
    (ts : List ℕ) (t : ℕ) → Ascending ts → All (λ u. u ≤ t) ts → Ascending (ts ++ t ∷ [])
Ascending-snoc [] t a b = (tt, tt)
Ascending-snoc (u ∷ ts) t a b = (All-snoc (λ v. u ≤ v) ts t a.0 b.0, Ascending-snoc ts t a.1 b.1)
