-- ===== src/Recorder/Numbers.antt =====
-- The numbers of the parts of core/recorder.py, and what deleting a part leaves.
use py_uart_proxy.Prelude.{
  ℕ, suc, ◌≤◌, ◌<◌, max, not, List, [], ◌∷◌, ◌++◌, ◌==◌, keep-append, keep_yes, keep_no, ◌≡◌, refl,
  sym, ap, ◌∙◌, subst, arith,
}
use py_uart_proxy.Recording.{last_or}
use py_uart_proxy.Recording.Timeline.{Rising, Rising-snoc}
use py_uart_proxy.Recorder.{Files, Part, numbers, highest, unlink}

-- The part numbers
highest-append : (ms ns : List ℕ) → highest (ms ++ ns) ≡ max (highest ms) (highest ns)
highest-append [] ns = omega arith
highest-append (m ∷ ms) ns = omega (arith, highest-append ms ns)

pub numbers-append : (ps qs : List Part) → numbers (ps ++ qs) ≡ numbers ps ++ numbers qs
numbers-append [] qs = refl
numbers-append (p ∷ ps) qs = ap (λ t. p.number ∷ t) (numbers-append ps qs)

last-highest : (n : ℕ) (ns : List ℕ) → last_or n ns ≤ max n (highest ns)
last-highest n [] = omega arith
last-highest n (m ∷ ms) = omega (arith, last-highest m ms)

-- Removing a part that is not there removes nothing.
pub unlink_above : (n : ℕ) (ps : List Part) → highest (numbers ps) < n → unlink n ps ≡ ps
unlink_above n [] h = refl
unlink_above n (p ∷ ps) h =
    keep_yes (λ q. not (q.number == n)) p ps (ground (arith, h))
    ∙ ap (λ t. p ∷ t) (unlink_above n ps (omega (arith, h)))

pub unlink_below : (n m : ℕ) (ps : List Part) → n ≤ m → Rising m (numbers ps) → unlink n ps ≡ ps
unlink_below n m [] h r = refl
unlink_below n m (p ∷ ps) h r =
    keep_yes (λ q. not (q.number == n)) p ps (ground (arith, h, r.0))
    ∙ ap (λ t. p ∷ t) (unlink_below n p.number ps (omega (arith, h, r.0)) r.1)

unlink_first :
    (p : Part) (ps : List Part) → Rising p.number (numbers ps) → unlink p.number (p ∷ ps) ≡ ps
unlink_first p ps r =
    keep_no (λ q. not (q.number == p.number)) p ps (ground arith)
    ∙ unlink_below p.number p.number ps (omega arith) r

-- Unlinking the oldest of this run's parts leaves an earlier run's parts and the rest.
pub unlink_oldest :
    (old : List Part) (p : Part) (ps : List Part)
    → Rising (highest (numbers old)) (numbers (p ∷ ps))
    → unlink p.number (old ++ p ∷ ps) ≡ old ++ ps
unlink_oldest old p ps r =
    keep-append (λ q. not (q.number == p.number)) old (p ∷ ps)
    ∙ (ap (λ t. t ++ unlink p.number (p ∷ ps)) (unlink_above p.number old r.0)
        ∙ ap (λ t. old ++ t) (unlink_first p ps r.1))

pub Rising-weaken : (n m : ℕ) (xs : List ℕ) → n ≤ m → Rising m xs → Rising n xs
Rising-weaken n m [] h r = tt
Rising-weaken n m (x ∷ xs) h r = (omega (arith, h, r.0), r.1)

-- A part numbered one past all that are on disk.
pub numbered_next :
    (old new_parts disk : List Part) (files : Files)
    → disk ≡ old ++ new_parts
    → Rising (highest (numbers old)) (numbers new_parts)
    → Rising (highest (numbers old)) (
        numbers (new_parts ++ record { number = suc (highest (numbers disk)); files = files } ∷ []))
numbered_next old new_parts disk files e r =
    let part : Part = record { number = suc (highest (numbers disk)); files = files } in
    let all_highest : highest (numbers disk)
        ≡ max (highest (numbers old)) (highest (numbers new_parts)) =
      ap (λ d. highest (numbers d)) e
      ∙ (ap highest (numbers-append old new_parts)
          ∙ highest-append (numbers old) (numbers new_parts)) in
    subst (Rising (highest (numbers old))) (sym (numbers-append new_parts (part ∷ []))) (
      Rising-snoc (highest (numbers old)) (suc (highest (numbers disk))) (numbers new_parts) r
        (omega (arith, all_highest, last-highest (highest (numbers old)) (numbers new_parts))))
