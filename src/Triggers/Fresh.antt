-- ===== src/Triggers/Fresh.antt =====
-- A rule that is added gets an id of its own.
use py_uart_proxy.Prelude.{
  ℕ, suc, zero, arith, refl, inl, inr, ◌≤◌, ◌<◌, ◌≡◌, sym, ◌∙◌, String, Option, none, some, [], ◌∷◌,
  length, Option-cases, str_eq, Bool-cases,
}
use py_uart_proxy.Prelude.Dict
use py_uart_proxy.Prelude.Dict.{Dict, get-remove_ne}
use py_uart_proxy.Prelude.Result.{ok}
use py_uart_proxy.Json.{Fields}
use py_uart_proxy.Triggers.{Rule, Spec, Triggers, new_rule}
use py_uart_proxy.Triggers.Pattern.{Python}
use py_uart_proxy.Triggers.Normalise.{normalise}
use py_uart_proxy.Triggers.Firing.{World}
use py_uart_proxy.Triggers.Adding.{fresh, fresh_id, name_of, first_id, fuel_for, add}

length-remove-le : (k : String) (d : Dict Rule) → length (Dict.remove k d) ≤ length d
unfolding Dict.remove
length-remove-le k [] = omega arith
length-remove-le k ((j, v) ∷ d) = ground (arith, length-remove-le k d)

length-remove :
    (k : String) (r : Rule) (d : Dict Rule)
    → Dict.get k d ≡ some r
    → length (Dict.remove k d) < length d
unfolding Dict.get Dict.remove
length-remove k r [] e = ground arith
length-remove k r ((j, v) ∷ d) e = elim (Bool-cases (str_eq j k)) [
  | inl h ↦ rw h (omega (arith, length-remove-le k d))
  | inr h ↦ rw h (ground (arith, h, e, length-remove k r d))
]

-- An id that no rule has, and the number after it.
abbrev IsFresh : Dict Rule → Option (String × ℕ) → Type 0
IsFresh rules o = (rid : String) × (next : ℕ) × (o ≡ some (rid, next)) × (Dict.get rid rules ≡ none)

module _ (name : ℕ → String) (apart : (m n : ℕ) → name m ≡ name n → m ≡ n) where
  fresh_at :
      (fuel : ℕ) (rid : String) (next : ℕ) (rules : Dict Rule)
      → Dict.get rid rules ≡ none
      → IsFresh rules (fresh name fuel rid next rules)
  unfolding fresh
  fresh_at zero rid next rules e = (rid, next, rw e refl, e)
  fresh_at (suc fuel) rid next rules e = (rid, next, rw e refl, e)

  -- Fuel for the rules that the numbers from `n` on may still name.
  fresh_from :
      (fuel n : ℕ) (d rules : Dict Rule)
      → length d ≤ fuel
      → ((m : ℕ) → n ≤ m → Dict.get (name m) rules ≡ Dict.get (name m) d)
      → IsFresh rules (fresh name fuel (name n) (suc n) rules)
  unfolding fresh Dict.get
  fresh_from zero n [] rules h same = fresh_at zero (name n) (suc n) rules (same n (omega arith))
  fresh_from zero n (x ∷ d) rules h same = absurd (omega arith)
  fresh_from (suc fuel) n d rules h same = elim (Option-cases (Dict.get (name n) rules)) [
    | inl e ↦ fresh_at (suc fuel) (name n) (suc n) rules e
    | inr (r, e) ↦
        let shorter = length-remove (name n) r d (sym (same n (omega arith)) ∙ e) in
        let found =
          fresh_from fuel (suc n) (Dict.remove (name n) d) rules (omega (arith, shorter)) (λ m le.
            same m (omega (arith, le))
            ∙ sym (get-remove_ne d (λ s. omega (arith, apart n m s, le)))) in
        rw (e, fresh) found
  ]

fresh_id_lem :
    (w : World) (p : Python) (rule : Fields) (t : Triggers)
    → ((m n : ℕ) → name_of w m ≡ name_of w n → m ≡ n)
    → IsFresh t.rules (fresh_id w p rule t)
unfolding fresh_id fresh
fresh_id_lem w p rule t apart =
    let (first, next) = first_id w p rule t in
    elim (Option-cases (Dict.get first t.rules)) [
      | inl e ↦ fresh_at (name_of w) apart (fuel_for t) first next t.rules e
      | inr (r, e) ↦
          let found =
            fresh_from (name_of w) apart (length t.rules) next t.rules t.rules (omega arith)
              (λ m le. refl) in
          rw (e, fresh) found
    ]

-- Where the numbered ids differ from one another, the search for an id ends: `add` of a rule that
-- `normalise` lets through adds it, as a new rule, under an id that no rule had.
pub add_fresh :
    (w : World) (p : Python) (rule : Fields) (spec : Spec) (t : Triggers)
    → ((m n : ℕ) → name_of w m ≡ name_of w n → m ≡ n)
    → normalise p rule ≡ ok spec
    → (rid : String) × (next : ℕ) × (Dict.get rid t.rules ≡ none)
      × (add w p rule t
          ≡ ok (rid, record t { rules = Dict.put rid (new_rule rid spec) t.rules; next_id = next }))
unfolding add
add_fresh w p rule spec t apart checked =
    let (rid, next, e, free) = fresh_id_lem w p rule t apart in
    (rid, next, free, rw (checked, e, add) refl)
