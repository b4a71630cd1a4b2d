-- ===== src/Mcp/Bounded.antt =====
-- `_bounded` of mcp.py: the newest lines that fit, and a count of the others.
use py_uart_proxy.Prelude.{
  ℕ, suc, ◌+◌, ◌-◌, ◌≤◌, ◌<◌, min, String, Bool, true, false, List, [], ◌∷◌, ltb, if◌then◌else◌,
  length, drop, last_n, length-last_n, last_n-last_n, ◌≡◌, refl, sym, ap, ◌∙◌, subst, arith,
}
use py_uart_proxy.Client.{Line}
use py_uart_proxy.Mcp.{max_lines, max_chars, weight_of, fits, fitting, bounded}

module _ (char_count : String → ℕ) where
  abbrev pub weight : List Line → ℕ
  weight [] = 0
  weight (l ∷ ls) = weight_of char_count l + weight ls

  last_n-cons :
      (n : ℕ) (l : Line) (ls : List Line) → n ≤ length ls → last_n n (l ∷ ls) ≡ last_n n ls
  last_n-cons n l ls h =
      let e : suc (length ls) - n ≡ suc (length ls - n) = omega (arith, h) in
      ap (λ k. drop k (l ∷ ls)) e

  last_n_all : (n : ℕ) (ls : List Line) → length ls ≤ n → last_n n ls ≡ ls
  last_n_all n ls h = let e : length ls - n ≡ 0 = omega (arith, h) in ap (λ k. drop k ls) e

  -- What the loop has found: all the lines, or as many as fit, and one more does not.
  abbrev Fits : List Line → ℕ × ℕ × Bool → Type 0
  Fits ls (count, total, false) = (count ≡ length ls) × (total ≡ weight ls) × (total ≤ max_chars)
  Fits ls (count, total, true) =
      (count < length ls)
      × (weight (last_n count ls) ≤ max_chars)
      × (max_chars < weight (last_n (suc count) ls))

  step :
      (l : Line) (ls : List Line) (r : ℕ × ℕ × Bool)
      → Fits ls r
      → let (count, total, over) = r in
        Fits (l ∷ ls) (
          if over
          then (count, total, true)
          else if ltb max_chars (total + weight_of char_count l)
          then (count, total + weight_of char_count l, true)
          else (suc count, total + weight_of char_count l, false))
  step l ls (count, total, true) (a, b, c) = (
    omega (arith, a),
    subst (λ t. weight t ≤ max_chars) (sym (last_n-cons count l ls (omega (arith, a)))) b,
    subst (λ t. max_chars < weight t) (sym (last_n-cons (suc count) l ls (omega (arith, a)))) c,
  )
  step l ls (count, total, false) (a, b, c) =
      by_test (ltb max_chars (total + weight_of char_count l)) refl
    where
      by_test :
          (t : Bool)
          → (t ≡ ltb max_chars (total + weight_of char_count l))
          → Fits (l ∷ ls) (
              if t
              then (count, total + weight_of char_count l, true)
              else (suc count, total + weight_of char_count l, false))
      by_test true e = (
        omega (arith, a),
        subst (λ t. weight t ≤ max_chars)
            (sym
              (last_n-cons count l ls (omega (arith, a)) ∙ last_n_all count ls (omega (arith, a))))
            (omega (arith, b, c)),
        subst (λ t. max_chars < weight t) (sym (last_n_all (suc count) (l ∷ ls) (omega (arith, a))))
            (ground (arith, e, b)),
      )
      by_test false e = (omega (arith, a), omega (arith, b), ground (arith, e))

  fits-Fits : (ls : List Line) → Fits ls (fits char_count ls)
  unfolding fits
  fits-Fits [] = (refl, refl, omega arith)
  fits-Fits (l ∷ ls) = step l ls (fits char_count ls) (fits-Fits ls)

  -- The newest of some lines, within both limits, with a count of the others.
  abbrev pub IsBounded : List Line → ℕ → List Line × ℕ → Type 0
  IsBounded lines dropped (shown, hidden) =
      (shown ≡ last_n (length shown) lines)
      × (length shown + hidden ≡ length lines + dropped)
      × (length shown ≤ max_lines)
      × (weight shown ≤ max_chars)

  fitting-IsBounded :
      (lines : List Line) (dropped : ℕ)
      → length lines ≤ max_lines
      → IsBounded lines dropped (fitting char_count lines dropped)
  fitting-IsBounded lines dropped h = by_result (fits char_count lines) (fits-Fits lines)
    where
      by_result :
          (r : ℕ × ℕ × Bool)
          → Fits lines r
          → let (count, total, over) = r in
            IsBounded lines dropped (last_n count lines, dropped + (length lines - count))
      by_result (count, total, true) (a, b, c) =
          let size : length (last_n count lines) ≡ count =
            omega (arith, length-last_n count lines, a) in
          (
            ap (λ n. last_n n lines) (sym size),
            omega (arith, size, a),
            omega (arith, size, a, h),
            b,
          )
      by_result (count, total, false) (a, b, c) =
          let size : length (last_n count lines) ≡ count =
            omega (arith, length-last_n count lines, a) in
          (
            ap (λ n. last_n n lines) (sym size),
            omega (arith, size, a),
            omega (arith, size, a, h),
            subst (λ t. weight t ≤ max_chars) (sym (last_n_all count lines (omega (arith, a))))
                (omega (arith, b, c)),
          )

  -- What `_bounded` keeps is the newest of the lines, at most 200 of them, weighing at most 20,000
  -- characters with 40 for each line's stamps; and with the lines that it does not show, which it
  -- counts, it accounts for all the lines there were and those dropped before.
  pub bounded-IsBounded :
      (lines : List Line) (dropped : ℕ) → IsBounded lines dropped (bounded char_count lines dropped)
  unfolding bounded
  bounded-IsBounded lines dropped =
      let newest = last_n max_lines lines in
      let size : length newest ≡ min max_lines (length lines) = length-last_n max_lines lines in
      let out = fitting char_count newest (dropped + (length lines - max_lines)) in
      let (same, counts, few, light) : IsBounded newest (dropped + (length lines - max_lines)) out =
        fitting-IsBounded newest (dropped + (length lines - max_lines)) (omega (arith, size)) in
      (
        same
            ∙ (last_n-last_n (length out.0) max_lines lines
                ∙ ap (λ n. last_n n lines) (omega (arith, few))),
        omega (arith, counts, size),
        few,
        light,
      )
