-- ===== src/Triggers/Chunks.antt =====
-- The bytes of a hex rule are found once each, wherever the chunks are cut.
use py_uart_proxy.Prelude.{
  ℕ, zero, suc, ◌+◌, ◌-◌, ◌≤◌, ◌<◌, ◌≡◌, refl, sym, ap, subst, ◌∙◌, inl, inr, Bool, false, List, [],
  ◌∷◌, ◌++◌, Bytes, arith, keep, ltb, length, drop, Bool-cases, length-append, append_assoc,
  append-nil, drop-nil, last_n-append,
}
use py_uart_proxy.Triggers.Watching.{begins, occurrences, fresh_places, hex_tail_of}

-- Whether an occurrence from `pos` on ends beyond `start`.
abbrev ends_after : Bytes → ℕ → ℕ → Bool
ends_after h start pos = ltb start (pos + length h)

begins_longer : (h p : Bytes) → length p < length h → begins h p ≡ false
begins_longer [] p lt = absurd (omega arith)
begins_longer (b ∷ h) [] lt = refl
begins_longer (b ∷ h) (c ∷ p) lt = ground (arith, begins_longer h p (omega arith))

begins-append : (h p d : Bytes) → length h ≤ length p → begins h (p ++ d) ≡ begins h p
begins-append [] p d le = refl
begins-append (b ∷ h) [] d le = absurd (omega arith)
begins-append (b ∷ h) (c ∷ p) d le = ground (arith, begins-append h p d (omega arith))

-- Where every occurrence ends beyond the start, all are kept.
keep_later :
    (h : Bytes) (start at : ℕ) (d : Bytes)
    → start < at + length h
    → keep (ends_after h start) (occurrences h at d) ≡ occurrences h at d
unfolding occurrences
keep_later h start at [] lt = refl
keep_later h start at (b ∷ d) lt = ground (arith, keep_later h start (suc at) d (omega arith))

occurrences_longer :
    (h : Bytes) (at : ℕ) (p : Bytes) → length p < length h → occurrences h at p ≡ []
unfolding occurrences
occurrences_longer h at [] lt = refl
occurrences_longer h at (b ∷ p) lt =
    rw (begins_longer h (b ∷ p) lt) (occurrences_longer h (suc at) p (omega arith))

append_longer :
    (h : Bytes) (at : ℕ) (p d : Bytes)
    → length p < length h
    → occurrences h at (p ++ d)
      ≡ occurrences h at p ++ keep (ends_after h (at + length p)) (occurrences h at (p ++ d))
append_longer h at p d lt =
    rw (occurrences_longer h at p lt) (sym (keep_later h (at + length p) at (p ++ d) (omega arith)))

-- The occurrences in a longer buffer are those in its front, and those that end beyond the front.
occurrences-append :
    (h : Bytes) (at : ℕ) (p d : Bytes)
    → 0 < length h
    → occurrences h at (p ++ d)
      ≡ occurrences h at p ++ keep (ends_after h (at + length p)) (occurrences h at (p ++ d))
unfolding occurrences
occurrences-append h at [] d pos = sym (keep_later h (at + 0) at d (omega arith))
occurrences-append h at (b ∷ p) d pos = elim (Bool-cases (ltb (suc (length p)) (length h))) [
  | inl e ↦ append_longer h at (b ∷ p) d (ground (arith, e))
  | inr e ↦
      let le : length h ≤ suc (length p) = ground (arith, e) in
      let ih = occurrences-append h (suc at) p d pos in
      ground (arith, begins-append h (b ∷ p) d le, ih, le)
]

-- Only so much of the front matters as an occurrence can reach back.
keep_shift :
    (h : Bytes) (k start at : ℕ) (d : Bytes)
    → length (keep (ends_after h (k + start)) (occurrences h (k + at) d))
      ≡ length (keep (ends_after h start) (occurrences h at d))
unfolding occurrences
keep_shift h k start at [] = refl
keep_shift h k start at (b ∷ d) = ground (arith, keep_shift h k start (suc at) d)

drop_front :
    (h : Bytes) (at k : ℕ) (p d : Bytes)
    → k ≤ length p
    → (0 < k → length h ≤ suc (length p - k))
    → length (keep (ends_after h (at + length p)) (occurrences h at (p ++ d)))
      ≡ length (keep (ends_after h (length (drop k p))) (occurrences h 0 (drop k p ++ d)))
unfolding occurrences
drop_front h at zero p d le short =
    let same : at + 0 ≡ at = omega arith in
    let fresh : ℕ = length (keep (ends_after h (length p)) (occurrences h 0 (p ++ d))) in
    subst (λ a. length (keep (ends_after h (at + length p)) (occurrences h a (p ++ d))) ≡ fresh)
      same (keep_shift h at (length p) 0 (p ++ d))
drop_front h at (suc k) [] d le short = absurd (omega arith)
drop_front h at (suc k) (x ∷ p) d le short =
    let bound : length h ≤ suc (length p - k) = (let b = short (omega arith) in omega (arith, b)) in
    let ih = drop_front h (suc at) k p d (omega arith) (λ z. bound) in ground (arith, ih, bound)

-- How often `h` is reported over chunks, `n` bytes of the tail being kept between them.
abbrev pub reports : Bytes → ℕ → List Bytes → Bytes → ℕ
reports h longest [] tail = 0
reports h longest (d ∷ ds) tail =
    length (fresh_places h (length tail) (tail ++ d))
    + reports h longest ds (hex_tail_of longest (tail ++ d))

abbrev pub joined : List Bytes → Bytes
joined [] = []
joined (d ∷ ds) = d ++ joined ds

reports_from :
    (h : Bytes) (longest : ℕ) (ds : List Bytes) (p : Bytes)
    → 0 < length h
    → length h ≤ longest
    → length (occurrences h 0 p) + reports h longest ds (hex_tail_of longest p)
      ≡ length (occurrences h 0 (p ++ joined ds))
unfolding fresh_places hex_tail_of
reports_from h longest [] p pos le = rw (append-nil p) (omega arith)
reports_from h longest (d ∷ ds) p pos le =
    let n = longest - 1 in
    let k = length p - n in
    let fresh = length (keep (ends_after h (0 + length p)) (occurrences h 0 (p ++ d))) in
    let seen = drop_front h 0 k p d (omega arith) (λ z. omega arith) in
    let split : length (occurrences h 0 (p ++ d)) ≡ length (occurrences h 0 p) + fresh =
      ap length (occurrences-append h 0 p d pos) ∙ length-append (occurrences h 0 p) _ in
    let ih = reports_from h longest ds (p ++ d) pos le in
    rw (last_n-append n p d, ← append_assoc p d (joined ds), ← ih, split, ← seen) (omega arith)

-- A byte sequence that a rule looks for, not longer than the longest of all, is reported once for each
-- of its places in the device's output, however the output is cut into chunks.
pub reports-occurrences :
    (h : Bytes) (longest : ℕ) (ds : List Bytes)
    → 0 < length h
    → length h ≤ longest
    → reports h longest ds [] ≡ length (occurrences h 0 (joined ds))
unfolding hex_tail_of occurrences
reports-occurrences h longest ds pos le =
    let total : ℕ = length (occurrences h 0 (joined ds)) in
    let whole : 0 + reports h longest ds (hex_tail_of longest []) ≡ total =
      reports_from h longest ds [] pos le in
    let none_kept : hex_tail_of longest [] ≡ [] = drop-nil (0 - (longest - 1)) in
    ap (reports h longest ds) (sym none_kept) ∙ omega (arith, whole)
