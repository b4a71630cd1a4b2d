-- ===== src/LineAssembler/Scan.antt =====
-- What the buffer search of `feed` amounts to: one pass over the bytes.
use py_uart_proxy.Prelude.{
  ℕ, zero, suc, ◌<◌, ◌≡◌, ◌≢◌, refl, ap, ◌∙◌, inl, inr, none, some, List, [], ◌∷◌, ◌++◌, append-nil,
  append_assoc, Bytes, arith, ◌==◌, if◌then◌else◌, Bool-cases, Option-cases, length, take, drop,
  All, length-drop,
}
use py_uart_proxy.LineAssembler.{cr, lf, find_byte, rstrip, feed_loop}

abbrev pub cons_line : Bytes → List Bytes × Bytes → List Bytes × Bytes
cons_line l (ls, rest) = (l ∷ ls, rest)

-- The lines of a stream of bytes, `cur` being the line so far, and what is left unfinished.
unfoldable pub scan : Bytes → Bytes → List Bytes × Bytes
scan cur [] = ([], cur)
scan cur (b ∷ bs) =
    let line = cons_line (rstrip cr cur) (scan [] bs) in
    let more = scan (cur ++ b ∷ []) bs in if b == lf then line else more

abbrev pub then_scan : List Bytes × Bytes → Bytes → List Bytes × Bytes
then_scan (ls, rest) bs = let (ls', rest') = scan rest bs in (ls ++ ls', rest')

pub scan-append : (cur ps bs : Bytes) → scan cur (ps ++ bs) ≡ then_scan (scan cur ps) bs
unfolding scan
scan-append cur [] bs = refl
scan-append cur (p ∷ ps) bs = elim (Bool-cases (p == lf)) [
  | inl e ↦ rw (e, scan-append [] ps bs)
  | inr e ↦ rw (e, scan-append (cur ++ p ∷ []) ps bs)
]

abbrev pub NoLf : Bytes → Type 0
NoLf = All (λ b. b ≢ lf)

pub NoLf-snoc : (bs : Bytes) (b : ℕ) → NoLf bs → b ≢ lf → NoLf (bs ++ b ∷ [])
NoLf-snoc [] b h n = (n, tt)
NoLf-snoc (c ∷ bs) b h n = (h.0, NoLf-snoc bs b h.1 n)

pub scan-lf : (cur bs : Bytes) → scan cur (lf ∷ bs) ≡ cons_line (rstrip cr cur) (scan [] bs)
unfolding scan
scan-lf cur bs = refl

-- A run of bytes with no line feed only lengthens the current line.
pub scan-NoLf : (cur bs : Bytes) → NoLf bs → scan cur bs ≡ ([], cur ++ bs)
unfolding scan
scan-NoLf cur [] h = rw append-nil
scan-NoLf cur (b ∷ bs) h = elim (Bool-cases (b == lf)) [
  | inl e ↦ absurd (h.0 (ground arith))
  | inr e ↦
      rw e (scan-NoLf (cur ++ b ∷ []) bs h.1 ∙ ap (λ t. ([], t)) (append_assoc cur (b ∷ []) bs))
]

pub scan_rest : (cur bs : Bytes) → NoLf cur → NoLf (scan cur bs).1
unfolding scan
scan_rest cur [] h = h
scan_rest cur (b ∷ bs) h = elim (Bool-cases (b == lf)) [
  | inl e ↦ rw e (scan_rest [] bs tt)
  | inr e ↦ rw e (scan_rest (cur ++ b ∷ []) bs (NoLf-snoc cur b h (ground arith)))
]

find_none : (cur bs : Bytes) → find_byte lf bs ≡ none → scan cur bs ≡ ([], cur ++ bs)
unfolding scan find_byte
find_none cur [] h = rw append-nil
find_none cur (b ∷ bs) h = elim (Bool-cases (b == lf)) [
  | inl e ↦ cc (rw e at h)
  | inr e ↦ rw e (
      find_none (cur ++ b ∷ []) bs (ground arith)
      ∙ ap (λ t. ([], t)) (append_assoc cur (b ∷ []) bs))
]

find_some :
    (cur bs : Bytes) (i : ℕ)
    → find_byte lf bs ≡ some i
    → scan cur bs ≡ cons_line (rstrip cr (cur ++ take i bs)) (scan [] (drop (suc i) bs))
unfolding scan find_byte
find_some cur [] i h = cc
find_some cur (b ∷ bs) zero h = elim (Bool-cases (b == lf)) [
  | inl e ↦ rw (e, append-nil cur)
  | inr e ↦ absurd (ground arith)
]
find_some cur (b ∷ bs) (suc i) h = elim (Bool-cases (b == lf)) [
  | inl e ↦ absurd (ground arith)
  | inr e ↦ rw e (
      find_some (cur ++ b ∷ []) bs i (ground arith)
      ∙ ap (λ t. cons_line (rstrip cr t) (scan [] (drop (suc i) bs)))
          (append_assoc cur (b ∷ []) (take i bs)))
]

feed_loop_nil :
    (fuel : ℕ) (lines : List Bytes)
    → feed_loop (suc fuel) [] lines ≡ (lines ++ (scan [] []).0, (scan [] []).1)
unfolding feed_loop scan find_byte
feed_loop_nil fuel lines = rw append-nil

-- Enough rounds make the loop of `feed` the scan, after the lines found before.
pub feed_loop-eq-scan :
    (fuel : ℕ) (buf : Bytes) (lines : List Bytes)
    → length buf < fuel
    → feed_loop fuel buf lines ≡ (lines ++ (scan [] buf).0, (scan [] buf).1)
unfolding feed_loop
feed_loop-eq-scan zero buf lines h = absurd (omega arith)
feed_loop-eq-scan (suc fuel) [] lines h = feed_loop_nil fuel lines
feed_loop-eq-scan (suc fuel) (b ∷ bs) lines h = elim (Option-cases (find_byte lf (b ∷ bs))) [
  | inl e ↦ rw (e, feed_loop, find_none [] (b ∷ bs) e, append-nil lines)
  | inr (i, e) ↦
      let lines' = lines ++ rstrip cr (take i (b ∷ bs)) ∷ [] in
      rw (e, feed_loop, find_some [] (b ∷ bs) i e)
        (feed_loop-eq-scan fuel (drop i bs) lines' (omega (arith, length-drop i bs))
          ∙ ap (λ t. (t, (scan [] (drop i bs)).1)) (append_assoc lines _ _))
]

-- What a scan leaves is one unfinished line, so scanning it again with more gives the same.
pub scan_resume : (xs bs : Bytes) → scan [] ((scan [] xs).1 ++ bs) ≡ scan (scan [] xs).1 bs
scan_resume xs bs =
    let r = (scan [] xs).1 in
    scan-append [] r bs ∙ ap (λ t. then_scan t bs) (scan-NoLf [] r (scan_rest [] xs tt))
