-- ===== src/LineAssembler/Invariant.antt =====
-- What `feed` and `flush` leave in the buffer, and what the lines that they return hold.
use py_uart_proxy.Prelude.{
  ℕ, ◌≡◌, ◌≢◌, refl, ap, inl, inr, true, false, none, some, [], ◌∷◌, ◌++◌, Bytes, arith, ◌==◌,
  Bool-cases, All,
}
use py_uart_proxy.LineAssembler.{
  LineAssembler, cr, lf, rstrip, strip_last, feed, flush, has_pending, pending,
}
use py_uart_proxy.LineAssembler.Scan.{scan, NoLf, NoLf-snoc, scan_rest}
use py_uart_proxy.LineAssembler.Chunks.{feed-eq-scan}
use py_uart_proxy.LineAssembler.Lines.{IsDeviceLine}

strip_last-NoLf : (b : ℕ) (bs : Bytes) → b ≢ lf → NoLf bs → NoLf (strip_last cr b bs)
strip_last-NoLf b [] h k = elim (Bool-cases (b == cr)) [ inl e ↦ rw e tt | inr e ↦ rw e (h, tt) ]
strip_last-NoLf b (d ∷ ds) h k = (h, k)

NoLf-rstrip : (bs : Bytes) → NoLf bs → NoLf (rstrip cr bs)
unfolding rstrip
NoLf-rstrip [] h = tt
NoLf-rstrip (b ∷ bs) h = strip_last-NoLf b (rstrip cr bs) h.0 (NoLf-rstrip bs h.1)

rstrip-strip_last :
    (b : ℕ) (bs : Bytes) → rstrip cr bs ≡ bs → rstrip cr (strip_last cr b bs) ≡ strip_last cr b bs
unfolding rstrip
rstrip-strip_last b [] h = elim (Bool-cases (b == cr)) [ inl e ↦ rw e | inr e ↦ rw e (rw e) ]
rstrip-strip_last b (d ∷ ds) h = ap (strip_last cr b) h

rstrip-rstrip : (bs : Bytes) → rstrip cr (rstrip cr bs) ≡ rstrip cr bs
unfolding rstrip
rstrip-rstrip [] = refl
rstrip-rstrip (b ∷ bs) = rstrip-strip_last b (rstrip cr bs) (rstrip-rstrip bs)

rstrip-IsDeviceLine : (bs : Bytes) → NoLf bs → IsDeviceLine (rstrip cr bs)
rstrip-IsDeviceLine bs h = record { no_lf = NoLf-rstrip bs h; no_trailing_cr = rstrip-rstrip bs }

scan_lines : (cur bs : Bytes) → NoLf cur → All IsDeviceLine (scan cur bs).0
unfolding scan
scan_lines cur [] h = tt
scan_lines cur (b ∷ bs) h = elim (Bool-cases (b == lf)) [
  | inl e ↦ rw e (rstrip-IsDeviceLine cur h, scan_lines [] bs tt)
  | inr e ↦ rw e (scan_lines (cur ++ b ∷ []) bs (NoLf-snoc cur b h (ground arith)))
]

-- In the mode for device output no line that `feed` returns holds a line feed or ends in a carriage
-- return, and the buffer that it leaves holds no line feed.
pub feed-IsDeviceLine :
    (s : LineAssembler) (a : Bytes)
    → s.cr_ends_line ≡ false
    → All IsDeviceLine (feed a s).0 × NoLf (feed a s).1.buf
feed-IsDeviceLine s a m =
    rw (feed-eq-scan s a m) (scan_lines [] (s.buf ++ a) tt, scan_rest [] (s.buf ++ a) tt)

-- `flush` returns what `pending` shows and empties the buffer, and returns nothing exactly when
-- `has_pending` is false; then the assembler is left as it was.
pub flush_lem :
    (s : LineAssembler)
    → (has_pending s ≡ true
        → ((flush s).0 ≡ some (pending s))
          × (has_pending (flush s).1 ≡ false)
          × ((flush s).1.after_cr ≡ false))
      × (has_pending s ≡ false → flush s ≡ (none, s))
unfolding flush has_pending pending
flush_lem s = (λ h. ground arith, λ h. ground arith)
