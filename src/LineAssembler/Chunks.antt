-- ===== src/LineAssembler/Chunks.antt =====
-- How the bytes are cut into chunks does not matter to `feed`.
use py_uart_proxy.Prelude.{
  ℕ, suc, ◌≡◌, refl, ap, ◌∙◌, inl, inr, true, false, List, [], ◌∷◌, ◌++◌, append-nil, append_assoc,
  Bytes, arith, Bool-cases, length,
}
use py_uart_proxy.LineAssembler.{LineAssembler, feed_cr_byte, feed_cr_loop, feed}
use py_uart_proxy.LineAssembler.Scan.{scan, scan-append, scan_resume, feed_loop-eq-scan}

-- Feeding `b` after what came out of an earlier feed.
abbrev pub then_feed : List Bytes × LineAssembler → Bytes → List Bytes × LineAssembler
then_feed (lines, s) b = let (lines', s') = feed b s in (lines ++ lines', s')

pub feed-eq-scan :
    (s : LineAssembler) (a : Bytes)
    → s.cr_ends_line ≡ false
    → feed a s ≡ ((scan [] (s.buf ++ a)).0, record s { buf = (scan [] (s.buf ++ a)).1 })
unfolding feed
feed-eq-scan s a h =
    rw (h, feed_loop-eq-scan (suc (length (s.buf ++ a))) (s.buf ++ a) [] (omega arith))

feed_cr_loop-append :
    (a b : Bytes) (s : LineAssembler) (lines : List Bytes)
    → feed_cr_loop (a ++ b) s lines
      ≡ feed_cr_loop b (feed_cr_loop a s lines).1 (feed_cr_loop a s lines).0
unfolding feed_cr_loop
feed_cr_loop-append [] b s lines = refl
feed_cr_loop-append (c ∷ a) b s lines = feed_cr_loop-append a b _ _

feed_cr_byte_lines :
    (c : ℕ) (s : LineAssembler) (lines : List Bytes)
    → feed_cr_byte c s lines ≡ (lines ++ (feed_cr_byte c s []).0, (feed_cr_byte c s []).1)
feed_cr_byte_lines c s lines = ground (arith, append-nil lines)

feed_cr_loop_lines :
    (a : Bytes) (s : LineAssembler) (lines : List Bytes)
    → feed_cr_loop a s lines ≡ (lines ++ (feed_cr_loop a s []).0, (feed_cr_loop a s []).1)
unfolding feed_cr_loop
feed_cr_loop_lines [] s lines = rw append-nil
feed_cr_loop_lines (c ∷ a) s lines =
    let (found, s') = feed_cr_byte c s [] in
    let after = (feed_cr_loop a s' []).1 in
    rw
      (
        feed_cr_byte_lines c s lines,
        feed_cr_loop_lines a s' (lines ++ found),
        feed_cr_loop_lines a s' found,
      )
      (ap (λ t. (t, after)) (append_assoc lines found (feed_cr_loop a s' []).0))

feed-append_lf :
    (s : LineAssembler) (a b : Bytes)
    → s.cr_ends_line ≡ false
    → feed (a ++ b) s ≡ then_feed (feed a s) b
feed-append_lf s a b h = rw (
  feed-eq-scan s (a ++ b) h,
  feed-eq-scan s a h,
  feed-eq-scan (record s { buf = (scan [] (s.buf ++ a)).1 }) b h,
  ← append_assoc s.buf a b,
  scan-append [] (s.buf ++ a) b,
  scan_resume (s.buf ++ a) b,
)

pub feed-eq-cr :
    (s : LineAssembler) (a : Bytes) → s.cr_ends_line ≡ true → feed a s ≡ feed_cr_loop a s []
unfolding feed
feed-eq-cr s a h = rw h

feed_cr_byte_mode :
    (c : ℕ) (s : LineAssembler) (lines : List Bytes)
    → (feed_cr_byte c s lines).1.cr_ends_line ≡ s.cr_ends_line
feed_cr_byte_mode c s lines = ground arith

feed_cr_loop_mode :
    (a : Bytes) (s : LineAssembler) (lines : List Bytes)
    → (feed_cr_loop a s lines).1.cr_ends_line ≡ s.cr_ends_line
unfolding feed_cr_loop
feed_cr_loop_mode [] s lines = refl
feed_cr_loop_mode (c ∷ a) s lines = feed_cr_loop_mode a _ _ ∙ feed_cr_byte_mode c s lines

feed-append_cr :
    (s : LineAssembler) (a b : Bytes)
    → s.cr_ends_line ≡ true
    → feed (a ++ b) s ≡ then_feed (feed a s) b
feed-append_cr s a b h =
    let (lines, s') = feed_cr_loop a s [] in
    rw
      (
        feed-eq-cr s (a ++ b) h,
        feed-eq-cr s a h,
        feed-eq-cr s' b (feed_cr_loop_mode a s [] ∙ h),
        feed_cr_loop-append a b s [],
      )
      (feed_cr_loop_lines b s' lines)

-- Feeding two chunks one after the other gives the lines, and leaves the assembler, that feeding
-- their concatenation does, in both modes.
pub feed-append : (s : LineAssembler) (a b : Bytes) → feed (a ++ b) s ≡ then_feed (feed a s) b
feed-append s a b = elim (Bool-cases s.cr_ends_line) [
  | inl e ↦ feed-append_cr s a b e
  | inr e ↦ feed-append_lf s a b e
]
