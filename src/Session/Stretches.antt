-- ===== src/Session/Stretches.antt =====
-- `_read_loop` of core/session.py with its idle flush: which lines the device's output becomes.
use py_uart_proxy.Prelude.{
  ℕ, ◌≡◌, refl, sym, ap, ◌∙◌, arith, Bool, true, false, ◌&&◌, none, some, List, [], ◌∷◌, ◌++◌,
  Bytes, subst, append_assoc, append-nil, if◌then◌else◌,
}
use py_uart_proxy.LineAssembler.{
  LineAssembler, feed, flush, has_pending, feed_loop, find_byte, feed_cr_loop,
}
use py_uart_proxy.LineAssembler.Chunks.{feed-append}
use py_uart_proxy.LineAssembler.Scan.{NoLf}
use py_uart_proxy.Session.{Env, Session, on_rx, flush_rx, emit_line, emit, publish_status}
use py_uart_proxy.Session.Pipeline.{
  heard, heard_lines, heard-append, heard_lines-append, on_rx-heard, feed_nil, pump,
}
use py_uart_proxy.Session.Connection.{Read, chunk, silence, broken, idle_flush, read_loop}

-- The bytes read, until the source breaks.
abbrev pub received : List Read → Bytes
received [] = []
received (chunk now b ∷ rs) = b ++ received rs
received (silence due ∷ rs) = received rs
received (broken now e ∷ rs) = []

-- The line that waits for its end, where there is one.
abbrev pub pending_line : LineAssembler → List Bytes
pending_line a = elim (flush a).0 [ none ↦ [] | some line ↦ line ∷ [] ]

-- The lines by stretches: the bytes `so_far` of a stretch are fed as one piece, however they came; a
-- silence that is longer than the idle flush ends the stretch, and what waits is a line of its own.
abbrev pub lines_of : Bytes → List Read → LineAssembler → List Bytes
lines_of so_far [] a = (feed so_far a).0
lines_of so_far (chunk now b ∷ rs) a = lines_of (so_far ++ b) rs a
lines_of so_far (silence false ∷ rs) a = lines_of so_far rs a
lines_of so_far (silence true ∷ rs) a =
    let (lines, a') = feed so_far a in lines ++ (pending_line a' ++ lines_of [] rs (flush a').1)
lines_of so_far (broken now e ∷ rs) a = (feed so_far a).0

flush-settled : (a : LineAssembler) → feed [] (flush a).1 ≡ ([], (flush a).1)
unfolding feed flush feed_loop find_byte feed_cr_loop
flush-settled a = by_cases a.cr_ends_line a.buf a.after_cr
  where
    by_cases :
        (c : Bool) (buf : Bytes) (after : Bool)
        → let a : LineAssembler = record { buf = buf; cr_ends_line = c; after_cr = after } in
          feed [] (flush a).1 ≡ ([], (flush a).1)
    by_cases true [] after = refl
    by_cases false [] after = refl
    by_cases true (b ∷ bs) after = refl
    by_cases false (b ∷ bs) after = refl

module _ (env : Env) where
  flush_rx-heard :
      (s : Session)
      → let o = flush_rx env s in
        (heard o.0 ≡ [])
        × (heard_lines o.0 ≡ pending_line s.rx_asm)
        × (o.1.rx_asm ≡ (flush s.rx_asm).1)
  unfolding flush_rx emit_line emit flush
  flush_rx-heard s = ground (arith)

  idle_flush_due : (s : Session) → idle_flush env true s ≡ flush_rx env s
  unfolding flush_rx has_pending flush
  idle_flush_due s = ground (arith)

  -- `a` is the assembler at the stretch's start, and `so_far` what it was fed since.
  stretch-heard :
      (rs : List Read) (so_far : Bytes) (a : LineAssembler) (s : Session)
      → s.rx_asm ≡ (feed so_far a).1
      → let o = (read_loop env rs s).1 in
        (heard o.0 ≡ received rs) × ((feed so_far a).0 ++ heard_lines o.0 ≡ lines_of so_far rs a)
  unfolding read_loop publish_status emit
  stretch-heard [] so_far a s e = (refl, append-nil (feed so_far a).0)
  stretch-heard (chunk now b ∷ rs) so_far a s e =
      let o = on_rx env now b s in
      let more = (read_loop env rs o.1).1 in
      let first = (feed so_far a).0 in
      let (h, k, asm) = on_rx-heard env now b s in
      let whole = feed-append a so_far b in
      let (h', k') =
        stretch-heard rs (so_far ++ b) a o.1
          (asm ∙ (ap (λ t. (feed b t).1) e ∙ sym (ap (λ t. t.1) whole))) in
      (
        heard-append o.0 more.0 ∙ (ap (λ t. t ++ heard more.0) h ∙ ap (λ t. b ++ t) h'),
        ap (λ t. first ++ t)
              (heard_lines-append o.0 more.0
                ∙ ap (λ t. t ++ heard_lines more.0) (k ∙ ap (λ t. (feed b t).0) e))
            ∙ (sym (append_assoc first (feed b (feed so_far a).1).0 (heard_lines more.0))
                ∙ (ap (λ t. t.0 ++ heard_lines more.0) (sym whole) ∙ k')),
      )
  stretch-heard (silence false ∷ rs) so_far a s e =
      not_due (has_pending s.rx_asm) (stretch-heard rs so_far a s e)
    where
      not_due :
          (t : Bool)
          → (heard (read_loop env rs s).1.0 ≡ received rs)
            × ((feed so_far a).0 ++ heard_lines (read_loop env rs s).1.0 ≡ lines_of so_far rs a)
          → let i = if t && false then flush_rx env s else ([], s) in
            let more = (read_loop env rs i.1).1 in
            (heard (i.0 ++ more.0) ≡ received rs)
            × ((feed so_far a).0 ++ heard_lines (i.0 ++ more.0) ≡ lines_of so_far rs a)
      not_due true h = h
      not_due false h = h
  stretch-heard (silence true ∷ rs) so_far a s e =
      let i = flush_rx env s in
      let more = (read_loop env rs i.1).1 in
      let (h, k, asm) = flush_rx-heard s in
      let settled = flush-settled (feed so_far a).1 in
      let (h', k') =
        stretch-heard rs [] (flush (feed so_far a).1).1 i.1
          (asm ∙ (ap (λ t. (flush t).1) e ∙ sym (ap (λ t. t.1) settled))) in
      subst
        (λ i.
          let more = (read_loop env rs i.1).1 in
          (heard (i.0 ++ more.0) ≡ received rs)
          × ((feed so_far a).0 ++ heard_lines (i.0 ++ more.0)
              ≡ lines_of so_far (silence true ∷ rs) a))
        (sym (idle_flush_due s))
        (
          heard-append i.0 more.0 ∙ (ap (λ t. t ++ heard more.0) h ∙ h'),
          ap (λ t. (feed so_far a).0 ++ t)
              (heard_lines-append i.0 more.0
                ∙ (ap (λ t. t ++ heard_lines more.0) (k ∙ ap pending_line e)
                    ∙ ap (λ t. pending_line (feed so_far a).1 ++ t)
                        (sym (ap (λ t. t.0 ++ heard_lines more.0) settled) ∙ k'))),
        )
  stretch-heard (broken now m ∷ rs) so_far a s e = (refl, append-nil (feed so_far a).0)

  -- Whatever `_read_loop` reads, in whatever chunks and with whatever silences, from a receiving
  -- assembler whose buffer holds no line feed, until `stop` or the source's failure: the data events
  -- hold all the bytes read, in order. The line events are the lines that the assembler makes of each
  -- stretch between two silences longer than the idle flush, taken as one piece, each stretch followed
  -- by what it left pending, as a line of its own; so that only such a silence, and not how the bytes
  -- are divided, makes a difference.
  pub read_loop-heard :
      (rs : List Read) (s : Session)
      → s.rx_asm.cr_ends_line ≡ false
      → NoLf s.rx_asm.buf
      → let o = (read_loop env rs s).1 in
        (heard o.0 ≡ received rs) × (heard_lines o.0 ≡ lines_of [] rs s.rx_asm)
  read_loop-heard rs s m h =
      let o = (read_loop env rs s).1 in
      let settled = feed_nil s.rx_asm m h in
      let (heard', lines) = stretch-heard rs [] s.rx_asm s (sym (ap (λ t. t.1) settled)) in
      (heard', ap (λ t. t.0 ++ heard_lines o.0) (sym settled) ∙ lines)

  -- No silence comes longer than the idle flush while a line is pending, and the source does not break.
  abbrev pub IsTimely : List Read → LineAssembler → Type 0
  IsTimely [] a = Unit
  IsTimely (chunk now b ∷ rs) a = IsTimely rs (feed b a).1
  IsTimely (silence due ∷ rs) a = ((has_pending a && due) ≡ false) × IsTimely rs a
  IsTimely (broken now e ∷ rs) a = ⊥

  abbrev pub chunks_of : List Read → List (ℕ × Bytes)
  chunks_of [] = []
  chunks_of (chunk now b ∷ rs) = (now, b) ∷ chunks_of rs
  chunks_of (silence due ∷ rs) = chunks_of rs
  chunks_of (broken now e ∷ rs) = []

  pub read_loop-pump :
      (rs : List Read) (s : Session)
      → IsTimely rs s.rx_asm
      → (read_loop env rs s).1 ≡ pump env (chunks_of rs) s
  unfolding read_loop
  read_loop-pump [] s h = refl
  read_loop-pump (chunk now b ∷ rs) s h =
      let o = on_rx env now b s in
      ap (λ t. (o.0 ++ t.0, t.1))
        (read_loop-pump rs o.1 (subst (IsTimely rs) (sym (on_rx-heard env now b s).2) h))
  read_loop-pump (silence due ∷ rs) s (e, h) = rw e (read_loop-pump rs s h)
  read_loop-pump (broken now e ∷ rs) s h = absurd h
