-- ===== src/Session/Pipeline.antt =====
-- What the device says becomes events, however it arrives.
use py_uart_proxy.Prelude.{
  ℕ, suc, ◌≡◌, refl, sym, ap, ◌∙◌, false, some, List, [], ◌∷◌, ◌++◌, Bytes, arith, length,
  length-append, append_assoc, append-nil, ◌+◌,
}
use py_uart_proxy.Json.{Fields, end}
use py_uart_proxy.Event.{Event, EventKind, Direction}
use py_uart_proxy.LineAssembler.{LineAssembler, feed}
use py_uart_proxy.LineAssembler.Chunks.{feed-append, feed-eq-scan}
use py_uart_proxy.LineAssembler.Scan.{NoLf, scan-NoLf}
use py_uart_proxy.Session.{Env, Session, Out, ◌▸◌, emit, emit_line, emit_lines, on_rx}

abbrev pub chunk_of : EventKind → Direction → Bytes → Bytes
chunk_of EventKind.data_chunk Direction.rx raw = raw
chunk_of _ _ raw = []

abbrev line_of : EventKind → Direction → Bytes → List Bytes
line_of EventKind.line Direction.rx raw = raw ∷ []
line_of _ _ raw = []

-- The bytes of the received chunks among the events, joined; and the received lines.
abbrev pub heard : List Event → Bytes
heard [] = []
heard (e ∷ es) = chunk_of e.kind e.direction e.raw ++ heard es

abbrev pub heard_lines : List Event → List Bytes
heard_lines [] = []
heard_lines (e ∷ es) = line_of e.kind e.direction e.raw ++ heard_lines es

pub heard-append : (es fs : List Event) → heard (es ++ fs) ≡ heard es ++ heard fs
heard-append [] fs = refl
heard-append (e ∷ es) fs =
    ap (λ t. chunk_of e.kind e.direction e.raw ++ t) (heard-append es fs)
    ∙ sym (append_assoc (chunk_of e.kind e.direction e.raw) (heard es) (heard fs))

pub heard_lines-append :
    (es fs : List Event) → heard_lines (es ++ fs) ≡ heard_lines es ++ heard_lines fs
heard_lines-append [] fs = refl
heard_lines-append (e ∷ es) fs =
    ap (λ t. line_of e.kind e.direction e.raw ++ t) (heard_lines-append es fs)
    ∙ sym (append_assoc (line_of e.kind e.direction e.raw) (heard_lines es) (heard_lines fs))

abbrev pub join : List (ℕ × Bytes) → Bytes
join [] = []
join ((now, b) ∷ bs) = b ++ join bs

append_cancel : {A : Type 0} → (xs ys : List A) → xs ++ ys ≡ xs → ys ≡ []
append_cancel xs [] h = refl
append_cancel xs (y ∷ ys) h = absurd (omega (arith, length-append xs (y ∷ ys), ap length h))

pub feed_nil : (s : LineAssembler) → s.cr_ends_line ≡ false → NoLf s.buf → feed [] s ≡ ([], s)
feed_nil s m h = rw (feed-eq-scan s [] m, append-nil s.buf, scan-NoLf [] s.buf h)

-- A feed leaves nothing that a feed of no bytes would take.
pub feed-settled : (s : LineAssembler) (b : Bytes) → feed [] (feed b s).1 ≡ ([], (feed b s).1)
feed-settled s b =
    let r = feed b s in
    let q = feed [] r.1 in
    let e : r ≡ (r.0 ++ q.0, q.1) = ap (λ t. feed t s) (sym (append-nil b)) ∙ feed-append s b [] in
    let none_left : q.0 ≡ [] = append_cancel r.0 q.0 (sym (ap (λ t. t.0) e)) in
    rw (none_left, sym (ap (λ t. t.1) e)) refl

module _ (env : Env) where
  -- Chunks received one after the other, each at its time.
  abbrev pub pump : List (ℕ × Bytes) → Session → Out
  pump [] s = ([], s)
  pump ((now, b) ∷ bs) s = on_rx env now b s ▸ pump bs

  emit_lines-heard :
      (m : Fields) (ls : List Bytes) (s : Session)
      → let o = emit_lines env Direction.rx m ls s in
        (heard o.0 ≡ []) × (heard_lines o.0 ≡ ls) × (o.1.rx_asm ≡ s.rx_asm)
  unfolding emit_lines emit_line emit
  emit_lines-heard m [] s = (refl, refl, refl)
  emit_lines-heard m (l ∷ ls) s =
      let (h, k, a) = emit_lines-heard m ls (record s { next_seq = suc s.next_seq }) in
      (h, ap (λ t. l ∷ t) k, a)

  pub on_rx-heard :
      (now : ℕ) (b : Bytes) (s : Session)
      → let o = on_rx env now b s in
        (heard o.0 ≡ b)
        × (heard_lines o.0 ≡ (feed b s.rx_asm).0)
        × (o.1.rx_asm ≡ (feed b s.rx_asm).1)
  unfolding on_rx emit
  on_rx-heard now b s =
      let (lines, asm) = feed b s.rx_asm in
      let (h, k, a) = emit_lines-heard end lines (record s {
        rx_bytes = s.rx_bytes + length b;
        last_output = some now;
        next_seq = suc s.next_seq;
        rx_asm = asm;
      }) in
      (ap (λ t. b ++ t) h ∙ append-nil b, k, a)

  pump_settled :
      (bs : List (ℕ × Bytes)) (s : Session)
      → feed [] s.rx_asm ≡ ([], s.rx_asm)
      → let o = pump bs s in
        (heard o.0 ≡ join bs)
        × (heard_lines o.0 ≡ (feed (join bs) s.rx_asm).0)
        × (o.1.rx_asm ≡ (feed (join bs) s.rx_asm).1)
  pump_settled [] s e = rw e (refl, refl, refl)
  pump_settled ((now, b) ∷ bs) s e =
      let o = on_rx env now b s in
      let p = pump bs o.1 in
      let (h, k, a) = on_rx-heard now b s in
      let settled : feed [] o.1.rx_asm ≡ ([], o.1.rx_asm) = rw a (feed-settled s.rx_asm b) in
      let (h', k', a') = pump_settled bs o.1 settled in
      rw
        (
          heard-append o.0 p.0,
          heard_lines-append o.0 p.0,
          h,
          k,
          h',
          k',
          a',
          a,
          feed-append s.rx_asm b (join bs),
        )
        (refl, refl, refl)

  -- Whatever chunks the device's output arrives in, from a receiving assembler whose buffer holds no
  -- line feed, the data events hold all its bytes in order, the line events are the lines that the
  -- assembler makes of the whole, and the assembler is left as the whole leaves it.
  pub pump-heard :
      (bs : List (ℕ × Bytes)) (s : Session)
      → s.rx_asm.cr_ends_line ≡ false
      → NoLf s.rx_asm.buf
      → let o = pump bs s in
        (heard o.0 ≡ join bs)
        × (heard_lines o.0 ≡ (feed (join bs) s.rx_asm).0)
        × (o.1.rx_asm ≡ (feed (join bs) s.rx_asm).1)
  pump-heard bs s m h = pump_settled bs s (feed_nil s.rx_asm m h)
