-- ===== src/Session/Numbering.antt =====
-- Events carry consecutive numbers, whatever the session does.
use py_uart_proxy.Prelude.{
  ℕ, suc, String, ◌≡◌, refl, sym, inl, inr, Bool, true, false, not, ◌&&◌, Option, none, some, List,
  [], ◌∷◌, ◌++◌, Bytes, if◌then◌else◌, arith, Bool-cases, Option-cases, length, subst, ◌+◌,
}
use py_uart_proxy.Json.{Json, Fields, field, end}
use py_uart_proxy.Event.{Event, EventKind, Direction}
use py_uart_proxy.LineAssembler.{feed, flush, has_pending}
use py_uart_proxy.Session.{
  Env, Session, Out, Written, wrote, failed, emit, emit_line, emit_lines, on_rx, write, write_when,
  flush_rx, note_health, publish_status, end_session, origin_meta,
}
use py_uart_proxy.Session.Connection.{
  Read, chunk, silence, broken, Attempt, Opening, refused, absent, opened, overtaken, late,
  is_refusal, stop_waiting, idle_flush, read_loop, finish, stop, connect, serve, manage, run,
  source_meta, wait_meta, same_wait,
}

module _ (env : Env) where
  -- The events are numbered from `n` on, one after the other, and `m` is the next number.
  abbrev pub Numbered : ℕ → List Event → ℕ → Type 0
  Numbered n [] m = n ≡ m
  Numbered n (e ∷ es) m = (e.seq ≡ n) × Numbered (suc n) es m

  Numbered-append :
      (n m k : ℕ) (es fs : List Event) → Numbered n es m → Numbered m fs k → Numbered n (es ++ fs) k
  Numbered-append n m k [] fs h g = subst (λ t. Numbered t fs k) (sym h) g
  Numbered-append n m k (e ∷ es) fs h g = (h.0, Numbered-append (suc n) m k es fs h.1 g)

  abbrev pub Numbers : Session → Out → Type 0
  Numbers s o = Numbered s.next_seq o.0 o.1.next_seq

  Numbers-then :
      (s : Session) (o p : Out) → Numbers s o → Numbers o.1 p → Numbers s (o.0 ++ p.0, p.1)
  Numbers-then s o p = Numbered-append s.next_seq o.1.next_seq p.1.next_seq o.0 p.0

  emit-Numbers :
      (k : EventKind) (d : Direction) (b : Bytes) (t : String) (m : Fields) (s : Session)
      → Numbers s (emit env k d b t m s)
  unfolding emit
  emit-Numbers k d b t m s = (refl, refl)

  emit_lines-Numbers :
      (d : Direction) (m : Fields) (ls : List Bytes) (s : Session)
      → Numbers s (emit_lines env d m ls s)
  unfolding emit_lines emit_line
  emit_lines-Numbers d m [] s = refl
  emit_lines-Numbers d m (l ∷ ls) s =
      let o = emit env EventKind.line d l (env.decode l) m s in
      Numbers-then s o (emit_lines env d m ls o.1)
        (emit-Numbers EventKind.line d l (env.decode l) m s) (emit_lines-Numbers d m ls o.1)

  on_rx-Numbers : (now : ℕ) (b : Bytes) (s : Session) → Numbers s (on_rx env now b s)
  unfolding on_rx
  on_rx-Numbers now b s =
      let (lines, asm) = feed b s.rx_asm in
      let counted = record s { rx_bytes = s.rx_bytes + length b; last_output = some now } in
      let o = emit env EventKind.data_chunk Direction.rx b (env.decode b) end counted in
      Numbers-then s o (emit_lines env Direction.rx end lines (record o.1 { rx_asm = asm }))
        (emit-Numbers EventKind.data_chunk Direction.rx b (env.decode b) end counted)
        (emit_lines-Numbers Direction.rx end lines (record o.1 { rx_asm = asm }))

  write_when-Numbers :
      (c : Bool) (w : Written) (b : Bytes) (o : Option Json) (s : Session)
      → Numbers s (write_when env c w b o s).1
  unfolding write_when
  write_when-Numbers false w b origin s = refl
  write_when-Numbers true (failed e) b origin s = refl
  write_when-Numbers true (wrote n) b origin s =
      let (lines, asm) = feed b s.tx_asm in
      let m = origin_meta origin in
      let counted = record s { tx_bytes = s.tx_bytes + n } in
      let o = emit env EventKind.data_chunk Direction.tx b (env.decode b) m counted in
      let q = record o.1 { tx_asm = asm } in
      Numbers-then s o (emit_lines env Direction.tx m lines q)
        (emit-Numbers EventKind.data_chunk Direction.tx b (env.decode b) m counted)
        (emit_lines-Numbers Direction.tx m lines q)

  flush_rx-Numbers : (s : Session) → Numbers s (flush_rx env s)
  unfolding flush_rx emit_line emit
  flush_rx-Numbers s = elim (Option-cases (flush s.rx_asm).0) [
    | inl e ↦ rw (e, flush_rx) refl
    | inr (raw, e) ↦ rw (e, flush_rx) (refl, refl)
  ]

  idle_flush-Numbers : (due : Bool) (s : Session) → Numbers s (idle_flush env due s)
  idle_flush-Numbers due s = elim (Bool-cases (has_pending s.rx_asm && due)) [
    | inl e ↦ rw e (flush_rx-Numbers s)
    | inr e ↦ rw e refl
  ]

  publish_status-Numbers :
      (now : ℕ) (state : String) (m : Fields) (s : Session)
      → Numbers s (publish_status env now state m s)
  unfolding publish_status emit note_health
  publish_status-Numbers now state m s = ground arith

  read_loop-Numbers : (rs : List Read) (s : Session) → Numbers s (read_loop env rs s).1
  unfolding read_loop
  read_loop-Numbers [] s = refl
  read_loop-Numbers (chunk now b ∷ rs) s =
      let o = on_rx env now b s in
      Numbers-then s o (read_loop env rs o.1).1 (on_rx-Numbers now b s) (read_loop-Numbers rs o.1)
  read_loop-Numbers (silence due ∷ rs) s =
      let o = idle_flush env due s in
      Numbers-then s o (read_loop env rs o.1).1 (idle_flush-Numbers due s)
        (read_loop-Numbers rs o.1)
  read_loop-Numbers (broken now e ∷ rs) s = publish_status-Numbers now "error" _ s

  finish-Numbers : (now : ℕ) (r : Bool) (s : Session) → Numbers s (finish env now r s)
  unfolding finish end_session publish_status emit note_health
  finish-Numbers now r s = ground arith

  stop-Numbers : (now : ℕ) (s : Session) → Numbers s (stop env now s)
  unfolding stop finish end_session publish_status emit note_health
  stop-Numbers now s = ground arith

  serve-Numbers : (now : ℕ) (rs : List Read) (s : Session) → Numbers s (serve env now rs s).1
  unfolding serve
  serve-Numbers now rs s =
      let o = connect env now s in
      let got = (read_loop env rs o.1).1 in
      let closed = flush_rx env (record got.1 { connected = false }) in
      Numbers-then s o (got.0 ++ closed.0, closed.1)
        (publish_status-Numbers now "connected" _ (record s { connected = true }))
        (Numbers-then o.1 got closed (read_loop-Numbers rs o.1)
          (flush_rx-Numbers (record got.1 { connected = false })))

  waiting-Numbers :
      (t : ℕ) (e : String) (last : Option String) (s : Session)
      → Numbers s
          (if same_wait e last then ([], s) else publish_status env t "waiting" (wait_meta env e) s)
  waiting-Numbers t e last s = elim (Bool-cases (same_wait e last)) [
    | inl k ↦ rw k refl
    | inr k ↦ rw k (publish_status-Numbers t "waiting" _ s)
  ]

  late-Numbers :
      (t : ℕ) (how : Opening) (last : Option String) (s : Session)
      → Numbers s (late env t how last s)
  late-Numbers t (Opening.refuses e) last s = publish_status-Numbers t "error" _ s
  late-Numbers t (Opening.fails e) last s = waiting-Numbers t e last s
  late-Numbers t Opening.opens last s = serve-Numbers t [] s

  stop_waiting-Numbers : (now : ℕ) (s : Session) → Numbers s (stop_waiting env now s)
  unfolding end_session publish_status emit note_health
  stop_waiting-Numbers now s = ground arith

  manage-Numbers :
      (now : ℕ) (script : List Attempt) (last : Option String) (s : Session)
      → Numbers s (manage env now script last s)
  unfolding manage
  manage-Numbers now [] last s = stop-Numbers now s
  manage-Numbers now (overtaken t how ∷ rest) last s =
      let o = stop_waiting env now s in
      let p = late env t how last o.1 in
      let q = finish env t (is_refusal env how) p.1 in
      Numbers-then s o (p.0 ++ q.0, q.1) (stop_waiting-Numbers now s)
        (Numbers-then o.1 p q (late-Numbers t how last o.1)
          (finish-Numbers t (is_refusal env how) p.1))
  manage-Numbers now (refused t e ∷ rest) last s =
      let m =
        field "source" (Json.str env.description)
          (field "error" (Json.str e) (field "refused" (Json.flag true) end)) in
      let o = publish_status env t "error" m s in
      Numbers-then s o (finish env now true o.1) (publish_status-Numbers t "error" m s)
        (finish-Numbers now true o.1)
  manage-Numbers now (absent t e ∷ rest) last s =
      let o : Out =
        (if same_wait e last
          then ([], s)
          else publish_status env t "waiting" (wait_meta env e) s) in
      let q = waiting-Numbers t e last s in
      elim (Bool-cases (not env.auto_reconnect)) [
        | inl k ↦
            rw k (Numbers-then s o (finish env now false o.1) q (finish-Numbers now false o.1))
        | inr k ↦ rw k (
            Numbers-then s o (manage env now rest (some e) o.1) q
              (manage-Numbers now rest (some e) o.1))
      ]
  manage-Numbers now (opened t reads ∷ rest) last s =
      let o = (serve env t reads s).1 in
      let q = serve-Numbers t reads s in
      let p = publish_status env now "reconnecting" (source_meta env) o.1 in
      let more = manage env now rest none p.1 in
      elim (Bool-cases (serve env t reads s).0) [
        | inl k ↦ rw k (Numbers-then s o (stop env now o.1) q (stop-Numbers now o.1))
        | inr k ↦ rw k (elim (Bool-cases (not env.auto_reconnect)) [
          | inl a ↦
              rw a (Numbers-then s o (finish env now false o.1) q (finish-Numbers now false o.1))
          | inr a ↦ rw a (
              Numbers-then s o (p.0 ++ more.0, more.1) q
                (Numbers-then o.1 p more (publish_status-Numbers now "reconnecting" _ o.1)
                  (manage-Numbers now rest none p.1)))
        ])
      ]

-- Where the write fails, it publishes nothing and changes nothing of the session.
abbrev pub Unsaid : Session → Written × Out → Type 0
Unsaid s (wrote n, o) = Unit
Unsaid s (failed e, o) = (o.0 ≡ []) × (o.1 ≡ s)

write_when-Unsaid :
    (env : Env) (c : Bool) (w : Written) (b : Bytes) (origin : Option Json) (s : Session)
    → Unsaid s (write_when env c w b origin s)
unfolding write_when
write_when-Unsaid env false w b origin s = (refl, refl)
write_when-Unsaid env true (failed e) b origin s = (refl, refl)
write_when-Unsaid env true (wrote n) b origin s = tt

-- Whatever the source does, the events of a session's run are numbered one after the other from the
-- session's next number on; and so are those of a write, and a write that fails, because the session is
-- not connected or because the source raises, publishes nothing and leaves the session as it was.
pub run-Numbers :
    (env : Env) (now : ℕ) (script : List Attempt) (s : Session) (w : Written) (b : Bytes)
    (origin : Option Json)
    → Numbers env s (run env now script s)
      × Numbers env s (write env w b origin s).1
      × Unsaid s (write env w b origin s)
unfolding run write
run-Numbers env now script s w b origin = (
  manage-Numbers env now script none (record s { running = true }),
  write_when-Numbers env s.connected w b origin s,
  write_when-Unsaid env s.connected w b origin s,
)
