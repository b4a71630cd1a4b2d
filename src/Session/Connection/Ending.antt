-- ===== src/Session/Connection/Ending.antt =====
-- However a session ends, it is announced once.
use py_uart_proxy.Prelude.{
  ℕ, ◌+◌, String, ◌≡◌, refl, ◌∙◌, inl, inr, ◌⊎◌, Bool, true, false, not, Option, none, some, List,
  [], ◌∷◌, ◌++◌, Bytes, str_eq, if◌then◌else◌, arith, count_if, count_if-append, length, Bool-cases,
}
use py_uart_proxy.Json.{Json, Fields, field, end}
use py_uart_proxy.Event.{Event, EventKind, Direction, announces}
use py_uart_proxy.LineAssembler.{feed}
use py_uart_proxy.Session.{
  Env, Session, Out, emit, emit_line, emit_lines, on_rx, flush_rx, note_health, publish_status,
  end_session,
}
use py_uart_proxy.Session.Connection.{
  Read, chunk, silence, broken, Attempt, Opening, refused, absent, opened, overtaken, late,
  is_refusal, stop_waiting, idle_flush, read_loop, finish, stop, connect, serve, manage, run,
  source_meta, wait_meta, same_wait,
}

abbrev pub ends : List Event → ℕ
ends = count_if (announces "disconnected")

-- Publishes no end, and leaves the session running or stopped as it was.
abbrev Silent : Session → Out → Type 0
Silent s o = (ends o.0 ≡ 0) × (o.1.running ≡ s.running)

-- Whether an attempt of the script outlasts `stop`.
abbrev pub has_overtaken : List Attempt → Bool
has_overtaken [] = false
has_overtaken (overtaken t how ∷ rest) = true
has_overtaken (refused t e ∷ rest) = has_overtaken rest
has_overtaken (absent t e ∷ rest) = has_overtaken rest
has_overtaken (opened t reads ∷ rest) = has_overtaken rest

module _ (env : Env) where
  Silent-then : (s : Session) (o p : Out) → Silent s o → Silent o.1 p → Silent s (o.0 ++ p.0, p.1)
  Silent-then s o p (a, b) (c, d) =
      (omega (arith, count_if-append (announces "disconnected") o.0 p.0), d ∙ b)

  emit_line-Silent :
      (d : Direction) (m : Fields) (l : Bytes) (s : Session) → Silent s (emit_line env d m l s)
  unfolding emit_line
  emit_line-Silent d m l s = (refl, refl)

  emit_lines-Silent :
      (d : Direction) (m : Fields) (ls : List Bytes) (s : Session)
      → Silent s (emit_lines env d m ls s)
  unfolding emit_lines
  emit_lines-Silent d m [] s = (refl, refl)
  emit_lines-Silent d m (l ∷ ls) s =
      let o = emit_line env d m l s in
      Silent-then s o (emit_lines env d m ls o.1) (emit_line-Silent d m l s)
        (emit_lines-Silent d m ls o.1)

  on_rx-Silent : (now : ℕ) (b : Bytes) (s : Session) → Silent s (on_rx env now b s)
  unfolding on_rx emit
  on_rx-Silent now b s =
      let (lines, asm) = feed b s.rx_asm in
      let counted = record s { rx_bytes = s.rx_bytes + length b; last_output = some now } in
      let o = emit env EventKind.data_chunk Direction.rx b (env.decode b) end counted in
      Silent-then s o (emit_lines env Direction.rx end lines (record o.1 { rx_asm = asm }))
        (refl, refl) (emit_lines-Silent Direction.rx end lines (record o.1 { rx_asm = asm }))

  flush_rx-Silent : (s : Session) → Silent s (flush_rx env s)
  unfolding flush_rx emit_line
  flush_rx-Silent s = ground arith

  idle_flush-Silent : (due : Bool) (s : Session) → Silent s (idle_flush env due s)
  idle_flush-Silent due s = ground (arith, flush_rx-Silent s)

  publish_status-Silent :
      (now : ℕ) (state : String) (m : Fields) (s : Session)
      → str_eq state "disconnected" ≡ false
      → Silent s (publish_status env now state m s)
  unfolding publish_status emit note_health
  publish_status-Silent now state m s h = ground arith

  read_loop-Silent : (rs : List Read) (s : Session) → Silent s (read_loop env rs s).1
  unfolding read_loop
  read_loop-Silent [] s = (refl, refl)
  read_loop-Silent (chunk now b ∷ rs) s =
      let o = on_rx env now b s in
      Silent-then s o (read_loop env rs o.1).1 (on_rx-Silent now b s) (read_loop-Silent rs o.1)
  read_loop-Silent (silence due ∷ rs) s =
      let o = idle_flush env due s in
      Silent-then s o (read_loop env rs o.1).1 (idle_flush-Silent due s) (read_loop-Silent rs o.1)
  read_loop-Silent (broken now e ∷ rs) s = publish_status-Silent now "error" _ s refl

  serve-Silent : (now : ℕ) (rs : List Read) (s : Session) → Silent s (serve env now rs s).1
  unfolding serve
  serve-Silent now rs s =
      let o = connect env now s in
      let got = (read_loop env rs o.1).1 in
      let closed = flush_rx env (record got.1 { connected = false }) in
      Silent-then s o (got.0 ++ closed.0, closed.1)
        (publish_status-Silent now "connected" _ (record s { connected = true }) refl)
        (Silent-then o.1 got closed (read_loop-Silent rs o.1)
          (flush_rx-Silent (record got.1 { connected = false })))

  -- What a session that has ended looks like, its end announced once; `late` tells whether the device may
  -- have been opened after that.
  abbrev pub Ended : Bool → Out → Type 0
  Ended late o =
      (ends o.0 ≡ 1)
      × (o.1.running ≡ false)
      × (o.1.connected ≡ false)
      × ((o.1.device_state ≡ "disconnected") ⊎ (late ≡ true))

  finish-Ended :
      (late : Bool) (now : ℕ) (r : Bool) (s : Session)
      → s.running ≡ true
      → Ended late (finish env now r s)
  unfolding finish end_session publish_status emit note_health
  finish-Ended late now r s h = rw h (refl, refl, refl, inl refl)

  stop-Ended :
      (late : Bool) (now : ℕ) (s : Session) → s.running ≡ true → Ended late (stop env now s)
  unfolding stop finish end_session publish_status emit note_health
  stop-Ended late now s h = rw h (refl, refl, refl, inl refl)

  Ended-then :
      (late : Bool) (s : Session) (o p : Out)
      → Silent s o
      → Ended late p
      → Ended late (o.0 ++ p.0, p.1)
  Ended-then late s o p (a, b) (c, d, e, f) =
      (omega (arith, count_if-append (announces "disconnected") o.0 p.0), d, e, f)

  waiting : ℕ → String → Option String → Session → Out
  waiting t e last s =
      if same_wait e last then ([], s) else publish_status env t "waiting" (wait_meta env e) s

  waiting-Silent :
      (t : ℕ) (e : String) (last : Option String) (s : Session) → Silent s (waiting t e last s)
  unfolding waiting
  waiting-Silent t e last s = elim (Bool-cases (same_wait e last)) [
    | inl k ↦ rw k (refl, refl)
    | inr k ↦ rw k (publish_status-Silent t "waiting" _ s refl)
  ]

  late-Silent :
      (t : ℕ) (how : Opening) (last : Option String) (s : Session)
      → Silent s (late env t how last s)
  unfolding waiting
  late-Silent t (Opening.refuses e) last s = publish_status-Silent t "error" _ s refl
  late-Silent t (Opening.fails e) last s = waiting-Silent t e last s
  late-Silent t Opening.opens last s = serve-Silent t [] s

  stop_waiting-tells :
      (now : ℕ) (s : Session)
      → s.running ≡ true
      → (ends (stop_waiting env now s).0 ≡ 1) × ((stop_waiting env now s).1.running ≡ false)
  unfolding end_session publish_status emit note_health
  stop_waiting-tells now s h = rw h (refl, refl)

  -- A manager that finishes after `stop` says nothing more.
  finish-again :
      (now : ℕ) (r : Bool) (s : Session)
      → s.running ≡ false
      → let o = finish env now r s in
        (ends o.0 ≡ 0) × (o.1.running ≡ false) × (o.1.connected ≡ false)
  unfolding finish end_session
  finish-again now r s h = rw h (refl, refl, refl)

  manage-Ended :
      (now : ℕ) (script : List Attempt) (last : Option String) (s : Session)
      → s.running ≡ true
      → Ended (has_overtaken script) (manage env now script last s)
  unfolding manage waiting
  manage-Ended now [] last s h = stop-Ended false now s h
  manage-Ended now (overtaken t how ∷ rest) last s h =
      let o = stop_waiting env now s in
      let p = late env t how last o.1 in
      let q = finish env t (is_refusal env how) p.1 in
      let (told, ended) = stop_waiting-tells now s h in
      let (a, b) = late-Silent t how last o.1 in
      let (c, d, e) = finish-again t (is_refusal env how) p.1 (b ∙ ended) in
      (
        omega (
          arith,
          told,
          a,
          c,
          count_if-append (announces "disconnected") o.0 (p.0 ++ q.0),
          count_if-append (announces "disconnected") p.0 q.0,
        ),
        d,
        e,
        inr refl,
      )
  manage-Ended now (refused t e ∷ rest) last s h =
      let m =
        field "source" (Json.str env.description)
          (field "error" (Json.str e) (field "refused" (Json.flag true) end)) in
      let o = publish_status env t "error" m s in
      let q = publish_status-Silent t "error" m s refl in
      Ended-then (has_overtaken rest) s o (finish env now true o.1) q
        (finish-Ended (has_overtaken rest) now true o.1 (q.1 ∙ h))
  manage-Ended now (absent t e ∷ rest) last s h =
      let o = waiting t e last s in
      let q = waiting-Silent t e last s in
      elim (Bool-cases (not env.auto_reconnect)) [
        | inl k ↦ rw k (
            Ended-then (has_overtaken rest) s o (finish env now false o.1) q
              (finish-Ended (has_overtaken rest) now false o.1 (q.1 ∙ h)))
        | inr k ↦ rw k (
            Ended-then (has_overtaken rest) s o (manage env now rest (some e) o.1) q
              (manage-Ended now rest (some e) o.1 (q.1 ∙ h)))
      ]
  manage-Ended now (opened t reads ∷ rest) last s h =
      let o = (serve env t reads s).1 in
      let q = serve-Silent t reads s in
      let p = publish_status env now "reconnecting" (source_meta env) o.1 in
      let r = publish_status-Silent now "reconnecting" (source_meta env) o.1 refl in
      elim (Bool-cases (serve env t reads s).0) [
        | inl k ↦ rw k (
            Ended-then (has_overtaken rest) s o (stop env now o.1) q
              (stop-Ended (has_overtaken rest) now o.1 (q.1 ∙ h)))
        | inr k ↦ rw k (elim (Bool-cases (not env.auto_reconnect)) [
          | inl a ↦ rw a (
              Ended-then (has_overtaken rest) s o (finish env now false o.1) q
                (finish-Ended (has_overtaken rest) now false o.1 (q.1 ∙ h)))
          | inr a ↦ rw a (
              Ended-then (has_overtaken rest) s o
                (p.0 ++ (manage env now rest none p.1).0, (manage env now rest none p.1).1) q
                (Ended-then (has_overtaken rest) o.1 p (manage env now rest none p.1) r
                  (manage-Ended now rest none p.1 (r.1 ∙ (q.1 ∙ h)))))
        ])
      ]

-- However a session ends (`stop` at any moment, a refusal, a missing or lost device without
-- reconnecting), from its start on exactly one status says `disconnected`, and in the end it is neither
-- running nor connected. Its device's state is then `disconnected`, unless `stop` came during an attempt
-- to open the device that took longer than the 3 s that `stop` waits for it.
pub run-Ended :
    (env : Env) (now : ℕ) (script : List Attempt) (s : Session)
    → Ended env (has_overtaken script) (run env now script s)
unfolding run
run-Ended env now script s = manage-Ended env now script none (record s { running = true }) refl
