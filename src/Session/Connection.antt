-- ===== src/Session/Connection.antt =====
-- The connection manager, over a script of what the source does. The script's end is the moment at
-- which `stop` is called: `stop` marks the session stopped, the manager's thread ends, and `stop`
-- announces it. Where the script says that an open outlasts the 3 s that `stop` waits, `stop` announces
-- the end first, and the manager's thread goes on; the manager's other calls end within the 3 s. A
-- script that the manager does not use up belongs to a manager that gave up before.
pub mod Ending
use py_uart_proxy.Prelude.{
  ℕ, zero, suc, String, Bool, true, false, not, ◌&&◌, ◌||◌, Option, none, some, List, [], ◌∷◌, ◌++◌,
  Bytes, str_eq, if◌then◌else◌,
}
use py_uart_proxy.Json
use py_uart_proxy.Json.{Fields, field, end}
use py_uart_proxy.Event.{Event}
use py_uart_proxy.LineAssembler.{has_pending}
use py_uart_proxy.Session.{Env, Session, Out, ◌▸◌, on_rx, flush_rx, publish_status, end_session}

-- What one turn of `_read_loop` gets from the source: bytes, nothing (`due` tells whether the line has
-- been silent for longer than the idle flush), or an exception.
pub data Read : Type 0 where
  chunk : ℕ → Bytes → Read
  silence : Bool → Read
  broken : ℕ → String → Read

-- What a `source.open()` that outlasts `stop` does in the end.
pub data Opening : Type 0 where
  refuses fails : String → Opening
  opens : Opening

-- What `source.open()` does, and what the source gives while it is open. An `overtaken` one is under way
-- when `stop` is called, and ends, at the time given, only after the 3 s that `stop` waits.
pub data Attempt : Type 0 where
  refused : ℕ → String → Attempt
  absent : ℕ → String → Attempt
  opened : ℕ → List Read → Attempt
  overtaken : ℕ → Opening → Attempt

-- `str(exc) == last_wait`
abbrev pub same_wait : String → Option String → Bool
same_wait e none = false
same_wait e (some last) = str_eq e last

module _ (env : Env) where
  abbrev pub source_meta : Fields
  source_meta = field "source" (Json.str env.description) end

  abbrev pub idle_flush : Bool → Session → Out
  idle_flush due s = if has_pending s.rx_asm && due then flush_rx env s else ([], s)

  -- Whether `stop` ended the loop, and what it published. A source returns no empty chunk: that
  -- would be a silence.
  unfoldable pub read_loop : List Read → Session → Bool × Out
  read_loop [] s = (true, ([], s))
  read_loop (chunk now bytes ∷ rs) s =
      let (es, s') = on_rx env now bytes s in
      let (stopped, more) = read_loop rs s' in (stopped, (es ++ more.0, more.1))
  read_loop (silence due ∷ rs) s =
      let (es, s') = idle_flush due s in
      let (stopped, more) = read_loop rs s' in (stopped, (es ++ more.0, more.1))
  read_loop (broken now e ∷ rs) s =
      (false, publish_status env now "error" (field "error" (Json.str e) end) s)

  -- The lines of `_run_manager` below the loop.
  unfoldable pub finish : ℕ → Bool → Session → Out
  finish now was_refused s =
      let (first, s') = end_session (record s { connected = false }) in
      if first
      then publish_status env now "disconnected"
          (field "reason" (Json.str (if was_refused then "refused" else "gave up")) end) s'
      else ([], s')

  -- `stop()`, and with it the end of the manager's thread.
  unfoldable pub stop : ℕ → Session → Out
  stop now s =
      let (first, s') = end_session s in
      finish now false s' ▸ λ t.
      if first then publish_status env now "disconnected" end t else ([], t)

  abbrev pub wait_meta : String → Fields
  wait_meta e = field "source" (Json.str env.description) (field "error" (Json.str e) end)

  abbrev pub connect : ℕ → Session → Out
  connect now s = publish_status env now "connected" source_meta (record s { connected = true })

  -- Reading until a drop or `stop`, and closing the source.
  unfoldable pub serve : ℕ → List Read → Session → Bool × Out
  serve now reads s =
      let (es, s1) = connect now s in
      let (stopped, got) = read_loop reads s1 in
      let (es2, s2) = flush_rx env (record got.1 { connected = false }) in
      (stopped, (es ++ (got.0 ++ es2), s2))

  -- The turn of the loop whose `open` outlasted `stop`: the stop event is set, so that nothing is read
  -- and nothing is tried again.
  abbrev pub late : ℕ → Opening → Option String → Session → Out
  late t (Opening.refuses e) last s =
      publish_status env t "error"
        (field "source" (Json.str env.description)
          (field "error" (Json.str e) (field "refused" (Json.flag true) end)))
        s
  late t (Opening.fails e) last s =
      if same_wait e last then ([], s) else publish_status env t "waiting" (wait_meta e) s
  late t Opening.opens last s = (serve t [] s).1

  abbrev pub is_refusal : Opening → Bool
  is_refusal (Opening.refuses e) = true
  is_refusal _ = false

  -- `stop()` whose wait for the manager's thread timed out.
  abbrev pub stop_waiting : ℕ → Session → Out
  stop_waiting now s =
      let (first, s') = end_session s in
      if first then publish_status env now "disconnected" end s' else ([], s')

  -- `_run_manager`, with the last reason for waiting; `now` is the time at its end.
  unfoldable pub manage : ℕ → List Attempt → Option String → Session → Out
  manage now [] last s = stop now s
  manage now (overtaken t how ∷ rest) last s =
      let (es, s1) = stop_waiting now s in
      let (es2, s2) = late t how last s1 in
      let (es3, s3) = finish t (is_refusal how) s2 in (es ++ (es2 ++ es3), s3)
  manage now (refused t e ∷ rest) last s =
      publish_status env t "error"
        (field "source" (Json.str env.description)
          (field "error" (Json.str e) (field "refused" (Json.flag true) end)))
        s
      ▸ finish now true
  manage now (absent t e ∷ rest) last s =
      let (es, s1) =
        (if same_wait e last then ([], s) else publish_status env t "waiting" (wait_meta e) s) in
      let retry = manage now rest (some e) s1 in
      let gave_up = finish now false s1 in
      if not env.auto_reconnect then (es ++ gave_up.0, gave_up.1) else (es ++ retry.0, retry.1)
  manage now (opened t reads ∷ rest) last s =
      let (stopped, got) = serve t reads s in
      let (es, s1) = publish_status env now "reconnecting" source_meta got.1 in
      let retry = manage now rest none s1 in
      let gave_up = finish now false got.1 in
      let ended = stop now got.1 in
      if stopped
      then (got.0 ++ ended.0, ended.1)
      else if not env.auto_reconnect
      then (got.0 ++ gave_up.0, gave_up.1)
      else (got.0 ++ (es ++ retry.0), retry.1)

  -- `start`, the manager's run, and `stop`.
  unfoldable pub run : ℕ → List Attempt → Session → Out
  run now script s = manage now script none (record s { running = true })
