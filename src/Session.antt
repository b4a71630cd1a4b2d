-- ===== src/Session.antt =====
-- `UartSession` of core/session.py: the pump from a source to events. A method returns the events
-- that it publishes, in order, and the new state. The n-th event is stamped `clock n`; `decode` is
-- `bytes.decode`, `description` the source's name, and both are parameters, as the clock is.
pub mod Connection
pub mod Numbering
pub mod Pipeline
pub mod Stretches
use py_uart_proxy.Prelude.{
  ℕ, zero, suc, ◌+◌, String, Bool, true, false, not, ◌&&◌, ◌||◌, Option, none, some, List, [], ◌∷◌,
  ◌++◌, Bytes, str_eq, if◌then◌else◌, length,
}
use py_uart_proxy.Json
use py_uart_proxy.Json.{Json, Fields, field, end}
use py_uart_proxy.Event.{Event, EventKind, Direction, Stamp}
use py_uart_proxy.LineAssembler
use py_uart_proxy.LineAssembler.{LineAssembler, feed, flush}

pub record Env : Type 0 where
  pub clock : ℕ → Stamp
  pub decode : Bytes → String
  pub description : String
  pub auto_reconnect : Bool

pub record Session : Type 0 where
  pub device_state : String
  pub device_since : ℕ
  pub device_error : Option String
  pub reconnects : ℕ
  pub ever_connected : Bool
  pub last_output : Option ℕ
  pub rx_asm : LineAssembler
  pub tx_asm : LineAssembler
  pub next_seq : ℕ
  pub running : Bool
  pub connected : Bool
  pub rx_bytes : ℕ
  pub tx_bytes : ℕ

abbrev pub new : ℕ → Session
new now = record {
  device_state = "connecting";
  device_since = now;
  device_error = none;
  reconnects = 0;
  ever_connected = false;
  last_output = none;
  rx_asm = LineAssembler.new false;
  tx_asm = LineAssembler.new true;
  next_seq = 1;
  running = false;
  connected = false;
  rx_bytes = 0;
  tx_bytes = 0;
}

abbrev pub Out : Type 0
Out = List Event × Session

infixl 5 ◌▸◌
-- One method after another.
abbrev pub ◌▸◌ : Out → (Session → Out) → Out
(es, s) ▸ f = let (es', s') = f s in (es ++ es', s')

-- What became of a write: the source's count, or the exception's text.
pub data Written : Type 0 where
  wrote : ℕ → Written
  failed : String → Written

-- `_end`: true for whichever caller marks the session stopped.
unfoldable pub end_session : Session → Bool × Session
end_session s = if s.running then (true, record s { running = false }) else (false, s)

-- `{"origin": origin} if origin is not None else {}`
abbrev pub origin_meta : Option Json → Fields
origin_meta none = end
origin_meta (some origin) = field "origin" origin end

module _ (env : Env) where
  -- `_emit(Event(…, seq=next(self._seq)))`
  unfoldable pub emit : EventKind → Direction → Bytes → String → Fields → Session → Out
  emit kind direction raw text meta s = (
    record {
      kind = kind;
      direction = direction;
      stamp = env.clock s.next_seq;
      seq = s.next_seq;
      raw = raw;
      text = text;
      meta = meta;
    }
        ∷ [],
    record s { next_seq = suc s.next_seq },
  )

  unfoldable pub emit_line : Direction → Fields → Bytes → Session → Out
  unfolding emit
  emit_line direction meta raw s = emit EventKind.line direction raw (env.decode raw) meta s

  unfoldable pub emit_lines : Direction → Fields → List Bytes → Session → Out
  emit_lines direction meta [] s = ([], s)
  emit_lines direction meta (l ∷ ls) s = emit_line direction meta l s ▸ emit_lines direction meta ls

  -- `_on_rx`; `now` is the wall clock.
  unfoldable pub on_rx : ℕ → Bytes → Session → Out
  on_rx now chunk s =
      let (lines, asm) = feed chunk s.rx_asm in
      emit EventKind.data_chunk Direction.rx chunk (env.decode chunk) end
        (record s { rx_bytes = s.rx_bytes + length chunk; last_output = some now })
      ▸ λ t. emit_lines Direction.rx end lines (record t { rx_asm = asm })

  -- `write`, by whether the source is open and what `source.write` does with the bytes.
  unfoldable pub write_when : Bool → Written → Bytes → Option Json → Session → Written × Out
  write_when false source chunk origin s =
      (failed "not connected (waiting for the device)", ([], s))
  write_when true (failed e) chunk origin s = (failed e, ([], s))
  write_when true (wrote n) chunk origin s =
      let (lines, asm) = feed chunk s.tx_asm in
      (
        wrote n,
        emit EventKind.data_chunk Direction.tx chunk (env.decode chunk) (origin_meta origin)
              (record s { tx_bytes = s.tx_bytes + n })
            ▸ λ t. emit_lines Direction.tx (origin_meta origin) lines (record t { tx_asm = asm }),
      )

  unfoldable pub write : Written → Bytes → Option Json → Session → Written × Out
  unfolding write_when
  write source chunk origin s = write_when s.connected source chunk origin s

  unfoldable pub flush_rx : Session → Out
  flush_rx s = elim (flush s.rx_asm).0 [
    | none ↦ ([], s)
    | some raw ↦ emit_line Direction.rx end raw (record s { rx_asm = (flush s.rx_asm).1 })
  ]

  -- The part of `_publish_status` under the health lock.
  unfoldable pub note_health : ℕ → String → Fields → Session → Session
  note_health now state meta s =
      let since =
        if not (str_eq state s.device_state) || str_eq state "connected"
        then now
        else s.device_since in
      if str_eq state "connected"
      then record s {
        reconnects = if s.ever_connected then suc s.reconnects else s.reconnects;
        ever_connected = true;
        device_error = none;
        device_since = since;
        device_state = state;
      }
      else record s {
        device_error = elim (Json.get "error" meta) [
          | some (Json.str e) ↦ some e
          | _ ↦ s.device_error
        ];
        device_since = since;
        device_state = state;
      }

  unfoldable pub publish_status : ℕ → String → Fields → Session → Out
  publish_status now state meta s =
      emit EventKind.status Direction.sys [] state meta (note_health now state meta s)

  unfoldable pub publish_remote_tx : String → Session → Out
  publish_remote_tx text =
      emit EventKind.line Direction.tx [] text (field "remote" (Json.flag true) end)

  unfoldable pub publish_notice : String → Fields → Session → Out
  publish_notice text meta = emit EventKind.notice Direction.sys [] text meta
