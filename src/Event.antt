-- ===== src/Event.antt =====
-- core/events.py and the `Stamp` of core/timestamp.py: one thing that happened, on both time axes.
use py_uart_proxy.Prelude.{ℕ, String, Bytes, Bool, true, false, str_eq}
use py_uart_proxy.Json.{Fields}

pub data EventKind : Type 0 where
  data_chunk line notice status trigger : EventKind

pub data Direction : Type 0 where
  rx tx sys : Direction

-- `wall` is an instant of the local clock, `elapsed` the ticks since the session started.
pub record Stamp : Type 0 where
  pub wall : ℕ
  pub elapsed : ℕ

pub record Event : Type 0 where
  pub kind : EventKind
  pub direction : Direction
  pub stamp : Stamp
  pub seq : ℕ
  pub raw : Bytes
  pub text : String
  pub meta : Fields

abbrev pub is_line : EventKind → Bool
is_line EventKind.line = true
is_line _ = false

abbrev pub is_data : EventKind → Bool
is_data EventKind.data_chunk = true
is_data _ = false

abbrev pub is_rx : Direction → Bool
is_rx Direction.rx = true
is_rx _ = false

abbrev pub is_tx : Direction → Bool
is_tx Direction.tx = true
is_tx _ = false

-- A status event that announces `state`.
abbrev pub announces : String → Event → Bool
announces state e = elim e.kind [ EventKind.status ↦ str_eq e.text state | _ ↦ false ]
