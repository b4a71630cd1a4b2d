-- ===== src/Replay.antt =====
-- `ReplayBuffer` of core/replay.py: the last lines of the device, for a client that attaches.
-- `wall_str` formats an instant and is a parameter.
pub mod Tail
use py_uart_proxy.Prelude.{
  ℕ, zero, suc, ◌-◌, String, Bool, true, false, not, ◌&&◌, ◌||◌, Option, none, some, List, [], ◌∷◌,
  ◌++◌, ltb, if◌then◌else◌, length, drop, last_n,
}
use py_uart_proxy.Json.{Json, Fields, ℤ}
use py_uart_proxy.Json
use py_uart_proxy.Event.{Event, is_line, is_rx}

pub record ReplayEntry : Type 0 where
  pub seq : ℕ
  pub wall : String
  pub elapsed : ℕ
  pub text : String

pub record ReplayBuffer : Type 0 where
  pub max_lines : ℕ
  pub entries : List ReplayEntry

-- `max(0, max_lines)`: a limit below 1 is 0 here, and disables the buffer.
abbrev pub new : ℕ → ReplayBuffer
new max_lines = record { max_lines = max_lines; entries = [] }

unfoldable pub enabled : ReplayBuffer → Bool
enabled s = ltb 0 s.max_lines

-- `deque.append` with a `maxlen`: the oldest entry falls out.
abbrev pub push : ℕ → List ReplayEntry → ReplayEntry → List ReplayEntry
push maxlen entries e = last_n maxlen (entries ++ e ∷ [])

module _ (wall_str : ℕ → String) where
  abbrev pub entry_of : Event → ReplayEntry
  entry_of event = record {
    seq = event.seq;
    wall = wall_str event.stamp.wall;
    elapsed = event.stamp.elapsed;
    text = event.text;
  }

  unfoldable pub handle : Event → ReplayBuffer → ReplayBuffer
  unfolding enabled
  handle event s =
      if not (enabled s)
      then s
      else if not (is_line event.kind) || not (is_rx event.direction)
      then s
      else record s { entries = push s.max_lines s.entries (entry_of event) }

-- Python's `xs[start:]`, where a negative start counts from the end.
abbrev pub slice_from : ℤ → List ReplayEntry → List ReplayEntry
slice_from (ℤ.pos start) xs = drop start xs
slice_from (ℤ.negsuc k) xs = last_n (suc k) xs

-- a - b as an integer
abbrev pub sub_int : ℕ → ℕ → ℤ
sub_int a b = if ltb a b then ℤ.negsuc (b - a - 1) else ℤ.pos (a - b)

-- `limit` is none or a number from 0 up, which is all that the callers pass (they refuse a negative
-- one, and here it would be no limit).
unfoldable pub snapshot : Option ℕ → ReplayBuffer → List ReplayEntry
snapshot none s = s.entries
snapshot (some limit) s =
    if ltb 0 limit then slice_from (sub_int (length s.entries) limit) s.entries else []

unfoldable pub count : ReplayBuffer → ℕ
count s = length s.entries
