-- ===== src/Tests/Lines.antt =====
-- The line assembler and the replay buffer at concrete inputs.
use py_uart_proxy.Prelude.{
  ℕ, ◌-◌, String, ◌≡◌, refl, false, none, some, List, [], ◌∷◌, ◌++◌, Bytes, arith, All, last_n,
  length, min,
}
use py_uart_proxy.LineAssembler.{LineAssembler, feed, feed_loop, find_byte, rstrip}
use py_uart_proxy.LineAssembler.Chunks.{then_feed, feed-append}
use py_uart_proxy.LineAssembler.Lines.{IsDeviceLine}
use py_uart_proxy.Json
use py_uart_proxy.Event.{Event, EventKind, Direction}
use py_uart_proxy.Replay
use py_uart_proxy.Replay.{ReplayBuffer, ReplayEntry, handle, snapshot, count, enabled}
use py_uart_proxy.Replay.Tail.{handle_all, history, snapshot-history, snapshot_beyond}

abbrev half_line : LineAssembler
half_line = record { buf = 65 ∷ 13 ∷ []; cr_ends_line = false; after_cr = false }

feed-append_example :
    feed ((10 ∷ 66 ∷ []) ++ (10 ∷ [])) half_line
    ≡ then_feed (feed (10 ∷ 66 ∷ []) half_line) (10 ∷ [])
feed-append_example = feed-append half_line (10 ∷ 66 ∷ []) (10 ∷ [])

feed_runs :
    feed (10 ∷ 66 ∷ 10 ∷ 67 ∷ []) half_line
    ≡ ((65 ∷ []) ∷ (66 ∷ []) ∷ [], record half_line { buf = 67 ∷ [] })
unfolding feed feed_loop find_byte rstrip
feed_runs = refl

abbrev boot_lines : List Bytes
boot_lines = (66 ∷ 67 ∷ []) ∷ [] ∷ []

boot_lines-IsDeviceLine : All IsDeviceLine boot_lines
unfolding rstrip
boot_lines-IsDeviceLine = (
  record { no_lf = omega arith; no_trailing_cr = refl },
  (record { no_lf = tt; no_trailing_cr = refl }, tt),
)

abbrev said : ℕ → String → Event
said n text = record {
  kind = EventKind.line;
  direction = Direction.rx;
  stamp = record { wall = n; elapsed = n };
  seq = n;
  raw = [];
  text = text;
  meta = Json.end;
}

abbrev boot : List Event
boot = said 1 "U-Boot" ∷ said 2 "Starting kernel" ∷ said 3 "login:" ∷ []

abbrev one_clock : ℕ → String
one_clock n = "08:40:10"

count-boot : count (handle_all one_clock boot (Replay.new 2)) ≡ 2
unfolding count handle
count-boot = refl

snapshot-history_example :
    (snapshot none (handle_all one_clock boot (Replay.new 2)) ≡ last_n 2 (history one_clock boot))
    × (snapshot (some 1) (handle_all one_clock boot (Replay.new 2))
        ≡ last_n 1 (history one_clock boot))
snapshot-history_example =
    snapshot-history one_clock 2 boot (omega arith) 1 (omega (arith, count-boot))

three_kept : count (handle_all one_clock boot (Replay.new 2000)) ≡ 3
unfolding count handle
three_kept = refl

-- Four lines asked for, three there, one given.
snapshot_beyond_example :
    length (snapshot (some 4) (handle_all one_clock boot (Replay.new 2000)))
    ≡ min
        (4 - count (handle_all one_clock boot (Replay.new 2000)))
        (count (handle_all one_clock boot (Replay.new 2000)))
snapshot_beyond_example =
    snapshot_beyond (handle_all one_clock boot (Replay.new 2000)) 4 (omega (arith, three_kept))
