-- ===== src/Tests/Session.antt =====
-- A session over a short script.
use py_uart_proxy.Prelude.{ℕ, String, false, ◌≡◌, refl, true, none, List, [], ◌∷◌, Bytes}
use py_uart_proxy.Event.{Stamp}
use py_uart_proxy.LineAssembler.{feed, feed_loop, find_byte, rstrip, flush}
use py_uart_proxy.Session.{
  Env, new, write, wrote, end_session, publish_status, emit, note_health, flush_rx,
}
use py_uart_proxy.Session.Connection.{
  Read, chunk, silence, broken, Attempt, Opening, absent, opened, overtaken, run, manage, serve,
  read_loop, finish,
}
use py_uart_proxy.Session.Connection.Ending.{Ended, run-Ended}
use py_uart_proxy.Session.Numbering.{Numbers, Unsaid, run-Numbers}
use py_uart_proxy.Session.Pipeline.{heard, heard_lines}
use py_uart_proxy.Session.Stretches.{received, lines_of, read_loop-heard}

abbrev one_letter : Bytes → String
one_letter bytes = "a"

abbrev tick : ℕ → Stamp
tick n = record { wall = n; elapsed = n }

abbrev env : Env
env = record {
  clock = tick;
  decode = one_letter;
  description = "/dev/ttyUSB0";
  auto_reconnect = true;
}

-- Nobody there, then an "a" and a line feed, a lost device, and its return.
abbrev script : List Attempt
script =
    absent 1 "no such port"
    ∷ absent 2 "no such port"
    ∷ opened 3 (chunk 4 (97 ∷ 10 ∷ []) ∷ silence true ∷ broken 5 "gone" ∷ [])
    ∷ opened 6 []
    ∷ []

run-Ended_example : Ended env false (run env 9 script (new 0))
run-Ended_example = run-Ended env 9 script (new 0)

run-Numbers_example :
    Numbers env (new 0) (run env 9 script (new 0))
    × Numbers env (new 0) (write env (wrote 1) (97 ∷ []) none (new 0)).1
    × Unsaid (new 0) (write env (wrote 1) (97 ∷ []) none (new 0))
run-Numbers_example = run-Numbers env 9 script (new 0) (wrote 1) (97 ∷ []) none

abbrev turns : List Read
turns =
    chunk 1 (97 ∷ [])
    ∷ silence false
    ∷ chunk 2 (98 ∷ 13 ∷ 10 ∷ 99 ∷ [])
    ∷ silence true
    ∷ chunk 3 (10 ∷ [])
    ∷ []

read_loop-heard_example :
    let o = (read_loop env turns (new 0)).1 in
    (heard o.0 ≡ received turns) × (heard_lines o.0 ≡ lines_of [] turns (new 0).rx_asm)
read_loop-heard_example = read_loop-heard env turns (new 0) refl tt

-- The pending "c" is a line of its own, and so is the empty rest.
lines_of_runs : lines_of [] turns (new 0).rx_asm ≡ (97 ∷ 98 ∷ []) ∷ (99 ∷ []) ∷ [] ∷ []
unfolding feed feed_loop find_byte rstrip flush
lines_of_runs = refl

-- A device that is opened after `stop` has given up waiting for it is left as connected.
overtaken_runs : (run env 9 (overtaken 12 Opening.opens ∷ []) (new 0)).1.device_state ≡ "connected"
unfolding run manage end_session publish_status emit note_health serve read_loop flush_rx finish
    flush
overtaken_runs = refl
