-- ===== src/Tests/Recording.antt =====
-- A recorder, its files loaded, and the players at concrete inputs.
use py_uart_proxy.Prelude.{
  ℕ, String, str_eq, true, false, ◌≡◌, refl, Option, none, some, List, [], ◌∷◌, ◌++◌, Bytes, arith,
  map, if◌then◌else◌,
}
use py_uart_proxy.Json
use py_uart_proxy.Json.{ℤ}
use py_uart_proxy.Event.{Event, EventKind, Direction}
use py_uart_proxy.Recording.{Reads, load, add_rows, add_row, add_rest, parse_row}
use py_uart_proxy.Recording.Timeline.{IsWhole, load-IsWhole}
use py_uart_proxy.Player.{Action, Effect, play_to_stream, play_chunks}
use py_uart_proxy.Player.Stream.{Plays, play_to_stream-load}
use py_uart_proxy.Recorder.{Texts, Part, timing_of, handle_all, set_banner, new, wants}
use py_uart_proxy.Recorder.Rotation.{heard, handle_all-new}
use py_uart_proxy.Recorder.Kept.{bytes_of, IsKept}
use py_uart_proxy.Recorder.Playback.{walls, elapseds, ends_from, AllRead, load-timing_of}

-- Two rows of three columns, and one that is no row.
abbrev split : String → List String
split row =
    if str_eq row "r1"
    then "5" ∷ "1" ∷ "2" ∷ []
    else if str_eq row "r2"
    then "9" ∷ "5" ∷ "1" ∷ []
    else row ∷ []

abbrev number : String → Option ℕ
number text =
    if str_eq text "1"
    then some 1
    else if str_eq text "2"
    then some 2
    else if str_eq text "5"
    then some 5
    else if str_eq text "9"
    then some 9
    else none

abbrev as_int : Option ℕ → Option ℤ
as_int none = none
as_int (some n) = some (ℤ.pos n)

abbrev reads : Reads
reads = record {
  split = split;
  is_comment = λ row. false;
  float = number;
  int = λ text. as_int (number text);
}

abbrev log : Bytes
log = 65 ∷ 66 ∷ 67 ∷ 68 ∷ []

abbrev rows : Option (List String)
rows = some ("r1" ∷ "junk" ∷ "r2" ∷ [])

load-IsWhole_example :
    let rec = load reads log rows none in IsWhole 4 rec.times rec.elapsed rec.ends
load-IsWhole_example = load-IsWhole reads log rows none

-- The last byte has no row, and comes with the last chunk's stamp.
load_runs :
    ((load reads log rows none).times ≡ 5 ∷ 9 ∷ 9 ∷ [])
    × ((load reads log rows none).ends ≡ 2 ∷ 3 ∷ 4 ∷ [])
unfolding load add_rows add_row add_rest parse_row
load_runs = (refl, refl)

play_to_stream-load_example : Plays 4 2 log (play_to_stream 4 2 0 (load reads log rows none))
play_to_stream-load_example = play_to_stream-load reads log rows none 4 2 0

play_to_stream_runs :
    play_to_stream 4 2 0 (load reads log rows none)
    ≡ Effect.write (65 ∷ 66 ∷ [])
      ∷ Effect.sleep 2
      ∷ Effect.write (67 ∷ [])
      ∷ Effect.write (68 ∷ [])
      ∷ []
unfolding play_to_stream play_chunks load add_rows add_row add_rest parse_row
play_to_stream_runs = refl

-- A terminal that keeps what it was fed.
abbrev append : Bytes → Bytes → Bytes
append bytes screen = screen ++ bytes

abbrev cleared : Bytes → Bytes
cleared screen = []

abbrev keys : List Action
keys = Action.tick 0 ∷ Action.tick 3 ∷ Action.toggle ∷ Action.seek_back ∷ []

abbrev row_text : ℕ → ℕ → ℕ → String
row_text wall elapsed size = "r1"

abbrev texts : Texts
texts = record {
  elapsed_str = λ n. "0";
  wall_str = λ n. "now";
  timing_row = row_text;
  continues = λ n. "continues";
  begins = λ n files. "part";
  utf8_length = λ text. 4;
}

abbrev chunk : Event
chunk = record {
  kind = EventKind.data_chunk;
  direction = Direction.rx;
  stamp = record { wall = 5; elapsed = 1 };
  seq = 1;
  raw = 65 ∷ 66 ∷ [];
  text = "";
  meta = Json.Fields.end;
}

abbrev earlier : List Part
earlier =
    record {
      number = 3;
      files = record { raw = some []; relative = none; full = none; timing = none };
    }
    ∷ []

handle_all-new_example : IsKept texts earlier (heard (chunk ∷ chunk ∷ chunk ∷ [])) (
    handle_all texts
      (chunk ∷ chunk ∷ chunk ∷ [])
      (set_banner ("b" ∷ []) (new (wants true true false true) false 2 1 earlier)))
handle_all-new_example =
    handle_all-new texts earlier true false false 2 1 ("b" ∷ []) (chunk ∷ chunk ∷ chunk ∷ [])

chunk-AllRead : AllRead reads texts (chunk ∷ [])
chunk-AllRead = ((refl, ("5", "1", "2", refl, refl, refl, refl)), tt)

load-timing_of_example :
    let rec = load reads (bytes_of (chunk ∷ [])) (some (map (timing_of texts) (chunk ∷ []))) none in
    (rec.bytes ≡ bytes_of (chunk ∷ []))
    × (rec.times ≡ walls (chunk ∷ []))
    × (rec.elapsed ≡ elapseds (chunk ∷ []))
    × (rec.ends ≡ ends_from 0 (chunk ∷ []))
load-timing_of_example =
    load-timing_of reads texts (chunk ∷ []) none (omega arith) (omega arith) chunk-AllRead
