-- ===== src/Tests/Client.antt =====
-- A client of the server at concrete inputs.
use py_uart_proxy.Prelude.{
  ℕ, ◌≡◌, ◌≢◌, refl, ap, ◌==◌, ◌&&◌, String, Bool, true, false, Option, none, some, List, [], ◌∷◌,
  arith, map, last_n,
}
use mathlib.Core.Bool.{true≢false}
use py_uart_proxy.Json.{Json, ℤ, end}
use py_uart_proxy.Session
use py_uart_proxy.LineAssembler
use py_uart_proxy.LineAssembler.{has_pending, feed, feed_loop, find_byte}
use py_uart_proxy.Session.Connection.{Read, chunk, silence, read_loop}
use py_uart_proxy.Session.Pipeline.{heard_lines}
use py_uart_proxy.Client
use py_uart_proxy.Client.{Line, SessionClient, Tools, line_of, add}
use py_uart_proxy.Client.Reading.{read}
use py_uart_proxy.Client.Kept.{IsKept, Complete, read-Complete}
use py_uart_proxy.Client.EndToEnd.{deliver, deliver-read_loop}
use py_uart_proxy.Client.Shows.{texts, shown}
use py_uart_proxy.Tests.Server.{calls}

abbrev as_text : Json → String
as_text (Json.str s) = s
as_text _ = ""

abbrev no_time : Json → String
no_time j = "0.0"

abbrev pub tools : Tools
tools = record {
  to_str = as_text;
  from_hex = λ s. some (97 ∷ 10 ∷ []);
  decode = λ b. "a";
  clean_text = λ s. s;
  elapsed_of = no_time;
  epoch = λ n. Json.int (ℤ.pos n);
}

abbrev pub a_line : ℕ → Line
a_line n = line_of tools "a" end n false false

abbrev has_one : Option ℕ → Bool
has_one none = false
has_one (some n) = n == 1

abbrev pub two : List Line
two = a_line 1 ∷ a_line 2 ∷ []

-- Room for one line, after two.
abbrev pub small : SessionClient
small = record (Client.new 1) { lines = a_line 2 ∷ []; last_n = 2 }

pub small-IsKept : IsKept two small
unfolding line_of
small-IsKept = record {
  holds = refl;
  counts = refl;
  numbered = (refl, (refl, tt));
  has_room = omega arith;
}

abbrev one : Option ℕ
one = some 1

abbrev all : Option ℕ
all = some 0

one_differs : one ≢ all
one_differs e = true≢false (ap (λ o. has_one o) e)

read-Complete_example : Complete two 0 (read 0 one small)
read-Complete_example = read-Complete two small 0 one small-IsKept one_differs

abbrev turns : List Read
turns = chunk 1 (97 ∷ 10 ∷ []) ∷ silence true ∷ []

-- The line feed leaves nothing pending.
nothing_pending : (has_pending (feed (97 ∷ 10 ∷ []) (LineAssembler.new false)).1 && true) ≡ false
unfolding has_pending feed feed_loop find_byte
nothing_pending = refl

deliver-read_loop_example :
    let o = (read_loop calls.world.session turns (Session.new 0)).1 in
    let c = deliver calls tools true (Session.new 0) 9 o.0 (Client.new 5) in
    texts c.lines ≡ last_n c.max_lines (map (shown tools) (heard_lines o.0))
deliver-read_loop_example =
    deliver-read_loop calls tools true (Session.new 0) (Session.new 0) 9 5 turns (refl, tt) refl
      (nothing_pending, tt)
