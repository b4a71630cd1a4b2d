-- ===== src/Tests/Server.antt =====
-- A server with one client at concrete inputs.
use py_uart_proxy.Prelude.{
  refl, Bool, true, false, Option, none, some, List, [], ◌∷◌, Bytes, str_eq,
}
use py_uart_proxy.Prelude.Result.{ok, Gives}
use py_uart_proxy.Json.{Json, Fields, ℤ, field, end}
use py_uart_proxy.Event.{Event, EventKind, Direction}
use py_uart_proxy.Session
use py_uart_proxy.AuthLimiter
use py_uart_proxy.Triggers
use py_uart_proxy.Replay
use py_uart_proxy.Server.{Calls, Client, Message, ProxyServer, Role, new_client, typed, notice}
use py_uart_proxy.Server.Stream.{
  Turn, offered, replied, drained, run, offers, Received, run-Received,
}
use py_uart_proxy.Server.ReadOnly.{Untouched, handle-Untouched}
use py_uart_proxy.Server.Proposals.{handle}
use py_uart_proxy.Tests.Triggers.{tick}
use py_uart_proxy.Tests.Rules.{plain, counting}

-- A line of one byte is read as the auth with it, any other as a ping.
abbrev read_json : Bytes → Option Json
read_json (b ∷ []) =
    some (Json.obj (field "type" (Json.str "auth") (field "code" (Json.str "1234") end)))
read_json _ = some (Json.obj (field "type" (Json.str "ping") end))

abbrev is_blank : Bytes → Bool
is_blank [] = true
is_blank (b ∷ bs) = false

abbrev no_number : Json → Option ℤ
no_number j = none

abbrev pub calls : Calls
calls = record {
  world = counting;
  python = plain;
  loads = read_json;
  blank = is_blank;
  int_of = no_number;
  from_hex = λ j. ok (65 ∷ []);
  hex_of = λ b. "610a";
  epoch = λ n. Json.int (ℤ.pos n);
  ban_text = λ l. " for 10 min";
  resizable = true;
}

abbrev viewer : Client
viewer = record (new_client "c1" "10.0.0.2" "10.0.0.2:4000") {
  role = some Role.readonly;
  live = true;
}

abbrev newcomer : Client
newcomer = new_client "c2" "10.0.0.3" "10.0.0.3:4000"

abbrev server : ProxyServer
server = record {
  sid = "s1";
  auth = ("1234", Role.full) ∷ [];
  limiter = AuthLimiter.new 10 60 600;
  max_clients = 2;
  echo_tx = true;
  active = 2;
  clients = viewer ∷ newcomer ∷ [];
  replay = some (Replay.new 100);
  session = Session.new 0;
  sizes = [];
  triggers = some (Triggers.new 0);
  max_watches = 3;
  propose = none;
  next_cid = 3;
  next_pid = 1;
}

abbrev an_event : Event
an_event = record {
  kind = EventKind.notice;
  direction = Direction.sys;
  stamp = tick 1;
  seq = 1;
  raw = [];
  text = "hello";
  meta = end;
}

abbrev is_notice : Message → Bool
is_notice (field k (Json.str s) rest) = str_eq s "notice"
is_notice _ = false

abbrev turns : List Turn
turns = offered (notice "a") ∷ replied (typed "pong" end) ∷ drained ∷ offered (notice "b") ∷ []

run-Received_example : Received is_notice viewer (offers turns) (run turns viewer)
run-Received_example =
    run-Received is_notice turns viewer (refl, refl, tt) (refl, (refl, (tt, (refl, tt))))

abbrev typing : Fields
typing = field "type" (Json.str "tx") (field "text" (Json.str "reboot") end)

handle-Untouched_example : Gives (Untouched calls "r1" server) (handle calls viewer typing server)
handle-Untouched_example = handle-Untouched calls "r1" viewer refl typing server
