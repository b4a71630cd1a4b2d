-- ===== src/Client.antt =====
-- `SessionClient` of client.py: the lines that it numbers and keeps, and its messages. A method's time,
-- where it has one, is an argument. The text of a line is made by `clean_text` and its time by
-- `format_elapsed`, which are parameters, as are `str`, `int`, the decoding of bytes and a search.
pub mod Reading
pub mod Messages
pub mod Requests
pub mod Shows
pub mod Kept
pub mod EndToEnd
use py_uart_proxy.Prelude.{
  ℕ, zero, suc, ◌+◌, ◌-◌, max, String, Bool, true, false, not, ◌&&◌, Option, none, some, List, [],
  ◌∷◌, ◌++◌, Bytes, last_n as newest,
}
use py_uart_proxy.Prelude.Dict.{Dict}
use py_uart_proxy.Json
use py_uart_proxy.Json.{Json, Fields, field, end, get_or}
use py_uart_proxy.LineAssembler
use py_uart_proxy.LineAssembler.{LineAssembler}
use py_uart_proxy.Server.{Role}

pub record Line : Type 0 where
  pub n : ℕ
  pub wall : String
  pub elapsed : String
  pub text : String
  pub replayed : Bool
  pub partial : Bool

pub record SessionClient : Type 0 where
  pub max_lines : ℕ
  pub lines : List Line
  pub last_n : ℕ
  pub asm : LineAssembler
  pub partial : Option Line
  pub partial_seq : ℕ
  pub role : Option Role
  pub state : String
  pub connected : Bool
  pub device : Fields
  pub last_activity : Option ℕ
  pub link_error : Option String
  pub closing : Bool
  pub replies : List Fields
  pub events : List Fields
  pub awaiting : List String
  pub decided : Dict Fields

pub record Tools : Type 0 where
  pub to_str : Json → String
  pub from_hex : String → Option Bytes
  pub decode : Bytes → String
  pub clean_text : String → String
  pub elapsed_of : Json → String
  pub epoch : ℕ → Json

-- _LEGACY_DEVICE
abbrev pub legacy_device : Fields
legacy_device = field "state" (Json.str "connected") (
    field "since" Json.null (
      field "since_epoch" Json.null (
        field "error" Json.null (
          field "reconnects" (Json.int (Json.pos 0))
            (field "last_output" Json.null (field "last_output_epoch" Json.null end))))))

-- `deque(maxlen=max(1, max_lines))`
abbrev pub new : ℕ → SessionClient
new max_lines = record {
  max_lines = max 1 max_lines;
  lines = [];
  last_n = 0;
  asm = LineAssembler.new false;
  partial = none;
  partial_seq = 0;
  role = none;
  state = "connected";
  connected = false;
  device = legacy_device;
  last_activity = none;
  link_error = none;
  closing = false;
  replies = [];
  events = [];
  awaiting = [];
  decided = [];
}

module _ (tools : Tools) where
  -- `_line`
  unfoldable pub line_of : String → Fields → ℕ → Bool → Bool → Line
  line_of chars msg n replayed partial = record {
    n = n;
    wall = tools.to_str (get_or "wall" (Json.str "") msg);
    elapsed = tools.elapsed_of (get_or "elapsed" (Json.float (Json.pos 0)) msg);
    text = tools.clean_text chars;
    replayed = replayed;
    partial = partial;
  }

  -- `_add`: a deque of the last `max_lines`.
  unfoldable pub add : ℕ → String → Fields → Bool → SessionClient → SessionClient
  add now chars msg replayed c = record c {
    last_n = suc c.last_n;
    lines = newest c.max_lines (c.lines ++ line_of chars msg (suc c.last_n) replayed false ∷ []);
    last_activity = some now;
  }

  unfoldable pub add_each : ℕ → List Bytes → Fields → SessionClient → SessionClient
  add_each now [] msg c = c
  add_each now (raw ∷ raws) msg c = add_each now raws msg (add now (tools.decode raw) msg false c)
