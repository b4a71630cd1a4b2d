-- ===== src/Triggers.antt =====
-- core/triggers.py: rules that watch the session's events and act. A rule's `when` is kept apart from
-- the rest of its spec. Times are whole ticks of 10⁻⁴ s; the hash of a rule's content is a parameter
-- wherever it is used.
pub mod Limits
pub mod Cases
pub mod Pace
pub mod Firing
pub mod Safety
pub mod Approval
pub mod Watching
pub mod Quiet
pub mod Device
pub mod Rules
pub mod Chunks
pub mod Pattern
pub mod Normalise
pub mod Sound
pub mod View
pub mod Adding
pub mod Fresh
pub mod Loading
pub mod Kept
pub mod Loaded
use py_uart_proxy.Prelude.{
  ℕ, String, Bool, true, false, ◌||◌, Option, none, some, List, [], ◌∷◌, Bytes, any,
}
use py_uart_proxy.Prelude.Dict.{Dict}
use py_uart_proxy.Json.{Json, Fields}

-- What a rule watches for: a pattern in a line (text or regular expression) of one direction, bytes,
-- a silence of so long, or a state of the device.
pub data When : Type 0 where
  literal : String → Bool → String → When
  regex : String → Bool → String → When
  hex : Bytes → When
  silence : ℕ → When
  state : String → When

pub record Limit : Type 0 where
  pub once : Bool
  pub cooldown : ℕ
  pub max_per_minute : ℕ
  pub after : ℕ
  pub window : ℕ

abbrev pub default_limit : Limit
default_limit = record {
  once = false;
  cooldown = 10000;
  max_per_minute = 30;
  after = 1;
  window = 600000;
}

-- A send has a text and the name of its line ending, or bytes.
pub data Action : Type 0 where
  event mark notify : Action
  send_text : String → String → Action
  send_hex : Bytes → Action

pub record Spec : Type 0 where
  pub name : String
  pub owner : Json
  pub enabled : Bool
  pub on : When
  pub limit : Limit
  pub context : ℕ
  pub actions : List Action
  pub only_port : Json
  pub approved : Option String

pub record Rule : Type 0 where
  pub id : String
  pub spec : Spec
  pub disabled_reason : Option String
  pub fired : ℕ
  pub last_fire : Option ℕ
  pub fire_times : List ℕ
  pub match_times : List ℕ
  pub sent : List (String × ℕ)
  pub silent_fired : Bool

-- `_Rule(rid, spec)`
abbrev pub new_rule : String → Spec → Rule
new_rule rid spec = record {
  id = rid;
  spec = spec;
  disabled_reason = none;
  fired = 0;
  last_fire = none;
  fire_times = [];
  match_times = [];
  sent = [];
  silent_fired = false;
}

abbrev pub is_send : Action → Bool
is_send (send_text chars eol) = true
is_send (send_hex bytes) = true
is_send _ = false

-- `level_of`: 1 as soon as one action sends.
abbrev pub level_of : List Action → Bool
level_of actions = any is_send actions

abbrev pub set_enabled : Bool → Option String → Rule → Rule
set_enabled on reason r = record r {
  spec = record r.spec { enabled = on };
  disabled_reason = reason;
}

-- `Triggers`, without its clock, its timer and its file.
pub record Triggers : Type 0 where
  pub rules : Dict Rule
  pub next_id : ℕ
  pub next_seq : ℕ
  pub events : List Fields
  pub recent_lines : List String
  pub hex_tail : Bytes
  pub last_rx : ℕ
  pub connected : Bool
  pub ever_connected : Bool
  pub dropped : Bool

abbrev pub new : ℕ → Triggers
new now = record {
  rules = [];
  next_id = 1;
  next_seq = 1;
  events = [];
  recent_lines = [];
  hex_tail = [];
  last_rx = now;
  connected = false;
  ever_connected = false;
  dropped = false;
}
