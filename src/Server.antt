-- ===== src/Server.antt =====
-- `ProxyServer` and `_Client` of proxy/server.py, and `Role`, EOL_MAP and decode_message of
-- proxy/protocol.py. A message stands for the line that it is encoded to. Every connection that is
-- served is in `clients`, and `live` says whether it is in `_clients`, the set that events go to.
pub mod Fanout
pub mod Stream
pub mod Reach
pub mod Handshake
pub mod Admission
pub mod Requests
pub mod Proposals
pub mod ReadOnly
pub mod Capacity
use py_uart_proxy.Prelude.{
  ℕ, zero, suc, ◌+◌, String, Bool, true, false, not, ◌&&◌, Option, none, some, List, [], ◌∷◌, ◌++◌,
  Bytes, str_eq, if◌then◌else◌, length, ltb, map,
}
use py_uart_proxy.Prelude.Dict.{Dict}
use py_uart_proxy.Prelude.Result.{Result, ok, value_error, raised}
use py_uart_proxy.Json
use py_uart_proxy.Json.{Json, Fields, ℤ, field, end}
use py_uart_proxy.Event.{Event}
use py_uart_proxy.Session.{Env, Session, Written}
use py_uart_proxy.Replay.{ReplayBuffer}
use py_uart_proxy.AuthLimiter.{AuthLimiter}
use py_uart_proxy.Triggers.{Triggers, Rule, Spec}
use py_uart_proxy.Triggers.Firing.{World}
use py_uart_proxy.Triggers.Pattern.{Python}

pub data Role : Type 0 where
  full readonly : Role

abbrev pub role_text : Role → String
role_text Role.full = "full"
role_text Role.readonly = "readonly"

-- What goes to a client.
abbrev pub Message : Type 0
Message = Fields

-- A line of the queue, or the None that stops the writer.
pub record Client : Type 0 where
  pub cid : String
  pub role : Option Role
  pub name : String
  pub address : String
  pub endpoint : String
  pub told : List Message
  pub queue : List (Option Message)
  pub live : Bool
  pub connected : Bool

-- `propose` of the policy may raise.
pub record ProxyServer : Type 0 where
  pub sid : String
  pub auth : Dict Role
  pub limiter : AuthLimiter
  pub max_clients : ℕ
  pub echo_tx : Bool
  pub active : ℕ
  pub clients : List Client
  pub replay : Option ReplayBuffer
  pub session : Session
  pub sizes : List (ℤ × ℤ)
  pub triggers : Option Triggers
  pub max_watches : ℕ
  pub propose : Option (Spec → Client → Result Bool)
  pub next_cid : ℕ
  pub next_pid : ℕ

-- What the server calls and the model does not define: the triggers' parameters, Python's, JSON of a
-- line, whether a line is blank, `int`, `bytes.fromhex`, `bytes.hex`, an instant as seconds since the epoch, the
-- end of the text about a refused address, and whether the source takes a window size.
pub record Calls : Type 0 where
  pub world : World
  pub python : Python
  pub loads : Bytes → Option Json
  pub blank : Bytes → Bool
  pub int_of : Json → Option ℤ
  pub from_hex : Json → Result Bytes
  pub hex_of : Bytes → String
  pub epoch : ℕ → Json
  pub ban_text : AuthLimiter → String
  pub resizable : Bool

abbrev pub send_queue_max : ℕ
send_queue_max = 10000

abbrev pub client_name_max : ℕ
client_name_max = 64

-- `_Client(conn, addr)`
abbrev pub new_client : String → String → String → Client
new_client cid address endpoint = record {
  cid = cid;
  role = none;
  name = "";
  address = address;
  endpoint = endpoint;
  told = [];
  queue = [];
  live = false;
  connected = true;
}

-- `put_nowait`: false where the queue is full.
unfoldable pub enqueue : Option Message → Client → Bool × Client
enqueue line c =
    if ltb (length c.queue) send_queue_max
    then (true, record c { queue = c.queue ++ line ∷ [] })
    else (false, c)

-- `shutdown`: the writer's None, where there is room, and the socket closed.
unfoldable pub shutdown : Client → Client
unfolding enqueue
shutdown c = record ((enqueue none c).1) { connected = false }

-- What a send to the socket makes of a line, which is lost once the socket is closed.
abbrev pub send_now : Message → Client → Client
send_now m c = if c.connected then record c { told = c.told ++ m ∷ [] } else c

abbrev pub take_line : List (Option Message) → Client → Client
take_line [] c = c
take_line (none ∷ rest) c = record c { queue = rest; connected = false }
take_line (some m ∷ rest) c = send_now m (record c { queue = rest })

-- One round of `_writer_loop`. It ends at the None, after which nothing is sent.
unfoldable pub write_next : Client → Client
write_next c = if c.connected then take_line c.queue c else c

abbrev pub at : String → (Client → Client) → Client → Client
at cid f c = if str_eq c.cid cid then f c else c

abbrev pub at_client : String → (Client → Client) → ProxyServer → ProxyServer
at_client cid f s = record s { clients = map (at cid f) s.clients }

-- `_reply`
unfoldable pub reply : Client → Message → ProxyServer → ProxyServer
reply c m s = at_client c.cid (λ k. (enqueue (some m) k).1) s

abbrev pub typed : String → Fields → Message
typed type' rest = field "type" (Json.str type') rest

abbrev pub notice : String → Message
notice chars = typed "notice" (field "text" (Json.str chars) end)

abbrev object_in : Option Json → Result Fields
object_in none = value_error "invalid JSON"
object_in (some (Json.obj fs)) = ok fs
object_in (some j) = value_error "message must be a JSON object"

unfoldable pub decode_message : (Bytes → Option Json) → Bytes → Result Fields
decode_message loads line = object_in (loads line)
