-- ===== src/Client/Messages.antt =====
-- The wire of `SessionClient`: what it sends, the answer to its auth, `_handle`, and the end of its
-- link. Callbacks of the program that uses the client are not part of it.
use py_uart_proxy.Prelude.{
  ℕ, suc, String, Bool, true, false, not, ◌||◌, Option, none, some, List, [], ◌∷◌, ◌++◌, Bytes, any,
  str_eq, str_append, if◌then◌else◌, last_n as newest,
}
use py_uart_proxy.Prelude.Dict
use py_uart_proxy.Prelude.Dict.{Dict}
use py_uart_proxy.Prelude.Result.{Result, ok, value_error, ◌>>=◌, demand}
use py_uart_proxy.Json
use py_uart_proxy.Json.{Json, Fields, field, end, get_or, get_json, put_key, is_text, truthy}
use py_uart_proxy.LineAssembler
use py_uart_proxy.LineAssembler.{feed}
use py_uart_proxy.Server.{Role}
use py_uart_proxy.Server.Fanout.{merge, without}
use py_uart_proxy.Client.{Line, SessionClient, Tools, line_of, add, add_each, legacy_device}

abbrev pub is_full : Option Role → Bool
is_full (some Role.full) = true
is_full _ = false

-- `_require_full`, by role and link
unfoldable pub require_full : SessionClient → Result (Unit {0})
require_full c =
    if not (is_full c.role)
    then value_error "this session is shared read-only: it cannot be written to"
    else demand c.connected "not connected to the session"

abbrev pub eols : List String
eols = "crlf" ∷ "lf" ∷ "cr" ∷ "none" ∷ []

-- `send_text`: the message that goes out.
unfoldable pub send_text : String → String → SessionClient → Result Fields
send_text chars eol c = do
  known ← demand (any (str_eq eol) eols) "eol must be one of four"
  may ← require_full c
  ok (field "type" (Json.str "tx") (field "text" (Json.str chars) (field "eol" (Json.str eol) end)))

-- `send_hex`, of the bytes that its text stands for; `hex_of` is `bytes.hex`.
unfoldable pub send_hex : (Bytes → String) → Option Bytes → SessionClient → Result Fields
send_hex hex_of none c = value_error "not hex bytes"
send_hex hex_of (some bytes) c = do
  may ← require_full c
  ok (field "type" (Json.str "tx") (field "hex" (Json.str (hex_of bytes)) end))

-- `deque(maxlen=500)`
abbrev pub event_ring : ℕ
event_ring = 500

abbrev is_answer : Json → Bool
is_answer kind = is_text "watch_ok" kind || (is_text "watch_fail" kind || is_text "watch_list" kind)

-- The keys of a status that the device takes over.
abbrev taken_over : List String → Fields → Fields → Fields
taken_over [] msg device = device
taken_over (key ∷ keys) msg device =
    taken_over keys msg (if Json.has key msg then put_key key (get_json key msg) device else device)

abbrev add_once : String → List String → List String
add_once x xs = if any (str_eq x) xs then xs else x ∷ xs

module _ (tools : Tools) where
  abbrev or_old : Json → Json → Json
  or_old new' old = if truthy new' then new' else old

  abbrev last_output : ℕ → Fields → Fields → Fields
  last_output now msg device = put_key "last_output_epoch" (tools.epoch now) (
      put_key "last_output"
        (or_old (Json.str (tools.to_str (get_or "wall" (Json.str "") msg)))
          (get_json "last_output" device))
        device)

  abbrev pub partial_of : Bytes → Fields → SessionClient → Option Line
  partial_of [] msg c = none
  partial_of (b ∷ bs) msg c =
      some (line_of tools (tools.decode (b ∷ bs)) msg (suc c.last_n) false true)

  abbrev with_partial : ℕ → Fields → SessionClient → SessionClient
  with_partial now msg c = record c {
    device = last_output now msg c.device;
    partial = partial_of (LineAssembler.pending c.asm) msg c;
    partial_seq = suc c.partial_seq;
    last_activity = some now;
  }

  -- Bytes of the device: `_handle` of an rx whose hex is good.
  unfoldable pub hear : ℕ → Bytes → Fields → SessionClient → SessionClient
  hear now bytes msg c =
      let (raws, asm) = feed bytes c.asm in
      with_partial now msg (add_each tools now raws msg (record c { asm = asm }))

  abbrev hear_if : ℕ → Option Bytes → Fields → SessionClient → SessionClient
  hear_if now none msg c = c
  hear_if now (some bytes) msg c = hear now bytes msg c

  unfoldable pub handle_rx : ℕ → Fields → SessionClient → SessionClient
  handle_rx now msg c =
      hear_if now (tools.from_hex (tools.to_str (get_or "hex" (Json.str "") msg))) msg c

  unfoldable pub handle_replay : ℕ → Fields → SessionClient → SessionClient
  handle_replay now msg c =
      add tools now (tools.to_str (get_or "text" (Json.str "") msg)) msg true c

  unfoldable pub handle_status : Fields → SessionClient → SessionClient
  handle_status msg c =
      let state = tools.to_str (get_or "state" (Json.str c.state) msg) in
      record c {
        state = state;
        device =
            taken_over ("since" ∷ "since_epoch" ∷ "reconnects" ∷ "error" ∷ []) msg
              (put_key "state" (Json.str state) c.device);
      }

  -- An answer about a proposal: the later word on one that is pending is kept for whoever waits.
  unfoldable pub handle_proposal : Fields → SessionClient → SessionClient
  handle_proposal msg c =
      let pid = tools.to_str (get_json "id" msg) in
      let queued = record c { replies = c.replies ++ msg ∷ [] } in
      if is_text "pending" (get_json "status" msg)
      then record queued { awaiting = add_once pid c.awaiting }
      else if any (str_eq pid) c.awaiting
      then record c { decided = Dict.put pid msg c.decided }
      else queued

  unfoldable pub handle_trigger : Fields → SessionClient → SessionClient
  handle_trigger msg c = record c {
    events = newest event_ring (c.events ++ without "type" msg ∷ []);
  }

  -- `_handle`
  unfoldable pub handle : ℕ → Fields → SessionClient → SessionClient
  handle now msg c =
      let kind = get_json "type" msg in
      if is_answer kind
      then record c { replies = c.replies ++ msg ∷ [] }
      else if is_text "proposal" kind
      then handle_proposal msg c
      else if is_text "trigger" kind
      then handle_trigger msg c
      else if is_text "replay" kind
      then handle_replay now msg c
      else if is_text "rx" kind
      then handle_rx now msg c
      else if is_text "status" kind
      then handle_status msg c
      else c

  abbrev role_in : String → Option Role
  role_in name =
      if str_eq name "full"
      then some Role.full
      else if str_eq name "readonly"
      then some Role.readonly
      else none

  abbrev with_device : Json → SessionClient → SessionClient
  with_device (Json.obj d) c =
      let device = merge legacy_device d in
      record c { device = device; state = tools.to_str (get_json "state" device) }
  with_device _ c = c

  abbrev joined_as : Option Role → Fields → SessionClient → Result SessionClient
  joined_as none msg c = value_error "not a role"
  joined_as (some role) msg c =
      ok (record (with_device (get_json "device" msg) (record c { role = some role })) {
        connected = true;
        link_error = none;
      })

  -- `connect`, from the answer to its auth on.
  unfoldable pub welcomed : Fields → SessionClient → Result SessionClient
  welcomed msg c =
      if not (is_text "auth_ok" (get_json "type" msg))
      then value_error
          (str_append "refused: " (tools.to_str (get_or "reason" (Json.str "unknown") msg)))
      else joined_as (role_in (tools.to_str (get_or "role" (Json.str "readonly") msg))) msg c

-- The end of `_read_loop`.
unfoldable pub link_ended : SessionClient → SessionClient
link_ended c = record c {
  link_error = elim c.link_error [
    | some e ↦ some e
    | none ↦ if c.closing then none else some "the session closed the connection"
  ];
  connected = false;
}

unfoldable pub close : SessionClient → SessionClient
close c = record c { closing = true; connected = false }

-- The auth of `connect`.
abbrev pub hello : String → ℕ → String → Fields
hello code replay client_name =
    let given =
      field "type" (Json.str "auth")
        (field "code" (Json.str code) (field "replay" (Json.int (Json.pos replay)) end)) in
    if str_eq client_name "" then given else put_key "client" (Json.str client_name) given

module _ (tools : Tools) where
  -- The replay block of `connect`, up to its end: what is left of the messages after it.
  unfoldable pub take_replay : ℕ → List Fields → SessionClient → List Fields × SessionClient
  take_replay now [] c = ([], c)
  take_replay now (m ∷ ms) c =
      let later = take_replay now ms (handle tools now m c) in
      if is_text "replay_end" (get_json "type" m) then (ms, c) else later

  -- `_read_loop`: the messages in order, and the end of the link.
  unfoldable pub read_loop : ℕ → List Fields → SessionClient → SessionClient
  read_loop now [] c = link_ended c
  read_loop now (m ∷ ms) c = read_loop now ms (handle tools now m c)
