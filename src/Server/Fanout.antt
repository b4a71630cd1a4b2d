-- ===== src/Server/Fanout.antt =====
-- From the session to the clients: `_serialize` and `_on_event`. An owner in an event is an object, as
-- the triggers check.
use py_uart_proxy.Prelude.{
  ℕ, String, Bool, true, false, ◌&&◌, Option, none, some, List, [], ◌∷◌, str_eq, if◌then◌else◌, map,
}
use py_uart_proxy.Json.{Json, Fields, ℤ, field, end, get_json, put_key}
use py_uart_proxy.Event.{Event, EventKind, Direction, is_line, is_tx}
use py_uart_proxy.Session.{Session}
use py_uart_proxy.Replay
use py_uart_proxy.Replay.{ReplayBuffer}
use py_uart_proxy.Server.{Calls, Client, Message, ProxyServer, enqueue, shutdown}

-- {**a, **b}
abbrev pub merge : Fields → Fields → Fields
merge a end = a
merge a (field k v rest) = merge (put_key k v a) rest

abbrev pub without : String → Fields → Fields
without key end = end
without key (field k v rest) =
    let later = without key rest in if str_eq k key then later else field k v later

abbrev owner_fields : Json → Fields
owner_fields (Json.obj fs) = fs
owner_fields _ = end

-- An owner as clients see it: its kind and its client's name.
abbrev shown_owner : Fields → Json
shown_owner owner =
    Json.obj (field "kind" (get_json "kind" owner) (field "client" (get_json "client" owner) end))

abbrev pub or_null : Option String → Json
or_null none = Json.null
or_null (some e) = Json.str e

module _ (calls : Calls) where
  -- seq, wall, elapsed and the rest of a message about an event
  abbrev pub stamped : Event → Fields → Fields
  stamped e rest = field "seq" (Json.int (ℤ.pos e.seq)) (
      field "wall" (Json.str (calls.world.wall_str e.stamp.wall))
        (field "elapsed" (Json.float (ℤ.pos e.stamp.elapsed)) rest))

  abbrev pub rx_message : Event → Fields
  rx_message e =
      field "type" (Json.str "rx") (
        stamped e
          (field "hex" (Json.str (calls.hex_of e.raw)) (field "text" (Json.str e.text) end)))

  abbrev serialize_data : Direction → Event → Option Fields
  serialize_data Direction.rx e = some (rx_message e)
  serialize_data _ e = none

  abbrev serialize_as : EventKind → Event → Option Fields
  serialize_as EventKind.data_chunk e = serialize_data e.direction e
  serialize_as EventKind.notice e = some (
      field "type" (Json.str "notice")
        (field "text" (Json.str e.text) (field "meta" (Json.obj e.meta) end)))
  serialize_as EventKind.status e = some (
      field "type" (Json.str "status")
        (field "state" (Json.str e.text) (field "meta" (Json.obj e.meta) end)))
  serialize_as EventKind.trigger e = some (
      merge (field "type" (Json.str "trigger") end) (
        put_key "owner" (shown_owner (owner_fields (get_json "owner" e.meta)))
          (without "owner" e.meta)))
  serialize_as EventKind.line e = none

  unfoldable pub serialize : Event → Option Fields
  serialize e = serialize_as e.kind e

  -- The health that goes with a status.
  abbrev health_fields : Session → Fields
  health_fields h = field "since" (Json.str (calls.world.wall_str h.device_since)) (
      field "since_epoch" (calls.epoch h.device_since) (
        field "reconnects" (Json.int (ℤ.pos h.reconnects))
          (field "error" (or_null h.device_error) end)))

  abbrev pub tx_echo : Event → Fields
  tx_echo e = field "type" (Json.str "tx_echo") (stamped e (field "text" (Json.str e.text) end))

  abbrev with_health : EventKind → Session → Fields → Fields
  with_health EventKind.status h m = merge m (health_fields h)
  with_health _ h m = m

  -- The message of an event, if it has one.
  unfoldable pub message_of : Bool → Session → Event → Option Fields
  unfolding serialize
  message_of echo_tx h e = elim (serialize e) [
    | some m ↦ some (with_health e.kind h m)
    | none ↦ if echo_tx && (is_line e.kind && is_tx e.direction) then some (tx_echo e) else none
  ]

  -- Who is not told: of an echo, the client that typed the line.
  abbrev pub skipped : Option String → Event → Option String
  skipped origin e = if is_line e.kind then origin else none

-- What becomes of a client by what its queue did with a line: one whose queue is full is dropped.
abbrev pub kept_or_dropped : Client → Bool × Client → Client
kept_or_dropped c (true, c') = c'
kept_or_dropped c (false, c') = record (shutdown c) { live = false }

-- One client is offered a line, if it is in the set.
unfoldable pub offer : Message → Client → Client
offer m c = if c.live then kept_or_dropped c (enqueue (some m) c) else c

abbrev pub is_skipped : Option String → Client → Bool
is_skipped none c = false
is_skipped (some cid) c = str_eq c.cid cid

abbrev pub offer_unless : Option String → Message → Client → Client
offer_unless skip m c = if is_skipped skip c then c else offer m c

abbrev pub fan_out : Option String → Option Fields → List Client → List Client
fan_out skip none clients = clients
fan_out skip (some m) clients = map (offer_unless skip m) clients

abbrev pub remember : (ℕ → String) → Event → Option ReplayBuffer → Option ReplayBuffer
remember wall_str e none = none
remember wall_str e (some b) = some (Replay.handle wall_str e b)

module _ (calls : Calls) where
  -- `_on_event`, by the client whose write this thread is in.
  unfoldable pub on_event : Option String → Event → ProxyServer → ProxyServer
  on_event origin e s = record s {
    clients = fan_out (skipped calls origin e) (message_of calls s.echo_tx s.session e) s.clients;
  }

  -- The session's bus: the replay buffer hears each event, and this server.
  -- The session's health, which the message of a status carries, is that after all of these events.
  unfoldable pub publish : Option String → List Event → ProxyServer → ProxyServer
  publish origin [] s = s
  publish origin (e ∷ es) s =
      publish origin es
        (on_event origin e (record s { replay = remember calls.world.wall_str e s.replay }))
