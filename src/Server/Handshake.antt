-- ===== src/Server/Handshake.antt =====
-- A connection's start: accept, `_handle_client`, `_authenticate`, `_reject`, and the replay.
use py_uart_proxy.Prelude.{
  ℕ, zero, suc, String, Bool, true, false, not, Option, none, some, List, [], ◌∷◌, ◌++◌, Bytes,
  str_append, if◌then◌else◌, length,
}
use py_uart_proxy.Prelude.Dict
use py_uart_proxy.Prelude.Dict.{Dict}
use py_uart_proxy.Prelude.Result.{Result, ok}
use py_uart_proxy.Json.{Json, Fields, ℤ, field, end, get_json, get_or, get_or_else, is_text}
use py_uart_proxy.Session.{Session, Out, publish_notice}
use py_uart_proxy.Replay
use py_uart_proxy.Replay.{ReplayBuffer, ReplayEntry}
use py_uart_proxy.AuthLimiter.{AuthLimiter, banned_for, record_failure, record_success}
use py_uart_proxy.Server.{
  Calls, Client, Message, ProxyServer, Role, role_text, client_name_max, new_client, send_now,
  at_client, typed, decode_message,
}
use py_uart_proxy.Server.Fanout.{publish, or_null}

abbrev pub auth_fail : String → Message
auth_fail reason = typed "auth_fail" (field "reason" (Json.str reason) end)

-- `_send_now`
abbrev pub tell : Client → Message → ProxyServer → ProxyServer
tell c m s = at_client c.cid (send_now m) s

-- The replay's entry as a message.
abbrev pub replay_message : ReplayEntry → Message
replay_message e = typed "replay" (
    field "seq" (Json.int (ℤ.pos e.seq)) (
      field "wall" (Json.str e.wall)
        (field "elapsed" (Json.float (ℤ.pos e.elapsed)) (field "text" (Json.str e.text) end))))

abbrev first_wall : List ReplayEntry → Json
first_wall [] = Json.null
first_wall (e ∷ es) = Json.str e.wall

abbrev last_wall : List ReplayEntry → Json
last_wall [] = Json.null
last_wall (e ∷ []) = Json.str e.wall
last_wall (e ∷ f ∷ es) = last_wall (f ∷ es)

abbrev replay_end : List ReplayEntry → Message
replay_end es = typed "replay_end" (
    field "count" (Json.int (ℤ.pos (length es)))
      (field "from" (first_wall es) (field "to" (last_wall es) end)))

abbrev tell_each : Client → List ReplayEntry → ProxyServer → ProxyServer
tell_each c [] s = s
tell_each c (e ∷ es) s = tell_each c es (tell c (replay_message e) s)

unfoldable pub send_replay : Client → Option (List ReplayEntry) → ProxyServer → ProxyServer
send_replay c none s = s
send_replay c (some es) s = tell c (replay_end es) (tell_each c es s)

abbrev snapshot_of : ℕ → Option ReplayBuffer → List ReplayEntry
snapshot_of limit none = []
snapshot_of limit (some b) = Replay.snapshot (some limit) b

abbrev count_of : Option ReplayBuffer → ℕ
count_of none = 0
count_of (some b) = Replay.count b

abbrev entries_for : Option ℤ → Option ReplayBuffer → Option (List ReplayEntry)
entries_for none b = none
entries_for (some (ℤ.pos zero)) b = none
entries_for (some (ℤ.pos (suc n))) b = some (snapshot_of (suc n) b)
entries_for (some (ℤ.negsuc n)) b = none

module _ (calls : Calls) where
  -- `_replay_entries`; `int(None)` is no number either. That the exception may be
  -- an OverflowError (of an infinite float), which the source does not catch, is left out.
  unfoldable pub replay_entries : Json → ProxyServer → Option (List ReplayEntry)
  replay_entries requested s = entries_for (calls.int_of requested) s.replay

  abbrev last_text : Option ℕ → Json
  last_text none = Json.null
  last_text (some t) = Json.str (calls.world.wall_str t)

  abbrev last_epoch : Option ℕ → Json
  last_epoch none = Json.null
  last_epoch (some t) = calls.epoch t

  -- `_wire_health` of `device_health`
  abbrev wire_health : Session → Fields
  wire_health h = field "state" (Json.str h.device_state) (
      field "since" (Json.str (calls.world.wall_str h.device_since)) (
        field "since_epoch" (calls.epoch h.device_since) (
          field "error" (or_null h.device_error) (
            field "reconnects" (Json.int (ℤ.pos h.reconnects)) (
              field "last_output" (last_text h.last_output)
                (field "last_output_epoch" (last_epoch h.last_output) end))))))

  abbrev auth_ok : ℕ → Role → ProxyServer → Message
  auth_ok elapsed role s = typed "auth_ok" (
      field "role" (Json.str (role_text role)) (
        field "source" (Json.str calls.world.session.description) (
          field "replay_available" (Json.int (ℤ.pos (count_of s.replay))) (
            field "elapsed" (Json.float (ℤ.pos elapsed))
              (field "device" (Json.obj (wire_health s.session)) end)))))

  abbrev pub noticed : Out → ProxyServer → ProxyServer
  noticed (es, session) s = publish calls none es (record s { session = session })

  -- The notice to everyone that an address is refused.
  abbrev pub refusing : Client → Bool × AuthLimiter → ProxyServer → ProxyServer
  refusing c (true, l) s =
      noticed
        (publish_notice calls.world.session
          (str_append "proxy: refusing " (str_append c.address (calls.ban_text l))) end s.session)
        (record s { limiter = l })
  refusing c (false, l) s = record s { limiter = l }

  unfoldable pub reject : ℕ → String → Client → ProxyServer → Bool × ProxyServer
  reject now reason c s =
      let told = tell c (auth_fail reason) s in
      (false, refusing c (record_failure c.address now told.limiter) told)

  -- The client of a right code: named, in the set, told so and shown what it missed.
  abbrev pub joined : Role → Fields → Client → Client
  joined role msg c = record c {
    role = some role;
    name =
        calls.python.front client_name_max
          (calls.python.to_str (get_or_else "client" (Json.str "") msg));
    live = true;
  }

  unfoldable pub admit : ℕ → ℕ → Role → Fields → Client → ProxyServer → Bool × ProxyServer
  admit now elapsed role msg c s =
      let s' =
        at_client c.cid (joined role msg)
          (record s { limiter = record_success c.address s.limiter }) in
      (
        true,
        send_replay c (replay_entries (get_json "replay" msg) s')
            (tell c (auth_ok elapsed role s') s'),
      )

  abbrev pub by_code : ℕ → ℕ → Option Role → Fields → Client → ProxyServer → Bool × ProxyServer
  by_code now elapsed none msg c s = reject now "invalid code" c s
  by_code now elapsed (some role) msg c s = admit now elapsed role msg c s

  abbrev pub code_of : Fields → String
  code_of msg = calls.python.to_str (get_or "code" (Json.str "") msg)

  abbrev pub by_message : ℕ → ℕ → Result Fields → Client → ProxyServer → Bool × ProxyServer
  by_message now elapsed (ok msg) c s =
      if not (is_text "auth" (get_json "type" msg))
      then reject now "expected auth" c s
      else by_code now elapsed (Dict.get (code_of msg) s.auth) msg c s
  by_message now elapsed _ c s = reject now "bad message" c s

  -- `_authenticate`, on the lines that come until the client is let in or refused, or the connection
  -- ends.
  unfoldable pub authenticate : ℕ → ℕ → List Bytes → Client → ProxyServer → Bool × ProxyServer
  authenticate now elapsed [] c s = (false, s)
  authenticate now elapsed (line ∷ lines) c s =
      let later = authenticate now elapsed lines c s in
      if calls.blank line
      then later
      else by_message now elapsed (decode_message calls.loads line) c s

  abbrev pub welcome :
      ℕ → ℕ → ℕ × AuthLimiter → List Bytes → Client → ProxyServer → Bool × ProxyServer
  welcome now elapsed (zero, l) lines c s =
      authenticate now elapsed lines c (record s { limiter = l })
  welcome now elapsed (suc n, l) lines c s = (
    false,
    tell c
        (auth_fail
          (str_append "too many failed attempts; try again in " (calls.world.seconds (suc n))))
        (record s { limiter = l }),
  )

  -- `_handle_client` up to `_reader_loop`: whether the client is let in.
  unfoldable pub handshake : ℕ → ℕ → List Bytes → Client → ProxyServer → Bool × ProxyServer
  handshake now elapsed lines c s =
      welcome now elapsed (banned_for c.address now s.limiter) lines c s

  -- A new connection, served: `_Client(conn, addr)` with the next id.
  unfoldable pub connect : String → String → ProxyServer → Client × ProxyServer
  connect address endpoint s =
      let c = new_client (str_append "c" (calls.world.decimal s.next_cid)) address endpoint in
      (c, record s { clients = s.clients ++ c ∷ []; next_cid = suc s.next_cid })
