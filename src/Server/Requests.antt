-- ===== src/Server/Requests.antt =====
-- What a client that is let in asks for: the handlers of `_reader_loop`, and the end of a connection.
-- An exception that no handler catches is `raised`, and ends the connection.
use py_uart_proxy.Prelude.{
  ℕ, zero, suc, String, Bool, true, false, not, ◌&&◌, Option, none, some, List, [], ◌∷◌, ◌++◌,
  Bytes, str_eq, str_append, if◌then◌else◌, length, leb, keep, any,
}
use py_uart_proxy.Prelude.Result.{Result, ok, value_error, raised}
use py_uart_proxy.Json
use py_uart_proxy.Json.{
  Json, Fields, Items, ℤ, field, end, get_json, get_or, get_or_else, truthy, is_text, put_key,
}
use py_uart_proxy.Session.{Out, Written, write}
use py_uart_proxy.Triggers.{Triggers, Rule, level_of}
use py_uart_proxy.Triggers.Adding.{add, list_rules}
use py_uart_proxy.Triggers.View.{view}
use py_uart_proxy.Triggers.Rules
use py_uart_proxy.Triggers.Rules.{approve}
use py_uart_proxy.Server.{
  Calls, Client, Message, ProxyServer, Role, role_text, reply, typed, notice,
}
use py_uart_proxy.Server.Fanout.{publish}

abbrev pub is_full : Option Role → Bool
is_full (some Role.full) = true
is_full _ = false

abbrev pub role_name : Option Role → String
role_name none = ""
role_name (some r) = role_text r

-- EOL_MAP.get(name, b"\r\n")
abbrev pub eol_bytes : String → Bytes
eol_bytes name =
    if str_eq name "lf"
    then 10 ∷ []
    else if str_eq name "cr"
    then 13 ∷ []
    else if str_eq name "none"
    then []
    else 13 ∷ 10 ∷ []

abbrev pub watch_fail : String → Message
watch_fail reason = typed "watch_fail" (field "reason" (Json.str reason) end)

abbrev pub watch_ok : String → Message
watch_ok rid = typed "watch_ok" (field "id" (Json.str rid) end)

-- owner.get(key) == text
abbrev pub owner_says : String → String → Json → Bool
owner_says key chars (Json.obj fs) = is_text chars (get_json key fs)
owner_says key chars _ = false

-- The rules that a connection of this server made.
abbrev pub is_of : String → String → Rule → Bool
is_of cid sid r = owner_says "connection" cid r.spec.owner && owner_says "server" sid r.spec.owner

abbrev pub is_watch : String → String → Rule → Bool
is_watch cid sid r = is_of cid sid r && not (level_of r.spec.actions)

-- `_own_watches`
unfoldable pub own_watches : Client → String → Triggers → List Rule
own_watches c sid t = keep (is_watch c.cid sid) (list_rules t)

abbrev or_endpoint : String → String → String
or_endpoint name endpoint = if str_eq name "" then endpoint else name

unfoldable pub ai_owner : Client → String → Json
ai_owner c sid = Json.obj (
    field "kind" (Json.str "ai") (
      field "client" (Json.str (or_endpoint c.name c.endpoint))
        (field "connection" (Json.str c.cid) (field "server" (Json.str sid) end))))

abbrev pub event_only : Json
event_only = Json.arr (Items.cons (Json.obj (field "kind" (Json.str "event") end)) Items.nil)

abbrev pub proposal : String → String → Fields → Message
proposal pid status extra =
    typed "proposal" (field "id" (Json.str pid) (field "status" (Json.str status) extra))

abbrev pub because : String → Fields
because reason = field "reason" (Json.str reason) end

module _ (calls : Calls) where
  abbrev views : List Rule → Items
  views [] = Items.nil
  views (r ∷ rs) = Items.cons (Json.obj (view calls.world.hex_text r)) (views rs)

  abbrev pub too_many : ℕ → String
  too_many zero = "the session's owner allows no watches"
  too_many (suc n) =
      str_append "at most " (str_append (calls.world.decimal (suc n)) " watches per connection")

  abbrev origin_of : Client → Json
  origin_of c = Json.obj (
      field "via" (Json.str "proxy") (
        field "role" (Json.str (role_name c.role))
          (field "client" (Json.str c.name) (field "address" (Json.str c.endpoint) end))))

  -- What the write did: its events go to all but the client that wrote, which hears of a failure.
  abbrev written : Client → Written × Out → ProxyServer → ProxyServer
  written c (Written.wrote n, (es, session)) s =
      publish calls (some c.cid) es (record s { session = session })
  written c (Written.failed e, (es, session)) s =
      reply c (notice (str_append "write failed: " e))
        (publish calls (some c.cid) es (record s { session = session }))

  -- session.write(data, origin=…)
  unfoldable pub write_as : Client → Bytes → ProxyServer → ProxyServer
  write_as c bytes s =
      written c
        (write calls.world.session (calls.world.source s.session bytes) bytes (some (origin_of c))
          s.session)
        s

  abbrev write_hex : Client → Result Bytes → ProxyServer → Result ProxyServer
  write_hex c (ok bytes) s = ok (write_as c bytes s)
  write_hex c (value_error e) s = ok s
  write_hex c raised s = raised

  abbrev typed_bytes : Fields → Bytes
  typed_bytes msg =
      calls.world.encode (calls.python.to_str (get_json "text" msg))
      ++ eol_bytes (calls.python.to_str (get_or "eol" (Json.str "crlf") msg))

  -- `_handle_tx` of a client with full access
  abbrev pub handle_tx_full : Client → Fields → ProxyServer → Result ProxyServer
  handle_tx_full c msg s =
      if Json.has "hex" msg
      then write_hex c (calls.from_hex (get_json "hex" msg)) s
      else if Json.has "text" msg
      then ok (write_as c (typed_bytes msg) s)
      else ok s

  unfoldable pub handle_tx : Client → Fields → ProxyServer → Result ProxyServer
  handle_tx c msg s =
      if not (is_full c.role)
      then ok (reply c (notice "write denied (read-only)") s)
      else handle_tx_full c msg s

  abbrev pub fits : ℤ → Bool
  fits (ℤ.pos n) = leb 2 n && leb n 1000
  fits (ℤ.negsuc n) = false

  abbrev pub resized : Option ℤ → Option ℤ → ProxyServer → ProxyServer
  resized (some cols) (some rows) s =
      if fits cols && fits rows then record s { sizes = s.sizes ++ (cols, rows) ∷ [] } else s
  resized _ _ s = s

  abbrev pub handle_resize_full : Fields → ProxyServer → ProxyServer
  handle_resize_full msg s =
      if not calls.resizable
      then s
      else resized (calls.int_of (get_json "cols" msg)) (calls.int_of (get_json "rows" msg)) s

  unfoldable pub handle_resize : Client → Fields → ProxyServer → ProxyServer
  handle_resize c msg s = if not (is_full c.role) then s else handle_resize_full msg s

  abbrev pub watch_rule : Client → Fields → ProxyServer → Fields
  watch_rule c msg s =
      field "name"
        (Json.str
          (calls.python.front 80 (calls.python.to_str (get_or_else "name" (Json.str "watch") msg))))
        (field "when" (get_json "when" msg) (
          field "limit" (get_or_else "limit" (Json.obj end) msg) (
            field "context" (get_or "context" (Json.int (ℤ.pos 3)) msg)
              (field "actions" event_only (field "owner" (ai_owner c s.sid) end)))))

  abbrev pub watch_added : Client → Result (String × Triggers) → ProxyServer → Result ProxyServer
  watch_added c (ok (rid, t)) s = ok (reply c (watch_ok rid) (record s { triggers = some t }))
  watch_added c (value_error e) s = ok (reply c (watch_fail e) s)
  watch_added c raised s = raised

  unfoldable pub watch_add : Client → Fields → Triggers → ProxyServer → Result ProxyServer
  watch_add c msg t s =
      if Json.has "actions" msg
      then ok (reply c (watch_fail "a watch only makes events: no actions") s)
      else if leb s.max_watches (length (own_watches c s.sid t))
      then ok (reply c (watch_fail (too_many s.max_watches)) s)
      else watch_added c (add calls.world calls.python (watch_rule c msg s) t) s

  abbrev pub has_id : String → Rule → Bool
  has_id rid r = str_eq r.id rid

  unfoldable pub watch_remove : Client → Fields → Triggers → ProxyServer → ProxyServer
  watch_remove c msg t s =
      let rid = calls.python.to_str (get_or "id" (Json.str "") msg) in
      if not (any (has_id rid) (own_watches c s.sid t))
      then reply c (watch_fail (str_append "no watch " (str_append rid " of yours"))) s
      else reply c (watch_ok rid) (record s { triggers = some (Rules.remove rid t).1 })

  abbrev pub handle_watch_in :
      Option Triggers → Client → String → Fields → ProxyServer → Result ProxyServer
  handle_watch_in none c mtype msg s = ok (reply c (watch_fail "this session has no triggers") s)
  handle_watch_in (some t) c mtype msg s =
      if str_eq mtype "watch_list"
      then ok (
          reply c
            (typed "watch_list" (field "watches" (Json.arr (views (own_watches c s.sid t))) end)) s)
      else if str_eq mtype "watch_remove"
      then ok (watch_remove c msg t s)
      else watch_add c msg t s

  unfoldable pub handle_watch : Client → String → Fields → ProxyServer → Result ProxyServer
  handle_watch c mtype msg s = handle_watch_in s.triggers c mtype msg s
