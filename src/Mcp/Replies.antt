-- ===== src/Mcp/Replies.antt =====
-- mcp.py answers each JSON-RPC request once, under its id.
use py_uart_proxy.Prelude.{true, false, not, ◌&&◌, Option, none, some, List, [], ◌∷◌, ◌≡◌, ◌⊎◌}
use py_uart_proxy.Json.{Json, Fields, get_json, has}
use py_uart_proxy.Mcp.{Outcome}
use py_uart_proxy.Mcp.Wire.{is_request, is_response}

-- A reply to a request: of this version, under its id, with a result or an error and not both.
abbrev pub Replies : Json → Fields → Type 0
Replies mid msg =
    (get_json "jsonrpc" msg ≡ Json.str "2.0")
    × (get_json "id" msg ≡ mid)
    × (((has "result" msg ≡ true) × (has "error" msg ≡ false))
        ⊎ ((has "result" msg ≡ false) × (has "error" msg ≡ true)))

abbrev pub OneReply : Json → List Fields → Type 0
OneReply mid out = (msg : Fields) × (out ≡ msg ∷ []) × Replies mid msg

-- What goes out for a line: a request with an id is answered under it; a notification and a response
-- are not; anything else is answered as no request, under the id it has.
abbrev pub Answered : Option Json → List Fields → Type 0
Answered none out = OneReply Json.null out
Answered (some (Json.obj req)) out =
    (((is_request req && has "id" req) ≡ true) × OneReply (get_json "id" req) out)
    ⊎ (((is_request req && not (has "id" req)) ≡ true) × (out ≡ []))
    ⊎ (((not (is_request req) && is_response req) ≡ true) × (out ≡ []))
    ⊎ (((not (is_request req) && not (is_response req)) ≡ true) × OneReply (get_json "id" req) out)
Answered (some other) out = OneReply Json.null out
