-- ===== src/Mcp/Wire.antt =====
-- JSON-RPC of mcp.py: `handle_line` and `_dispatch`. What `json.loads` makes of a line is an argument,
-- and so is what a method ends with; the threads that requests run on are left out.
use py_uart_proxy.Prelude.{
  String, Bool, true, not, ◌&&◌, ◌||◌, Option, none, some, List, [], ◌∷◌, str_eq, any,
  if◌then◌else◌,
}
use py_uart_proxy.Json.{Json, ℤ, Fields, field, end, get_json, get_or_else, has, is_text}
use py_uart_proxy.Mcp.{Outcome}
use py_uart_proxy.Mcp.Outcome.{done, tool_error, bad_params, crashed}

-- -32700, -32600, -32601, -32602 and -32603
abbrev pub parse_error : ℤ
parse_error = ℤ.negsuc 32699

abbrev pub invalid_request : ℤ
invalid_request = ℤ.negsuc 32599

abbrev pub method_not_found : ℤ
method_not_found = ℤ.negsuc 32600

abbrev pub invalid_params : ℤ
invalid_params = ℤ.negsuc 32601

abbrev pub internal_error : ℤ
internal_error = ℤ.negsuc 32602

-- `_reply`
abbrev pub result_reply : Json → Json → Fields
result_reply mid result =
    field "jsonrpc" (Json.str "2.0") (field "id" mid (field "result" result end))

abbrev pub error_reply : Json → ℤ → String → Fields
error_reply mid code message = field "jsonrpc" (Json.str "2.0") (
    field "id" mid (
      field "error"
        (Json.obj (field "code" (Json.int code) (field "message" (Json.str message) end))) end))

abbrev pub tool_error_result : String → Json
tool_error_result text =
    Json.obj (field "isError" (Json.flag true) (field "text" (Json.str text) end))

-- The reply to a method by what it ends with; a ToolError is a result that says so.
abbrev pub reply_of : Json → Outcome Json → Fields
reply_of mid (done result) = result_reply mid result
reply_of mid (tool_error text) = result_reply mid (tool_error_result text)
reply_of mid (bad_params text) = error_reply mid invalid_params text
reply_of mid (crashed text) = error_reply mid internal_error text

abbrev known_versions : List String
known_versions = "2024-11-05" ∷ "2025-03-26" ∷ "2025-06-18" ∷ "2025-11-25" ∷ []

abbrev agreed : Json → String
agreed (Json.str asked) = if any (str_eq asked) known_versions then asked else "2025-06-18"
agreed _ = "2025-06-18"

-- The version that `_initialize` answers with.
unfoldable pub protocol_version : Fields → String
protocol_version params = agreed (get_json "protocolVersion" params)

pub record Methods : Type 0 where
  pub initialize : Json → Outcome Json
  pub tools : Json
  pub call : Json → Outcome Json

-- `_dispatch`
unfoldable pub dispatch : Methods → Json → Json → Json → Fields
dispatch m mid method params =
    if is_text "initialize" method
    then reply_of mid (m.initialize params)
    else if is_text "ping" method || is_text "logging/setLevel" method
    then result_reply mid (Json.obj end)
    else if is_text "tools/list" method
    then result_reply mid (Json.obj (field "tools" m.tools end))
    else if is_text "tools/call" method
    then reply_of mid (m.call params)
    else error_reply mid method_not_found "no such method"

abbrev pub is_response : Fields → Bool
is_response msg = not (has "method" msg) && (has "result" msg || has "error" msg)

abbrev pub is_request : Fields → Bool
is_request msg = is_text "2.0" (get_json "jsonrpc" msg) && has "method" msg

abbrev pub dispatched : Methods → Fields → Fields
dispatched m msg =
    dispatch m (get_json "id" msg) (get_json "method" msg) (get_or_else "params" (Json.obj end) msg)

abbrev pub handle_object : Methods → Fields → List Fields
handle_object m msg =
    if not (is_request msg)
    then (if is_response msg
        then []
        else error_reply (get_json "id" msg) invalid_request "not a JSON-RPC 2.0 request" ∷ [])
    else if has "id" msg
    then dispatched m msg ∷ []
    else []

-- The messages that go out for a line: `none` is a line that is no JSON.
unfoldable pub handle_line : Methods → Option Json → List Fields
handle_line m none = error_reply Json.null parse_error "parse error" ∷ []
handle_line m (some (Json.obj msg)) = handle_object m msg
handle_line m (some other) = error_reply Json.null invalid_request "not a JSON-RPC 2.0 request" ∷ []
