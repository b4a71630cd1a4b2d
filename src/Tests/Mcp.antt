-- ===== src/Tests/Mcp.antt =====
-- The server for AI tools at concrete inputs.
use py_uart_proxy.Prelude.{ℕ, ◌≡◌, refl, String, true, false, some, [], ◌∷◌, Bytes, arith}
use py_uart_proxy.Json.{Json, ℤ, Fields, field, end, get, get_or, get_or_else}
use py_uart_proxy.Client.{SessionClient}
use py_uart_proxy.Client.Messages.{send_text, require_full}
use py_uart_proxy.Server.{Role}
use py_uart_proxy.Mcp.{attached, read_new, timeout}
use py_uart_proxy.Mcp.Outcome.{done, bad_params, tool_error}
use py_uart_proxy.Mcp.New.{IsNew, read_new-IsNew}
use py_uart_proxy.Mcp.Tools.{call, handler_of, sent_by}
use py_uart_proxy.Mcp.Access.{AllAllowed, call-AllAllowed}
use py_uart_proxy.Mcp.Wire.{Methods}
use py_uart_proxy.Tests.Client.{tools, two, small, small-IsKept}

-- Every text is as long as the most that is shown, less the stamps of one line.
abbrev long_lines : String → ℕ
long_lines text = 19960

read_new-IsNew_example :
    IsNew long_lines two (attached small "ok") (read_new long_lines (attached small "ok"))
read_new-IsNew_example =
    read_new-IsNew long_lines two (attached small "ok") small-IsKept (omega arith)

abbrev letters : Bytes → String
letters bytes = "61"

abbrev typing : Fields
typing = field "arguments" (Json.obj (field "text" (Json.str "reboot") end)) end

abbrev writer : SessionClient
writer = record small { role = some Role.full; connected = true }

call-AllAllowed_example :
    AllAllowed false writer (call tools letters false "send_text" typing writer)
call-AllAllowed_example = call-AllAllowed tools letters writer false "send_text" typing

-- Without the option there is no such tool; with it, the line goes out.
call_runs :
    (call tools letters false "send_text" typing writer ≡ bad_params "unknown tool send_text")
    × (call tools letters true "send_text" typing writer
        ≡ done (
            field "type"
              (Json.str "tx")
              (field "text" (Json.str "reboot") (field "eol" (Json.str "cr") end))
            ∷ []))
unfolding call handler_of sent_by send_text require_full get_or get get_or_else
call_runs = (refl, refl)

abbrev methods : Methods
methods = record {
  initialize = λ params. done Json.null;
  tools = Json.null;
  call = λ params. tool_error "no session is shared";
}

abbrev ping : Fields
ping =
    field "jsonrpc" (Json.str "2.0")
      (field "id" (Json.int (ℤ.pos 7)) (field "method" (Json.str "ping") end))

timeout_runs :
    (timeout (λ j. some (ℤ.pos 9000000)) 1200000 100000 end ≡ done 1200000)
    × (timeout (λ j. some (ℤ.negsuc 4)) 1200000 100000 end ≡ done 0)
unfolding timeout
timeout_runs = (refl, refl)
