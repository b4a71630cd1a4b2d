-- ===== src/Mcp/Tools.antt =====
-- The tools of mcp.py by what each sends to the session it is called for.
use py_uart_proxy.Prelude.{
  String, Bool, true, false, not, Option, none, some, List, [], ◌∷◌, Bytes, str_eq, str_append, any,
  if◌then◌else◌,
}
use py_uart_proxy.Prelude.Result
use py_uart_proxy.Json.{
  Json, ℤ, Items, Fields, field, end, get_json, get_or, get_or_else, truthy, int_in, put_key,
}
use py_uart_proxy.Client.{SessionClient}
use py_uart_proxy.Client
use py_uart_proxy.Client.Messages.{send_text, send_hex}
use py_uart_proxy.Client.Requests.{watch_message, removal_message, proposal_message}
use py_uart_proxy.Mcp.{Outcome, when}
use py_uart_proxy.Mcp.Outcome.{done, tool_error, bad_params, crashed}

pub data Tool : Type 0 where
  list_sessions session_status read_new tail wait_for wait_for_device : Tool
  watch_add watch_list watch_remove read_events wait_for_event : Tool
  send_line send_bytes propose_rule : Tool

-- The handlers that every server has, and those with `--allow-send`.
abbrev pub reading : List (String × Tool)
reading =
    ("list_sessions", Tool.list_sessions)
    ∷ ("session_status", Tool.session_status)
    ∷ ("read_new", Tool.read_new)
    ∷ ("tail", Tool.tail)
    ∷ ("wait_for", Tool.wait_for)
    ∷ ("wait_for_device", Tool.wait_for_device)
    ∷ ("watch_add", Tool.watch_add)
    ∷ ("watch_list", Tool.watch_list)
    ∷ ("watch_remove", Tool.watch_remove)
    ∷ ("read_events", Tool.read_events)
    ∷ ("wait_for_event", Tool.wait_for_event)
    ∷ []

abbrev pub sending : List (String × Tool)
sending =
    ("send_text", Tool.send_line)
    ∷ ("send_hex", Tool.send_bytes)
    ∷ ("propose_rule", Tool.propose_rule)
    ∷ []

abbrev pub named : String → List (String × Tool) → Option Tool
named name [] = none
named name (t ∷ ts) = let later = named name ts in if str_eq t.0 name then some t.1 else later

abbrev pub or_else : Option Tool → Option Tool → Option Tool
or_else none t = t
or_else (some t) u = some t

unfoldable pub handler_of : Bool → String → Option Tool
handler_of true name = or_else (named name reading) (named name sending)
handler_of false name = named name reading

abbrev pub of_client : Result.Result Fields → Outcome (List Fields)
of_client (Result.ok msg) = done (msg ∷ [])
of_client (Result.value_error e) = tool_error e
of_client Result.raised = crashed ""

abbrev pub eol_names : List String
eol_names = "cr" ∷ "lf" ∷ "crlf" ∷ "none" ∷ []

abbrev pub known_eol : Json → Option String
known_eol (Json.str eol) = if any (str_eq eol) eol_names then some eol else none
known_eol _ = none

abbrev pub is_null : Json → Bool
is_null Json.null = true
is_null _ = false

abbrev pub wid_of : Json → Outcome (List Fields)
wid_of (Json.str wid) = done (removal_message wid ∷ [])
wid_of _ = bad_params "id must be a string"

abbrev pub hex_of_arg : Json → Option String
hex_of_arg (Json.str s) = some s
hex_of_arg _ = none

-- One message made of what `_when` gives.
abbrev pub made_of : (Fields → Fields) → Outcome Fields → Outcome (List Fields)
made_of f (done w) = done (f w ∷ [])
made_of f (tool_error e) = tool_error e
made_of f (bad_params e) = bad_params e
made_of f (crashed e) = crashed e

module _ (tools : Client.Tools) (hex_of : Bytes → String) where
  abbrev pub type_line : SessionClient → Json → Option String → Outcome (List Fields)
  type_line c (Json.str text) (some eol) = of_client (send_text text eol c)
  type_line c (Json.str text) none = bad_params "eol must be cr, lf, crlf or none"
  type_line c _ eol = bad_params "text must be a string"

  abbrev pub type_bytes : SessionClient → Option String → Outcome (List Fields)
  type_bytes c none = bad_params "hex must be a string"
  type_bytes c (some text) = of_client (send_hex hex_of (tools.from_hex text) c)

  abbrev pub watch_of : Fields → ℤ → Fields → Fields
  watch_of args context w = put_key "context" (Json.int context) (
      watch_message (Json.obj w) (tools.to_str (get_or_else "name" (Json.str "") args)) Json.null 0)

  abbrev pub add_watch : Fields → Option ℤ → Outcome (List Fields)
  add_watch args none = bad_params "context must be an integer"
  add_watch args (some context) = made_of (watch_of args context) (when args)

  -- The action of a proposed rule.
  abbrev pub proposed_action : Fields → Fields
  proposed_action args =
      if is_null (get_json "send_text" args)
      then (field "kind" (Json.str "send")
          (field "hex" (Json.str (tools.to_str (get_json "send_hex" args))) end))
      else (field "kind" (Json.str "send") (
          field "text" (Json.str (tools.to_str (get_json "send_text" args)))
            (field "eol" (get_or "eol" (Json.str "cr") args) end)))

  abbrev pub kind_of : String → Json
  kind_of kind = Json.obj (field "kind" (Json.str kind) end)

  abbrev pub proposed : Fields → Fields → Fields
  proposed args w =
      field "name" (Json.str (tools.to_str (get_or_else "name" (Json.str "rule") args))) (
        field "when" (Json.obj w) (
          field "actions"
            (Json.arr (
              Items.cons (kind_of "event") (
                Items.cons (kind_of "mark")
                  (Items.cons (Json.obj (proposed_action args)) Items.nil))))
            end))

  abbrev pub both : Bool → Bool → Bool
  both true b = b
  both false b = not b

  abbrev pub propose : Fields → Outcome (List Fields)
  propose args =
      if both (not (is_null (get_json "send_text" args))) (truthy (get_json "send_hex" args))
      then bad_params "give send_text or send_hex"
      else made_of (λ w. proposal_message (proposed args w)) (when args)

  -- What a tool sends to the session, before it waits for any answer.
  unfoldable pub sent_by : Tool → Fields → SessionClient → Outcome (List Fields)
  sent_by Tool.send_line args c =
      type_line c (get_json "text" args) (known_eol (get_or "eol" (Json.str "cr") args))
  sent_by Tool.send_bytes args c = type_bytes c (hex_of_arg (get_json "hex" args))
  sent_by Tool.propose_rule args c = propose args
  sent_by Tool.watch_add args c =
      add_watch args (int_in (get_or "context" (Json.int (ℤ.pos 3)) args))
  sent_by Tool.watch_list args c = done (field "type" (Json.str "watch_list") end ∷ [])
  sent_by Tool.watch_remove args c = wid_of (get_json "id" args)
  sent_by _ args c = done []

  abbrev pub unknown : String → Outcome (List Fields)
  unknown name = bad_params (str_append "unknown tool " name)

  abbrev pub called : Option Tool → Json → String → SessionClient → Outcome (List Fields)
  called none args name c = unknown name
  called (some t) (Json.obj args) name c = sent_by t args c
  called (some t) _ name c = bad_params "arguments must be an object"

  -- `_call`, with the arguments `params.get("arguments") or {}`.
  unfoldable pub call : Bool → String → Fields → SessionClient → Outcome (List Fields)
  call allow_send name params c =
      called (handler_of allow_send name) (get_or_else "arguments" (Json.obj end) params) name c
