-- ===== src/Client/Requests.antt =====
-- What `SessionClient` asks of a session and waits for: `_request`, watches, a proposed rule, and the
-- trigger events. A wait is the list of what comes before its deadline.
use py_uart_proxy.Prelude.{
  ℕ, String, Bool, true, not, ◌&&◌, Option, none, some, List, [], ◌∷◌, keep, str_eq, str_append,
  if◌then◌else◌, ltb,
}
use py_uart_proxy.Prelude.Dict
use py_uart_proxy.Prelude.Dict.{Dict}
use py_uart_proxy.Prelude.Result.{Result, ok, value_error, ◌>>=◌}
use py_uart_proxy.Json
use py_uart_proxy.Json.{
  Json, Fields, field, end, get_or, get_or_else, get_json, is_text, truthy, put_key,
}
use py_uart_proxy.Client.{SessionClient, Tools}

-- The message of watch_add.
abbrev pub watch_message : Json → String → Json → ℕ → Fields
watch_message when name limit context =
    let msg = field "type" (Json.str "watch_add") (
      field "when" when (
        field "name" (Json.str (if str_eq name "" then "watch" else name))
          (field "context" (Json.int (Json.pos context)) end))) in
    if truthy limit then put_key "limit" limit msg else msg

abbrev pub removal_message : String → Fields
removal_message wid = field "type" (Json.str "watch_remove") (field "id" (Json.str wid) end)

abbrev pub proposal_message : Fields → Fields
proposal_message rule = field "type" (Json.str "rule_propose") (field "rule" (Json.obj rule) end)

abbrev without_id : String → List String → List String
without_id x [] = []
without_id x (y ∷ ys) = let rest = without_id x ys in if str_eq y x then rest else y ∷ rest

module _ (tools : Tools) where
  -- The loop of `_request` over the replies that come in time: a refusal, an answer of the type asked
  -- for, or another's answer, which is passed over.
  unfoldable pub answer_among : Fields → String → List Fields → Result Fields
  answer_among msg ok_type [] =
      value_error (str_append "no answer to " (tools.to_str (get_json "type" msg)))
  answer_among msg ok_type (reply ∷ replies) =
      let later = answer_among msg ok_type replies in
      if is_text "watch_fail" (get_json "type" reply)
      then value_error (tools.to_str (get_or_else "reason" (Json.str "refused") reply))
      else if is_text ok_type (get_json "type" reply)
      then ok reply
      else later

  -- `watch_add`, by the replies; a watch_ok has an id.
  unfoldable pub watch_added : Fields → List Fields → Result String
  watch_added msg replies = do
    reply ← answer_among msg "watch_ok" replies
    ok (tools.to_str (get_json "id" reply))

  abbrev unanswered : String → Fields
  unanswered pid =
      field "type" (Json.str "proposal")
        (field "id" (Json.str pid) (field "status" (Json.str "unanswered") end))

  abbrev decided_as : String → Option Fields → SessionClient → Fields × SessionClient
  decided_as pid none c = (unanswered pid, record c { awaiting = without_id pid c.awaiting })
  decided_as pid (some answer) c = (
    answer,
    record c { awaiting = without_id pid c.awaiting; decided = Dict.remove pid c.decided },
  )

  -- The end of `propose_rule`: a first answer that is final, or what was decided when the wait ended.
  unfoldable pub propose_end : Fields → SessionClient → Fields × SessionClient
  propose_end first c =
      let pid = tools.to_str (get_json "id" first) in
      if not (is_text "pending" (get_json "status" first))
      then (first, c)
      else decided_as pid (Dict.get pid c.decided) c

-- int(e.get("seq", 0)), of a number from 0 on
abbrev pub seq_of : Fields → ℕ
seq_of e = elim (get_or "seq" (Json.int (Json.pos 0)) e) [ Json.int (Json.pos n) ↦ n | _ ↦ 0 ]

-- `events`
unfoldable pub events_since : ℕ → SessionClient → List Fields
events_since since c = keep (λ e. ltb since (seq_of e)) c.events

abbrev is_of_watch : Option String → Fields → Bool
is_of_watch none e = true
is_of_watch (some watch) e = is_text watch (get_json "rule" e)

abbrev first_event : ℕ → Option String → List Fields → Option Fields
first_event since watch [] = none
first_event since watch (e ∷ es) =
    let later = first_event since watch es in
    if ltb since (seq_of e) && is_of_watch watch e then some e else later

-- One round of `wait_event`.
unfoldable pub next_event : ℕ → Option String → SessionClient → Option Fields
next_event since watch c = first_event since watch c.events
