-- ===== src/Triggers/Firing.antt =====
-- `_matched` and `_send`: what a match leads to. The session is the model of Session.
use py_uart_proxy.Prelude.{
  ℕ, suc, String, Bool, true, false, not, Option, none, some, List, [], ◌∷◌, ◌++◌, Bytes, str_eq,
  str_append, if◌then◌else◌, length, last_n, any,
}
use py_uart_proxy.Prelude.Dict
use py_uart_proxy.Json.{Json, Items, Fields, field, end, ℤ}
use py_uart_proxy.Event.{Event, EventKind, Direction, Stamp}
use py_uart_proxy.Session.{Env, Session, Out, ◌▸◌, write, Written, publish_notice}
use py_uart_proxy.Triggers.{
  When, Limit, Action, Spec, Rule, Triggers, mark, notify, send_text, send_hex,
}
use py_uart_proxy.Triggers.Limits.{Verdict, ignored, storm, fires, admit}

-- What the code calls and the model does not define: the hash of what a person approves, the
-- session's encoding and decoding and whether its source may be written, `str.strip`, a number in
-- decimal, a time of day, a span as seconds, bytes as hex digits, what the source does with the bytes of a write, and the groups that the
-- rule's pattern finds in the first MATCH_SPAN characters of a line.
pub record World : Type 0 where
  pub session : Env
  pub hash : When → Limit → List Action → String
  pub encode : String → Bytes
  pub strip : String → String
  pub decimal : ℕ → String
  pub wall_str : ℕ → String
  pub seconds : ℕ → String
  pub hex_text : Bytes → String
  pub writable : Bool
  pub source : Session → Bytes → Written
  pub search : When → String → Option Items

-- EOLS
abbrev pub eol_of : String → Bytes
eol_of name =
    if str_eq name "cr"
    then 13 ∷ []
    else if str_eq name "lf"
    then 10 ∷ []
    else if str_eq name "crlf"
    then 13 ∷ 10 ∷ []
    else []

-- What one action reports, the rule after it, and what the session published.
abbrev pub Done : Type 0
Done = Json × Rule × Out

abbrev pub result : String → Bool → String → Json
result kind ok detail = Json.obj (
    field "kind" (Json.str kind) (field "ok" (Json.flag ok) (field "detail" (Json.str detail) end)))

abbrev pub plain_result : String → Json
plain_result kind = Json.obj (field "kind" (Json.str kind) (field "ok" (Json.flag true) end))

abbrev pub rule_meta : Rule → Fields
rule_meta r = field "trigger" (Json.str r.id) end

abbrev pub origin : Rule → Json
origin r = Json.obj (
    field "via" (Json.str "rule") (
      field "rule" (Json.str r.id)
        (field "name" (Json.str r.spec.name) (field "owner" r.spec.owner end))))

abbrev pub event_ring : ℕ
event_ring = 500

abbrev texts : List String → Items
texts [] = Items.nil
texts (s ∷ ss) = Items.cons (Json.str s) (texts ss)

abbrev is_mark : Action → Bool
is_mark mark = true
is_mark _ = false

abbrev pub is_notify : Action → Bool
is_notify notify = true
is_notify _ = false

-- `rule.spec.get("approved") == h`
abbrev pub approves : Option String → String → Bool
approves none h = false
approves (some a) h = str_eq a h

module _ (w : World) where
  unfoldable pub content_hash : Spec → String
  content_hash spec = w.hash spec.on spec.limit spec.actions

  abbrev pub notice : String → Rule → Session → Out
  notice text r s =
      publish_notice w.session (str_append "⚡ " (str_append r.spec.name text)) (rule_meta r) s

  -- The end of `_send`, by what `session.write` did.
  abbrev pub sent_result : Bytes → Rule → Written × Out → Done
  sent_result bytes r (Written.wrote n, out) =
      (result "send" true (str_append (w.decimal (length bytes)) " bytes"), r, out)
  sent_result bytes r (Written.failed e, out) =
      (result "send" false e, r, out ▸ notice (str_append ": not sent — " e) r)

  -- `_send`, with the bytes and the text that is remembered for the echo.
  unfoldable pub send : ℕ → Bytes → String → Rule → Session → Done
  unfolding content_hash
  send now bytes sent_text r s =
      if not (approves r.spec.approved (content_hash r.spec))
      then (result "send" false "not approved as it is now", r, ([], s))
      else if not w.writable
      then (
        result "send" false "read-only session",
        r,
        notice ": not sent — this session cannot be written" r s,
      )
      else sent_result bytes (record r { sent = r.sent ++ (sent_text, now) ∷ [] })
          (write w.session (w.source s bytes) bytes (some (origin r)) s)

  -- One round of the loop over a rule's actions; an `event` adds no result of its own.
  unfoldable pub act : ℕ → Action → Rule → Session → Option Json × Rule × Out
  act now Action.event r s = (none, r, ([], s))
  act now mark r s = (some (plain_result "mark"), r, ([], s))
  act now notify r s = (some (plain_result "notify"), r, ([], s))
  act now (send_text chars eol) r s =
      let (j, r', out) = send now (w.encode chars ++ eol_of eol) (w.strip chars) r s in
      (some j, r', out)
  act now (send_hex bytes) r s =
      let (j, r', out) = send now bytes (w.strip (w.session.decode bytes)) r s in (some j, r', out)

  abbrev item : Option Json → Items → Items
  item none rest = rest
  item (some j) rest = Items.cons j rest

  unfoldable pub act_all : ℕ → List Action → Rule → Session → Items × Rule × Out
  act_all now [] r s = (Items.nil, r, ([], s))
  act_all now (a ∷ actions) r s =
      let (j, r', (es, s')) = act now a r s in
      let (js, r'', (es', s'')) = act_all now actions r' s' in (item j js, r'', (es ++ es', s''))

  -- The event, as it is kept and sent in `meta`.
  abbrev pub trigger_event : ℕ → Rule → Stamp → String → Items → List String → Items → Fields
  trigger_event seq r stamp line groups context results = field "seq" (Json.int (ℤ.pos seq)) (
      field "rule" (Json.str r.id) (
        field "name" (Json.str r.spec.name) (
          field "owner" r.spec.owner (
            field "wall" (Json.str (w.wall_str stamp.wall)) (
              field "elapsed" (Json.float (ℤ.pos stamp.elapsed)) (
                field "line" (Json.str line) (
                  field "groups" (Json.arr groups) (
                    field "context" (Json.arr (texts context)) (
                      field "mark" (Json.flag (any is_mark r.spec.actions)) (
                        field "notify" (Json.flag (any is_notify r.spec.actions))
                          (field "actions" (Json.arr results) end)))))))))))

  abbrev pub store : Rule → Triggers → Triggers
  store r t = record t { rules = Dict.put r.id r t.rules }

  abbrev pub trigger_published : Stamp → Rule → Fields → Event
  trigger_published stamp r event = record {
    kind = EventKind.trigger;
    direction = Direction.sys;
    stamp = stamp;
    seq = 0;
    raw = [];
    text = r.spec.name;
    meta = event;
  }

  unfoldable pub tell : Bool → String → Rule → Session → Out
  tell false line r s = ([], s)
  tell true line r s = notice (str_append ": " line) r s

  -- What follows a match within the limits; `stamp` is the tracker's.
  unfoldable pub fired : ℕ → Stamp → String → Items → Rule → Triggers → Session → Triggers × Out
  fired now stamp line groups r t s =
      let (results, r', (es, s')) = act_all now r.spec.actions r s in
      let event =
        trigger_event t.next_seq r' stamp line groups (last_n r.spec.context t.recent_lines)
          (Items.cons (plain_result "event") results) in
      let (told, s'') = tell (any is_notify r.spec.actions) line r' s' in
      (
        record (store r' t) {
          next_seq = suc t.next_seq;
          events = last_n event_ring (t.events ++ event ∷ []);
        },
        (es ++ (told ++ trigger_published stamp r' event ∷ []), s''),
      )

  abbrev pub storm_reason : ℕ → String
  storm_reason n = str_append "fired " (str_append (w.decimal n) " times in a minute")

  unfoldable pub judged :
      ℕ → Stamp → String → Items → Verdict × Rule → Triggers → Session → Triggers × Out
  judged now stamp line groups (ignored, r) t s = (store r t, ([], s))
  judged now stamp line groups (storm, r) t s = (
    store r t,
    notice (str_append ": turned off — " (storm_reason r.spec.limit.max_per_minute)) r s,
  )
  judged now stamp line groups (fires, r) t s = fired now stamp line groups r t s

  -- `_matched` for the rule of an id: nothing, once the rule is gone.
  unfoldable pub matched : ℕ → Stamp → String → Items → String → Triggers → Session → Triggers × Out
  matched now stamp line groups rid t s = elim (Dict.get rid t.rules) [
    | none ↦ (t, ([], s))
    | some r ↦ judged now stamp line groups (admit storm_reason now r) t s
  ]
