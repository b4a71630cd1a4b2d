-- ===== src/Triggers/Normalise.antt =====
-- `normalise`: a rule as anyone may send it, checked and filled with defaults.
use py_uart_proxy.Prelude.{
  ℕ, String, Bool, true, false, not, ◌&&◌, ◌||◌, Option, none, some, List, [], ◌∷◌, str_eq,
  str_append, if◌then◌else◌, leb, any,
}
use py_uart_proxy.Prelude.Result.{Result, ok, value_error, raised, ◌>>=◌, ◌>>◌, demand}
use py_uart_proxy.Json
use py_uart_proxy.Json.{
  Json, Fields, Items, ℤ, truthy, get_or, get_json, get_or_else, int_in, ticks_in,
}
use py_uart_proxy.Triggers.{
  When, literal, regex, hex, silence, state, Limit, default_limit, Action, event, mark, notify,
  send_text, send_hex, Spec,
}
use py_uart_proxy.Triggers.Pattern.{Python, max_pattern, max_context, nested_repeat, hex_bytes}

-- The number of a whole number from `low` on, none below it.
abbrev pub from_low : ℕ → ℤ → Option ℕ
from_low low (ℤ.pos n) = if leb low n then some n else none
from_low low (ℤ.negsuc n) = none

abbrev pub between : ℕ → ℕ → Option ℤ → Option ℕ
between low high none = none
between low high (some (ℤ.negsuc n)) = none
between low high (some (ℤ.pos n)) = if leb low n && leb n high then some n else none

abbrev pub at_least : ℕ → Option ℤ → Option ℕ
at_least low none = none
at_least low (some n) = from_low low n

abbrev pub or_error : String → Option ℕ → Result ℕ
or_error text none = value_error text
or_error text (some n) = ok n

abbrev pub is_one_of : List String → Json → Bool
is_one_of names (Json.str s) = any (str_eq s) names
is_one_of names _ = false

-- A list or a dict in a set or a dict's keys is a TypeError.
abbrev pub hashable : Json → Result (Unit {0})
hashable (Json.arr js) = raised
hashable (Json.obj fs) = raised
hashable _ = ok tt

abbrev pub text_in : Json → String
text_in (Json.str s) = s
text_in _ = ""

-- The Fields of an object; a `.get` of anything else raises.
abbrev pub fields_of : Json → Result Fields
fields_of (Json.obj fs) = ok fs
fields_of _ = raised

-- `x or {}`, and then unpacked by `**`
abbrev pub or_empty_dict : Json → Json
or_empty_dict j = if truthy j then j else Json.obj Json.end

abbrev pub when_kinds : List String
when_kinds = "text" ∷ "regex" ∷ "hex" ∷ "silence" ∷ "state" ∷ []

-- `[k for k in WHEN_KINDS if k in when]`
abbrev pub kinds_in : List String → Fields → List String
kinds_in [] when = []
kinds_in (k ∷ ks) when = let rest = kinds_in ks when in if Json.has k when then k ∷ rest else rest

abbrev pub pattern_of : String → Json → Result String
pattern_of kind j =
    let text = text_in j in
    demand (not (str_eq text "")) (str_append kind " must be non-empty text") >> ok text

abbrev pub direction_of : Fields → Result String
direction_of when =
    let d = get_or "direction" (Json.str "rx") when in
    demand (is_one_of ("rx" ∷ "tx" ∷ []) d) "'direction' is rx or tx" >> ok (text_in d)

abbrev pub case_of : Fields → Bool
case_of when = truthy (get_or "case" (Json.flag false) when)

-- `limit[key]`, checked: a span of time, and a whole number from 1 on.
abbrev pub span_at : String → ℕ → Fields → Result ℕ
span_at key default given =
    or_error (str_append key " is seconds, 0 or more")
      (at_least 0 (ticks_in (get_or key (Json.float (ℤ.pos default)) given)))

abbrev pub count_at : String → ℕ → Fields → Result ℕ
count_at key default given =
    or_error (str_append key " is a whole number, 1 or more")
      (at_least 1 (int_in (get_or key (Json.int (ℤ.pos default)) given)))

abbrev pub limit_with : Fields → ℕ → ℕ → ℕ → ℕ → Limit
limit_with given cooldown window max_per_minute after = record {
  once = truthy (get_or "once" (Json.flag false) given);
  cooldown = cooldown;
  max_per_minute = max_per_minute;
  after = after;
  window = window;
}

-- `{**DEFAULT_LIMIT, **(rule.get("limit") or {})}`, checked. Keys that it does not know stay in the
-- source's dict and have no effect but on the hash; here they are left out.
unfoldable pub limit_of : Json → Result Limit
limit_of j = do
  given ← fields_of (or_empty_dict j)
  cooldown ← span_at "cooldown" default_limit.cooldown given
  window ← span_at "window" default_limit.window given
  max_per_minute ← count_at "max_per_minute" default_limit.max_per_minute given
  after ← count_at "after" default_limit.after given
  ok (limit_with given cooldown window max_per_minute after)

abbrev pub eols : List String
eols = "cr" ∷ "lf" ∷ "crlf" ∷ "none" ∷ []

-- `re.compile` in its `try`
abbrev pub regex_verdict : Option String → Result (Unit {0})
regex_verdict none = ok tt
regex_verdict (some e) = value_error e

module _ (p : Python) where
  abbrev pub regex_checked : String → Result (Unit {0})
  regex_checked text =
      demand (leb (p.text_length text) max_pattern) "the regex is too long"
      >> (regex_verdict (p.regex_error text)
          >> demand (not (nested_repeat p text)) "the regex nests repetition")

  -- `out_when` for the one kind that the rule has.
  unfoldable pub when_of : String → Fields → Result When
  when_of kind when =
      let given = get_json kind when in
      if str_eq kind "text"
      then (do
        text ← pattern_of kind given
        direction ← direction_of when
        ok (literal text (case_of when) direction))
      else if str_eq kind "regex"
      then (do
        text ← pattern_of kind given
        regex_checked text
        direction ← direction_of when
        ok (regex text (case_of when) direction))
      else if str_eq kind "hex"
      then (do bytes ← hex_bytes p (p.to_str given); ok (hex bytes))
      else if str_eq kind "silence"
      then (do
        span ←
            or_error "'silence' is seconds, from 0.5 to 86400"
              (between 5000 864000000 (ticks_in given))
        ok (silence span))
      else (do
        demand (is_one_of ("connected" ∷ "disconnected" ∷ "reconnected" ∷ []) given)
            "'state' is one of three"
        ok (state (text_in given)))

  abbrev pub the_kind : List String → Fields → Result When
  the_kind [] when = value_error "'when' needs exactly one kind"
  the_kind (kind ∷ []) when = when_of kind when
  the_kind (kind ∷ other ∷ kinds) when = value_error "'when' needs exactly one kind"

  unfoldable pub the_when : Fields → Result When
  the_when when = the_kind (kinds_in when_kinds when) when

  -- A send: with a text that takes nothing from the match and a known line ending, or with bytes.
  unfoldable pub send_of : Fields → Result Action
  send_of action =
      if Json.has "text" action && Json.has "hex" action
        || not (Json.has "text" action) && not (Json.has "hex" action)
      then value_error "a send has 'text' or 'hex'"
      else if Json.has "text" action
      then (do
        demand (not (p.from_match (p.to_str (get_json "text" action))))
            "a send cannot use anything from the match"
        hashable (get_or "eol" (Json.str "cr") action)
        demand (is_one_of eols (get_or "eol" (Json.str "cr") action)) "'eol' is one of four"
        ok (
            send_text (p.to_str (get_json "text" action))
              (text_in (get_or "eol" (Json.str "cr") action))))
      else (do bytes ← hex_bytes p (p.to_str (get_json "hex" action)); ok (send_hex bytes))

  abbrev pub kind_action : Json → Fields → Result Action
  kind_action kind action =
      if is_one_of ("event" ∷ []) kind
      then ok event
      else if is_one_of ("mark" ∷ []) kind
      then ok mark
      else if is_one_of ("notify" ∷ []) kind
      then ok notify
      else if is_one_of ("send" ∷ []) kind
      then send_of action
      else value_error "unknown action"

  -- `(action or {}).get("kind")`
  unfoldable pub action_of : Json → Result Action
  action_of j = do
    action ← fields_of (or_empty_dict j)
    hashable (get_json "kind" action)
    kind_action (get_json "kind" action) action

  unfoldable pub actions_of : Items → Result (List Action)
  actions_of Items.nil = ok []
  actions_of (Items.cons j js) = do a ← action_of j; rest ← actions_of js; ok (a ∷ rest)

-- `rule.get("actions") or [{"kind": "event"}]`, gone through one by one.
abbrev pub items_of : Json → Result Items
items_of (Json.arr js) = ok js
items_of _ = raised

abbrev pub is_event : Action → Bool
is_event event = true
is_event _ = false

abbrev pub with_event : List Action → List Action
with_event actions = if any is_event actions then actions else event ∷ actions

abbrev pub default_actions : Json
default_actions =
    Json.arr (Items.cons (Json.obj (Json.field "kind" (Json.str "event") Json.end)) Items.nil)

abbrev pub a_person : Json
a_person = Json.obj (Json.field "kind" (Json.str "person") Json.end)

abbrev pub approval_of : Json → Option String
approval_of (Json.str h) = some h
approval_of _ = none

unfoldable pub owner_of : Json → Result Json
owner_of j = do
  owner ← fields_of j
  demand (is_one_of ("person" ∷ "ai" ∷ []) (get_json "kind" owner)) "'owner' is a person or an ai"
  ok j

module _ (p : Python) where
  -- The rule returned. An approval that is no text approves nothing.
  abbrev pub rule_with : Fields → When → Limit → List Action → ℕ → Json → Spec
  rule_with rule on limit actions context owner = record {
    name = p.front 80 (p.to_str (get_or_else "name" (Json.str "rule") rule));
    owner = owner;
    enabled = truthy (get_or "enabled" (Json.flag true) rule);
    on = on;
    limit = limit;
    context = context;
    actions = with_event actions;
    only_port = get_json "only_port" rule;
    approved = approval_of (get_json "approved" rule);
  }

  unfoldable pub normalise : Fields → Result Spec
  normalise rule = do
    when ← p.to_dict (get_or_else "when" (Json.obj Json.end) rule)
    on ← the_when p when
    limit ← limit_of (get_json "limit" rule)
    items ← items_of (get_or_else "actions" default_actions rule)
    actions ← actions_of p items
    context ←
        or_error "'context' is 0 to 20 lines"
          (between 0 max_context (int_in (get_or "context" (Json.int (ℤ.pos 3)) rule)))
    owner ← owner_of (get_or_else "owner" a_person rule)
    ok (rule_with rule on limit actions context owner)
