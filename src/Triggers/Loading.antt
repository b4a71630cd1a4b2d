-- ===== src/Triggers/Loading.antt =====
-- `load`: the rules of a file, as its JSON is read.
use py_uart_proxy.Prelude.{
  String, Bool, true, false, not, ◌&&◌, Option, none, some, List, [], ◌∷◌, str_eq, if◌then◌else◌,
}
use py_uart_proxy.Prelude.Result.{Result, ok, value_error, raised, ◌>>=◌}
use py_uart_proxy.Json
use py_uart_proxy.Json.{Json, Fields, Items, truthy, get_json, get_or, get_or_else, put_key}
use py_uart_proxy.Triggers.{Triggers}
use py_uart_proxy.Triggers.Pattern.{Python}
use py_uart_proxy.Triggers.Normalise.{a_person, is_one_of, fields_of, hashable}
use py_uart_proxy.Triggers.Rules.{approve}
use py_uart_proxy.Triggers.Firing.{World}
use py_uart_proxy.Triggers.Adding.{add}

-- `level_of` on actions that are not checked yet.
unfoldable pub sends_kind : Json → Result Bool
sends_kind j = do
  action ← fields_of j
  u ← hashable (get_json "kind" action)
  ok (is_one_of ("send" ∷ []) (get_json "kind" action))

unfoldable pub any_sends : Items → Result Bool
any_sends Items.nil = ok false
any_sends (Items.cons j js) =
    let later = any_sends js in sends_kind j >>= λ here. if here then ok true else later

abbrev pub sends_in : Json → Result Bool
sends_in (Json.arr js) = any_sends js
sends_in (Json.obj Json.end) = ok false
sends_in j = if truthy j then raised else ok false

-- {**rule, "owner": {"kind": "person"}, "approved": None}
abbrev pub from_file : Fields → Fields
from_file rule = put_key "approved" Json.null (put_key "owner" a_person rule)

abbrev pub off_if : Bool → Fields → Fields
off_if off rule = if off then put_key "enabled" (Json.flag false) rule else rule

-- `level_of(rule.get("actions") or []) > 0`
abbrev pub sends_of : Fields → Result Bool
sends_of rule = sends_in (get_or_else "actions" (Json.arr Items.nil) rule)

abbrev pub one_more : String → Result (List String) × Triggers → Result (List String) × Triggers
one_more rid (ids, t) = (ids >>= λ rest. ok (rid ∷ rest), t)

abbrev pub then_each :
    Triggers
    → (Triggers → Result (List String) × Triggers)
    → Result (String × Triggers)
    → Result (List String) × Triggers
then_each t rest (ok (rid, t')) = one_more rid (rest t')
then_each t rest (value_error e) = (value_error e, t)
then_each t rest raised = (raised, t)

abbrev pub or_same : Triggers → Option Triggers → Triggers
or_same t none = t
or_same t (some t') = t'

-- `data.get("rules", []) if isinstance(data, dict) else data`
abbrev pub rules_in : Json → Json
rules_in (Json.obj fs) = get_or "rules" (Json.arr Items.nil) fs
rules_in j = j

module _ (w : World) (p : Python) where
  abbrev pub approved_if : Bool → String × Triggers → String × Triggers
  approved_if now (rid, t) = (rid, if now then or_same t (approve w rid t) else t)

  unfoldable pub load_one : Bool → Json → Triggers → Result (String × Triggers)
  load_one approve' j t = do
    rule ← fields_of j
    sends ← sends_of (from_file rule)
    added ← add w p (off_if (sends && not approve') (from_file rule)) t
    ok (approved_if (sends && approve') added)

  -- Where a rule is refused, those before it stay.
  unfoldable pub load_each : Bool → Items → Triggers → Result (List String) × Triggers
  load_each approve' Items.nil t = (ok [], t)
  load_each approve' (Items.cons j js) t =
      then_each t (load_each approve' js) (load_one approve' j t)

  abbrev pub load_items : Bool → Json → Triggers → Result (List String) × Triggers
  load_items approve' (Json.arr js) t = load_each approve' js t
  load_items approve' (Json.obj Json.end) t = (ok [], t)
  load_items approve' (Json.str s) t = (if str_eq s "" then ok [] else raised, t)
  load_items approve' j t = (raised, t)

  unfoldable pub load : Bool → Json → Triggers → Result (List String) × Triggers
  load approve' file t = load_items approve' (rules_in file) t
