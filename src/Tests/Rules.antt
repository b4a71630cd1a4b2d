-- ===== src/Tests/Rules.antt =====
-- Rules as they come, checked and added, at concrete inputs.
use py_uart_proxy.Prelude.{
  ℕ, zero, suc, ◌+◌, ◌≡◌, refl, ◌⊎◌, sym, ap, ◌∙◌, String, str_append, str_eq, true, false, none,
  some, [], ◌∷◌, arith,
}
use text.Mathlib.TextLemmas.{append_cancel_left}
use text.Mathlib.TextPositions.{len-append}
use Prim.Native.String.{len}
use py_uart_proxy.Prelude.Dict
use py_uart_proxy.Prelude.Result.{Result, ok, raised}
use py_uart_proxy.Json.{
  Json, Fields, Items, field, end, get_or, get, get_or_else, int_in, ticks_in, has, put_key,
}
use py_uart_proxy.Triggers
use py_uart_proxy.Triggers.{Spec, Triggers, new_rule, When, Action, default_limit}
use py_uart_proxy.Triggers.Firing.{World}
use py_uart_proxy.Triggers.Pattern.{Python, Nodes}
use py_uart_proxy.Triggers.Normalise.{
  normalise, when_of, the_when, limit_of, send_of, action_of, actions_of, owner_of,
}
use py_uart_proxy.Triggers.Adding.{update_rule, add, name_of, fresh_id, fresh}
use py_uart_proxy.Triggers.Loading.{load, load_each, load_one, any_sends, sends_kind}
use py_uart_proxy.Triggers.Loaded.{IsHarmless, load-IsHarmless}
use py_uart_proxy.Tests.Triggers.{world}

-- A number in strokes: the numbers' texts differ.
unfoldable pub strokes : ℕ → String
strokes zero = ""
strokes (suc n) = str_append "1" (strokes n)

len-strokes : (n : ℕ) → len (strokes n) ≡ n
unfolding strokes
len-strokes zero = refl
len-strokes (suc n) = len-append "1" (strokes n) ∙ ap (λ k. 1 + k) (len-strokes n) ∙ omega arith

abbrev pub counting : World
counting = record world { decimal = strokes }

strokes_apart : (m n : ℕ) → name_of counting m ≡ name_of counting n → m ≡ n
strokes_apart m n e =
    sym (len-strokes m) ∙ ap len (append_cancel_left "r" (strokes m) (strokes n) e) ∙ len-strokes n

abbrev as_dict : Json → Result Fields
as_dict (Json.obj fs) = ok fs
as_dict _ = raised

abbrev as_text : Json → String
as_text (Json.str s) = s
as_text _ = "?"

abbrev pub plain : Python
plain = record {
  to_dict = as_dict;
  to_str = as_text;
  text_length = len;
  front = λ n s. s;
  regex_error = λ s. none;
  parse = λ s. Nodes.nil;
  from_match = λ s. str_eq s "{1}";
  without_separators = λ s. s;
  is_hex = λ s. true;
  from_hex = λ s. 65 ∷ [];
}

abbrev pub a_rule : Fields
a_rule = field "when" (Json.obj (field "text" (Json.str "login:") end)) (
    field "actions"
      (Json.arr (
        Items.cons (Json.obj (field "kind" (Json.str "send") (field "text" (Json.str "root") end)))
          Items.nil))
      end)

abbrev pub its_spec : Spec
its_spec = record {
  name = "rule";
  owner = Json.obj (field "kind" (Json.str "person") end);
  enabled = true;
  on = When.literal "login:" false "rx";
  limit = default_limit;
  context = 3;
  actions = Action.event ∷ Action.send_text "root" "cr" ∷ [];
  only_port = Json.null;
  approved = none;
}

its_spec_lem : normalise plain a_rule ≡ ok its_spec
unfolding normalise the_when when_of limit_of send_of action_of actions_of owner_of get get_or
    get_or_else int_in ticks_in has
its_spec_lem = refl

abbrev with_one : Triggers
with_one = record (Triggers.new 0) { rules = ("r1", new_rule "r1" its_spec) ∷ [] }

abbrev a_file : Json
a_file = Json.obj (field "rules" (Json.arr (Items.cons (Json.obj a_rule) Items.nil)) end)

abbrev loaded_spec : Spec
loaded_spec = record its_spec { enabled = false }

load-IsHarmless_example :
    (Dict.get "r1" (Triggers.new 0).rules ≡ some (new_rule "r1" loaded_spec))
    ⊎ IsHarmless loaded_spec
unfolding load load_each load_one add fresh_id fresh normalise the_when when_of limit_of send_of
    action_of actions_of owner_of get get_or get_or_else int_in ticks_in has put_key any_sends
    sends_kind Dict.get Dict.put strokes
load-IsHarmless_example =
    load-IsHarmless counting plain a_file (Triggers.new 0) "r1" (new_rule "r1" loaded_spec) refl

-- An update keeps the approval that was given before, whatever comes with the new rule.
update_rule_runs :
    update_rule plain "r1" (field "approved" (Json.str "new") a_rule) (record (Triggers.new 0) {
      rules = ("r1", new_rule "r1" (record its_spec { approved = some "old" })) ∷ [];
    })
    ≡ ok (record (Triggers.new 0) {
      rules = ("r1", new_rule "r1" (record its_spec { approved = some "old" })) ∷ [];
    })
unfolding update_rule normalise the_when when_of limit_of send_of action_of actions_of owner_of get
    get_or get_or_else int_in ticks_in has put_key Dict.get Dict.put
update_rule_runs = refl
