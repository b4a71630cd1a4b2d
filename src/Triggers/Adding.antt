-- ===== src/Triggers/Adding.antt =====
-- The operations of `Triggers` that take rules as they come: add, update, load, remove_where, and what list,
-- get and events tell.
use py_uart_proxy.Prelude.{
  ℕ, suc, zero, ◌-◌, String, Bool, Option, none, some, List, [], ◌∷◌, str_append, if◌then◌else◌,
  length, keep, is_some, ltb,
}
use py_uart_proxy.Prelude.Dict
use py_uart_proxy.Prelude.Dict.{Dict}
use py_uart_proxy.Prelude.Result.{Result, ok, raised, ◌>>=◌}
use py_uart_proxy.Json.{Json, Fields, ℤ, truthy, get_json, get_or_else, put_key}
use py_uart_proxy.Triggers.{Rule, Spec, Triggers, new_rule}
use py_uart_proxy.Triggers.Pattern.{Python}
use py_uart_proxy.Triggers.Normalise.{normalise}
use py_uart_proxy.Triggers.Firing.{World}

-- `while rid in self._rules: rid = f"r{next(self._ids)}"`, on fuel: the id and the next number.
unfoldable pub fresh : (ℕ → String) → ℕ → String → ℕ → Dict Rule → Option (String × ℕ)
fresh name_of zero rid next rules = if is_some (Dict.get rid rules) then none else some (rid, next)
fresh name_of (suc fuel) rid next rules =
    let later = fresh name_of fuel (name_of next) (suc next) rules in
    if is_some (Dict.get rid rules) then later else some (rid, next)

-- One round for the rule's own id, one for each rule there, and one more.
abbrev pub fuel_for : Triggers → ℕ
fuel_for t = suc (length t.rules)

abbrev pub or_raised : Option (String × ℕ) → Result (String × ℕ)
or_raised none = raised
or_raised (some x) = ok x

-- The rules whose view a predicate does not hold of.
abbrev pub keep_rules : (Rule → Bool) → Dict Rule → Dict Rule
keep_rules gone [] = []
keep_rules gone ((rid, r) ∷ d) =
    let rest = keep_rules gone d in if gone r then rest else (rid, r) ∷ rest

unfoldable pub remove_where : (Rule → Bool) → Triggers → ℕ × Triggers
remove_where gone t =
    let rules = keep_rules gone t.rules in
    (length t.rules - length rules, record t { rules = rules })

abbrev values : Dict Rule → List Rule
values [] = []
values ((rid, r) ∷ d) = r ∷ values d

-- `list`: the rules, whose views show all that is kept of them but the times.
unfoldable pub list_rules : Triggers → List Rule
list_rules t = values t.rules

-- e["seq"]
abbrev seq_of : Fields → ℕ
seq_of e = elim (get_json "seq" e) [ Json.int (ℤ.pos n) ↦ n | _ ↦ 0 ]

unfoldable pub events_since : ℕ → Triggers → List Fields
events_since since t = keep (λ e. ltb since (seq_of e)) t.events

-- f"r{n}"
abbrev pub name_of : World → ℕ → String
name_of w n = str_append "r" (w.decimal n)

abbrev text_or_null : Option String → Json
text_or_null none = Json.null
text_or_null (some s) = Json.str s

-- {**rule, "approved": old.spec["approved"], "owner": rule.get("owner") or old.spec["owner"]}
abbrev pub over_old : Fields → Rule → Fields
over_old rule old =
    put_key "owner" (get_or_else "owner" old.spec.owner rule)
      (put_key "approved" (text_or_null old.spec.approved) rule)

abbrev pub replaced : Python → String → Fields → Triggers → Option Rule → Result Triggers
replaced p rid rule t none = raised
replaced p rid rule t (some old) = do
  spec ← normalise p (over_old rule old)
  ok (record t { rules = Dict.put rid (new_rule rid spec) t.rules })

-- `update` of a rule as it comes; a missing id is a KeyError. Triggers/Rules.antt has its last lines.
unfoldable pub update_rule : Python → String → Fields → Triggers → Result Triggers
update_rule p rid rule t = replaced p rid rule t (Dict.get rid t.rules)

module _ (w : World) (p : Python) where
  -- `str(rule.get("id") or f"r{next(self._ids)}")`
  abbrev pub first_id : Fields → Triggers → String × ℕ
  first_id rule t =
      if truthy (get_json "id" rule)
      then (p.to_str (get_json "id" rule), t.next_id)
      else (name_of w t.next_id, suc t.next_id)

  unfoldable pub fresh_id : Fields → Triggers → Option (String × ℕ)
  fresh_id rule t = fresh (name_of w) (fuel_for t) (first_id rule t).0 (first_id rule t).1 t.rules

  abbrev pub added : Triggers → Spec → String × ℕ → String × Triggers
  added t spec (rid, next) =
      (rid, record t { rules = Dict.put rid (new_rule rid spec) t.rules; next_id = next })

  unfoldable pub add : Fields → Triggers → Result (String × Triggers)
  add rule t = do
    spec ← normalise p rule
    fresh' ← or_raised (fresh_id rule t)
    ok (added t spec fresh')
