-- ===== src/Triggers/Limits.antt =====
-- The part of `_matched` under the lock: whether a match fires its rule, within the rule's limits.
use py_uart_proxy.Prelude.{
  ℕ, suc, ◌+◌, String, Bool, true, false, not, none, some, [], ◌∷◌, ◌++◌, ltb, leb, if◌then◌else◌,
  length,
}
use py_uart_proxy.Prelude.Recent.{prune}
use py_uart_proxy.Triggers.{Rule, set_enabled}

pub data Verdict : Type 0 where
  ignored storm fires : Verdict

abbrev pub minute : ℕ
minute = 600000

-- `limit["after"] > 1`: the match counts only once enough of them came within the window.
unfoldable pub enough : ℕ → Rule → Bool × Rule
enough now r =
    let times = prune r.spec.limit.window now (r.match_times ++ now ∷ []) in
    if leb r.spec.limit.after 1
    then (true, r)
    else if ltb (length times) r.spec.limit.after
    then (false, record r { match_times = times })
    else (true, record r { match_times = [] })

-- `rule.last_fire is not None and now - rule.last_fire < limit["cooldown"]`
unfoldable pub cooling : ℕ → Rule → Bool
cooling now r = elim r.last_fire [ none ↦ false | some t ↦ ltb now (t + r.spec.limit.cooldown) ]

unfoldable pub fire : ℕ → Rule → Rule
fire now r =
    let r' = record r {
      fire_times = r.fire_times ++ now ∷ [];
      last_fire = some now;
      fired = suc r.fired;
    } in
    if r.spec.limit.once then set_enabled false (some "once") r' else r'

-- `storm_reason` is the text f"fired {max_per_minute} times in a minute".
module _ (storm_reason : ℕ → String) where
  unfoldable pub admit_enough : ℕ → Rule → Verdict × Rule
  admit_enough now r =
      let r' = record r { fire_times = prune minute now r.fire_times } in
      if cooling now r
      then (ignored, r)
      else if leb r.spec.limit.max_per_minute (length r'.fire_times)
      then (storm, set_enabled false (some (storm_reason r.spec.limit.max_per_minute)) r')
      else (fires, fire now r')

  unfoldable pub admit : ℕ → Rule → Verdict × Rule
  admit now r =
      let (is_enough, r') = enough now r in
      if not r.spec.enabled
      then (ignored, r)
      else if is_enough
      then admit_enough now r'
      else (ignored, r')
