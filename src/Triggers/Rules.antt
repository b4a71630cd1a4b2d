-- ===== src/Triggers/Rules.antt =====
-- The operations on the set of rules, on specs that `normalise` has checked.
use py_uart_proxy.Prelude.{
  String, ◌≡◌, ap, ◌∙◌, Bool, true, false, Option, none, some, [], if◌then◌else◌, str_eq, eq_refl,
  is_some,
}
use py_uart_proxy.Prelude.Dict
use py_uart_proxy.Prelude.Dict.{Dict, get-put_self, get-remove_self}
use py_uart_proxy.Triggers.{Rule, Spec, Triggers, new_rule}
use py_uart_proxy.Triggers.Firing.{World, content_hash, approves}

-- The last lines of `update`, on the spec that `normalise` has checked, of a rule that is there: a new
-- rule of the same id, with the old approval. What comes before them is in Triggers/Adding.antt.
unfoldable pub update : String → Spec → Triggers → Option Triggers
update rid spec t = elim (Dict.get rid t.rules) [
  | none ↦ none
  | some old ↦ some (record t {
    rules = Dict.put rid (new_rule rid (record spec { approved = old.spec.approved })) t.rules;
  })
]

unfoldable pub remove : String → Triggers → Bool × Triggers
remove rid t = (is_some (Dict.get rid t.rules), record t { rules = Dict.remove rid t.rules })

unfoldable pub enable : String → Bool → Triggers → Option Triggers
enable rid on t = elim (Dict.get rid t.rules) [
  | none ↦ none
  | some r ↦ some (record t {
    rules =
        Dict.put rid
          (if on
            then record r {
              spec = record r.spec { enabled = true };
              disabled_reason = none;
              fire_times = [];
            }
            else record r { spec = record r.spec { enabled = false } })
          t.rules;
  })
]

module _ (w : World) where
  unfoldable pub approve : String → Triggers → Option Triggers
  approve rid t = elim (Dict.get rid t.rules) [
    | none ↦ none
    | some r ↦ some (record t {
      rules =
          Dict.put rid
            (record r { spec = record r.spec { approved = some (content_hash w r.spec) } }) t.rules;
    })
  ]

  abbrev standing_of : Option Rule → Option Bool
  standing_of none = none
  standing_of (some r) = some (approves r.spec.approved (content_hash w r.spec))

  -- Whether the rule of an id is approved as it is, where it is there.
  abbrev pub standing : String → Triggers → Option Bool
  standing rid t = standing_of (Dict.get rid t.rules)

  abbrev pub standing_after : String → Option Triggers → Option Bool
  standing_after rid none = none
  standing_after rid (some t) = standing rid t

  abbrev pub then_update : String → Spec → Option Triggers → Option Triggers
  then_update rid spec none = none
  then_update rid spec (some t) = update rid spec t

  standing_update :
      (rid : String) (old : Rule) (spec : Spec) (t : Triggers)
      → Dict.get rid t.rules ≡ some old
      → standing_after rid (update rid spec t)
        ≡ some (approves old.spec.approved (content_hash w spec))
  unfolding update content_hash
  standing_update rid old spec t e =
      let new' = new_rule rid (record spec { approved = old.spec.approved }) in
      rw (e, update) (ap standing_of (get-put_self rid new' t.rules))

  -- A rule that a person approves is approved as it is; an update of it then leaves it approved
  -- exactly where the new content has the hash of the approved one.
  pub approve-update :
      (rid : String) (r : Rule) (spec : Spec) (t : Triggers)
      → Dict.get rid t.rules ≡ some r
      → (standing_after rid (approve rid t) ≡ some true)
        × (standing_after rid (then_update rid spec (approve rid t))
            ≡ some (str_eq (content_hash w r.spec) (content_hash w spec)))
  unfolding approve update content_hash
  approve-update rid r spec t e =
      let r' = record r { spec = record r.spec { approved = some (content_hash w r.spec) } } in
      let t' = record t { rules = Dict.put rid r' t.rules } in
      rw (e, approve)
        (
          ap standing_of (get-put_self rid r' t.rules) ∙ ap some (eq_refl (content_hash w r.spec)),
          standing_update rid r' spec t' (get-put_self rid r' t.rules),
        )
