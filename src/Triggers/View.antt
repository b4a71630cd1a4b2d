-- ===== src/Triggers/View.antt =====
-- A checked rule as a dict again: what `normalise` returns and `_Rule.view` shows. A span that was
-- given as a whole number stands here as the float of the same value.
use py_uart_proxy.Prelude.{String, Bool, true, false, Option, none, some, List, [], ◌∷◌, Bytes}
use py_uart_proxy.Json.{Json, Fields, Items, ℤ, field, end}
use py_uart_proxy.Triggers.{
  When, literal, regex, hex, silence, state, Limit, Action, event, mark, notify, send_text,
  send_hex, Spec, Rule, level_of,
}

abbrev text_or_null : Option String → Json
text_or_null none = Json.null
text_or_null (some s) = Json.str s

abbrev pattern_fields : String → String → Bool → String → Fields
pattern_fields kind pattern case' direction =
    field kind (Json.str pattern)
      (field "case" (Json.flag case') (field "direction" (Json.str direction) end))

abbrev limit_fields : Limit → Fields
limit_fields l = field "once" (Json.flag l.once) (
    field "cooldown" (Json.float (ℤ.pos l.cooldown)) (
      field "max_per_minute" (Json.int (ℤ.pos l.max_per_minute)) (
        field "after" (Json.int (ℤ.pos l.after))
          (field "window" (Json.float (ℤ.pos l.window)) end))))

abbrev kind_only : String → Fields
kind_only kind = field "kind" (Json.str kind) end

abbrev level_number : Bool → Json
level_number true = Json.int (ℤ.pos 1)
level_number false = Json.int (ℤ.pos 0)

-- `hex_text` is `bytes.hex(" ").upper()`.
module _ (hex_text : Bytes → String) where
  abbrev when_fields : When → Fields
  when_fields (literal s case' direction) = pattern_fields "text" s case' direction
  when_fields (regex s case' direction) = pattern_fields "regex" s case' direction
  when_fields (hex bytes) = field "hex" (Json.str (hex_text bytes)) end
  when_fields (silence span) = field "silence" (Json.float (ℤ.pos span)) end
  when_fields (state s) = field "state" (Json.str s) end

  abbrev action_fields : Action → Fields
  action_fields event = kind_only "event"
  action_fields mark = kind_only "mark"
  action_fields notify = kind_only "notify"
  action_fields (send_text s eol) =
      field "kind" (Json.str "send") (field "text" (Json.str s) (field "eol" (Json.str eol) end))
  action_fields (send_hex bytes) =
      field "kind" (Json.str "send") (field "hex" (Json.str (hex_text bytes)) end)

  abbrev action_items : List Action → Items
  action_items [] = Items.nil
  action_items (a ∷ as') = Items.cons (Json.obj (action_fields a)) (action_items as')

  -- The fields of a rule's spec, and what follows them.
  abbrev spec_then : Spec → Fields → Fields
  spec_then spec rest = field "name" (Json.str spec.name) (
      field "owner" spec.owner (
        field "enabled" (Json.flag spec.enabled) (
          field "when" (Json.obj (when_fields spec.on)) (
            field "limit" (Json.obj (limit_fields spec.limit)) (
              field "context" (Json.int (ℤ.pos spec.context)) (
                field "actions" (Json.arr (action_items spec.actions)) (
                  field "only_port" spec.only_port
                    (field "approved" (text_or_null spec.approved) rest))))))))

  unfoldable pub spec_fields : Spec → Fields
  spec_fields spec = spec_then spec end

  -- `view`
  unfoldable pub view : Rule → Fields
  view r = field "id" (Json.str r.id) (
      spec_then r.spec (
        field "level" (level_number (level_of r.spec.actions)) (
          field "fired" (Json.int (ℤ.pos r.fired))
            (field "disabled_reason" (text_or_null r.disabled_reason) end))))
