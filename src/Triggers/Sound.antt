-- ===== src/Triggers/Sound.antt =====
-- What every rule that `normalise` lets through satisfies.
use py_uart_proxy.Prelude.{◌≤◌, ◌≡◌, String, true, false, none, [], ◌∷◌, str_eq, any, All}
use py_uart_proxy.Json
use py_uart_proxy.Json.{Json, truthy}
use py_uart_proxy.Triggers.{
  When, literal, regex, hex, silence, state, Limit, Action, send_text, Spec,
}
use py_uart_proxy.Triggers.Pattern.{Python, max_pattern, max_context, nested_repeat}
use py_uart_proxy.Triggers.Normalise.{is_one_of, eols, is_event}

module _ (p : Python) where
  -- A pattern is not empty, and a regular expression compiles, is short and nests no repetition.
  abbrev pub IsSafePattern : When → Type 0
  IsSafePattern (literal text case' direction) = str_eq text "" ≡ false
  IsSafePattern (regex text case' direction) =
      (str_eq text "" ≡ false)
      × (p.text_length text ≤ max_pattern)
      × (p.regex_error text ≡ none)
      × (nested_repeat p text ≡ false)
  IsSafePattern (hex bytes) = Unit
  IsSafePattern (silence span) = (5000 ≤ span) × (span ≤ 864000000)
  IsSafePattern (state s) =
      is_one_of ("connected" ∷ "disconnected" ∷ "reconnected" ∷ []) (Json.str s) ≡ true

  -- A text that is sent takes nothing from the match, and has a known line ending.
  abbrev pub IsOwnText : Action → Type 0
  IsOwnText (send_text text eol) = (p.from_match text ≡ false) × (any (str_eq eol) eols ≡ true)
  IsOwnText _ = Unit

  pub record IsSound (spec : Spec) : Type 0 where
    pub pattern : IsSafePattern spec.on
    pub fires : 1 ≤ spec.limit.max_per_minute
    pub counts : 1 ≤ spec.limit.after
    pub short_context : spec.context ≤ max_context
    pub own_texts : All IsOwnText spec.actions
    pub tells : any is_event spec.actions ≡ true

  abbrev IsFlat : String → Type 0
  IsFlat text =
      (p.text_length text ≤ max_pattern)
      × (p.regex_error text ≡ none)
      × (nested_repeat p text ≡ false)

  abbrev AreBounds : Limit → Type 0
  AreBounds limit = (1 ≤ limit.max_per_minute) × (1 ≤ limit.after)
