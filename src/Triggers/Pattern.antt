-- ===== src/Triggers/Pattern.antt =====
-- The checks of `normalise` on patterns and bytes: `_nested_repeat` and `_hex_bytes`. What the code
-- calls of Python is a parameter.
use py_uart_proxy.Prelude.{
  ℕ, ◌%◌, String, Bool, true, false, not, ◌&&◌, ◌||◌, Option, none, some, Bytes, str_append,
  if◌then◌else◌, ltb, ◌==◌,
}
use py_uart_proxy.Prelude.Result.{Result, ok, value_error}
use py_uart_proxy.Json.{Json, Fields}

-- A parsed regular expression, as far as `_nested_repeat` looks at it: a repeat with its bounds (no
-- upper bound is none), a group or an assertion, a choice, and anything else.
mutual
  pub data Pattern : Type 0 where
    repeat : ℕ → Option ℕ → Nodes → Pattern
    group : Nodes → Pattern
    choice : Choices → Pattern
    other : Pattern

  pub data Nodes : Type 0 where
    nil : Nodes
    cons : Pattern → Nodes → Nodes

  pub data Choices : Type 0 where
    no_more : Choices
    alternative : Nodes → Choices → Choices

-- What `normalise` asks of Python: `dict(x)`, `str(x)`, `len` and the front of a text, the error of
-- `re.compile`, the parse of a pattern, the search of `_FROM_MATCH`, and the three steps of
-- `_hex_bytes` (the text without separators, whether it is hex digits, and its bytes).
pub record Python : Type 0 where
  pub to_dict : Json → Result Fields
  pub to_str : Json → String
  pub text_length : String → ℕ
  pub front : ℕ → String → String
  pub regex_error : String → Option String
  pub parse : String → Nodes
  pub from_match : String → Bool
  pub without_separators : String → String
  pub is_hex : String → Bool
  pub from_hex : String → Bytes

abbrev pub max_pattern : ℕ
max_pattern = 512

abbrev pub max_context : ℕ
max_context = 20

abbrev unbounded : Option ℕ → Bool
unbounded none = true
unbounded (some high) = ltb 100 high

abbrev repeats : Option ℕ → Bool
repeats none = true
repeats (some high) = ltb 1 high

-- `walk` of `_nested_repeat`
unfoldable mutual
  pub walk_node : Pattern → Bool → Bool
  walk_node (repeat low high sub) inside =
      (inside && repeats high) || walk sub (inside || unbounded high)
  walk_node (group sub) inside = walk sub inside
  walk_node (choice alternatives) inside = walk_choices alternatives inside
  walk_node other inside = false

  pub walk : Nodes → Bool → Bool
  walk nil inside = false
  walk (cons x xs) inside = walk_node x inside || walk xs inside

  pub walk_choices : Choices → Bool → Bool
  walk_choices no_more inside = false
  walk_choices (alternative x xs) inside = walk x inside || walk_choices xs inside

module _ (p : Python) where
  unfoldable pub nested_repeat : String → Bool
  unfolding walk
  nested_repeat pattern = walk (p.parse pattern) false

  -- `_hex_bytes`
  unfoldable pub hex_bytes : String → Result Bytes
  hex_bytes text =
      let cleaned = p.without_separators text in
      let n = p.text_length cleaned in
      if (n == 0) || (not (n % 2 == 0) || not (p.is_hex cleaned))
      then value_error (str_append "not hex bytes: " text)
      else ok (p.from_hex cleaned)
