-- ===== src/Mcp.antt =====
-- mcp.py: what the server for AI tools hands back of one attached session, and what it sends there. The
-- registry and the connection to a session are left out; a wait is what it ends with. A time is a
-- number of ticks of 10⁻⁴ s; `float` and `str` are parameters.
pub mod Tools
pub mod Wire
pub mod Bounded
pub mod New
pub mod Access
pub mod Replies
use py_uart_proxy.Prelude.{
  ℕ, zero, suc, ◌+◌, ◌-◌, min, max, String, Bool, true, false, not, ◌&&◌, ◌||◌, Option, none, some,
  List, [], ◌∷◌, ◌++◌, ltb, leb, str_eq, if◌then◌else◌, length, last_n,
}
use py_uart_proxy.Json
use py_uart_proxy.Json.{Json, ℤ, Fields, field, end, get_json, get_or, get_or_else, truthy}
use py_uart_proxy.Client.{Line, SessionClient}
use py_uart_proxy.Client.Reading.{read, tail}
use py_uart_proxy.Client.Requests.{seq_of, events_since}

abbrev pub max_lines : ℕ
max_lines = 200

abbrev pub max_chars : ℕ
max_chars = 20000

abbrev pub max_timeout : ℕ
max_timeout = 1200000

-- What a tool ends with: its data, ToolError, _Params, or another exception.
pub data Outcome {ℓ} (A : Type ℓ) : Type ℓ where
  done : A → Outcome A
  tool_error : String → Outcome A
  bad_params : String → Outcome A
  crashed : String → Outcome A

-- `_Shared`
pub record Shared : Type 0 where
  pub client : SessionClient
  pub cursor : ℕ
  pub events : ℕ
  pub event_mark : ℕ
  pub mark : ℕ
  pub level : String

abbrev pub attached : SessionClient → String → Shared
attached client level = record {
  client = client;
  cursor = 0;
  events = 0;
  event_mark = 0;
  mark = 0;
  level = level;
}

module _ (char_count : String → ℕ) where
  abbrev pub weight_of : Line → ℕ
  weight_of l = char_count l.text + 40

  -- The loop of `_bounded` from the last line to the first: the lines and characters so far, and
  -- whether it has broken off.
  unfoldable pub fits : List Line → ℕ × ℕ × Bool
  fits [] = (0, 0, false)
  fits (l ∷ ls) =
      let (count, total, over) = fits ls in
      if over
      then (count, total, true)
      else if ltb max_chars (total + weight_of l)
      then (count, total + weight_of l, true)
      else (suc count, total + weight_of l, false)

  abbrev fitting : List Line → ℕ → List Line × ℕ
  fitting lines dropped =
      let (count, total, over) = fits lines in
      (last_n count lines, dropped + (length lines - count))

  -- `_bounded`: the lines shown, and how many are not.
  unfoldable pub bounded : List Line → ℕ → List Line × ℕ
  bounded lines dropped = fitting (last_n max_lines lines) (dropped + (length lines - max_lines))

  -- `_read_new`: the lines shown, the line still being written, and how many are not shown.
  unfoldable pub read_new : Shared → (List Line × Option Line × ℕ) × Shared
  read_new s =
      let (lines, cursor, dropped) = read s.cursor none s.client in
      let (shown, hidden) = bounded lines dropped in
      ((shown, s.client.partial, hidden), record s { cursor = cursor; mark = max s.mark cursor })

  -- `_tail` of a number of lines: the same.
  unfoldable pub tail_of : ℤ → Shared → List Line × Option Line × ℕ
  tail_of n s =
      let (shown, hidden) = bounded (tail (within n) s.client) 0 in
      (shown, s.client.partial, hidden)
    where
      within : ℤ → ℕ
      within (ℤ.pos n) = max 1 (min n max_lines)
      within (ℤ.negsuc n) = 1

-- `shown + ([partial] if partial else [])`: the lines that the text of the answer has.
abbrev pub rendered : List Line → Option Line → List Line
rendered shown none = shown
rendered shown (some l) = shown ++ l ∷ []

-- The end of `_wait`, by what `expect` found: the mark moves past it.
abbrev pub passed : Line → Shared → ℕ
passed l s = if l.partial then s.client.last_n else l.n

unfoldable pub matched : Line → Shared → Shared
matched l s = record s { mark = max s.mark (passed l s) }

-- Where `_wait_for` looks from.
abbrev pub unseen_from : Shared → ℕ
unseen_from s = max s.mark s.cursor

abbrev last_seq : ℕ → List Fields → ℕ
last_seq n [] = n
last_seq n (e ∷ es) = last_seq (seq_of e) es

abbrev with_events : List Fields → Shared → List Fields × Shared
with_events [] s = ([], s)
with_events (e ∷ es) s =
    let n = last_seq s.events (e ∷ es) in
    (e ∷ es, record s { events = n; event_mark = max s.event_mark n })

-- `_read_events`
unfoldable pub read_events : Shared → List Fields × Shared
read_events s = with_events (last_n max_lines (events_since s.events s.client)) s

-- `_wait_for_event`, by the event that came: the mark moves past it.
abbrev pub event_passed : Fields → Shared → Shared
event_passed e s = record s { event_mark = max s.event_mark (seq_of e) }

-- min(max(value, 0.0), most)
abbrev pub clamp : ℕ → ℤ → ℕ
clamp most (ℤ.pos n) = min n most
clamp most (ℤ.negsuc n) = 0

-- `_timeout`, by what `float` makes of the argument
unfoldable pub timeout : (Json → Option ℤ) → ℕ → ℕ → Fields → Outcome ℕ
timeout to_float most default args =
    elim (to_float (get_or "timeout" (Json.float (ℤ.pos default)) args)) [
      | none ↦ bad_params "timeout must be a number"
      | some t ↦ done (clamp most t)
    ]

-- isinstance(x, str) and x
abbrev pub some_text : Json → Option String
some_text (Json.str s) = if str_eq s "" then none else some s
some_text _ = none

abbrev hex_when : Json → Outcome Fields
hex_when (Json.str s) = done (field "hex" (Json.str s) end)
hex_when _ = bad_params "hex must be a string"

abbrev pattern_when : Bool → Option String → Outcome Fields
pattern_when regex none = bad_params "pattern (or hex) is required"
pattern_when regex (some s) = done (field (if regex then "regex" else "text") (Json.str s) end)

-- `_when`
unfoldable pub when : Fields → Outcome Fields
when args =
    if truthy (get_json "hex" args)
    then hex_when (get_json "hex" args)
    else pattern_when (truthy (get_json "regex" args)) (some_text (get_json "pattern" args))
