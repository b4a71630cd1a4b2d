-- ===== src/Triggers/Watching.antt =====
-- `_on_event` and what it calls: which rules an event matches.
use py_uart_proxy.Prelude.{
  ℕ, suc, ◌+◌, ◌-◌, String, Bool, true, false, not, ◌&&◌, ◌||◌, Option, none, some, List, [], ◌∷◌,
  ◌++◌, Bytes, map, str_eq, str_append, if◌then◌else◌, length, last_n, any, keep, leb, ltb, ◌==◌,
  max,
}
use py_uart_proxy.Prelude.Dict
use py_uart_proxy.Prelude.Dict.{Dict}
use py_uart_proxy.Json
use py_uart_proxy.Json.{Json, Items, Fields}
use py_uart_proxy.Event.{Event, EventKind, Direction, Stamp}
use py_uart_proxy.Session.{Session, Out}
use py_uart_proxy.Triggers.{Rule, Triggers, literal, regex, hex, silence, state}
use py_uart_proxy.Triggers.Firing.{World, matched}

abbrev pub max_context : ℕ
max_context = 20

abbrev pub echo_window : ℕ
echo_window = 20000

-- The line, groups and rule of one call of `_matched`.
abbrev pub Call : Type 0
Call = String × Items × String

abbrev set_spoken : Dict Rule → Dict Rule
set_spoken [] = []
set_spoken ((k, r) ∷ rules) = (k, record r { silent_fired = false }) ∷ set_spoken rules

-- `_heard`
unfoldable pub heard : ℕ → Triggers → Triggers
heard now t = record t { last_rx = now; rules = set_spoken t.rules }

-- The ids of the rules that satisfy a test, in their order.
abbrev pub ids_where : (Rule → Bool) → Dict Rule → List String
ids_where p [] = []
ids_where p ((k, r) ∷ rules) = let rest = ids_where p rules in if p r then k ∷ rest else rest

-- A pattern rule whose direction is that of the line.
abbrev pub reads_line : String → Rule → Bool
reads_line direction r = elim r.spec.on [
  | literal pattern case' d ↦ str_eq d direction
  | regex pattern case' d ↦ str_eq d direction
  | _ ↦ false
]

-- The two branches of `_on_status`: what the device's coming and going sets off.
unfoldable pub came : ℕ → Triggers → Option String × Triggers
came now t = (
  if t.ever_connected && t.dropped
      then some "reconnected"
      else if t.ever_connected
      then none
      else some "connected",
  record t { connected = true; ever_connected = true; dropped = false; last_rx = now },
)

unfoldable pub went : Triggers → Option String × Triggers
went t = (
  if t.connected then some "disconnected" else none,
  record t { connected = false; dropped = if t.connected then true else t.dropped },
)

abbrev pub says_gone : String → Bool
says_gone status =
    str_eq status "error"
    || (str_eq status "reconnecting" || (str_eq status "waiting" || str_eq status "disconnected"))

-- What a status sets off, and the device's state after it.
unfoldable pub device_change : ℕ → String → Triggers → Option String × Triggers
device_change now status t =
    if str_eq status "connected" then came now t else if says_gone status then went t else (none, t)

abbrev pub reads_state : String → Rule → Bool
reads_state fire r = elim r.spec.on [
  | state wanted ↦ str_eq wanted fire || (str_eq fire "reconnected" && str_eq wanted "connected")
  | _ ↦ false
]

abbrev pub direction_value : Direction → String
direction_value Direction.rx = "rx"
direction_value Direction.tx = "tx"
direction_value Direction.sys = "sys"

-- `origin.get("via") == "rule"`
abbrev via_of : Option Json → Option Json
via_of (some (Json.obj origin)) = Json.get "via" origin
via_of _ = none

abbrev is_rule : Option Json → Bool
is_rule (some (Json.str via)) = str_eq via "rule"
is_rule _ = false

abbrev pub by_rule : Fields → Bool
by_rule meta = is_rule (via_of (Json.get "origin" meta))

module _ (w : World) (now : ℕ) (stamp : Stamp) where
  unfoldable pub match_each : List Call → Triggers → Session → Triggers × Out
  match_each [] t s = (t, ([], s))
  match_each ((line, groups, rid) ∷ calls) t s =
      let (t', (es, s')) = matched w now stamp line groups rid t s in
      let (t'', (es', s'')) = match_each calls t' s' in (t'', (es ++ es', s''))

  -- `_is_own_echo`, which also forgets what was sent longer ago than the window.
  unfoldable pub own_echo : String → Rule → Bool × Rule
  own_echo text r =
      let sent = keep (λ (c, at). leb now (at + echo_window)) r.sent in
      (any (λ (c, at). str_eq (w.strip text) c) sent, record r { sent = sent })

  -- One round of the loop of `_on_line` over the candidates.
  unfoldable pub line_at : Bool → String → String → Triggers → Session → Triggers × Out
  line_at is_rx text rid t s = elim (Dict.get rid t.rules) [
    | none ↦ (t, ([], s))
    | some r ↦ elim (w.search r.spec.on text) [
      | none ↦ (t, ([], s))
      | some groups ↦
          let (echoed, r') = own_echo text r in
          let t' = record t { rules = Dict.put rid r' t.rules } in
          if not is_rx
          then matched w now stamp text groups rid t s
          else if echoed
          then (t', ([], s))
          else matched w now stamp text groups rid t' s
    ]
  ]

  unfoldable pub line_each : Bool → String → List String → Triggers → Session → Triggers × Out
  line_each is_rx text [] t s = (t, ([], s))
  line_each is_rx text (rid ∷ rids) t s =
      let (t', (es, s')) = line_at is_rx text rid t s in
      let (t'', (es', s'')) = line_each is_rx text rids t' s' in (t'', (es ++ es', s''))

  -- `_on_line`, for the value of the line's direction.
  unfoldable pub on_line : String → String → Fields → Triggers → Session → Triggers × Out
  on_line direction text meta t s =
      let is_rx = str_eq direction "rx" in
      let t1 = (if is_rx then heard now t else t) in
      let (t2, out) = line_each is_rx text (ids_where (reads_line direction) t1.rules) t1 s in
      if str_eq direction "tx" && by_rule meta then (t, ([], s)) else (
        if is_rx
            then record t2 { recent_lines = last_n max_context (t2.recent_lines ++ text ∷ []) }
            else t2,
        out,
      )

  -- `_on_status`
  unfoldable pub on_status : String → Triggers → Session → Triggers × Out
  on_status status t s =
      let (change, t') = device_change now status t in
      elim change [
        | none ↦ (t', ([], s))
        | some fire ↦
            match_each
              (map (λ rid. (str_append "device " fire, Items.nil, rid))
                (ids_where (reads_state fire) t'.rules))
              t' s
      ]

  -- `tick`: the silences that are due, each once until the device speaks again.
  abbrev pub is_due : ℕ → Rule → Bool
  is_due last_rx r = elim r.spec.on [
    | silence span ↦ not r.silent_fired && leb (last_rx + span) now
    | _ ↦ false
  ]

  abbrev silence_text : Rule → String
  silence_text r = elim r.spec.on [
    | silence span ↦ str_append "no output for " (str_append (w.seconds span) " s")
    | _ ↦ ""
  ]

  abbrev due_calls : ℕ → Dict Rule → List Call
  due_calls last_rx [] = []
  due_calls last_rx ((k, r) ∷ rules) =
      let rest = due_calls last_rx rules in
      if is_due last_rx r then (silence_text r, Items.nil, k) ∷ rest else rest

  abbrev set_silent : ℕ → Dict Rule → Dict Rule
  set_silent last_rx [] = []
  set_silent last_rx ((k, r) ∷ rules) =
      (k, if is_due last_rx r then record r { silent_fired = true } else r)
      ∷ set_silent last_rx rules

  unfoldable pub tick : Triggers → Session → Triggers × Out
  tick t s =
      if not t.connected
      then (t, ([], s))
      else match_each (due_calls t.last_rx t.rules)
          (record t { rules = set_silent t.last_rx t.rules }) s

-- Where `h` stands in a buffer, by `find` from each place on; `at` is the buffer's own place.
abbrev pub begins : Bytes → Bytes → Bool
begins [] buf = true
begins (b ∷ h) [] = false
begins (b ∷ h) (c ∷ buf) = b == c && begins h buf

unfoldable pub occurrences : Bytes → ℕ → Bytes → List ℕ
occurrences h at [] = []
occurrences h at (b ∷ buf) =
    let rest = occurrences h (suc at) buf in if begins h (b ∷ buf) then at ∷ rest else rest

abbrev pub hex_of : Rule → Option Bytes
hex_of r = elim r.spec.on [ hex bytes ↦ some bytes | _ ↦ none ]

abbrev pub longest : Dict Rule → ℕ
longest [] = 0
longest ((k, r) ∷ rules) = elim (hex_of r) [
  | none ↦ longest rules
  | some bytes ↦ max (length bytes) (longest rules)
]

-- The matches of `h` that end in the new part of the buffer, which begins at `start`.
unfoldable pub fresh_places : Bytes → ℕ → Bytes → List ℕ
fresh_places h start buf = keep (λ pos. ltb start (pos + length h)) (occurrences h 0 buf)

-- `buf[-(longest - 1):] if longest > 1 else b""`
unfoldable pub hex_tail_of : ℕ → Bytes → Bytes
hex_tail_of longest buf = last_n (longest - 1) buf

module _ (w : World) (now : ℕ) (stamp : Stamp) where
  abbrev hex_calls : ℕ → Bytes → Dict Rule → List Call
  hex_calls start buf [] = []
  hex_calls start buf ((k, r) ∷ rules) =
      let rest = hex_calls start buf rules in
      elim (hex_of r) [
        | none ↦ rest
        | some h ↦ map (λ pos. (w.hex_text h, Items.nil, k)) (fresh_places h start buf) ++ rest
      ]

  abbrev pub is_hex : Rule → Bool
  is_hex r = elim (hex_of r) [ none ↦ false | some h ↦ true ]

  -- `_on_bytes`
  unfoldable pub on_bytes : Bytes → Triggers → Session → Triggers × Out
  on_bytes bytes t s =
      let buf = t.hex_tail ++ bytes in
      elim (ids_where is_hex t.rules) [
        | [] ↦ (t, ([], s))
        | k ∷ ks ↦
            match_each w now stamp (hex_calls (length t.hex_tail) buf t.rules)
              (record t { hex_tail = hex_tail_of (longest t.rules) buf }) s
      ]

  -- `_on_event`
  unfoldable pub on_event : Event → Triggers → Session → Triggers × Out
  on_event e t s = elim e.kind [
    | EventKind.line ↦ on_line w now stamp (direction_value e.direction) e.text e.meta t s
    | EventKind.data_chunk ↦ elim e.direction [
      | Direction.rx ↦ on_bytes e.raw (heard now t) s
      | _ ↦ (t, ([], s))
    ]
    | EventKind.status ↦ on_status w now stamp e.text t s
    | _ ↦ (t, ([], s))
  ]
