-- ===== src/Client/Reading.antt =====
-- What a caller reads of the lines that are kept: cursor, read, tail, `_before`, and one look of expect.
use py_uart_proxy.Prelude.{
  ℕ, zero, suc, ◌+◌, ◌-◌, max, String, Bool, false, not, ◌&&◌, Option, none, some, List, [], ◌∷◌,
  keep, length, ltb, leb, if◌then◌else◌, last_n, ◌==◌,
}
use py_uart_proxy.Client.{Line, SessionClient}

abbrev pub after : ℕ → Line → Bool
after cursor l = ltb cursor l.n

-- The number of the first line kept.
abbrev pub first_n : List Line → ℕ → ℕ
first_n [] last = suc last
first_n (l ∷ ls) last = l.n

abbrev pub last_of : ℕ → List Line → ℕ
last_of none_there [] = none_there
last_of none_there (l ∷ ls) = last_of l.n ls

-- `lines[-limit:]`, where a limit of 0 is the whole list.
abbrev pub slice_last : ℕ → List Line → List Line
slice_last zero ls = ls
slice_last (suc n) ls = last_n (suc n) ls

abbrev pub Read : Type 0
Read = List Line × ℕ × ℕ

abbrev pub limited : Option ℕ → List Line → ℕ → List Line × ℕ
limited none ls dropped = (ls, dropped)
limited (some limit) ls dropped =
    if ltb limit (length ls)
    then (slice_last limit ls, dropped + (length ls - limit))
    else (ls, dropped)

abbrev pub dropped_before : ℕ → SessionClient → ℕ
dropped_before cursor c = if ltb cursor c.last_n then first_n c.lines c.last_n - cursor - 1 else 0

-- The lines after a cursor, the new cursor, and how many were lost between.
unfoldable pub read : ℕ → Option ℕ → SessionClient → Read
read cursor limit c =
    let (lines, dropped) = limited limit (keep (after cursor) c.lines) (dropped_before cursor c) in
    (lines, last_of (max cursor c.last_n) lines, dropped)

unfoldable pub tail : ℕ → SessionClient → List Line
tail n c = if ltb 0 n then last_n n c.lines else []

abbrev pub context_lines : ℕ
context_lines = 5

-- `_before`: the lines that stand just before number `n`.
unfoldable pub before : ℕ → SessionClient → List Line
before n c = keep (λ l. leb n (l.n + context_lines) && ltb l.n n) c.lines

abbrev first_match : (String → Bool) → ℕ → List Line → Option Line
first_match search cursor [] = none
first_match search cursor (l ∷ ls) =
    let later = first_match search cursor ls in
    if ltb cursor l.n && search l.text then some l else later

abbrev partial_match : (String → Bool) → Option ℕ → SessionClient → Option (Line × List Line)
partial_match search seen c = elim c.partial [
  | none ↦ none
  | some l ↦
      if not (is_seen seen c.partial_seq) && search l.text
      then some (l, before (suc c.last_n) c)
      else none
]
  where
    is_seen : Option ℕ → ℕ → Bool
    is_seen none k = false
    is_seen (some s) k = k == s

-- One round of the loop of `expect`: after which line, and which partial line was seen before.
unfoldable pub look : (String → Bool) → ℕ → Option ℕ → SessionClient → Option (Line × List Line)
unfolding before
look search cursor seen c = elim (first_match search cursor c.lines) [
  | some l ↦ some (l, before l.n c)
  | none ↦ partial_match search seen c
]
