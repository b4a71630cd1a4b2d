-- ===== src/Mcp/New.antt =====
-- `_read_new` of mcp.py on a client that keeps a history: what an agent is shown, call after call.
use py_uart_proxy.Prelude.{
  ℕ, suc, ◌+◌, ◌-◌, ◌≤◌, max, String, none, some, Option, ◌++◌, length-append, refl, List, [], ◌∷◌,
  length, last_n, last_n-last_n, drop, length-drop, length-last_n, ◌≡◌, ap, ◌∙◌, arith,
}
use py_uart_proxy.Client.{Line, SessionClient}
use py_uart_proxy.Client.Kept.{
  IsKept, AreNumbered, AreNumbered-drop, after-drop, Complete, read-Complete,
}
use py_uart_proxy.Client.Reading.{read, last_of}
use py_uart_proxy.Mcp.{Shared, read_new, rendered, bounded, max_lines, max_chars}
use py_uart_proxy.Mcp.Bounded.{IsBounded, bounded-IsBounded, weight}

last_of-numbers : (k : ℕ) (ls : List Line) → AreNumbered k ls → last_of k ls ≡ k + length ls
last_of-numbers k [] h = omega arith
last_of-numbers k (l ∷ ls) (n, h) =
    ap (λ d. last_of d ls) n ∙ (last_of-numbers (suc k) ls h ∙ omega arith)

last_of-newest :
    (d k size : ℕ) (ls : List Line)
    → AreNumbered k ls
    → d ≡ size
    → length ls ≡ size - k
    → last_of d ls ≡ size
last_of-newest d k size [] h e f = e
last_of-newest d k size (l ∷ ls) (n, h) e f =
    ap (λ m. last_of m ls) n ∙ (last_of-numbers (suc k) ls h ∙ omega (arith, f))

-- The new cursor is the number of the newest line.
read_cursor :
    (history : List Line) (c : SessionClient) (cursor : ℕ)
    → IsKept history c
    → cursor ≤ length history
    → (read cursor none c).1 ≡ length history
unfolding read
read_cursor history c cursor h k =
    let j = max cursor (length history - c.max_lines) in
    ap (last_of (max cursor c.last_n)) (after-drop history c cursor h)
    ∙ last_of-newest (max cursor c.last_n) (j + 0) (length history) (drop j history)
        (AreNumbered-drop j 0 history h.numbered) (omega (arith, h.counts, k))
        (omega (arith, length-drop j history))

-- The text of the answer has one line more than the answer's `lines`, where a line is being written.
abbrev pub AddsPartial : Option Line → List Line → List Line → Type 0
AddsPartial none shown text = text ≡ shown
AddsPartial (some l) shown text = (text ≡ shown ++ l ∷ []) × (length text ≤ suc max_lines)

abbrev pub IsNew :
    (String → ℕ) → List Line → Shared → (List Line × Option Line × ℕ) × Shared → Type 0
IsNew char_count history s ((shown, partial, hidden), s') =
    (shown ≡ last_n (length shown) history)
    × (length shown + hidden ≡ length history - s.cursor)
    × (length shown ≤ max_lines)
    × (weight char_count shown ≤ max_chars)
    × (s'.cursor ≡ length history)
    × (length history ≤ s'.mark)
    × AddsPartial s.client.partial shown (rendered shown partial)

by_partial :
    (o : Option Line) (shown : List Line)
    → length shown ≤ max_lines
    → AddsPartial o shown (rendered shown o)
by_partial none shown h = refl
by_partial (some l) shown h = (refl, omega (arith, h, length-append shown (l ∷ [])))

-- The client of an attached session keeps the newest lines of the device's history, and the agent's
-- cursor is within it. The finished lines that `read_new` shows are the newest of the history, in order,
-- at most 200 of them, of at most 20,000 characters with 40 counted for each line's own fields; with
-- the lines that it counts as not shown they account for every line since the cursor, each once. The
-- text shows after them the line that the device is still writing, if the client has one, whatever its
-- length, and nothing else. The cursor and the mark of `wait_for` then stand at the end of the history,
-- so that the next call starts there.
pub read_new-IsNew :
    (char_count : String → ℕ) (history : List Line) (s : Shared)
    → IsKept history s.client
    → s.cursor ≤ length history
    → IsNew char_count history s (read_new char_count s)
unfolding read_new
read_new-IsNew char_count history s h k =
    let r = read s.cursor none s.client in
    let (same, counts) : Complete history s.cursor r =
      read-Complete history s.client s.cursor none h (λ e. absurd (ground (arith, e))) in
    let out = bounded char_count r.0 r.2 in
    let (newest, all, few, light) : IsBounded char_count r.0 r.2 out =
      bounded-IsBounded char_count r.0 r.2 in
    let at_end : r.1 ≡ length history = read_cursor history s.client s.cursor h k in
    (
      newest
          ∙ (ap (last_n (length out.0)) same
              ∙ (last_n-last_n (length out.0) (length r.0) history
                  ∙ ap (λ n. last_n n history)
                      (omega (arith, all, ap length newest, length-last_n (length out.0) r.0)))),
      omega (arith, all, counts),
      few,
      light,
      at_end,
      omega (arith, at_end),
      by_partial s.client.partial out.0 few,
    )
