-- ===== src/Replay/Tail.antt =====
-- The buffer is the tail of what the device said.
use py_uart_proxy.Prelude.{
  ℕ, zero, suc, ◌≤◌, ◌<◌, String, ◌≡◌, refl, sym, ap, ◌∙◌, inl, inr, not, ◌||◌, none, some, List,
  [], ◌∷◌, ◌++◌, arith, ltb, if◌then◌else◌, Bool-cases, length, last_n, min, last_n-append,
  drop-nil, drop_all, lt→ltb, append-nil, ◌-◌, last_n-last_n, length-last_n, append_assoc,
}
use py_uart_proxy.Event.{Event, is_line, is_rx}
use py_uart_proxy.Replay.{
  ReplayEntry, ReplayBuffer, new, entry_of, handle, snapshot, count, slice_from, sub_int,
}

-- EventBus delivers events one after the other.
abbrev pub handle_all : (ℕ → String) → List Event → ReplayBuffer → ReplayBuffer
handle_all wall_str [] s = s
handle_all wall_str (e ∷ es) s = handle_all wall_str es (handle wall_str e s)

-- What the device said: every line event that was received, in order.
abbrev pub history : (ℕ → String) → List Event → List ReplayEntry
history wall_str [] = []
history wall_str (e ∷ es) =
    let rest = history wall_str es in
    if not (is_line e.kind) || not (is_rx e.direction) then rest else entry_of wall_str e ∷ rest

module _ (wall_str : ℕ → String) (n : ℕ) (pos : 0 < n) where
  handle_all-history :
      (es : List Event) (before : List ReplayEntry)
      → handle_all wall_str es (record { max_lines = n; entries = last_n n before })
        ≡ record { max_lines = n; entries = last_n n (before ++ history wall_str es) }
  unfolding handle
  handle_all-history [] before = rw (append-nil before)
  handle_all-history (e ∷ es) before =
      let rest = history wall_str es in
      elim (Bool-cases (not (is_line e.kind) || not (is_rx e.direction))) [
        | inl skip ↦ rw (lt→ltb 0 n pos, skip) (handle_all-history es before)
        | inr kept ↦
            rw (lt→ltb 0 n pos, kept, last_n-append n before (entry_of wall_str e ∷ []))
              (handle_all-history es (before ++ entry_of wall_str e ∷ [])
                ∙ ap (λ l. record { max_lines = n; entries = last_n n l })
                    (append_assoc before (entry_of wall_str e ∷ []) rest))
      ]

slice_within :
    (limit : ℕ) (xs : List ReplayEntry)
    → limit ≤ length xs
    → (if ltb 0 limit then slice_from (sub_int (length xs) limit) xs else []) ≡ last_n limit xs
slice_within zero xs h = sym (drop_all (length xs - 0) xs (omega arith))
slice_within (suc limit) xs h = ground arith

module _ (wall_str : ℕ → String) (max_lines : ℕ) (es : List Event) (h : 0 < max_lines) where
  buffer-history :
      handle_all wall_str es (new max_lines)
      ≡ record { max_lines = max_lines; entries = last_n max_lines (history wall_str es) }
  buffer-history =
      ap (λ l. handle_all wall_str es (record { max_lines = max_lines; entries = l }))
        (sym (drop-nil (0 - max_lines)))
      ∙ handle_all-history wall_str max_lines h es []

  -- After any events the buffer holds the last `max_lines` lines that the device said, and a request
  -- for at most as many lines as it holds is given the last `limit` lines that the device said.
  pub snapshot-history :
      (limit : ℕ)
      → limit ≤ count (handle_all wall_str es (new max_lines))
      → (snapshot none (handle_all wall_str es (new max_lines))
          ≡ last_n max_lines (history wall_str es))
        × (snapshot (some limit) (handle_all wall_str es (new max_lines))
            ≡ last_n limit (history wall_str es))
  unfolding snapshot count
  snapshot-history limit = rw buffer-history (λ le. (
    refl,
    slice_within limit (last_n max_lines (history wall_str es)) le
        ∙ last_n-last_n limit max_lines (history wall_str es)
        ∙ ap (λ k. last_n k (history wall_str es))
            (omega (arith, length-last_n max_lines (history wall_str es))),
  ))

-- A request for more lines than the buffer holds is not given all of them: the start of the slice is
-- then negative and counts from the end, so that `limit - count` lines come back, or all if those are
-- fewer.
pub snapshot_beyond :
    (s : ReplayBuffer) (limit : ℕ)
    → count s < limit
    → length (snapshot (some limit) s) ≡ min (limit - count s) (count s)
unfolding snapshot count
snapshot_beyond s limit h =
    let k = limit - length s.entries - 1 in ground (arith, length-last_n (suc k) s.entries)
