-- ===== src/Pty/Refines.antt =====
-- The mirrors of core/pty_proxy.py in line-merge mode call `on_tx` as the specification of Wire sends.
use py_uart_proxy.Prelude.{
  ℕ, zero, suc, ◌<◌, String, Option, none, some, List, [], ◌∷◌, ◌++◌, Bytes, length, map, ◌≡◌, refl,
  sym, ap, ◌∙◌, subst, append-nil, append_assoc,
}
use py_uart_proxy.Pty.{
  PtyMirror, new_mirror, forward_all, forward, forwarded, pump_tx, serve_read, serve_reads,
  to_forward,
}
use py_uart_proxy.Pty.Wire.{
  cut_at, sends, tagged, of, held_at, AllBelow, AllGo, sends-SendsAll, sends-AllGo,
}

abbrev pub txlines : List PtyMirror → List Bytes
txlines ms = map (λ m. m.txline) ms

abbrev pub chunks : List (ℕ × Bytes) → List Bytes
chunks log = map (λ c. c.1) log

chunks-tagged :
    (i : ℕ) (ready : List Bytes) (log : List (ℕ × Bytes))
    → chunks (tagged i ready ++ log) ≡ ready ++ chunks log
chunks-tagged i [] log = refl
chunks-tagged i (c ∷ ready) log = ap (λ l. c ∷ l) (chunks-tagged i ready log)

abbrev pub new_mirrors : List (String × String) → ℕ → ℕ → List PtyMirror
new_mirrors links queue_max max_lag = map (λ l. new_mirror l.0 l.1 queue_max max_lag) links

nothing_held :
    (i : ℕ) (links : List (String × String)) (queue_max max_lag : ℕ)
    → held_at i (txlines (new_mirrors links queue_max max_lag)) ≡ []
nothing_held i [] queue_max max_lag = refl
nothing_held zero (l ∷ ls) queue_max max_lag = refl
nothing_held (suc i) (l ∷ ls) queue_max max_lag = nothing_held i ls queue_max max_lag

one_line_each :
    (links : List (String × String)) (queue_max max_lag : ℕ)
    → length (txlines (new_mirrors links queue_max max_lag)) ≡ length links
one_line_each [] queue_max max_lag = refl
one_line_each (l ∷ ls) queue_max max_lag = ap suc (one_line_each ls queue_max max_lag)

-- The callbacks, with the list of the calls of `on_tx` kept beside the session's state.
abbrev pub noted :
    {S : Type 0}
    → (Bytes → S → Option String × S)
    → Bytes
    → S × List Bytes
    → Option String × (S × List Bytes)
noted on_tx data' (s, calls) = let (r, s') = on_tx data' s in (r, (s', calls ++ data' ∷ []))

abbrev pub told : {S : Type 0} → (String → S → S) → String → S × List Bytes → S × List Bytes
told on_notice text (s, calls) = (on_notice text s, calls)

module _ {S : Type 0} (on_tx : Bytes → S → Option String × S)
    (dropped_notice : PtyMirror → Bytes → String → String) (on_notice : String → S → S) where
  abbrev Served : Type 0
  Served = PtyMirror × (S × List Bytes)

  abbrev Sent : Bytes → List Bytes → Served → Type 0
  Sent txline calls w = (w.0.txline ≡ txline) × (w.1.1 ≡ calls)

  forwarded-Sent :
      (m : PtyMirror) (data' : Bytes) (r : Option String) (s : S) (calls : List Bytes)
      → Sent m.txline calls
          (forwarded (noted on_tx) dropped_notice (told on_notice) m data' (r, (s, calls)))
  forwarded-Sent m data' none s calls = (refl, refl)
  forwarded-Sent m data' (some error) s calls = (refl, refl)

  forward-Sent :
      (c : Bytes) (w : Served)
      → Sent w.0.txline
          (w.1.1 ++ c ∷ [])
          (forward (noted on_tx) dropped_notice (told on_notice) c w)
  unfolding forward
  forward-Sent c (m, (s, calls)) = let r = on_tx c s in forwarded-Sent m c r.0 r.1 (calls ++ c ∷ [])

  forward_all-Sent :
      (ready : List Bytes) (w : Served)
      → Sent w.0.txline
          (w.1.1 ++ ready)
          (forward_all (noted on_tx) dropped_notice (told on_notice) ready w)
  unfolding forward_all
  forward_all-Sent [] w = (refl, sym (append-nil w.1.1))
  forward_all-Sent (c ∷ ready) w =
      let w' = forward (noted on_tx) dropped_notice (told on_notice) c w in
      let first : Sent w.0.txline (w.1.1 ++ c ∷ []) w' = forward-Sent c w in
      let later : Sent w'.0.txline (w'.1.1 ++ ready)
          (forward_all (noted on_tx) dropped_notice (told on_notice) ready w') =
        forward_all-Sent ready w' in
      (
        later.0 ∙ first.0,
        later.1 ∙ (ap (λ l. l ++ ready) first.1 ∙ append_assoc w.1.1 (c ∷ []) ready),
      )

  abbrev pub ServedAll : Type 0
  ServedAll = List PtyMirror × (S × List Bytes)

  abbrev Implements : List Bytes → List Bytes → ServedAll → Type 0
  Implements lines calls w = (txlines w.0 ≡ lines) × (w.1.1 ≡ calls)

  serve_read-Implements :
      (line_max i : ℕ) (data' : Bytes) (ms : List PtyMirror) (t : S × List Bytes)
      → Implements
          (cut_at line_max i data' (txlines ms)).1
          (t.1 ++ (cut_at line_max i data' (txlines ms)).0)
          (serve_read (noted on_tx) dropped_notice (told on_notice) "line" line_max i data' ms t)
  unfolding serve_read cut_at pump_tx
  serve_read-Implements line_max i data' [] t = (refl, sym (append-nil t.1))
  serve_read-Implements line_max zero data' (m ∷ ms) t =
      let r = to_forward "line" line_max data' m.txline in
      let w : Served = (record m { txline = r.1 }, t) in
      let done : Sent r.1 (t.1 ++ r.0)
          (forward_all (noted on_tx) dropped_notice (told on_notice) r.0 w) =
        forward_all-Sent r.0 w in
      (ap (λ l. l ∷ txlines ms) done.0, done.1)
  serve_read-Implements line_max (suc i) data' (m ∷ ms) t =
      let ih : Implements (cut_at line_max i data' (txlines ms)).1
          (t.1 ++ (cut_at line_max i data' (txlines ms)).0)
          (serve_read (noted on_tx) dropped_notice (told on_notice) "line" line_max i data' ms t) =
        serve_read-Implements line_max i data' ms t in
      (ap (λ ls. m.txline ∷ ls) ih.0, ih.1)

  serve_reads-Implements :
      (line_max : ℕ) (rs : List (ℕ × Bytes)) (w : ServedAll)
      → Implements
          (sends line_max rs (txlines w.0)).1
          (w.1.1 ++ chunks (sends line_max rs (txlines w.0)).0)
          (serve_reads (noted on_tx) dropped_notice (told on_notice) "line" line_max rs w)
  unfolding serve_reads sends
  serve_reads-Implements line_max [] w = (refl, sym (append-nil w.1.1))
  serve_reads-Implements line_max (r ∷ rs) w =
      let (ready, ts') = cut_at line_max r.0 r.1 (txlines w.0) in
      let w' : ServedAll =
        serve_read (noted on_tx) dropped_notice (told on_notice) "line" line_max r.0 r.1 w.0 w.1 in
      let first : Implements (cut_at line_max r.0 r.1 (txlines w.0)).1
          (w.1.1 ++ (cut_at line_max r.0 r.1 (txlines w.0)).0) w' =
        serve_read-Implements line_max r.0 r.1 w.0 w.1 in
      let later : Implements (sends line_max rs (txlines w'.0)).1
          (w'.1.1 ++ chunks (sends line_max rs (txlines w'.0)).0)
          (serve_reads (noted on_tx) dropped_notice (told on_notice) "line" line_max rs w') =
        serve_reads-Implements line_max rs w' in
      let log = sends line_max rs (cut_at line_max r.0 r.1 (txlines w.0)).1 in
      (
        later.0 ∙ ap (λ ts. (sends line_max rs ts).1) first.0,
        later.1
            ∙ (ap (λ ts. w'.1.1 ++ chunks (sends line_max rs ts).0) first.0
                ∙ (ap (λ l. l ++ chunks log.0) first.1
                    ∙ (append_assoc w.1.1 (cut_at line_max r.0 r.1 (txlines w.0)).0 (chunks log.0)
                        ∙ ap (λ l. w.1.1 ++ l)
                            (sym (
                              chunks-tagged r.0 (cut_at line_max r.0 r.1 (txlines w.0)).0
                                log.0))))),
      )

  -- Several clients type at the new mirrors of a group in line mode, in any interleaving of reads,
  -- each read at one of the mirrors, with a `line_max` that is not 0, and whatever `on_tx` and the
  -- notices do, refusals included. Then the calls of `on_tx` are the chunks of a log that names the
  -- client of each, so that no chunk mixes two clients; each chunk ends with its only terminator or
  -- signal byte, or is a runaway line; and for each client, its chunks and then what its mirror still
  -- holds are what it typed.
  pub serve_reads-sends :
      (links : List (String × String)) (queue_max max_lag line_max i : ℕ) (rs : List (ℕ × Bytes))
      (s : S)
      → 0 < line_max
      → AllBelow (length links) rs
      → let ms = new_mirrors links queue_max max_lag in
        let w : ServedAll =
          serve_reads
            (noted on_tx)
            dropped_notice
            (told on_notice)
            "line"
            line_max
            rs
            (ms, (s, [])) in
        let log = (sends line_max rs (txlines ms)).0 in
        (w.1.1 ≡ chunks log) × AllGo line_max log × (of i log ++ held_at i (txlines w.0) ≡ of i rs)
  serve_reads-sends links queue_max max_lag line_max i rs s h k =
      let ms = new_mirrors links queue_max max_lag in
      let w : ServedAll =
        serve_reads (noted on_tx) dropped_notice (told on_notice) "line" line_max rs
          (ms, (s, [])) in
      let sent = sends line_max rs (txlines ms) in
      let here : AllBelow (length (txlines ms)) rs =
        subst (λ n. AllBelow n rs) (sym (one_line_each links queue_max max_lag)) k in
      let all : Implements sent.1 ([] ++ chunks sent.0) w =
        serve_reads-Implements line_max rs (ms, (s, [])) in
      let whole : of i sent.0 ++ held_at i sent.1 ≡ held_at i (txlines ms) ++ of i rs =
        sends-SendsAll line_max h i rs (txlines ms) here in
      (
        all.1,
        sends-AllGo line_max h rs (txlines ms) here,
        ap (λ ts. of i sent.0 ++ held_at i ts) all.0
            ∙ (whole ∙ ap (λ t. t ++ of i rs) (nothing_held i links queue_max max_lag)),
      )
