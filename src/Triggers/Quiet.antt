-- ===== src/Triggers/Quiet.antt =====
-- No rule is set off by what a rule does.
use py_uart_proxy.Prelude.{
  ℕ, suc, ◌+◌, String, ◌≡◌, refl, inl, inr, Bool, true, false, not, some, List, [], ◌∷◌, ◌++◌,
  Bytes, All, any, Option-cases, if◌then◌else◌,
}
use py_uart_proxy.Prelude.Dict
use py_uart_proxy.Json
use py_uart_proxy.Json.{Json, Items, Fields}
use py_uart_proxy.Event.{Event, Direction, Stamp}
use py_uart_proxy.LineAssembler.{feed}
use py_uart_proxy.Session.{
  Session, Out, Written, write, write_when, emit, emit_line, emit_lines, publish_notice,
  origin_meta,
}
use py_uart_proxy.Triggers.{Rule, Triggers, Action, event, mark, notify, send_text, send_hex}
use py_uart_proxy.Triggers.Limits.{Verdict, ignored, storm, fires, admit}
use py_uart_proxy.Triggers.Firing.{
  World, approves, eol_of, origin, act, act_all, fired, judged, matched, tell, send, content_hash,
  storm_reason, is_notify, sent_result,
}
use py_uart_proxy.Triggers.Watching.{on_event, on_line, by_rule}

All-append : (P : Event → Type 0) (es fs : List Event) → All P es → All P fs → All P (es ++ fs)
All-append P [] fs a b = b
All-append P (e ∷ es) fs a b = (a.0, All-append P es fs a.1 b)

module _ (w : World) (now : ℕ) (stamp : Stamp) where
  -- Sets nothing off: neither the rules nor the session change.
  pub Inert : Event → Type 0
  Inert e = (t : Triggers) (s : Session) → on_event w now stamp e t s ≡ (t, ([], s))

  notice-Inert :
      (text : String) (m : Fields) (s : Session) → All Inert (publish_notice w.session text m s).0
  unfolding Inert publish_notice emit on_event
  notice-Inert text m s = (λ t s'. refl, tt)

  emit_lines-Inert :
      (m : Fields) (ls : List Bytes) (s : Session)
      → by_rule m ≡ true
      → All Inert (emit_lines w.session Direction.tx m ls s).0
  unfolding Inert emit_lines emit_line emit on_event on_line
  emit_lines-Inert m [] s h = tt
  emit_lines-Inert m (l ∷ ls) s h =
      (λ t s'. rw h refl, emit_lines-Inert m ls (record s { next_seq = suc s.next_seq }) h)

  write_when-Inert :
      (c : Bool) (o : Written) (bytes : Bytes) (r : Rule) (s : Session)
      → All Inert (write_when w.session c o bytes (some (origin r)) s).1.0
  unfolding write_when emit Inert on_event Json.get
  write_when-Inert false o bytes r s = tt
  write_when-Inert true (Written.failed e) bytes r s = tt
  write_when-Inert true (Written.wrote n) bytes r s =
      let (lines, asm) = feed bytes s.tx_asm in
      (
        λ t s'. refl,
        emit_lines-Inert (origin_meta (some (origin r))) lines
            (record s { tx_bytes = s.tx_bytes + n; next_seq = suc s.next_seq; tx_asm = asm }) refl,
      )

  -- What an action published sets nothing off.
  abbrev Harmless : Json × Rule × Out → Type 0
  Harmless (j, r, (es, s)) = All Inert es

  either_way :
      (b : Bool) (x y : Json × Rule × Out) → Harmless x → Harmless y → Harmless (if b then x else y)
  either_way true x y h k = h
  either_way false x y h k = k

  sent_result-Harmless :
      (bytes : Bytes) (r : Rule) (o : Written × Out)
      → All Inert o.1.0
      → Harmless (sent_result w bytes r o)
  sent_result-Harmless bytes r (Written.wrote n, (es, s)) a = a
  sent_result-Harmless bytes r (Written.failed e, (es, s)) a =
      All-append Inert es _ a (notice-Inert _ _ s)

  send-Harmless :
      (bytes : Bytes) (chars : String) (r : Rule) (s : Session)
      → Harmless (send w now bytes chars r s)
  unfolding send write
  send-Harmless bytes chars r s =
      let r' = record r { sent = r.sent ++ (chars, now) ∷ [] } in
      either_way (not (approves r.spec.approved (content_hash w r.spec))) _ _ tt (
        either_way (not w.writable) _ _ (notice-Inert _ _ s) (
          sent_result-Harmless bytes r' _
            (write_when-Inert s.connected (w.source s bytes) bytes r s)))

  act-Inert :
      (a : Action) (r : Rule) (s : Session) → let (j, r', out) = act w now a r s in All Inert out.0
  unfolding act
  act-Inert event r s = tt
  act-Inert mark r s = tt
  act-Inert notify r s = tt
  act-Inert (send_text chars eol) r s =
      send-Harmless (w.encode chars ++ eol_of eol) (w.strip chars) r s
  act-Inert (send_hex bytes) r s = send-Harmless bytes (w.strip (w.session.decode bytes)) r s

  act_all-Inert :
      (actions : List Action) (r : Rule) (s : Session)
      → let (js, r', out) = act_all w now actions r s in All Inert out.0
  unfolding act_all
  act_all-Inert [] r s = tt
  act_all-Inert (a ∷ actions) r s =
      let (j, r', (es, s')) = act w now a r s in
      All-append Inert es _ (act-Inert a r s) (act_all-Inert actions r' s')

  module _ (line : String) (groups : Items) where
    tell-Inert : (b : Bool) (r : Rule) (s : Session) → All Inert (tell w b line r s).0
    unfolding tell
    tell-Inert false r s = tt
    tell-Inert true r s = notice-Inert _ _ s

    judged-Inert :
        (o : Verdict × Rule) (t : Triggers) (s : Session)
        → All Inert (judged w now stamp line groups o t s).1.0
    unfolding judged fired Inert on_event
    judged-Inert (ignored, r) t s = tt
    judged-Inert (storm, r) t s = notice-Inert _ _ s
    judged-Inert (fires, r) t s =
        let (js, r', (es, s')) = act_all w now r.spec.actions r s in
        let told = tell w (any is_notify r.spec.actions) line r' s' in
        All-append Inert es _ (act_all-Inert r.spec.actions r s) (
          All-append Inert told.0 _ (tell-Inert (any is_notify r.spec.actions) r' s')
            (λ t s''. refl, tt))

    -- No rule is set off by a rule: each event that a match leads to (the chunks and lines it
    -- writes, its notices and its trigger event) changes neither the rules nor the session when the
    -- rules hear it.
    pub matched-Inert :
        (rid : String) (t : Triggers) (s : Session)
        → All Inert (matched w now stamp line groups rid t s).1.0
    unfolding matched
    matched-Inert rid t s = elim (Option-cases (Dict.get rid t.rules)) [
      | inl e ↦ rw (e, matched) tt
      | inr (r, e) ↦ rw (e, matched) (judged-Inert (admit (storm_reason w) now r) t s)
    ]
