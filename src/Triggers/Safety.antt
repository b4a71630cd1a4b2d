-- ===== src/Triggers/Safety.antt =====
-- What a rule can put on the wire: nothing taken from the match.
use py_uart_proxy.Prelude.{
  ℕ, String, ◌≡◌, sym, ap, ◌∙◌, any, refl, inl, inr, Bool, true, false, List, [], ◌∷◌, ◌++◌, Bytes,
  Option-cases, append_assoc,
}
use py_uart_proxy.Prelude.Dict
use py_uart_proxy.Json.{Items}
use py_uart_proxy.Event.{Event, EventKind, Direction, Stamp}
use py_uart_proxy.Session.{Session, Out, emit, publish_notice}
use py_uart_proxy.Triggers.{Rule, Triggers}
use py_uart_proxy.Triggers.Limits.{Verdict, ignored, storm, fires, admit}
use py_uart_proxy.Triggers.Firing.{
  World, act_all, fired, judged, matched, tell, is_notify, storm_reason,
}

abbrev wire_of : EventKind → Direction → Bytes → List Bytes
wire_of EventKind.data_chunk Direction.tx raw = raw ∷ []
wire_of _ _ raw = []

-- What was written to the device, among the events.
abbrev pub wire : List Event → List Bytes
wire [] = []
wire (e ∷ es) = wire_of e.kind e.direction e.raw ++ wire es

pub wire-append : (es fs : List Event) → wire (es ++ fs) ≡ wire es ++ wire fs
wire-append [] fs = refl
wire-append (e ∷ es) fs =
    rw (wire-append es fs)
      (rw (append_assoc (wire_of e.kind e.direction e.raw) (wire es) (wire fs)) refl)

module _ (w : World) (now : ℕ) (stamp : Stamp) where
  tell-blind :
      (b : Bool) (l m : String) (r : Rule) (s : Session)
      → (wire (tell w b l r s).0 ≡ []) × ((tell w b l r s).1 ≡ (tell w b m r s).1)
  unfolding tell publish_notice emit
  tell-blind false l m r s = (refl, refl)
  tell-blind true l m r s = (refl, refl)

  -- What two matches of a rule, by different lines and groups, have in common.
  abbrev pub Alike : Triggers × Out → Triggers × Out → Type 0
  Alike a b = (wire a.1.0 ≡ wire b.1.0) × (a.1.1 ≡ b.1.1) × (a.0.rules ≡ b.0.rules)

  fired-Alike :
      (l m : String) (g h : Items) (r : Rule) (t : Triggers) (s : Session)
      → Alike (fired w now stamp l g r t s) (fired w now stamp m h r t s)
  unfolding fired
  fired-Alike l m g h r t s =
      let (js, r', (es, s')) = act_all w now r.spec.actions r s in
      let b = any is_notify r.spec.actions in
      let (a, e) = tell-blind b l m r' s' in
      let (c, _) = tell-blind b m l r' s' in
      (
        wire-append es _
            ∙ ap (λ x. wire es ++ x)
                (wire-append (tell w b l r' s').0 _
                  ∙ rw (a, c) refl
                  ∙ sym (wire-append (tell w b m r' s').0 _))
            ∙ sym (wire-append es _),
        e,
        refl,
      )

  judged-Alike :
      (l m : String) (g h : Items) (o : Verdict × Rule) (t : Triggers) (s : Session)
      → Alike (judged w now stamp l g o t s) (judged w now stamp m h o t s)
  unfolding judged
  judged-Alike l m g h (ignored, r) t s = (refl, refl, refl)
  judged-Alike l m g h (storm, r) t s = (refl, refl, refl)
  judged-Alike l m g h (fires, r) t s = fired-Alike l m g h r t s

  -- Nothing that the device prints becomes what it is told: a match by any other line, with any other
  -- groups, writes the same bytes to the device, and leaves the session and the rules the same.
  pub matched-Alike :
      (l m : String) (g h : Items) (rid : String) (t : Triggers) (s : Session)
      → Alike (matched w now stamp l g rid t s) (matched w now stamp m h rid t s)
  unfolding matched
  matched-Alike l m g h rid t s = elim (Option-cases (Dict.get rid t.rules)) [
    | inl e ↦ rw (e, matched) (refl, refl, refl)
    | inr (r, e) ↦ rw (e, matched) (judged-Alike l m g h (admit (storm_reason w) now r) t s)
  ]
