-- ===== src/Triggers/Approval.antt =====
-- What an unapproved rule cannot do.
use py_uart_proxy.Prelude.{
  ℕ, String, ◌≡◌, sym, ap, subst, ◌∙◌, any, ◌≢◌, refl, inl, inr, Bool, true, false, Option, none,
  some, List, [], ◌∷◌, ◌++◌, Bytes, str_eq, eq_iff, arith, Bool-cases,
}
use py_uart_proxy.Prelude.Dict
use py_uart_proxy.Json.{Items}
use py_uart_proxy.Event.{Stamp}
use py_uart_proxy.Session.{Session, Out, emit, publish_notice}
use py_uart_proxy.Triggers.{Rule, Triggers, Action, event, mark, notify, send_text, send_hex}
use py_uart_proxy.Triggers.Limits.{
  Verdict, ignored, storm, fires, admit, enough, admit_enough, fire,
}
use py_uart_proxy.Triggers.Firing.{
  World, approves, eol_of, act, act_all, fired, judged, matched, tell, is_notify, send,
  content_hash, storm_reason,
}
use py_uart_proxy.Triggers.Safety.{wire, wire-append}

-- Whether the rule is approved as it is: by the hash of what it matches, its limits and its actions.
abbrev pub IsApproved : World → Rule → Type 0
IsApproved w r = r.spec.approved ≡ some (content_hash w r.spec)

not_approved : (a : Option String) (h : String) → a ≢ some h → approves a h ≡ false
not_approved none h n = refl
not_approved (some a) h n = elim (Bool-cases (str_eq a h)) [
  | inl e ↦ absurd (n (ap some ((eq_iff a h).0 e)))
  | inr e ↦ e
]

module _ (w : World) (now : ℕ) where
  -- Writes nothing, and changes nothing of the rule.
  Quietly : Rule → Rule × Out → Session → Type 0
  Quietly r (r', (es, s')) s = (wire es ≡ []) × (s'.tx_bytes ≡ s.tx_bytes) × (r' ≡ r)

  send-Quietly :
      (bytes : Bytes) (chars : String) (r : Rule) (s : Session)
      → ¬ IsApproved w r
      → let (j, r', out) = send w now bytes chars r s in Quietly r (r', out) s
  unfolding send Quietly
  send-Quietly bytes chars r s n =
      rw (not_approved r.spec.approved (content_hash w r.spec) n) (refl, refl, refl)

  act-Quietly :
      (a : Action) (r : Rule) (s : Session)
      → ¬ IsApproved w r
      → let (j, r', out) = act w now a r s in Quietly r (r', out) s
  unfolding act Quietly
  act-Quietly event r s n = (refl, refl, refl)
  act-Quietly mark r s n = (refl, refl, refl)
  act-Quietly notify r s n = (refl, refl, refl)
  act-Quietly (send_text chars eol) r s n =
      send-Quietly (w.encode chars ++ eol_of eol) (w.strip chars) r s n
  act-Quietly (send_hex bytes) r s n = send-Quietly bytes (w.strip (w.session.decode bytes)) r s n

  act_all-Quietly :
      (as' : List Action) (r : Rule) (s : Session)
      → ¬ IsApproved w r
      → let (j, r', out) = act_all w now as' r s in Quietly r (r', out) s
  unfolding act_all Quietly
  act_all-Quietly [] r s n = (refl, refl, refl)
  act_all-Quietly (a ∷ as') r s n =
      let (j, r', (es, s')) = act w now a r s in
      let (q, b, c) = act-Quietly a r s n in
      let (js, r'', (es', s'')) = act_all w now as' r' s' in
      let (q', b', c') = act_all-Quietly as' r' s' (subst (λ x. ¬ IsApproved w x) (sym c) n) in
      (wire-append es es' ∙ rw (q, q') refl, b' ∙ b, c' ∙ c)

  admit_approval :
      (r : Rule)
      → let r' = (admit (storm_reason w) now r).1 in
        (r'.spec.approved ≡ r.spec.approved) × (content_hash w r'.spec ≡ content_hash w r.spec)
  unfolding admit enough admit_enough fire content_hash
  admit_approval r = ground arith

  admit-IsApproved : (r : Rule) → ¬ IsApproved w r → ¬ IsApproved w (admit (storm_reason w) now r).1
  admit-IsApproved r n h = let (a, b) = admit_approval r in n (sym a ∙ h ∙ ap some b)

  module _ (stamp : Stamp) (line : String) (groups : Items) where
    -- Writes nothing to the device.
    abbrev pub Unheard : Session → Triggers × Out → Type 0
    Unheard s o = (wire o.1.0 ≡ []) × (o.1.1.tx_bytes ≡ s.tx_bytes)

    tell-Unheard :
        (b : Bool) (r : Rule) (s : Session)
        → (wire (tell w b line r s).0 ≡ []) × ((tell w b line r s).1.tx_bytes ≡ s.tx_bytes)
    unfolding tell publish_notice emit
    tell-Unheard false r s = (refl, refl)
    tell-Unheard true r s = (refl, refl)

    fired-Unheard :
        (r : Rule) (t : Triggers) (s : Session)
        → ¬ IsApproved w r
        → Unheard s (fired w now stamp line groups r t s)
    unfolding fired Quietly
    fired-Unheard r t s n =
        let (js, r', (es, s')) = act_all w now r.spec.actions r s in
        let (q, b, c) = act_all-Quietly r.spec.actions r s n in
        let (d, e) = tell-Unheard (any is_notify r.spec.actions) r' s' in
        (
          wire-append es _
              ∙ rw q
                  (wire-append (tell w (any is_notify r.spec.actions) line r' s').0 _ ∙ rw d refl),
          e ∙ b,
        )

    judged-Unheard :
        (o : Verdict × Rule) (t : Triggers) (s : Session)
        → ¬ IsApproved w o.1
        → Unheard s (judged w now stamp line groups o t s)
    unfolding judged publish_notice emit
    judged-Unheard (ignored, r) t s n = (refl, refl)
    judged-Unheard (storm, r) t s n = (refl, refl)
    judged-Unheard (fires, r) t s n = fired-Unheard r t s n

    -- A rule whose approval is not of what it matches, its limits and its actions as they are now
    -- writes nothing to the device, whatever it is matched by.
    pub matched-Unheard :
        (rid : String) (r : Rule) (t : Triggers) (s : Session)
        → Dict.get rid t.rules ≡ some r
        → ¬ IsApproved w r
        → Unheard s (matched w now stamp line groups rid t s)
    unfolding matched
    matched-Unheard rid r t s e n =
        rw (e, matched) (judged-Unheard (admit (storm_reason w) now r) t s (admit-IsApproved r n))
