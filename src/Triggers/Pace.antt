-- ===== src/Triggers/Pace.antt =====
-- How often a rule can fire, over any sequence of matches.
use py_uart_proxy.Prelude.{
  ℕ, ◌+◌, ◌≤◌, ◌<◌, String, ◌≡◌, refl, sym, ap, ◌∙◌, subst, inl, inr, false, none, some, List, [],
  ◌∷◌, ◌++◌, arith, ltb, leb, if◌then◌else◌, length, keep-append, length-append, All,
}
use py_uart_proxy.Prelude.Recent.{
  prune, within, prune-eq-within, within-within, Ascending, Ascending-within, All-snoc, All-within,
  Ascending-snoc,
}
use py_uart_proxy.Triggers.{Rule, Limit, Spec, new_rule}
use py_uart_proxy.Triggers.Limits.{Verdict, minute, cooling, admit}
use py_uart_proxy.Triggers.Cases.{is_fire, Quiet, Fired, Handled, admit-cases}

module _ (storm_reason : ℕ → String) where
  -- The times at which a rule fires, of the times at which it is matched.
  unfoldable pub firings : List ℕ → Rule → List ℕ
  firings [] r = []
  firings (t ∷ ts) r =
      let (verdict, r') = admit storm_reason t r in
      let rest = firings ts r' in if is_fire verdict then t ∷ rest else rest

-- Each of the times keeps the limit, after those in `past`: it makes at most `max_per_minute` within
-- the last minute, and none before it is nearer than the cooldown.
pub Paced : Limit → List ℕ → List ℕ → Type 0
Paced limit past [] = Unit
Paced limit past (t ∷ ts) =
    (length (within minute t (past ++ t ∷ [])) ≤ limit.max_per_minute)
    × All (λ u. u + limit.cooldown ≤ t) past
    × Paced limit (past ++ t ∷ []) ts

-- What a rule remembers of the times at which it fired, `now` being the last match.
record Remembers (r : Rule) (past : List ℕ) (now : ℕ) : Type 0 where
  kept : (t : ℕ) → now ≤ t → prune minute t r.fire_times ≡ within minute t past
  order : Ascending past
  bound : All (λ u. u ≤ now) past
  last : (t : ℕ) → cooling t r ≡ false → All (λ u. u + r.spec.limit.cooldown ≤ t) past

-- What pruning at a later time leaves of the remembered times is what the past holds of the last minute.
Kept : List ℕ → List ℕ → ℕ → Type 0
Kept times past now = (u : ℕ) → now ≤ u → prune minute u times ≡ within minute u past

Kept-later : (times past : List ℕ) (now t : ℕ) → now ≤ t → Kept times past now → Kept times past t
unfolding Kept
Kept-later times past now t le k u h = k u (omega arith)

Kept-prune :
    (times past : List ℕ) (now t : ℕ)
    → now ≤ t
    → Ascending past
    → Kept times past now
    → Kept (prune minute t times) past t
unfolding Kept
Kept-prune times past now t le asc k u h =
    rw
      (k t le, prune-eq-within minute u (within minute t past) (Ascending-within minute t past asc))
      (within-within minute t u past h)

Kept-fire :
    (times past : List ℕ) (now t : ℕ)
    → now ≤ t
    → Ascending past
    → All (λ u. u ≤ t) past
    → Kept times past now
    → Kept (prune minute t times ++ t ∷ []) (past ++ t ∷ []) t
unfolding Kept
Kept-fire times past now t le asc bound k u h =
    let old = within minute t past in
    rw
      (
        k t le,
        prune-eq-within minute u (old ++ t ∷ []) (
            Ascending-snoc old t (Ascending-within minute t past asc)
              (All-within (λ v. v ≤ t) minute t past bound)),
        keep-append (λ v. leb u (v + minute)) old (t ∷ []),
        keep-append (λ v. leb u (v + minute)) past (t ∷ []),
        within-within minute t u past h,
      )
      refl

All-later : (past : List ℕ) (now t : ℕ) → now ≤ t → All (λ u. u ≤ now) past → All (λ u. u ≤ t) past
All-later [] now t le a = tt
All-later (u ∷ past) now t le a = (omega (arith, a.0), All-later past now t le a.1)

All-apart :
    (past : List ℕ) (t d u : ℕ) → t + d ≤ u → All (λ v. v ≤ t) past → All (λ v. v + d ≤ u) past
All-apart [] t d u h a = tt
All-apart (v ∷ past) t d u h a = (omega (arith, a.0), All-apart past t d u h a.1)

cooling_same :
    (u : ℕ) (r r' : Rule)
    → r'.last_fire ≡ r.last_fire
    → r'.spec.limit ≡ r.spec.limit
    → cooling u r ≡ cooling u r'
unfolding cooling
cooling_same u r r' a b =
    ap (λ l. elim l [ none ↦ false | some t ↦ ltb u (t + r.spec.limit.cooldown) ]) (sym a)
    ∙ ap (λ k. elim r'.last_fire [ none ↦ false | some t ↦ ltb u (t + k.cooldown) ]) (sym b)

cooled :
    (u t : ℕ) (r : Rule)
    → r.last_fire ≡ some t
    → cooling u r ≡ false
    → t + r.spec.limit.cooldown ≤ u
unfolding cooling
cooled u t r e h =
    let h' =
      sym (ap (λ l. elim l [ none ↦ false | some t ↦ ltb u (t + r.spec.limit.cooldown) ]) e) ∙ h in
    ground arith

All-zero : (ts : List ℕ) → All (λ u. 0 ≤ u) ts
All-zero [] = tt
All-zero (t ∷ ts) = (omega arith, All-zero ts)

module _ (storm_reason : ℕ → String) where
  -- What a match at `t` does to the memory: it is kept when nothing fires, and grows by `t` when the
  -- rule fires, within its limit.
  Quiet-Remembers :
      (r r' : Rule) (v : Verdict) (past : List ℕ) (now t : ℕ)
      → now ≤ t
      → Remembers r past now
      → Quiet t r v r'
      → Remembers r' past t
  unfolding Kept cooling
  Quiet-Remembers r r' v past now t le m q = record {
    kept = elim q.times [
      | inl e ↦ subst (λ ts. Kept ts past t) (sym e) (Kept-later r.fire_times past now t le m.kept)
      | inr e ↦
          subst (λ ts. Kept ts past t) (sym e)
            (Kept-prune r.fire_times past now t le m.order m.kept)
    ];
    order = m.order;
    bound = All-later past now t le m.bound;
    last = λ u h.
        subst (λ l. All (λ v. v + l.cooldown ≤ u) past) (sym q.limit)
          (m.last u (cooling_same u r r' q.last q.limit ∙ h));
  }

  Fired-Remembers :
      (r r' : Rule) (v : Verdict) (past : List ℕ) (now t : ℕ)
      → now ≤ t
      → Remembers r past now
      → Fired t r v r'
      → Remembers r' (past ++ t ∷ []) t
  unfolding Kept
  Fired-Remembers r r' v past now t le m q =
      let bound = All-later past now t le m.bound in
      record {
        kept =
            subst (λ ts. Kept ts (past ++ t ∷ []) t) (sym q.times)
              (Kept-fire r.fire_times past now t le m.order bound m.kept);
        order = Ascending-snoc past t m.order bound;
        bound = All-snoc (λ u. u ≤ t) past t bound (omega arith);
        last = λ u h.
            let c = r'.spec.limit.cooldown in
            let after = cooled u t r' q.last h in
            All-snoc (λ v. v + c ≤ u) past t (All-apart past t c u after bound) after;
      }

  fire_is_paced :
      (r r' : Rule) (v : Verdict) (past : List ℕ) (now t : ℕ)
      → now ≤ t
      → Remembers r past now
      → Fired t r v r'
      → length (within minute t (past ++ t ∷ [])) ≤ r.spec.limit.max_per_minute
  fire_is_paced r r' v past now t le m q =
      let room = subst (λ ts. length ts < r.spec.limit.max_per_minute) (m.kept t le) q.room in
      rw (keep-append (λ u. leb t (u + minute)) past (t ∷ []))
        (ground (arith, room, length-append (within minute t past) (t ∷ [])))

  firings-Paced_from :
      (ts : List ℕ) (r : Rule) (past : List ℕ) (now : ℕ)
      → Ascending (now ∷ ts)
      → Remembers r past now
      → Paced r.spec.limit past (firings storm_reason ts r)
  unfolding firings Paced Handled
  firings-Paced_from [] r past now asc m = tt
  firings-Paced_from (t ∷ ts) r past now asc m =
      let (v, r') = admit storm_reason t r in
      elim (admit-cases storm_reason t r) [
        | inl q ↦
            let rest =
              firings-Paced_from ts r' past t asc.1
                (Quiet-Remembers r r' v past now t asc.0.0 m q) in
            rw (q.no_fire, firings)
              (subst (λ l. Paced l past (firings storm_reason ts r')) q.limit rest)
        | inr q ↦
            let m' = Fired-Remembers r r' v past now t asc.0.0 m q in
            let rest = firings-Paced_from ts r' (past ++ t ∷ []) t asc.1 m' in
            rw (q.fired, firings)
              (
                fire_is_paced r r' v past now t asc.0.0 m q,
                m.last t q.cool,
                subst (λ l. Paced l (past ++ t ∷ []) (firings storm_reason ts r')) q.limit rest,
              )
      ]

  -- However often a new rule is matched, at times that do not go back and with nothing else done to
  -- it, it fires at most `max_per_minute` times within any minute that ends with a firing, and never
  -- sooner than its cooldown after any firing before.
  pub firings-Paced :
      (ts : List ℕ) (rid : String) (spec : Spec)
      → Ascending ts
      → Paced spec.limit [] (firings storm_reason ts (new_rule rid spec))
  unfolding cooling
  firings-Paced ts rid spec asc =
      firings-Paced_from ts (new_rule rid spec) [] 0 (All-zero ts, asc)
        (record {
          kept = λ t h. prune-eq-within minute t [] tt;
          order = tt;
          bound = tt;
          last = λ t h. tt;
        })
