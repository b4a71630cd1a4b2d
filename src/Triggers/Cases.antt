-- ===== src/Triggers/Cases.antt =====
-- The two ends that a match can have: nothing fires, or the rule fires within its limits.
use py_uart_proxy.Prelude.{
  ℕ, ◌<◌, ◌⊎◌, String, ◌≡◌, refl, sym, ap, ◌∙◌, subst, inl, inr, Bool, true, false, not, some, [],
  ◌∷◌, ◌++◌, arith, leb, if◌then◌else◌, Bool-cases, length,
}
use py_uart_proxy.Prelude.Recent.{prune}
use py_uart_proxy.Triggers.{Rule}
use py_uart_proxy.Triggers.Limits.{
  Verdict, ignored, fires, minute, enough, cooling, fire, admit_enough, admit,
}

abbrev pub is_fire : Verdict → Bool
is_fire fires = true
is_fire _ = false

pub record Quiet (t : ℕ) (r : Rule) (v : Verdict) (r' : Rule) : Type 0 where
  pub no_fire : is_fire v ≡ false
  pub last : r'.last_fire ≡ r.last_fire
  pub limit : r'.spec.limit ≡ r.spec.limit
  pub times : (r'.fire_times ≡ r.fire_times) ⊎ (r'.fire_times ≡ prune minute t r.fire_times)

pub record Fired (t : ℕ) (r : Rule) (v : Verdict) (r' : Rule) : Type 0 where
  pub fired : is_fire v ≡ true
  pub cool : cooling t r ≡ false
  pub room : length (prune minute t r.fire_times) < r.spec.limit.max_per_minute
  pub last : r'.last_fire ≡ some t
  pub limit : r'.spec.limit ≡ r.spec.limit
  pub times : r'.fire_times ≡ prune minute t r.fire_times ++ t ∷ []

module _ (storm_reason : ℕ → String) (t : ℕ) where
  admit_enough-cases :
      (r : Rule) → let o = admit_enough storm_reason t r in Quiet t r o.0 o.1 ⊎ Fired t r o.0 o.1
  unfolding admit_enough fire
  admit_enough-cases r = elim (Bool-cases (cooling t r)) [
    | inl c ↦ rw c (inl (record { no_fire = refl; last = refl; limit = refl; times = inl refl }))
    | inr c ↦
        rw c
          (elim (Bool-cases
            (leb r.spec.limit.max_per_minute (length (prune minute t r.fire_times)))) [
              | inl m ↦
                  rw m
                    (inl (record { no_fire = refl; last = refl; limit = refl; times = inr refl }))
              | inr m ↦ rw m (
                  inr (record {
                    fired = refl;
                    cool = c;
                    room = ground arith;
                    last = ground arith;
                    limit = ground arith;
                    times = ground arith;
                  }))
            ])
  ]

  enough_keeps :
      (r : Rule)
      → let r' = (enough t r).1 in
        (r'.fire_times ≡ r.fire_times)
        × (r'.last_fire ≡ r.last_fire)
        × (r'.spec ≡ r.spec)
        × (cooling t r' ≡ cooling t r)
  unfolding enough cooling
  enough_keeps r = ground arith

  Quiet-lift :
      (r : Rule) (v : Verdict) (r1 r2 : Rule)
      → r1.fire_times ≡ r.fire_times
      → r1.last_fire ≡ r.last_fire
      → r1.spec ≡ r.spec
      → cooling t r1 ≡ cooling t r
      → Quiet t r1 v r2 ⊎ Fired t r1 v r2
      → Quiet t r v r2 ⊎ Fired t r v r2
  Quiet-lift r v r1 r2 a b c d (inl q) = inl (record {
    no_fire = q.no_fire;
    last = q.last ∙ b;
    limit = q.limit ∙ ap (λ s. s.limit) c;
    times = subst (λ ts. (r2.fire_times ≡ ts) ⊎ (r2.fire_times ≡ prune minute t ts)) a q.times;
  })
  Quiet-lift r v r1 r2 a b c d (inr q) = inr (record {
    fired = q.fired;
    cool = sym d ∙ q.cool;
    room =
        subst (λ ts. length (prune minute t ts) < r.spec.limit.max_per_minute) a
          (subst (λ s. length (prune minute t r1.fire_times) < s.limit.max_per_minute) c q.room);
    last = q.last;
    limit = q.limit ∙ ap (λ s. s.limit) c;
    times = q.times ∙ ap (λ ts. prune minute t ts ++ t ∷ []) a;
  })

  unfoldable pub Handled : Rule → Verdict × Rule → Type 0
  Handled r o = Quiet t r o.0 o.1 ⊎ Fired t r o.0 o.1

  either_way :
      (r : Rule) (b : Bool) (o p : Verdict × Rule)
      → Handled r o
      → Handled r p
      → Handled r (if b then o else p)
  either_way r true o p h k = h
  either_way r false o p h k = k

  pub admit-cases : (r : Rule) → Handled r (admit storm_reason t r)
  unfolding admit Handled
  admit-cases r =
      let (is_enough, r') = enough t r in
      let o = admit_enough storm_reason t r' in
      let (a, b, c, d) = enough_keeps r in
      let lifted = Quiet-lift r o.0 r' o.1 a b c d (admit_enough-cases r') in
      either_way r (not r.spec.enabled) (ignored, r) (if is_enough then o else (ignored, r'))
        (inl (record { no_fire = refl; last = refl; limit = refl; times = inl refl }))
        (either_way r is_enough o (ignored, r') lifted
          (inl (record { no_fire = refl; last = b; limit = ap (λ s. s.limit) c; times = inl a })))
