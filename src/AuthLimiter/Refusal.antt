-- ===== src/AuthLimiter/Refusal.antt =====
-- When an address is refused, for how long, and that no other address is touched.
use py_uart_proxy.Prelude.{
  ℕ, ◌+◌, ◌-◌, ◌≤◌, ◌<◌, String, ◌≡◌, sym, ap, ◌∙◌, true, false, List, [], ◌∷◌, ◌++◌, none, some,
  arith, length, ◌≢◌,
}
use py_uart_proxy.Prelude.Dict
use py_uart_proxy.Prelude.Dict.{get-put_self, get-put_ne, get-remove_self, get-remove_ne}
use py_uart_proxy.AuthLimiter.{
  AuthLimiter, or_empty, recent, banned_for, record_failure, record_success,
}
use py_uart_proxy.Prelude.Recent.{
  prune, within, within-within, prune-eq-within, Ascending, Ascending-within,
}

-- `ts` are the failures of `address` since it was last cleared, `last` the time of the newest.
abbrev pub Tracks : AuthLimiter → String → List ℕ → ℕ → Type 0
Tracks s address ts last = or_empty (Dict.get address s.failures) ≡ within s.window last ts

within_snoc :
    (window last now : ℕ) (ts : List ℕ)
    → last ≤ now
    → within window last (ts ++ now ∷ []) ≡ within window last ts ++ now ∷ []
within_snoc window last now [] le = ground arith
within_snoc window last now (t ∷ ts) le = ground (arith, within_snoc window last now ts)

recent-eq-within :
    (s : AuthLimiter) (address : String) (ts : List ℕ) (last now : ℕ)
    → Tracks s address ts last
    → last ≤ now
    → Ascending (ts ++ now ∷ [])
    → recent address now s ≡ within s.window now (ts ++ now ∷ [])
recent-eq-within s address ts last now h le asc =
    let both = ts ++ now ∷ [] in
    ap (prune s.window now) (ap (λ l. l ++ now ∷ []) h ∙ sym (within_snoc s.window last now ts le))
    ∙ prune-eq-within s.window now (within s.window last both)
        (Ascending-within s.window last both asc)
    ∙ within-within s.window last now both le

module _ (s : AuthLimiter) (address : String) (ts : List ℕ) (last now : ℕ)
    (h : Tracks s address ts last) (le : last ≤ now) (asc : Ascending (ts ++ now ∷ [])) where
  -- A failure is accepted as long as fewer than `max_failures` of the address's failures, this one
  -- included, lie within the window; it is then remembered, and nobody is refused.
  pub record_failure_under :
      length (within s.window now (ts ++ now ∷ [])) < s.max_failures
      → ((record_failure address now s).0 ≡ false)
        × Tracks (record_failure address now s).1 address (ts ++ now ∷ []) now
        × ((record_failure address now s).1.banned_until ≡ s.banned_until)
  unfolding record_failure
  record_failure_under few =
      let e = recent-eq-within s address ts last now h le asc in
      ground (arith, e, get-put_self address (recent address now s) s.failures)

  -- The failure that makes `max_failures` within the window is reported, clears the address's count,
  -- and refuses it until `ban` after now.
  pub record_failure_over :
      s.max_failures ≤ length (within s.window now (ts ++ now ∷ []))
      → ((record_failure address now s).0 ≡ true)
        × Tracks (record_failure address now s).1 address [] now
        × (Dict.get address (record_failure address now s).1.banned_until ≡ some (now + s.ban))
  unfolding record_failure
  record_failure_over many =
      let e = recent-eq-within s address ts last now h le asc in
      ground (
        arith,
        e,
        get-remove_self address s.failures,
        get-put_self address (now + s.ban) s.banned_until,
      )

-- A refused address hears the rest of its term, `until - now`; at `until` it may try again, its
-- refusal is forgotten, and its failures stay as they were.
pub banned_for_term :
    (address : String) (now until : ℕ) (s : AuthLimiter)
    → Dict.get address s.banned_until ≡ some until
    → (now < until → banned_for address now s ≡ (until - now, s))
      × (until ≤ now
          → ((banned_for address now s).0 ≡ 0)
            × (Dict.get address (banned_for address now s).1.banned_until ≡ none)
            × ((banned_for address now s).1.failures ≡ s.failures))
unfolding banned_for
banned_for_term address now until s h =
    (λ lt. ground arith, λ le. ground (arith, get-remove_self address s.banned_until))

-- What happens to one address leaves the failures and the refusal of every other as they were.
pub other_address :
    (a b : String) (now : ℕ) (s : AuthLimiter)
    → a ≢ b
    → let f = (record_failure a now s).1 in
      let g = record_success a s in
      let k = (banned_for a now s).1 in
      (Dict.get b f.failures ≡ Dict.get b s.failures)
      × (Dict.get b f.banned_until ≡ Dict.get b s.banned_until)
      × (Dict.get b g.failures ≡ Dict.get b s.failures)
      × (Dict.get b k.failures ≡ Dict.get b s.failures)
      × (Dict.get b k.banned_until ≡ Dict.get b s.banned_until)
unfolding record_failure record_success banned_for
other_address a b now s ne =
    let k = get-put_ne (recent a now s) s.failures ne in
    let l = get-put_ne (now + s.ban) s.banned_until ne in
    let m = get-remove_ne s.failures ne in
    let n = get-remove_ne s.banned_until ne in
    (ground arith, ground arith, m, ground arith, ground arith)
