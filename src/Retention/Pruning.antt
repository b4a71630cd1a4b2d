-- ===== src/Retention/Pruning.antt =====
-- What is deleted, and when the loop by size may stop.
use py_uart_proxy.Prelude.{
  ℕ, ◌+◌, ◌-◌, ◌≤◌, ◌<◌, String, ◌≡◌, refl, inl, inr, ◌⊎◌, false, List, [], ◌∷◌, ◌++◌, leb, All,
  arith, any, str_eq, map, ltb, Bool-cases, if◌then◌else◌,
}
use py_uart_proxy.Retention.{
  SessionInfo, is_protected, prune_by_size, total_size, too_old, by_age, by_size, survivors,
  sort_by_mtime, apply_retention,
}

module _ (abspath : String → String) (protect : List String) where
  -- The total of the folders that may be deleted.
  abbrev pub open_size : List SessionInfo → ℕ
  open_size [] = 0
  open_size (s ∷ ss) = (if is_protected abspath protect s then 0 else s.size) + open_size ss

  -- The loop by size deletes nothing that is protected. It stops as soon as the total fits, and where
  -- even the last folder leaves too much, everything that is not protected has been deleted.
  pub prune_by_size_lem :
      (max total : ℕ) (ss : List SessionInfo)
      → let gone = prune_by_size abspath protect max total ss in
        All (λ s. is_protected abspath protect s ≡ false) gone
        × ((total - total_size gone ≤ max) ⊎ (total_size gone ≡ open_size ss))
        × (total ≤ max → gone ≡ [])
  unfolding prune_by_size
  prune_by_size_lem max total [] = (tt, inr refl, λ h. refl)
  prune_by_size_lem max total (s ∷ ss) = elim (Bool-cases (leb total max)) [
    | inl e ↦ rw (e, prune_by_size) (tt, inl (ground (arith, e)), λ h. refl)
    | inr e ↦
        let big : max < total = ground (arith, e) in
        elim (Bool-cases (is_protected abspath protect s)) [
          | inl p ↦
              let (a, b, c) = prune_by_size_lem max total ss in
              rw (e, p, prune_by_size)
                (
                  a,
                  elim b [ inl u ↦ inl u | inr u ↦ inr (omega (arith, u)) ],
                  λ h. absurd (omega (arith, big, h)),
                )
          | inr p ↦
              let (a, b, c) = prune_by_size_lem max (total - s.size) ss in
              rw (e, p, prune_by_size)
                (
                  (p, a),
                  elim b [ inl u ↦ inl (omega (arith, u)) | inr u ↦ inr (omega (arith, u)) ],
                  λ h. absurd (omega (arith, big, h)),
                )
        ]
  ]

  -- The path of a folder that is not protected.
  abbrev pub Unprotected : String → Type 0
  Unprotected path = any (λ p. str_eq (abspath path) (abspath p)) protect ≡ false

  by_age-Unprotected :
      (max_age now : ℕ) (ss : List SessionInfo)
      → All Unprotected (map (λ s. s.path) (by_age abspath protect max_age now ss))
  unfolding by_age
  by_age-Unprotected max_age now [] = tt
  by_age-Unprotected max_age now (s ∷ ss) =
      elim (Bool-cases (too_old abspath protect max_age now s)) [
        | inl e ↦ rw (e, All, map) (ground arith, by_age-Unprotected max_age now ss)
        | inr e ↦ rw (e, All, map) (by_age-Unprotected max_age now ss)
      ]

  All-paths :
      (ss : List SessionInfo)
      → All (λ s. is_protected abspath protect s ≡ false) ss
      → All Unprotected (map (λ s. s.path) ss)
  All-paths [] a = tt
  All-paths (s ∷ ss) a = (a.0, All-paths ss a.1)

  All-paths_append :
      (ss us : List SessionInfo)
      → All Unprotected (map (λ s. s.path) ss)
      → All Unprotected (map (λ s. s.path) us)
      → All Unprotected (map (λ s. s.path) (ss ++ us))
  All-paths_append [] us a b = b
  All-paths_append (s ∷ ss) us a b = (a.0, All-paths_append ss us a.1 b)

  by_size-Unprotected :
      (max_total : ℕ) (ss : List SessionInfo)
      → All Unprotected (map (λ s. s.path) (by_size abspath protect max_total ss))
  unfolding by_size
  by_size-Unprotected max_total ss = elim (Bool-cases (ltb 0 max_total)) [
    | inl e ↦
        rw (e, by_size)
          (All-paths _ (prune_by_size_lem max_total (total_size ss) (sort_by_mtime ss)).0)
    | inr e ↦ rw (e, by_size) tt
  ]

  -- Whatever the limits are, no protected folder is deleted.
  pub apply_retention-Unprotected :
      (max_age max_total now : ℕ) (sessions : List SessionInfo)
      → All Unprotected (apply_retention abspath protect max_age max_total now sessions).deleted
  unfolding apply_retention
  apply_retention-Unprotected max_age max_total now sessions =
      All-paths_append (by_age abspath protect max_age now sessions) _
        (by_age-Unprotected max_age now sessions)
        (by_size-Unprotected max_total (survivors abspath protect max_age now sessions))
