-- ===== src/Retention.antt =====
-- core/retention.py: which session folders `apply_retention` deletes. What `scan_sessions` finds is an
-- argument, `os.path.abspath` a parameter. Times are seconds; a limit of 0 is switched off, and
-- `max_age` is `max_age_days * 86400`.
pub mod Pruning
use py_uart_proxy.Prelude.{
  ℕ, ◌+◌, ◌-◌, String, Bool, true, false, not, ◌&&◌, List, [], ◌∷◌, ◌++◌, ltb, leb, str_eq, any,
  keep, length, map, if◌then◌else◌,
}

pub record SessionInfo : Type 0 where
  pub path : String
  pub mtime : ℕ
  pub size : ℕ

pub record RetentionReport : Type 0 where
  pub deleted : List String
  pub freed_bytes : ℕ
  pub kept : ℕ
  pub total_before : ℕ
  pub total_after : ℕ

abbrev pub total_size : List SessionInfo → ℕ
total_size [] = 0
total_size (s ∷ ss) = s.size + total_size ss

-- `sorted(survivors, key=mtime)`, which keeps the order of equal times.
unfoldable pub insert_by_mtime : SessionInfo → List SessionInfo → List SessionInfo
insert_by_mtime s [] = s ∷ []
insert_by_mtime s (u ∷ us) =
    let rest = insert_by_mtime s us in if leb s.mtime u.mtime then s ∷ u ∷ us else u ∷ rest

unfoldable pub sort_by_mtime : List SessionInfo → List SessionInfo
sort_by_mtime [] = []
sort_by_mtime (s ∷ ss) = insert_by_mtime s (sort_by_mtime ss)

module _ (abspath : String → String) (protect : List String) where
  -- `os.path.abspath(s.path) in protected`
  abbrev pub is_protected : SessionInfo → Bool
  is_protected s = any (λ p. str_eq (abspath s.path) (abspath p)) protect

  abbrev pub too_old : ℕ → ℕ → SessionInfo → Bool
  too_old max_age now s = ltb 0 max_age && (ltb (s.mtime + max_age) now && not (is_protected s))

  -- The loop by size over the folders, oldest first: those that it deletes.
  unfoldable pub prune_by_size : ℕ → ℕ → List SessionInfo → List SessionInfo
  prune_by_size max total [] = []
  prune_by_size max total (s ∷ ss) =
      let skipped = prune_by_size max total ss in
      let removed = prune_by_size max (total - s.size) ss in
      if leb total max then [] else if is_protected s then skipped else s ∷ removed

  unfoldable pub by_age : ℕ → ℕ → List SessionInfo → List SessionInfo
  by_age max_age now sessions = keep (too_old max_age now) sessions

  unfoldable pub survivors : ℕ → ℕ → List SessionInfo → List SessionInfo
  survivors max_age now sessions = keep (λ s. not (too_old max_age now s)) sessions

  unfoldable pub by_size : ℕ → List SessionInfo → List SessionInfo
  by_size max_total ss =
      if ltb 0 max_total then prune_by_size max_total (total_size ss) (sort_by_mtime ss) else []

  unfoldable pub apply_retention : ℕ → ℕ → ℕ → List SessionInfo → RetentionReport
  apply_retention max_age max_total now sessions =
      let left = survivors max_age now sessions in
      let gone = by_age max_age now sessions ++ by_size max_total left in
      let deleted = map (λ s. s.path) gone in
      let remaining = keep (λ s. not (any (λ p. str_eq s.path p) deleted)) left in
      record {
        deleted = deleted;
        freed_bytes = total_size gone;
        kept = length remaining;
        total_before = total_size sessions;
        total_after = total_size remaining;
      }
