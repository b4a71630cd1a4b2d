-- ===== src/Tests/Retention.antt =====
-- Three session folders, one of them in use.
use py_uart_proxy.Prelude.{ℕ, String, ◌≡◌, refl, List, [], ◌∷◌, All}
use py_uart_proxy.Retention.{
  SessionInfo, prune_by_size, apply_retention, by_age, by_size, survivors, sort_by_mtime,
  insert_by_mtime,
}
use py_uart_proxy.Retention.Pruning.{Unprotected, apply_retention-Unprotected}

abbrev as_given : String → String
as_given path = path

abbrev folder : String → ℕ → ℕ → SessionInfo
folder path mtime size = record { path = path; mtime = mtime; size = size }

abbrev folders : List SessionInfo
folders = folder "b" 20 300 ∷ folder "a" 10 200 ∷ folder "c" 30 100 ∷ []

abbrev in_use : List String
in_use = "a" ∷ []

-- The oldest folder is in use, so that the next one goes.
apply_retention_run : (apply_retention as_given in_use 0 400 50 folders).deleted ≡ "b" ∷ []
unfolding apply_retention by_age by_size survivors prune_by_size sort_by_mtime insert_by_mtime
apply_retention_run = refl

apply_retention-Unprotected_example :
    All (Unprotected as_given in_use) (apply_retention as_given in_use 25 400 50 folders).deleted
apply_retention-Unprotected_example = apply_retention-Unprotected as_given in_use 25 400 50 folders
