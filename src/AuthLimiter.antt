-- ===== src/AuthLimiter.antt =====
-- `AuthLimiter` of proxy/server.py: failed attempts per address, and who is refused. The clock is an
-- argument, in whole units (microseconds, say); `now - t > w` is written `t + w < now`, which is the
-- same of integers.
pub mod Refusal
use py_uart_proxy.Prelude.{
  ℕ, ◌+◌, ◌-◌, String, Bool, true, false, Option, none, some, List, [], ◌∷◌, ◌++◌, ltb, leb,
  if◌then◌else◌, length,
}
use py_uart_proxy.Prelude.Dict
use py_uart_proxy.Prelude.Recent.{prune}
use py_uart_proxy.Prelude.Dict.{Dict}

pub record AuthLimiter : Type 0 where
  pub max_failures : ℕ
  pub window : ℕ
  pub ban : ℕ
  pub failures : Dict (List ℕ)
  pub banned_until : Dict ℕ

abbrev pub new : ℕ → ℕ → ℕ → AuthLimiter
new max_failures window ban = record {
  max_failures = max_failures;
  window = window;
  ban = ban;
  failures = [];
  banned_until = [];
}

unfoldable pub banned_for : String → ℕ → AuthLimiter → ℕ × AuthLimiter
banned_for address now s = elim (Dict.get address s.banned_until) [
  | none ↦ (0, s)
  | some until ↦
      if leb until now
      then (0, record s { banned_until = Dict.remove address s.banned_until })
      else (until - now, s)
]

abbrev pub or_empty : Option (List ℕ) → List ℕ
or_empty none = []
or_empty (some ts) = ts

-- The deque of an address, the new failure in it and the old ones gone.
abbrev pub recent : String → ℕ → AuthLimiter → List ℕ
recent address now s = prune s.window now (or_empty (Dict.get address s.failures) ++ now ∷ [])

unfoldable pub record_failure : String → ℕ → AuthLimiter → Bool × AuthLimiter
record_failure address now s =
    if ltb (length (recent address now s)) s.max_failures
    then (false, record s { failures = Dict.put address (recent address now s) s.failures })
    else (
      true,
      record s {
        failures = Dict.remove address s.failures;
        banned_until = Dict.put address (now + s.ban) s.banned_until;
      },
    )

unfoldable pub record_success : String → AuthLimiter → AuthLimiter
record_success address s = record s { failures = Dict.remove address s.failures }
