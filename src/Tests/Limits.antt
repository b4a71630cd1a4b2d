-- ===== src/Tests/Limits.antt =====
-- The limiter of failed attempts at concrete inputs.
use py_uart_proxy.Prelude.{◌≡◌, refl, true, some, [], ◌∷◌, arith}
use py_uart_proxy.Prelude.Dict
use py_uart_proxy.AuthLimiter.{AuthLimiter, new, record_failure}
use py_uart_proxy.AuthLimiter.Refusal.{Tracks, record_failure_over}

abbrev limiter : AuthLimiter
limiter = new 2 600 6000

abbrev once : AuthLimiter
once = record limiter { failures = ("10.0.0.7", 50 ∷ []) ∷ [] }

record_failure_over_example :
    ((record_failure "10.0.0.7" 90 once).0 ≡ true)
    × Tracks (record_failure "10.0.0.7" 90 once).1 "10.0.0.7" [] 90
    × (Dict.get "10.0.0.7" (record_failure "10.0.0.7" 90 once).1.banned_until ≡ some 6090)
unfolding Dict.get
record_failure_over_example =
    record_failure_over once "10.0.0.7" (50 ∷ []) 50 90 refl (omega arith) (omega arith)
      (omega arith)

abbrev refusing : AuthLimiter
refusing = record limiter { banned_until = ("10.0.0.7", 6090) ∷ [] }
