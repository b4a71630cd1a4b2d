-- ===== src/Player/Screen.antt =====
-- The replay application of ui/replay.py: what its terminal was fed at each position.
use py_uart_proxy.Prelude.{◌≤◌, List, [], ◌∷◌, Bytes, take, ◌≡◌, ◌⊎◌}
use py_uart_proxy.Recording.{Recording, offset_at, duration}
use py_uart_proxy.Pty.Merge.{concat}
use py_uart_proxy.Player.{ReplayApp}

module _ {E : Type 0} (feed : Bytes → E → E) (reset : E → E) (blank : E) where
  -- A terminal fed some chunks, from a blank one or from one just reset.
  abbrev pub fed_with : List Bytes → E → E
  fed_with [] e = e
  fed_with (c ∷ cs) e = fed_with cs (feed c e)

  abbrev pub IsFresh : E → Type 0
  IsFresh e = (e ≡ blank) ⊎ ((before : E) × (e ≡ reset before))

  abbrev pub HasSeen : Bytes → E → Type 0
  HasSeen bs e =
      (start : E) × IsFresh start × ((cs : List Bytes) × (concat cs ≡ bs) × (e ≡ fed_with cs start))

  module _ (rec : Recording) where
    -- The terminal has seen the first `fed` bytes, which are those of the position, once a first tick or
    -- seek has shown any.
    abbrev pub Shows : ReplayApp E → Type 0
    Shows s =
        HasSeen (take s.fed rec.bytes) s.term
        × (s.position ≤ duration rec)
        × ((s.fed ≡ offset_at s.position rec) ⊎ ((s.fed ≡ 0) × (s.position ≡ 0)))
