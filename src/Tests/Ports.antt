-- ===== src/Tests/Ports.antt =====
-- Adapters that moved and verdicts on health, at concrete inputs.
use py_uart_proxy.Prelude.{ℕ, String, true, ◌≡◌, refl, Option, none, some, List, [], ◌∷◌}
use py_uart_proxy.Json.{Json, ℤ, Fields, field, end, get, get_or, get_or_else, ticks_in, int_in}
use py_uart_proxy.PortIdentity.{Ident, find_moved, matches_of, clean_description}
use py_uart_proxy.PortIdentity.Moved.{IsSure, find_moved-IsSure}
use py_uart_proxy.Health.{assess, verdict}
use py_uart_proxy.Health.Verdicts.{OkOnlyIf, IsWell, assess-OkOnlyIf}

abbrev as_it_is : String → String
as_it_is text = text

abbrev counted : ℕ → String
counted n = "2"

abbrev adapter : String → Option String → Option String → Ident
adapter path serial place = record {
  tty_device = path;
  vid = some 1027;
  pid = some 24577;
  serial_number = serial;
  description = some "FT232R";
  location = place;
}

-- Two of a kind without a serial number, one of them in the original's socket.
abbrev original : Ident
original = adapter "/dev/ttyUSB0" none (some "1-2")

abbrev candidates : List Ident
candidates =
    adapter "/dev/ttyUSB1" none (some "1-3") ∷ adapter "/dev/ttyUSB2" none (some "1-2") ∷ []

find_moved-IsSure_example :
    IsSure as_it_is as_it_is counted original candidates
      (find_moved as_it_is as_it_is counted original candidates)
find_moved-IsSure_example = find_moved-IsSure as_it_is as_it_is counted original candidates

find_moved_runs :
    (find_moved as_it_is as_it_is counted original candidates ≡ (some "/dev/ttyUSB2", ""))
    × (find_moved as_it_is as_it_is counted (adapter "/dev/ttyUSB0" none none) candidates
        ≡ (none, "2 identical adapters and no serial number to tell them apart"))
unfolding find_moved matches_of clean_description
find_moved_runs = (refl, refl)

abbrev as_text : Json → String
as_text (Json.str s) = s
as_text _ = "0"

-- Connected, and back for 30 seconds.
abbrev device : Fields
device =
    field "state" (Json.str "connected")
      (field "reconnects" (Json.int (ℤ.pos 2)) (field "since_age" (Json.float (ℤ.pos 300000)) end))

assess-OkOnlyIf_example :
    OkOnlyIf as_text as_text 600000 600000
      (IsWell as_text as_text 600000 600000 true (some device))
      (assess as_text as_text 600000 600000 true (some device) none)
assess-OkOnlyIf_example = assess-OkOnlyIf as_text as_text 600000 600000 true (some device) none

assess_runs :
    assess as_text as_text 600000 600000 true (some device) none
    ≡ verdict "degraded" "The device reconnected 0 s ago."
        "Output from while it was gone may be missing; check its state before relying on earlier lines."
unfolding assess get_or_else get_or get ticks_in int_in
assess_runs = refl
