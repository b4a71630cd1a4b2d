-- ===== src/Tests/Triggers.antt =====
-- Rules at concrete inputs.
use py_uart_proxy.Prelude.{
  str_eq, ℕ, String, ◌≡◌, refl, true, false, Option, none, some, List, [], ◌∷◌, Bytes, arith, All,
  length,
}
use py_uart_proxy.Prelude.Dict
use py_uart_proxy.Json.{Json, Items}
use py_uart_proxy.Event.{Stamp}
use py_uart_proxy.Session
use py_uart_proxy.Session.{Env, Session, Written}
use py_uart_proxy.Triggers
use py_uart_proxy.Triggers.{
  When, Limit, Action, Spec, Rule, Triggers, new_rule, default_limit, literal, send_text,
}
use py_uart_proxy.Prelude.Recent.{prune}
use py_uart_proxy.Triggers.Limits.{admit, enough, admit_enough, cooling, fire}
use py_uart_proxy.Triggers.Firing.{World, matched, content_hash}
use py_uart_proxy.Triggers.Pace.{firings, Paced, firings-Paced}
use py_uart_proxy.Triggers.Safety.{Alike, matched-Alike}
use py_uart_proxy.Triggers.Approval.{Unheard, matched-Unheard}
use py_uart_proxy.Triggers.Quiet.{Inert, matched-Inert}
use py_uart_proxy.Triggers.Watching.{occurrences}
use py_uart_proxy.Triggers.Chunks.{reports, joined, reports-occurrences}
use py_uart_proxy.Triggers.Rules.{approve, standing_after, then_update, approve-update}
use py_uart_proxy.Triggers.Device.{never, changes, Alternates, changes-Alternates}

abbrev same_text : ℕ → String
same_text n = "1"

abbrev pub tick : ℕ → Stamp
tick n = record { wall = n; elapsed = n }

abbrev letter : Bytes → String
letter bytes = "a"

abbrev one_hash : When → Limit → List Action → String
one_hash on limit actions = "1f"

abbrev one_byte : String → Bytes
one_byte text = 97 ∷ []

abbrev itself : String → String
itself text = text

abbrev all_written : Session → Bytes → Written
all_written s bytes = Written.wrote 2

abbrev found : When → String → Option Items
found on text = some Items.nil

abbrev pub world : World
world = record {
  session = record {
    clock = tick;
    decode = letter;
    description = "/dev/ttyUSB0";
    auto_reconnect = true;
  };
  hash = one_hash;
  encode = one_byte;
  strip = itself;
  decimal = same_text;
  wall_str = same_text;
  seconds = same_text;
  hex_text = letter;
  writable = true;
  source = all_written;
  search = found;
}

abbrev spec : Spec
spec = record {
  name = "boot";
  owner = Json.null;
  enabled = true;
  on = literal "login:" false "rx";
  limit = default_limit;
  context = 3;
  actions = send_text "root" "cr" ∷ [];
  only_port = Json.null;
  approved = some "1f";
}

abbrev unapproved : Rule
unapproved = new_rule "r1" (record spec { approved = none })

abbrev armed : Triggers
armed = record (Triggers.new 0) { rules = ("r1", new_rule "r1" spec) ∷ [] }

abbrev disarmed : Triggers
disarmed = record (Triggers.new 0) { rules = ("r1", unapproved) ∷ [] }

firings-Paced_example :
    Paced spec.limit [] (firings same_text (0 ∷ 5000 ∷ 10000 ∷ []) (new_rule "r1" spec))
firings-Paced_example =
    firings-Paced same_text (0 ∷ 5000 ∷ 10000 ∷ []) "r1" spec
      ((omega arith, (omega arith, tt)), ((omega arith, tt), (tt, tt)))

-- The match that comes during the cooldown fires nothing.
firings_run : firings same_text (0 ∷ 5000 ∷ 10000 ∷ []) (new_rule "r1" spec) ≡ 0 ∷ 10000 ∷ []
unfolding firings admit enough admit_enough cooling fire prune
firings_run = refl

matched-Alike_example :
    Alike world 9
      (tick 1)
      (matched world 9 (tick 1) "login:" Items.nil "r1" armed (Session.new 0))
      (matched world 9
        (tick 1)
        "rm -rf"
        (Items.cons Json.null Items.nil)
        "r1"
        armed
        (Session.new 0))
matched-Alike_example =
    matched-Alike world 9 (tick 1) "login:" "rm -rf" Items.nil (Items.cons Json.null Items.nil) "r1"
      armed (Session.new 0)

matched-Unheard_example :
    Unheard world 9
      (tick 1)
      "login:"
      Items.nil
      (Session.new 0)
      (matched world 9 (tick 1) "login:" Items.nil "r1" disarmed (Session.new 0))
unfolding Dict.get
matched-Unheard_example =
    matched-Unheard world 9 (tick 1) "login:" Items.nil "r1" unapproved disarmed (Session.new 0)
      refl (λ h. cc)

matched-Inert_example :
    All
      (Inert world 9 (tick 1))
      (matched world 9 (tick 1) "login:" Items.nil "r1" armed (Session.new 0)).1.0
matched-Inert_example = matched-Inert world 9 (tick 1) "login:" Items.nil "r1" armed (Session.new 0)

changes-Alternates_example :
    Alternates never
      (changes ((1, "connected") ∷ (2, "error") ∷ (3, "connected") ∷ []) (Triggers.new 0))
changes-Alternates_example =
    changes-Alternates ((1, "connected") ∷ (2, "error") ∷ (3, "connected") ∷ []) 0

-- "ab" over chunks that cut it.
reports-occurrences_example :
    reports (97 ∷ 98 ∷ []) 3 ((97 ∷ []) ∷ (98 ∷ 97 ∷ []) ∷ (98 ∷ []) ∷ []) []
    ≡ length (occurrences (97 ∷ 98 ∷ []) 0 (joined ((97 ∷ []) ∷ (98 ∷ 97 ∷ []) ∷ (98 ∷ []) ∷ [])))
reports-occurrences_example =
    reports-occurrences (97 ∷ 98 ∷ []) 3 ((97 ∷ []) ∷ (98 ∷ 97 ∷ []) ∷ (98 ∷ []) ∷ []) (omega arith)
      (omega arith)

abbrev other_spec : Spec
other_spec = record spec { actions = [] }

approve-update_example :
    (standing_after world "r1" (approve world "r1" armed) ≡ some true)
    × (standing_after world "r1" (then_update world "r1" other_spec (approve world "r1" armed))
        ≡ some (str_eq (content_hash world spec) (content_hash world other_spec)))
unfolding Dict.get
approve-update_example = approve-update world "r1" (new_rule "r1" spec) other_spec armed refl
