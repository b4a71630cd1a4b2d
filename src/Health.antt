-- ===== src/Health.antt =====
-- health.py: the verdict on a shared session. A device's health is a dict; `str`, `f"{x:.0f}"` of a
-- number of ticks, and the two limits in ticks are parameters.
pub mod Verdicts
use py_uart_proxy.Prelude.{
  ℕ, String, str_eq, str_append, Bool, true, false, not, ◌&&◌, ◌||◌, Option, none, some, ltb, leb,
  if◌then◌else◌,
}
use py_uart_proxy.Json.{Json, ℤ, Fields, get_json, get_or_else, is_text, truthy, ticks_in}

pub record Verdict : Type 0 where
  pub level : String
  pub summary : String
  pub advice : String

abbrev pub verdict : String → String → String → Verdict
verdict level summary advice = record { level = level; summary = summary; advice = advice }

-- a < b and a >= b of a number that may be missing, which is neither
abbrev pub below : Option ℤ → ℕ → Bool
below none limit = false
below (some (ℤ.pos n)) limit = ltb n limit
below (some (ℤ.negsuc n)) limit = true

abbrev pub reaches : Option ℤ → ℕ → Bool
reaches none limit = false
reaches (some (ℤ.pos n)) limit = leb limit n
reaches (some (ℤ.negsuc n)) limit = false

abbrev in_brackets : Option String → String
in_brackets none = ""
in_brackets (some text) = if str_eq text "" then "" else str_append " (" (str_append text ")")

module _ (to_str : Json → String) (whole : Json → String) (settle silence : ℕ) where
  abbrev not_shared : Option String → Verdict
  not_shared error =
      verdict "down"
        (str_append "The session is no longer shared" (str_append (in_brackets error) "."))
        "The app sharing it was closed, sharing was turned off, or the session ended. Ask the person to share the device's tab again."

  abbrev pub state_of : Fields → Json
  state_of device = get_or_else "state" (Json.str "unknown") device

  abbrev since_of : Fields → String
  since_of device = to_str (get_or_else "since" (Json.str "?") device)

  abbrev detail : Fields → String
  detail device =
      if truthy (get_json "error" device)
      then str_append " (" (str_append (to_str (get_json "error" device)) ")")
      else ""

  abbrev pub just_back : Fields → Bool
  just_back device =
      truthy (get_json "reconnects" device) && below (ticks_in (get_json "since_age" device)) settle

  abbrev pub connected_verdict : Fields → Verdict
  connected_verdict device =
      if just_back device
      then verdict "degraded"
          (str_append "The device reconnected "
            (str_append (whole (get_json "since_age" device)) " s ago."))
          "Output from while it was gone may be missing; check its state before relying on earlier lines."
      else if reaches (ticks_in (get_json "silent_for" device)) silence
      then verdict "ok"
          (str_append "Connected; no output for "
            (str_append (whole (get_json "silent_for" device)) " s."))
          (str_append "No output for " (
            str_append (whole (get_json "silent_for" device))
              " s — normal for an idle console. If it should be printing, it may be hung: ask the person to reset it."))
      else verdict "ok" "Connected." ""

  abbrev pub device_verdict : Fields → Verdict
  device_verdict device =
      let state = state_of device in
      if is_text "waiting" state
      then verdict "down"
          (str_append "The device is not there"
            (str_append (detail device) (str_append ", since " (str_append (since_of device) "."))))
          "Ask the person to check the cable and re-plug the USB-serial adapter; the session reconnects by itself when it is back."
      else if is_text "error" state || is_text "reconnecting" state
      then verdict "down"
          (str_append "The device dropped" (
            str_append (detail device)
              (str_append " at " (str_append (since_of device) "; reconnecting."))))
          "If it is not back within a few seconds, ask the person to re-plug the USB-serial adapter."
      else if is_text "disconnected" state
      then verdict "down"
          (str_append "The session was disconnected at " (str_append (since_of device) "."))
          "Ask the person to connect it again."
      else if is_text "connecting" state
      then verdict "degraded" "Connecting to the device." ""
      else if not (is_text "connected" state)
      then verdict "degraded" (str_append "The device is " (str_append (to_str state) ".")) ""
      else connected_verdict device

  unfoldable pub assess : Bool → Option Fields → Option String → Verdict
  assess shared none error = not_shared error
  assess true (some device) error = device_verdict device
  assess false (some device) error = not_shared error
