-- ===== src/Health/Verdicts.antt =====
-- The verdict of health.py is `ok` only of a session that is well.
use py_uart_proxy.Prelude.{
  ℕ, String, Bool, true, false, not, ◌&&◌, ◌||◌, ◌≤◌, arith, Option, none, some, str_eq,
  if◌then◌else◌, ◌≡◌, refl, ◌⊎◌, inl, inr,
}
use py_uart_proxy.Json.{Json, ℤ, Fields, is_text, get_json, truthy, ticks_in}
use py_uart_proxy.Health.{Verdict, below, state_of, just_back, device_verdict, assess}

abbrev pub is_ok : Verdict → Bool
is_ok v = str_eq v.level "ok"

module _ (to_str : Json → String) (whole : Json → String) (settle silence : ℕ) where
  -- At least the settling time, where there is a number.
  abbrev pub IsSettled : Option ℤ → Type 0
  IsSettled none = Unit
  IsSettled (some (ℤ.pos n)) = settle ≤ n
  IsSettled (some (ℤ.negsuc n)) = ⊥

  -- Shared, with a device that is connected, and has not reconnected, or has been in its state for the
  -- settling time, or for a time that nobody knows.
  abbrev pub IsWell : Bool → Option Fields → Type 0
  IsWell shared none = ⊥
  IsWell shared (some device) =
      (shared ≡ true)
      × (is_text "connected" (state_of to_str whole settle silence device) ≡ true)
      × ((truthy (get_json "reconnects" device) ≡ false)
          ⊎ IsSettled (ticks_in (get_json "since_age" device)))

  settled :
      (b : Bool) (age : Option ℤ) → (b && below age settle) ≡ false → (b ≡ false) ⊎ IsSettled age
  settled false age h = inl refl
  settled true none h = inr tt
  settled true (some (ℤ.pos n)) h = inr (ground (arith, h))
  settled true (some (ℤ.negsuc n)) h = absurd (ground (arith, h))

  abbrev pub OkOnlyIf : Type 0 → Verdict → Type 0
  OkOnlyIf P v = (is_ok v ≡ false) ⊎ P

  unless :
      (P : Type 0) (b : Bool) (x y : Verdict)
      → is_ok x ≡ false
      → (b ≡ false → OkOnlyIf P y)
      → OkOnlyIf P (if b then x else y)
  unless P true x y h k = inl h
  unless P false x y h k = k refl

  only_if_not :
      (P : Type 0) (b : Bool) (x y : Verdict)
      → is_ok x ≡ false
      → (b ≡ true → OkOnlyIf P y)
      → OkOnlyIf P (if not b then x else y)
  only_if_not P true x y h k = k refl
  only_if_not P false x y h k = inl h

  device_verdict-OkOnlyIf :
      (device : Fields)
      → OkOnlyIf (IsWell true (some device)) (device_verdict to_str whole settle silence device)
  device_verdict-OkOnlyIf device =
      let state = state_of to_str whole settle silence device in
      let well = IsWell true (some device) in
      unless well (is_text "waiting" state) _ _ refl (λ a.
        unless well (is_text "error" state || is_text "reconnecting" state) _ _ refl (λ b.
          unless well (is_text "disconnected" state) _ _ refl (λ c.
            unless well (is_text "connecting" state) _ _ refl (λ d.
              only_if_not well (is_text "connected" state) _ _ refl (λ e.
                unless well (just_back to_str whole settle silence device) _ _ refl (λ f. inr (
                  refl,
                  e,
                  settled (truthy (get_json "reconnects" device))
                      (ticks_in (get_json "since_age" device)) f,
                )))))))

  -- Whatever a device's health says, and whether or not the session is shared, the verdict is `ok` only
  -- of a session that is shared, whose device is connected, and which has never reconnected or has been
  -- in this state for at least the settling time (where the age of the state is a number).
  pub assess-OkOnlyIf :
      (shared : Bool) (device : Option Fields) (error : Option String)
      → OkOnlyIf (IsWell shared device) (assess to_str whole settle silence shared device error)
  unfolding assess
  assess-OkOnlyIf shared none error = inl refl
  assess-OkOnlyIf true (some device) error = device_verdict-OkOnlyIf device
  assess-OkOnlyIf false (some device) error = inl refl
