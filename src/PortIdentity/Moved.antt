-- ===== src/PortIdentity/Moved.antt =====
-- `find_moved` of core/port_identity.py never guesses.
use py_uart_proxy.Prelude.{
  ℕ, String, Bool, true, false, not, ◌&&◌, Option, none, some, List, [], ◌∷◌, keep, keep_yes,
  keep_no, if◌then◌else◌, ltb, length, ◌≡◌, refl, sym, ap, ◌∙◌, ◌⊎◌, inl, inr,
}
use py_uart_proxy.PortIdentity.{
  Ident, same_model, same_serial, same_description, same_place, is_given, here_or, narrowed,
  matches_of, single, find_moved, has_usb_identity,
}

keep-keep : (p q : Ident → Bool) (xs : List Ident) → keep q (keep p xs) ≡ keep (λ x. p x && q x) xs
keep-keep p q [] = refl
keep-keep p q (x ∷ xs) = by_tests (p x) (q x) refl (keep-keep p q xs)
  where
    by_tests :
        (a b : Bool)
        → (q x ≡ b)
        → keep q (keep p xs) ≡ keep (λ y. p y && q y) xs
        → keep q (elim a [ true ↦ x ∷ keep p xs | false ↦ keep p xs ]) ≡ (elim (a && b) [
          | true ↦ x ∷ keep (λ y. p y && q y) xs
          | false ↦ keep (λ y. p y && q y) xs
        ])
    by_tests true true e h = keep_yes q x (keep p xs) e ∙ ap (λ t. x ∷ t) h
    by_tests true false e h = keep_no q x (keep p xs) e ∙ h
    by_tests false b e h = h

module _ (strip lower : String → String) (count_text : ℕ → String) where
  abbrev pub alike_by : Bool → Ident → Ident → Bool
  alike_by by_serial original c =
      same_model original c
      && (if by_serial
          then same_serial strip lower count_text original c
          else same_description strip lower count_text original c)

  -- The one alike by the sign, or the one alike in the same socket, where there is no serial number.
  abbrev pub OnlyOne : Bool → Ident → List Ident → Ident → Type 0
  OnlyOne by_serial original candidates c =
      (keep (alike_by by_serial original) candidates ≡ c ∷ [])
      ⊎ ((by_serial ≡ false)
          × (is_given original.location ≡ true)
          × (keep
                (λ d. alike_by by_serial original d && same_place strip lower count_text original d)
                candidates
              ≡ c ∷ []))

  abbrev pub IsSure : Ident → List Ident → Option String × String → Type 0
  IsSure original candidates (none, why) = Unit
  IsSure original candidates (some path, why) =
      (c : Ident) × (path ≡ c.tty_device)
      × OnlyOne (is_given original.serial_number) original candidates c

  single-IsSure :
      (original : Ident) (candidates ms : List Ident)
      → ((c : Ident)
          → ms ≡ c ∷ []
          → OnlyOne (is_given original.serial_number) original candidates c)
      → IsSure original candidates (single strip lower count_text ms)
  single-IsSure original candidates [] h = tt
  single-IsSure original candidates (c ∷ []) h = (c, refl, h c refl)
  single-IsSure original candidates (c ∷ d ∷ cs) h = tt

  narrowed-OnlyOne :
      (original : Ident) (candidates : List Ident) (c : Ident)
      → narrowed strip lower count_text original (keep (alike_by false original) candidates)
        ≡ c ∷ []
      → OnlyOne false original candidates c
  narrowed-OnlyOne original candidates c =
      by_tests (is_given original.location)
        (ltb 1 (length (keep (alike_by false original) candidates))) refl
    where
      by_here :
          (here : List Ident)
          → (keep
                (same_place strip lower count_text original)
                (keep (alike_by false original) candidates)
              ≡ here)
          → is_given original.location ≡ true
          → here_or strip lower count_text here (keep (alike_by false original) candidates) ≡ c ∷ []
          → OnlyOne false original candidates c
      by_here [] e g k = inl k
      by_here (d ∷ ds) e g k = inr (
        refl,
        g,
        sym (
              keep-keep (alike_by false original) (same_place strip lower count_text original)
                candidates)
            ∙ (e ∙ k),
      )

      by_tests :
          (a b : Bool)
          → (is_given original.location ≡ a)
          → (if a && b
              then here_or strip lower count_text
                  (keep
                    (same_place strip lower count_text original)
                    (keep (alike_by false original) candidates))
                  (keep (alike_by false original) candidates)
              else keep (alike_by false original) candidates)
            ≡ c ∷ []
          → OnlyOne false original candidates c
      by_tests true true g k =
          by_here
            (keep (same_place strip lower count_text original)
              (keep (alike_by false original) candidates))
            refl g k
      by_tests true false g k = inl k
      by_tests false b g k = inl k

  matches_of-OnlyOne :
      (original : Ident) (candidates : List Ident) (c : Ident)
      → matches_of strip lower count_text original candidates ≡ c ∷ []
      → OnlyOne (is_given original.serial_number) original candidates c
  unfolding matches_of
  matches_of-OnlyOne original candidates c = by_serial (is_given original.serial_number)
    where
      by_serial :
          (b : Bool)
          → (if b
              then keep
                  (same_serial strip lower count_text original)
                  (keep (same_model original) candidates)
              else narrowed strip lower count_text original (
                  keep
                    (same_description strip lower count_text original)
                    (keep (same_model original) candidates)))
            ≡ c ∷ []
          → OnlyOne b original candidates c
      by_serial true k = inl (
          sym (
            keep-keep (same_model original) (same_serial strip lower count_text original)
              candidates)
          ∙ k)
      by_serial false k = narrowed-OnlyOne original candidates c (
          ap (narrowed strip lower count_text original) (
            sym (
              keep-keep (same_model original) (same_description strip lower count_text original)
                candidates))
          ∙ k)

  -- Where `find_moved` says that an adapter is, exactly one of the candidates has the original's VID,
  -- PID and serial number, or, where that has no serial number, its VID, PID and description, or these
  -- and its known socket; and that candidate is the one it says.
  pub find_moved-IsSure :
      (original : Ident) (candidates : List Ident)
      → IsSure original candidates (find_moved strip lower count_text original candidates)
  unfolding find_moved
  find_moved-IsSure original candidates = by_test (not (has_usb_identity original))
    where
      by_test :
          (b : Bool)
          → IsSure original candidates (
              if b
              then (none, "no USB identity to follow")
              else single strip lower count_text
                  (matches_of strip lower count_text original candidates))
      by_test true = tt
      by_test false =
          single-IsSure original candidates (matches_of strip lower count_text original candidates)
            (matches_of-OnlyOne original candidates)
