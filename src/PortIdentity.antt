-- ===== src/PortIdentity.antt =====
-- core/port_identity.py: where an adapter is that was plugged in again. `str.strip` and `str.lower` are
-- parameters; sorting and describing ports are left out.
pub mod Moved
use py_uart_proxy.Prelude.{
  ℕ, zero, suc, String, Bool, true, false, not, ◌&&◌, ◌||◌, Option, none, some, List, [], ◌∷◌, ◌==◌,
  str_eq, str_append, keep, if◌then◌else◌, ltb, length, is_some,
}

pub record Ident : Type 0 where
  pub tty_device : String
  pub vid : Option ℕ
  pub pid : Option ℕ
  pub serial_number : Option String
  pub description : Option String
  pub location : Option String

abbrev pub same_number : Option ℕ → Option ℕ → Bool
same_number none none = true
same_number (some a) (some b) = a == b
same_number _ _ = false

abbrev pub same_text : Option String → Option String → Bool
same_text none none = true
same_text (some a) (some b) = str_eq a b
same_text _ _ = false

-- A text that is there and not empty.
abbrev pub is_given : Option String → Bool
is_given none = false
is_given (some s) = not (str_eq s "")

abbrev or_empty : Option String → String
or_empty none = ""
or_empty (some s) = s

abbrev pub has_usb_identity : Ident → Bool
has_usb_identity i = is_some i.vid

abbrev pub same_model : Ident → Ident → Bool
same_model original c = same_number c.vid original.vid && same_number c.pid original.pid

module _ (strip lower : String → String) (count_text : ℕ → String) where
  abbrev placeholder : String → Bool
  placeholder text = str_eq (lower text) "" || str_eq (lower text) "n/a"

  unfoldable pub clean_description : Option String → String
  clean_description d = let text = strip (or_empty d) in if placeholder text then "" else text

  abbrev pub same_serial : Ident → Ident → Bool
  same_serial original c = same_text c.serial_number original.serial_number

  abbrev pub same_description : Ident → Ident → Bool
  same_description original c =
      str_eq (clean_description c.description) (clean_description original.description)

  abbrev pub same_place : Ident → Ident → Bool
  same_place original c = same_text c.location original.location

  abbrev pub here_or : List Ident → List Ident → List Ident
  here_or [] matches = matches
  here_or (c ∷ cs) matches = c ∷ cs

  -- Several matches are narrowed by the place, where it is known and one of them is there.
  abbrev pub narrowed : Ident → List Ident → List Ident
  narrowed original matches =
      if is_given original.location && ltb 1 (length matches)
      then here_or (keep (same_place original) matches) matches
      else matches

  unfoldable pub matches_of : Ident → List Ident → List Ident
  matches_of original candidates =
      let models = keep (same_model original) candidates in
      if is_given original.serial_number
      then keep (same_serial original) models
      else narrowed original (keep (same_description original) models)

  abbrev pub single : List Ident → Option String × String
  single [] = (none, "not plugged in")
  single (c ∷ []) = (some c.tty_device, "")
  single (c ∷ d ∷ cs) = (
    none,
    str_append (count_text (length (c ∷ d ∷ cs)))
        " identical adapters and no serial number to tell them apart",
  )

  unfoldable pub find_moved : Ident → List Ident → Option String × String
  find_moved original candidates =
      if not (has_usb_identity original)
      then (none, "no USB identity to follow")
      else single (matches_of original candidates)
