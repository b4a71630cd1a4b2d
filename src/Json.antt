-- ===== src/Json.antt =====
-- The values that `dict`s of the program hold: protocol messages, event metadata, trigger rules.
-- A float is a number of ticks of 10⁻⁴ s, so that `round(x, 4)` keeps it, and may be negative.
use py_uart_proxy.Prelude.{
  ℕ, zero, suc, ◌*◌, ◌+◌, not, String, Bool, true, false, Option, none, some, str_eq, if◌then◌else◌,
}

-- An `int` of Python: `negsuc n` is -(n + 1).
pub data ℤ : Type 0 where
  pos : ℕ → ℤ
  negsuc : ℕ → ℤ

mutual
  pub data Json : Type 0 where
    null : Json
    flag : Bool → Json
    int : ℤ → Json
    float : ℤ → Json
    str : String → Json
    arr : Items → Json
    obj : Fields → Json

  pub data Items : Type 0 where
    nil : Items
    cons : Json → Items → Items

  pub data Fields : Type 0 where
    end : Fields
    field : String → Json → Fields → Fields

-- msg.get(key): `none` where the key is not there
unfoldable pub get : String → Fields → Option Json
get key end = none
get key (field k v rest) = let later = get key rest in if str_eq k key then some v else later

-- msg.get("type") read as text
unfoldable pub get_str : String → Fields → Option String
unfolding get
get_str key msg = elim (get key msg) [ some (str s) ↦ some s | _ ↦ none ]

unfoldable pub has : String → Fields → Bool
has key end = false
has key (field k v rest) = let later = has key rest in if str_eq k key then true else later

-- bool(x)
abbrev pub truthy : Json → Bool
truthy null = false
truthy (flag b) = b
truthy (int (pos zero)) = false
truthy (int (pos (suc n))) = true
truthy (int (negsuc n)) = true
truthy (float (pos zero)) = false
truthy (float (pos (suc n))) = true
truthy (float (negsuc n)) = true
truthy (str s) = not (str_eq s "")
truthy (arr nil) = false
truthy (arr (cons x xs)) = true
truthy (obj end) = false
truthy (obj (field k v rest)) = true

abbrev pub or_default : Json → Option Json → Json
or_default default none = default
or_default default (some v) = v

-- msg.get(key, default)
unfoldable pub get_or : String → Json → Fields → Json
unfolding get
get_or key default msg = or_default default (get key msg)

-- msg.get(key), where a missing key is None
abbrev pub get_json : String → Fields → Json
get_json key msg = get_or key null msg

-- msg.get(key) or default
unfoldable pub get_or_else : String → Json → Fields → Json
get_or_else key default msg = let v = get_json key msg in if truthy v then v else default

-- What `isinstance(x, int)` and `isinstance(x, (int, float))` let through, the second in ticks of
-- 10⁻⁴ s. A bool is an int.
unfoldable pub int_in : Json → Option ℤ
int_in (flag true) = some (pos 1)
int_in (flag false) = some (pos 0)
int_in (int n) = some n
int_in _ = none

abbrev pub in_ticks : ℤ → ℤ
in_ticks (pos n) = pos (n * 10000)
in_ticks (negsuc n) = negsuc (n * 10000 + 9999)

unfoldable pub ticks_in : Json → Option ℤ
unfolding int_in
ticks_in (float t) = some t
ticks_in j = elim (int_in j) [ none ↦ none | some n ↦ some (in_ticks n) ]

-- {**msg, key: value}: a key that is there keeps its place
unfoldable pub put_key : String → Json → Fields → Fields
put_key key value end = field key value end
put_key key value (field k v rest) =
    let later = put_key key value rest in
    if str_eq k key then field k value rest else field k v later

-- msg == text
abbrev pub is_text : String → Json → Bool
is_text chars (str s) = str_eq s chars
is_text chars _ = false
