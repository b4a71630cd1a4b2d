-- ===== src/Telnet.antt =====
-- `TelnetProtocol` of io/telnet_source.py: framing and option negotiation, with no I/O. A method
-- takes the protocol's state last and returns the new one.
pub mod Negotiation
pub mod RoundTrip
pub mod WindowSize
use py_uart_proxy.Prelude.{
  ℕ, zero, suc, ◌+◌, ◌/◌, ◌%◌, Bool, true, false, not, ◌&&◌, ◌||◌, List, [], ◌∷◌, ◌++◌, Bytes, ◌==◌,
  any, keep, if◌then◌else◌,
}

abbrev pub iac : ℕ
iac = 255

abbrev pub dont : ℕ
dont = 254

abbrev pub do_it : ℕ
do_it = 253

abbrev pub wont : ℕ
wont = 252

abbrev pub will : ℕ
will = 251

abbrev pub sb_begin : ℕ
sb_begin = 250

abbrev pub sb_end : ℕ
sb_end = 240

abbrev pub binary : ℕ
binary = 0

abbrev pub echo : ℕ
echo = 1

abbrev pub sga : ℕ
sga = 3

abbrev pub ttype : ℕ
ttype = 24

abbrev pub naws_option : ℕ
naws_option = 31

abbrev pub ttype_is : ℕ
ttype_is = 0

abbrev pub ttype_send : ℕ
ttype_send = 1

-- b"XTERM-256COLOR"
abbrev pub terminal_type : Bytes
terminal_type = 88 ∷ 84 ∷ 69 ∷ 82 ∷ 77 ∷ 45 ∷ 50 ∷ 53 ∷ 54 ∷ 67 ∷ 79 ∷ 76 ∷ 79 ∷ 82 ∷ []

-- A Python set of option numbers.
abbrev pub has : ℕ → List ℕ → Bool
has o s = any (λ x. x == o) s

abbrev pub add : ℕ → List ℕ → List ℕ
add o s = if has o s then s else o ∷ s

abbrev pub discard : ℕ → List ℕ → List ℕ
discard o s = keep (λ x. not (x == o)) s

abbrev pub they_may : List ℕ
they_may = echo ∷ sga ∷ binary ∷ []

abbrev pub we_will : List ℕ
we_will = naws_option ∷ ttype ∷ sga ∷ binary ∷ []

pub data Mode : Type 0 where
  plain after_iac option in_sb sb_iac : Mode

pub record Telnet : Type 0 where
  pub cols : ℕ
  pub rows : ℕ
  pub us : List ℕ
  pub them : List ℕ
  pub mode : Mode
  pub verb : ℕ
  pub sub : Bytes
  pub last_cr : Bool

abbrev pub new : ℕ → ℕ → Telnet
new cols rows = record {
  cols = cols;
  rows = rows;
  us = [];
  them = [];
  mode = plain;
  verb = 0;
  sub = [];
  last_cr = false;
}

-- One byte of a window size, a 255 escaped.
abbrev pub size_byte : ℕ → Bytes
size_byte b = if b == iac then b ∷ iac ∷ [] else b ∷ []

-- `value >> 8 & 0xFF` and `value & 0xFF`
abbrev pub size_bytes : ℕ → Bytes
size_bytes v = size_byte (v / 256 % 256) ++ size_byte (v % 256)

unfoldable pub naws : Telnet → Bytes
naws s =
    iac ∷ sb_begin ∷ naws_option ∷ (size_bytes s.cols ++ (size_bytes s.rows ++ iac ∷ sb_end ∷ []))

abbrev pub command : ℕ → ℕ → Bytes
command verb option' = iac ∷ verb ∷ option' ∷ []

unfoldable pub negotiate : ℕ → ℕ → Telnet → Bytes × Telnet
negotiate v o s =
    if v == will
    then (if has o s.them
        then ([], s)
        else if has o they_may
        then (command do_it o, record s { them = add o s.them })
        else (command dont o, s))
    else if v == wont
    then (if not (has o s.them)
        then ([], s)
        else (command dont o, record s { them = discard o s.them }))
    else if v == do_it
    then (if has o s.us
        then ([], s)
        else if has o we_will
        then (
          command will o ++ (if o == naws_option then naws s else []),
          record s { us = add o s.us },
        )
        else (command wont o, s))
    else if not (has o s.us)
    then ([], s)
    else (command wont o, record s { us = discard o s.us })

-- `body[:2] == bytes([TTYPE, TTYPE_SEND])`
abbrev asks_type : Bytes → Bool
asks_type (a ∷ b ∷ rest) = a == ttype && b == ttype_send
asks_type _ = false

unfoldable pub subnegotiation : Bytes → Telnet → Bytes
subnegotiation body s =
    if asks_type body && has ttype s.us
    then iac ∷ sb_begin ∷ ttype ∷ ttype_is ∷ (terminal_type ++ iac ∷ sb_end ∷ [])
    else []

-- What one byte adds to the data and to the replies, and the state after it.
pub record Step : Type 0 where
  pub out : Bytes
  pub replies : Bytes
  pub next : Telnet

abbrev quiet : Telnet → Step
quiet s = record { out = []; replies = []; next = s }

abbrev in_mode : Mode → Telnet → Telnet
in_mode m s = record s { mode = m }

abbrev emit : ℕ → Telnet → Step
emit b s = record { out = b ∷ []; replies = []; next = s }

abbrev answer : Bytes × Telnet → Step
answer (r, s) = record { out = []; replies = r; next = in_mode plain s }

unfoldable pub byte_in : Mode → ℕ → Telnet → Step
byte_in plain b s =
    if b == iac
    then quiet (in_mode after_iac s)
    else if s.last_cr && (b == 0 && not (has binary s.them))
    then quiet (record s { last_cr = false })
    else emit b (record s { last_cr = b == 0x0D })
byte_in after_iac b s =
    if b == iac
    then emit iac (in_mode plain s)
    else if b == will || (b == wont || (b == do_it || b == dont))
    then quiet (record s { verb = b; mode = option })
    else if b == sb_begin
    then quiet (record s { sub = []; mode = in_sb })
    else quiet (in_mode plain s)
byte_in option b s = answer (negotiate s.verb b s)
byte_in in_sb b s =
    if b == iac then quiet (in_mode sb_iac s) else quiet (record s { sub = s.sub ++ b ∷ [] })
byte_in sb_iac b s =
    if b == sb_end
    then record { out = []; replies = subnegotiation s.sub s; next = in_mode plain s }
    else quiet (record s { sub = s.sub ++ b ∷ []; mode = in_sb })

abbrev pub receive_byte : ℕ → Telnet → Step
receive_byte b s = byte_in s.mode b s

abbrev pub then_step : Step → Step → Step
then_step p q = record { out = p.out ++ q.out; replies = p.replies ++ q.replies; next = q.next }

unfoldable pub receive : Bytes → Telnet → Step
receive [] s = quiet s
receive (b ∷ bs) s = let p = receive_byte b s in then_step p (receive bs p.next)

-- Whether what follows a carriage return is a line feed.
abbrev pub follows_lf : Bytes → Bool
follows_lf [] = false
follows_lf (b ∷ bs) = b == 0x0A

pub encode_bytes : Bool → Bytes → Bytes
encode_bytes bin [] = []
encode_bytes bin (b ∷ bs) =
    let rest = encode_bytes bin bs in
    if b == iac
    then iac ∷ iac ∷ rest
    else if b == 0x0D && (not bin && not (follows_lf bs))
    then b ∷ 0 ∷ rest
    else b ∷ rest

unfoldable pub encode : Bytes → Telnet → Bytes
unfolding encode_bytes
encode bs s = encode_bytes (has binary s.us) bs

unfoldable pub resize : ℕ → ℕ → Telnet → Bytes × Telnet
resize cols rows s =
    let s' = record s { cols = cols; rows = rows } in
    (if has naws_option s.us then naws s' else [], s')
