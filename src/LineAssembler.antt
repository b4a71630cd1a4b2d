-- ===== src/LineAssembler.antt =====
-- core/line_assembler.py: bytes in arbitrary chunks in, whole lines out. A method takes the
-- assembler last and returns the new one beside its result.
pub mod Scan
pub mod Chunks
pub mod Lines
pub mod Typed
pub mod Invariant
use py_uart_proxy.Prelude.{
  ℕ, zero, suc, ◌+◌, Bool, true, false, not, ◌&&◌, ◌||◌, Option, none, some, List, [], ◌∷◌, ◌++◌,
  Bytes, ◌==◌, if◌then◌else◌, length, take, drop,
}

pub record LineAssembler : Type 0 where
  pub buf : Bytes
  pub cr_ends_line : Bool
  pub after_cr : Bool

abbrev pub new : Bool → LineAssembler
new cr_ends_line = record { buf = []; cr_ends_line = cr_ends_line; after_cr = false }

abbrev pub cr : ℕ
cr = 0x0D

abbrev pub lf : ℕ
lf = 0x0A

-- bytearray.find of one byte; `none` is the source's -1
unfoldable pub find_byte : ℕ → Bytes → Option ℕ
find_byte c [] = none
find_byte c (b ∷ bs) =
    let later = find_byte c bs in
    if b == c then some 0 else elim later [ none ↦ none | some i ↦ some (suc i) ]

abbrev pub strip_last : ℕ → ℕ → Bytes → Bytes
strip_last c b [] = if b == c then [] else b ∷ []
strip_last c b (d ∷ ds) = b ∷ d ∷ ds

-- bytes.rstrip of one byte
unfoldable pub rstrip : ℕ → Bytes → Bytes
rstrip c [] = []
rstrip c (b ∷ bs) = strip_last c b (rstrip c bs)

-- The `while True` of `feed`, on fuel: each round takes one line off the front of the buffer.
unfoldable pub feed_loop : ℕ → Bytes → List Bytes → List Bytes × Bytes
feed_loop zero buf lines = (lines, buf)
feed_loop (suc fuel) buf lines = elim (find_byte lf buf) [
  | none ↦ (lines, buf)
  | some idx ↦ feed_loop fuel (drop (suc idx) buf) (lines ++ rstrip cr (take idx buf) ∷ [])
]

-- One round of the `for` of `_feed_cr`.
abbrev pub feed_cr_byte : ℕ → LineAssembler → List Bytes → List Bytes × LineAssembler
feed_cr_byte byte s lines =
    if byte == lf && s.after_cr
    then (lines, record s { after_cr = false })
    else if byte == cr || byte == lf
    then (lines ++ s.buf ∷ [], record s { buf = []; after_cr = byte == cr })
    else (lines, record s { buf = s.buf ++ byte ∷ []; after_cr = byte == cr })

unfoldable pub feed_cr_loop : Bytes → LineAssembler → List Bytes → List Bytes × LineAssembler
feed_cr_loop [] s lines = (lines, s)
feed_cr_loop (byte ∷ data') s lines =
    let (lines', s') = feed_cr_byte byte s lines in feed_cr_loop data' s' lines'

abbrev pub feed_cr : Bytes → LineAssembler → List Bytes × LineAssembler
feed_cr data' s = feed_cr_loop data' s []

-- A buffer of n bytes holds at most n lines, so n + 1 rounds are enough.
unfoldable pub feed : Bytes → LineAssembler → List Bytes × LineAssembler
feed data' s =
    if s.cr_ends_line
    then feed_cr data' s
    else (let (lines, rest) = feed_loop (suc (length (s.buf ++ data'))) (s.buf ++ data') [] in
        (lines, record s { buf = rest }))

abbrev is_empty : Bytes → Bool
is_empty [] = true
is_empty (b ∷ bs) = false

unfoldable pub has_pending : LineAssembler → Bool
has_pending s = not (is_empty s.buf)

unfoldable pub pending : LineAssembler → Bytes
pending s = rstrip cr s.buf

unfoldable pub flush : LineAssembler → Option Bytes × LineAssembler
flush s =
    if is_empty s.buf
    then (none, s)
    else (some (rstrip cr s.buf), record s { buf = []; after_cr = false })
