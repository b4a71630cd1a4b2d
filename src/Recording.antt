-- ===== src/Recording.antt =====
-- core/recording.py: a recorded session loaded for playback. Times are ticks and not negative, as the
-- recorder writes them; a timing file that something else wrote, with a time that `float` reads as
-- negative, `nan` or infinite, is outside of the model. What `float`, `int` and `str.split` read of a row of the timing file is in a
-- record of functions.
pub mod Timeline
pub mod Seeking
use py_uart_proxy.Prelude.{
  ℕ, zero, suc, ◌+◌, ◌-◌, min, max, String, Bool, true, false, not, ◌&&◌, ◌||◌, Option, none, some,
  List, [], ◌∷◌, ◌++◌, Bytes, ◌==◌, ltb, leb, if◌then◌else◌, length, str_append,
}
use py_uart_proxy.Json.{ℤ}

-- `row.split()`, `row.startswith("#")`, `float(text)` in ticks and `int(text)`; `none` is a
-- ValueError. `float` gives a time that is not negative.
pub record Reads : Type 0 where
  pub split : String → List String
  pub is_comment : String → Bool
  pub float : String → Option ℕ
  pub int : String → Option ℤ

pub record Recording : Type 0 where
  pub bytes : Bytes
  pub times : List ℕ
  pub elapsed : List ℕ
  pub epoch_based : Bool
  pub ends : List ℕ
  pub start_wall : Option ℕ
  pub has_timing : Bool

abbrev pub last_or : ℕ → List ℕ → ℕ
last_or n [] = n
last_or n (x ∷ xs) = last_or x xs

abbrev pub head_or : ℕ → List ℕ → ℕ
head_or n [] = n
head_or n (x ∷ xs) = x

abbrev pub is_empty : List ℕ → Bool
is_empty [] = true
is_empty (x ∷ xs) = false

-- The three lists, the bytes so far and the number of columns, through the loop over the rows.
pub record Timing : Type 0 where
  pub total : ℕ
  pub columns : Option ℕ
  pub times : List ℕ
  pub elapsed : List ℕ
  pub ends : List ℕ

abbrev pub no_timing : Timing
no_timing = record { total = 0; columns = none; times = []; elapsed = []; ends = [] }

-- A row's stamp, elapsed and size; the size of a row is an `int`, which may be negative.
pub record Row : Type 0 where
  pub stamp : ℕ
  pub run_elapsed : ℕ
  pub size : ℤ

abbrev row_of : Option ℕ → Option ℕ → Option ℤ → Option Row
row_of (some stamp) (some run_elapsed) (some size) =
    some (record { stamp = stamp; run_elapsed = run_elapsed; size = size })
row_of _ _ _ = none

-- The row's fields by the number of columns.
unfoldable pub parse_row : Reads → List String → Option Row
parse_row r (a ∷ b ∷ c ∷ []) = row_of (r.float a) (r.float b) (r.int c)
parse_row r (a ∷ b ∷ []) = row_of (r.float a) (r.float a) (r.int b)
parse_row r _ = none

abbrev pub two_or_three : ℕ → Bool
two_or_three n = n == 2 || n == 3

abbrev pub decide_columns : ℕ → Timing → Timing
decide_columns n t = elim t.columns [ none ↦ record t { columns = some n } | some m ↦ t ]

abbrev pub other_columns : ℕ → Option ℕ → Bool
other_columns n none = false
other_columns n (some m) = not (n == m)

-- `size` bytes at `stamp`, never earlier than the chunk before.
abbrev pub append_chunk : ℕ → ℕ → ℕ → ℕ → Timing → Timing
append_chunk len stamp run_elapsed size t =
    let total = min (t.total + size) len in
    record t {
      total = total;
      times = t.times ++ max stamp (last_or stamp t.times) ∷ [];
      elapsed = t.elapsed ++ run_elapsed ∷ [];
      ends = t.ends ++ total ∷ [];
    }

abbrev pub add_size : ℕ → ℕ → ℕ → ℤ → Timing → Timing
add_size len stamp run_elapsed (ℤ.pos zero) t = t
add_size len stamp run_elapsed (ℤ.pos (suc n)) t =
    if leb len t.total then t else append_chunk len stamp run_elapsed (suc n) t
add_size len stamp run_elapsed (ℤ.negsuc n) t = t

abbrev pub add_parsed : ℕ → Option Row → Timing → Timing
add_parsed len none t = t
add_parsed len (some row) t = add_size len row.stamp row.run_elapsed row.size t

-- One round of the loop over the rows, by the row's fields.
abbrev pub add_fields : ℕ → Reads → List String → Timing → Timing
add_fields len r fields t =
    let t' = decide_columns (length fields) t in
    if other_columns (length fields) t'.columns then t' else add_parsed len (parse_row r fields) t'

unfoldable pub add_row : ℕ → Reads → String → Timing → Timing
add_row len r row t =
    if r.is_comment row || not (two_or_three (length (r.split row)))
    then t
    else add_fields len r (r.split row) t

unfoldable pub add_rows : ℕ → Reads → List String → Timing → Timing
add_rows len r [] t = t
add_rows len r (row ∷ rows) t = add_rows len r rows (add_row len r row t)

-- The bytes that the timing file never mentions stand at the end.
unfoldable pub add_rest : ℕ → Timing → Timing
add_rest len t =
    if not (is_empty t.times) && ltb t.total len
    then (record t {
      times = t.times ++ last_or 0 t.times ∷ [];
      elapsed = t.elapsed ++ last_or 0 t.elapsed ∷ [];
      ends = t.ends ++ len ∷ [];
    })
    else t

abbrev is_epoch : Option ℕ → Bool
is_epoch none = false
is_epoch (some n) = n == 3

abbrev pub with_timing : Bytes → Option ℕ → Timing → Recording
with_timing bytes start_wall t = record {
  bytes = bytes;
  times = t.times;
  elapsed = t.elapsed;
  epoch_based = is_epoch t.columns;
  ends = t.ends;
  start_wall = start_wall;
  has_timing = not (is_empty t.times);
}

abbrev pub rows_of : Option (List String) → List String
rows_of none = []
rows_of (some rows) = rows

-- `load` of the raw log's bytes, of the rows of the timing file, if there is one, and of the time that
-- the banner gives.
unfoldable pub load : Reads → Bytes → Option (List String) → Option ℕ → Recording
load r bytes timing start_wall =
    with_timing bytes start_wall
      (add_rest (length bytes) (add_rows (length bytes) r (rows_of timing) no_timing))

-- bisect.bisect_right: how many of the ascending `times` are at most `x`
unfoldable pub bisect_right : List ℕ → ℕ → ℕ
bisect_right [] x = 0
bisect_right (t ∷ ts) x = let rest = bisect_right ts x in if leb t x then suc rest else 0

abbrev pub get_or_zero : ℕ → List ℕ → ℕ
get_or_zero i [] = 0
get_or_zero zero (x ∷ xs) = x
get_or_zero (suc i) (x ∷ xs) = get_or_zero i xs

-- The entry before the index, where there is one.
abbrev pub before : ℕ → List ℕ → ℕ
before zero xs = 0
before (suc i) xs = get_or_zero i xs

abbrev pub origin : Recording → ℕ
origin r = head_or 0 r.times

abbrev pub duration : Recording → ℕ
duration r = if is_empty r.times then 0 else last_or 0 r.times - origin r

unfoldable pub offset_at : ℕ → Recording → ℕ
offset_at position r =
    if is_empty r.times
    then length r.bytes
    else before (bisect_right r.times (origin r + position)) r.ends

unfoldable pub next_time_after : ℕ → Recording → Option ℕ
next_time_after position r =
    let index = bisect_right r.times (origin r + position) in
    if ltb index (length r.times) then some (get_or_zero index r.times - origin r) else none

abbrev less_origin : ℕ → ℕ → List ℕ → ℕ
less_origin zero origin times = 0
less_origin (suc i) origin times = get_or_zero i times - origin

unfoldable pub previous_time_at : ℕ → Recording → ℕ
previous_time_at position r =
    less_origin (bisect_right r.times (origin r + position)) (origin r) r.times

unfoldable pub wall_at : ℕ → Recording → Option ℕ
wall_at position r =
    if r.epoch_based
    then some (origin r + position)
    else elim r.start_wall [ none ↦ none | some w ↦ some (w + (origin r + position)) ]

-- `times` and `elapsed` side by side, to the first chunk of at least `elapsed`.
unfoldable pub reach_elapsed : ℕ → ℕ → List ℕ → List ℕ → ℕ → ℕ
reach_elapsed default origin (t ∷ ts) (e ∷ es) elapsed =
    let rest = reach_elapsed default origin ts es elapsed in
    if leb elapsed e then t - origin - (e - elapsed) else rest
reach_elapsed default origin _ _ elapsed = default

unfoldable pub position_of_elapsed : ℕ → Recording → ℕ
position_of_elapsed elapsed r = reach_elapsed (duration r) (origin r) r.times r.elapsed elapsed
