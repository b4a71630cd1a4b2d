-- ===== src/Recording/Timeline.antt =====
-- What core/recording.py loads is a timeline: the stamps ascend, and the ends count all the bytes up.
use py_uart_proxy.Prelude.{
  ℕ, zero, suc, ◌+◌, ◌≤◌, ◌<◌, min, max, String, Bool, true, false, not, ◌&&◌, ◌||◌, Option, none,
  some, List, [], ◌∷◌, ◌++◌, Bytes, ltb, leb, if◌then◌else◌, length, ◌≡◌, refl, sym, arith,
  length-append, ◌⊎◌, inl, inr,
}
use py_uart_proxy.Json.{ℤ}
use py_uart_proxy.Recording.{
  Reads, Timing, Row, no_timing, last_or, is_empty, append_chunk, add_size, add_parsed, add_fields,
  parse_row, add_row, add_rows, add_rest, load, decide_columns, other_columns, two_or_three,
  rows_of,
}

-- Never backwards, and always forwards, from a number on.
abbrev pub Ascending : ℕ → List ℕ → Type 0
Ascending n [] = Unit
Ascending n (x ∷ xs) = (n ≤ x) × Ascending x xs

abbrev pub Rising : ℕ → List ℕ → Type 0
Rising n [] = Unit
Rising n (x ∷ xs) = (n < x) × Rising x xs

Ascending-snoc :
    (n x : ℕ) (xs : List ℕ) → Ascending n xs → last_or n xs ≤ x → Ascending n (xs ++ x ∷ [])
Ascending-snoc n x [] a h = (h, tt)
Ascending-snoc n x (y ∷ ys) a h = (a.0, Ascending-snoc y x ys a.1 h)

pub Rising-snoc : (n x : ℕ) (xs : List ℕ) → Rising n xs → last_or n xs < x → Rising n (xs ++ x ∷ [])
Rising-snoc n x [] a h = (h, tt)
Rising-snoc n x (y ∷ ys) a h = (a.0, Rising-snoc y x ys a.1 h)

pub last_or-snoc : (n x : ℕ) (xs : List ℕ) → last_or n (xs ++ x ∷ []) ≡ x
last_or-snoc n x [] = refl
last_or-snoc n x (y ∷ ys) = last_or-snoc y x ys

-- The lists through the loop, for a log of `len` bytes.
abbrev pub IsTimeline : ℕ → Timing → Type 0
IsTimeline len t =
    (length t.times ≡ length t.ends)
    × (length t.elapsed ≡ length t.ends)
    × Ascending 0 t.times
    × Rising 0 t.ends
    × (t.total ≡ last_or 0 t.ends)
    × (t.total ≤ len)

later_stamp : (stamp : ℕ) (times : List ℕ) → last_or 0 times ≤ max stamp (last_or stamp times)
later_stamp stamp [] = omega arith
later_stamp stamp (t ∷ ts) = omega arith

append_chunk-IsTimeline :
    (len stamp e n : ℕ) (t : Timing)
    → t.total < len
    → 0 < n
    → IsTimeline len t
    → IsTimeline len (append_chunk len stamp e n t)
append_chunk-IsTimeline len stamp e n t h p (a, b, c, d, f, g) = (
  omega (
    arith,
    length-append t.times (max stamp (last_or stamp t.times) ∷ []),
    length-append t.ends (min (t.total + n) len ∷ []),
  ),
  omega
      (arith, length-append t.elapsed (e ∷ []), length-append t.ends (min (t.total + n) len ∷ [])),
  Ascending-snoc 0 (max stamp (last_or stamp t.times)) t.times c (later_stamp stamp t.times),
  Rising-snoc 0 (min (t.total + n) len) t.ends d (omega (arith, f)),
  omega (arith, last_or-snoc 0 (min (t.total + n) len) t.ends),
  omega arith,
)

add_size-IsTimeline :
    (len stamp e : ℕ) (size : ℤ) (t : Timing)
    → IsTimeline len t
    → IsTimeline len (add_size len stamp e size t)
add_size-IsTimeline len stamp e (ℤ.pos zero) t h = h
add_size-IsTimeline len stamp e (ℤ.pos (suc n)) t h = by_test (leb len t.total) refl
  where
    by_test :
        (b : Bool)
        → (b ≡ leb len t.total)
        → IsTimeline len (if b then t else append_chunk len stamp e (suc n) t)
    by_test true k = h
    by_test false k = append_chunk-IsTimeline len stamp e (suc n) t (ground arith) (omega arith) h
add_size-IsTimeline len stamp e (ℤ.negsuc n) t h = h

add_parsed-IsTimeline :
    (len : ℕ) (row : Option Row) (t : Timing)
    → IsTimeline len t
    → IsTimeline len (add_parsed len row t)
add_parsed-IsTimeline len none t h = h
add_parsed-IsTimeline len (some row) t h =
    add_size-IsTimeline len row.stamp row.run_elapsed row.size t h

decide_columns-IsTimeline :
    (len n : ℕ) (t : Timing) → IsTimeline len t → IsTimeline len (decide_columns n t)
decide_columns-IsTimeline len n t h = by_columns t.columns
  where
    by_columns :
        (o : Option ℕ)
        → IsTimeline len
            (elim o as (λ x. Timing) [ none ↦ record t { columns = some n } | some m ↦ t ])
    by_columns none = h
    by_columns (some m) = h

add_row-IsTimeline :
    (len : ℕ) (r : Reads) (row : String) (t : Timing)
    → IsTimeline len t
    → IsTimeline len (add_row len r row t)
unfolding add_row
add_row-IsTimeline len r row t h =
    by_test (r.is_comment row || not (two_or_three (length (r.split row))))
  where
    fields : List String
    fields = r.split row

    by_columns :
        (u : Bool) (t' : Timing)
        → IsTimeline len t'
        → IsTimeline len (if u then t' else add_parsed len (parse_row r (r.split row)) t')
    by_columns true t' k = k
    by_columns false t' k = add_parsed-IsTimeline len (parse_row r (r.split row)) t' k

    by_test : (b : Bool) → IsTimeline len (if b then t else add_fields len r (r.split row) t)
    by_test true = h
    by_test false =
        by_columns
          (other_columns (length (r.split row)) (decide_columns (length (r.split row)) t).columns)
          (decide_columns (length (r.split row)) t)
          (decide_columns-IsTimeline len (length (r.split row)) t h)

add_rows-IsTimeline :
    (len : ℕ) (r : Reads) (rows : List String) (t : Timing)
    → IsTimeline len t
    → IsTimeline len (add_rows len r rows t)
unfolding add_rows
add_rows-IsTimeline len r [] t h = h
add_rows-IsTimeline len r (row ∷ rows) t h =
    add_rows-IsTimeline len r rows (add_row len r row t) (add_row-IsTimeline len r row t h)

-- The chunks of a loaded recording: one stamp, elapsed and end each, the stamps never backwards, the
-- ends each past the one before, and the last of them the end of the log, unless there is no chunk.
abbrev pub IsWhole : ℕ → List ℕ → List ℕ → List ℕ → Type 0
IsWhole len times elapsed ends =
    (length times ≡ length ends)
    × (length elapsed ≡ length ends)
    × Ascending 0 times
    × Rising 0 ends
    × ((times ≡ []) ⊎ (last_or 0 ends ≡ len))

complete_or_short :
    (len : ℕ) (t : Timing)
    → IsTimeline len t
    → (not (is_empty t.times) && ltb t.total len) ≡ false
    → (t.times ≡ []) ⊎ (last_or 0 t.ends ≡ len)
complete_or_short len t (a, b, c, d, f, g) e = by_times t.times e
  where
    by_times :
        (ts : List ℕ)
        → (not (is_empty ts) && ltb t.total len) ≡ false
        → (ts ≡ []) ⊎ (last_or 0 t.ends ≡ len)
    by_times [] e = inl refl
    by_times (x ∷ xs) e = inr (ground (arith, f, g, e))

add_rest-IsWhole :
    (len : ℕ) (t : Timing)
    → IsTimeline len t
    → let t' = add_rest len t in IsWhole len t'.times t'.elapsed t'.ends
unfolding add_rest
add_rest-IsWhole len t h = by_test (not (is_empty t.times) && ltb t.total len) refl
  where
    rest : Timing
    rest = record t {
      times = t.times ++ last_or 0 t.times ∷ [];
      elapsed = t.elapsed ++ last_or 0 t.elapsed ∷ [];
      ends = t.ends ++ len ∷ [];
    }

    by_test :
        (b : Bool)
        → (b ≡ (not (is_empty t.times) && ltb t.total len))
        → let t' = if b then rest else t in IsWhole len t'.times t'.elapsed t'.ends
    by_test true e =
        let (a, b, c, d, f, g) = h in
        let short : t.total < len = ground (arith, e) in
        (
          omega (
            arith,
            length-append t.times (last_or 0 t.times ∷ []),
            length-append t.ends (len ∷ []),
            a,
          ),
          omega (
            arith,
            length-append t.elapsed (last_or 0 t.elapsed ∷ []),
            length-append t.ends (len ∷ []),
            b,
          ),
          Ascending-snoc 0 (last_or 0 t.times) t.times c (omega arith),
          Rising-snoc 0 len t.ends d (omega (arith, f, short)),
          inr (last_or-snoc 0 len t.ends),
        )
    by_test false e = let (a, b, c, d, f, g) = h in (a, b, c, d, complete_or_short len t h (sym e))

-- Whatever rows a timing file has, good or not, if no number of theirs is negative, `nan` or infinite, a
-- loaded recording has one stamp, one elapsed and one end for each chunk; the stamps never go backwards; each end is past the one before; and the last end
-- is the end of the log, so that every byte is in just one chunk, unless there is no chunk at all.
pub load-IsWhole :
    (r : Reads) (log : Bytes) (timing : Option (List String)) (start_wall : Option ℕ)
    → let rec = load r log timing start_wall in IsWhole (length log) rec.times rec.elapsed rec.ends
unfolding load
load-IsWhole r log timing start_wall =
    add_rest-IsWhole (length log) (add_rows (length log) r (rows_of timing) no_timing) (
      add_rows-IsTimeline (length log) r (rows_of timing) no_timing
        (refl, refl, tt, tt, refl, omega arith))

-- The same, of the bytes that the recording itself has.
pub loaded_chunks :
    (r : Reads) (log : Bytes) (timing : Option (List String)) (start_wall : Option ℕ)
    → let rec = load r log timing start_wall in
      IsWhole (length rec.bytes) rec.times rec.elapsed rec.ends
unfolding load
loaded_chunks r log timing start_wall = load-IsWhole r log timing start_wall
