-- ===== src/Recorder/Playback.antt =====
-- From core/recorder.py to core/recording.py: a part loaded back.
use py_uart_proxy.Prelude.{
  ℕ, zero, suc, ◌+◌, ◌≤◌, ◌<◌, String, Bool, true, false, not, ◌&&◌, ◌||◌, Option, none, some, List,
  [], ◌∷◌, ◌++◌, ltb, leb, if◌then◌else◌, length, map, All, append-nil, append_assoc, ◌≡◌, refl,
  sym, ap, ◌∙◌, subst, arith, ◌⊎◌, inl, inr, length-append,
}
use py_uart_proxy.Json.{ℤ}
use py_uart_proxy.Event.{Event}
use py_uart_proxy.Recording.{
  Reads, Timing, no_timing, last_or, add_row, add_rows, add_rest, add_fields, add_parsed, add_size,
  append_chunk, parse_row, load, is_empty, two_or_three, other_columns,
}
use py_uart_proxy.Recording.Timeline.{Ascending, last_or-snoc}
use py_uart_proxy.Recorder.{Texts, timing_of}
use py_uart_proxy.Recorder.Kept.{bytes_of}

abbrev pub walls : List Event → List ℕ
walls es = map (λ e. e.stamp.wall) es

abbrev pub elapseds : List Event → List ℕ
elapseds es = map (λ e. e.stamp.elapsed) es

-- Where each chunk ends, the first starting at `n`.
abbrev pub ends_from : ℕ → List Event → List ℕ
ends_from n [] = []
ends_from n (e ∷ es) = (n + length e.raw) ∷ ends_from (n + length e.raw) es

-- A row that the recorder writes reads as what it was written of.
abbrev pub ReadsBack : Reads → String → ℕ → ℕ → ℕ → Type 0
ReadsBack r row wall elapsed size =
    (r.is_comment row ≡ false)
    × ((a : String) × (b : String) × (c : String) × (r.split row ≡ a ∷ b ∷ c ∷ [])
        × (r.float a ≡ some wall)
        × (r.float b ≡ some elapsed)
        × (r.int c ≡ some (ℤ.pos size)))

abbrev pub MayHaveThree : Option ℕ → Type 0
MayHaveThree o = (o ≡ none) ⊎ (o ≡ some 3)

-- What one such row adds.
abbrev Added : ℕ → ℕ → ℕ → Timing → Timing → Type 0
Added wall elapsed size t t' =
    (t'.total ≡ t.total + size)
    × (t'.times ≡ t.times ++ wall ∷ [])
    × (t'.elapsed ≡ t.elapsed ++ elapsed ∷ [])
    × (t'.ends ≡ t.ends ++ (t.total + size) ∷ [])
    × MayHaveThree t'.columns

add_size-Added :
    (len wall elapsed size : ℕ) (t : Timing)
    → 0 < size
    → t.total + size ≤ len
    → last_or wall t.times ≤ wall
    → MayHaveThree t.columns
    → Added wall elapsed size t (add_size len wall elapsed (ℤ.pos size) t)
add_size-Added len wall elapsed zero t p h k c = absurd (omega arith)
add_size-Added len wall elapsed (suc n) t p h k c = by_test (leb len t.total) refl
  where
    by_test :
        (b : Bool)
        → (b ≡ leb len t.total)
        → Added wall elapsed (suc n) t (if b then t else append_chunk len wall elapsed (suc n) t)
    by_test true e = absurd (ground (arith, e, h))
    by_test false e = (
      omega (arith, h),
      ap (λ x. t.times ++ x ∷ []) (omega (arith, k)),
      refl,
      ap (λ x. t.ends ++ x ∷ []) (omega (arith, h)),
      c,
    )

module _ (r : Reads) (len wall elapsed size : ℕ) (a b c : String) (t : Timing) (p : 0 < size)
    (h : t.total + size ≤ len) (k : last_or wall t.times ≤ wall) (fa : r.float a ≡ some wall)
    (fb : r.float b ≡ some elapsed) (ic : r.int c ≡ some (ℤ.pos size)) where
  abbrev fields : List String
  fields = a ∷ b ∷ c ∷ []

  parsed :
      parse_row r fields ≡ some (record { stamp = wall; run_elapsed = elapsed; size = ℤ.pos size })
  unfolding parse_row
  parsed = rw (fa, fb, ic) refl

  -- Once the number of columns is three.
  parsed-Added :
      (columns : Option ℕ)
      → columns ≡ some 3
      → let t' = record t { columns = columns } in
        Added wall elapsed size t
          (if other_columns 3 columns then t' else add_parsed len (parse_row r fields) t')
  parsed-Added columns e =
      subst
        (λ o.
          let t' = record t { columns = o } in
          Added wall elapsed size t
            (if other_columns 3 o then t' else add_parsed len (parse_row r fields) t'))
        (sym e)
        (subst
          (λ row. Added wall elapsed size t (add_parsed len row (record t { columns = some 3 })))
          (sym parsed)
          (add_size-Added len wall elapsed size (record t { columns = some 3 }) p h k (inr refl)))

  add_fields-Added : MayHaveThree t.columns → Added wall elapsed size t (add_fields len r fields t)
  add_fields-Added m = by_columns t.columns refl m
    where
      by_columns :
          (o : Option ℕ)
          → (t.columns ≡ o)
          → MayHaveThree o
          → let t' : Timing = elim o [ none ↦ record t { columns = some 3 } | some n ↦ t ] in
            Added wall elapsed size t
              (if other_columns 3 t'.columns then t' else add_parsed len (parse_row r fields) t')
      by_columns none e m = parsed-Added (some 3) refl
      by_columns (some n) e (inl f) = absurd (ground (arith, f))
      by_columns (some n) e (inr f) = parsed-Added t.columns (e ∙ f)

add_row-Added :
    (r : Reads) (len wall elapsed size : ℕ) (row : String) (t : Timing)
    → 0 < size
    → t.total + size ≤ len
    → last_or wall t.times ≤ wall
    → MayHaveThree t.columns
    → ReadsBack r row wall elapsed size
    → Added wall elapsed size t (add_row len r row t)
unfolding add_row
add_row-Added r len wall elapsed size row t p h k m (nc, (a, b, c, sp, fa, fb, ic)) =
    subst
      (λ fs.
        Added wall elapsed size t
          (if r.is_comment row || not (two_or_three (length fs)) then t else add_fields len r fs t))
      (sym sp)
      (subst
        (λ cm.
          Added wall elapsed size t
            (if cm || not (two_or_three 3) then t else add_fields len r (a ∷ b ∷ c ∷ []) t))
        (sym nc) (add_fields-Added r len wall elapsed size a b c t p h k fa fb ic m))

last_or_self : (w : ℕ) (ts : List ℕ) → last_or 0 ts ≤ w → last_or w ts ≤ w
last_or_self w [] h = omega arith
last_or_self w (t ∷ ts) h = h

-- What the rows of some chunks add.
abbrev Loaded : List Event → Timing → Timing → Type 0
Loaded es t t' =
    (t'.total ≡ t.total + length (bytes_of es))
    × (t'.times ≡ t.times ++ walls es)
    × (t'.elapsed ≡ t.elapsed ++ elapseds es)
    × (t'.ends ≡ t.ends ++ ends_from t.total es)

abbrev pub AllSome : List Event → Type 0
AllSome es = All (λ e. 0 < length e.raw) es

-- The rows of some chunks read back.
abbrev pub AllRead : Reads → Texts → List Event → Type 0
AllRead r texts es =
    All (λ e. ReadsBack r (timing_of texts e) e.stamp.wall e.stamp.elapsed (length e.raw)) es

module _ (r : Reads) (texts : Texts) where
  add_rows-Loaded :
      (len : ℕ) (es : List Event) (t : Timing)
      → AllSome es
      → Ascending (last_or 0 t.times) (walls es)
      → t.total + length (bytes_of es) ≤ len
      → MayHaveThree t.columns
      → AllRead r texts es
      → Loaded es t (add_rows len r (map (timing_of texts) es) t)
  unfolding add_rows
  add_rows-Loaded len [] t s a h m reads =
      (omega arith, sym (append-nil t.times), sym (append-nil t.elapsed), sym (append-nil t.ends))
  add_rows-Loaded len (e ∷ es) t s a h m reads =
      let size = length e.raw in
      let split_size : length (bytes_of (e ∷ es)) ≡ size + length (bytes_of es) =
        length-append e.raw (bytes_of es) in
      let t' = add_row len r (timing_of texts e) t in
      let (total, times, elapsed, ends, m') : Added e.stamp.wall e.stamp.elapsed size t t' =
        add_row-Added r len e.stamp.wall e.stamp.elapsed size (timing_of texts e) t s.0
          (omega (arith, h, split_size)) (last_or_self e.stamp.wall t.times a.0) m reads.0 in
      let (total2, times2, elapsed2, ends2) : Loaded es t'
          (add_rows len r (map (timing_of texts) es) t') =
        add_rows-Loaded len es t' s.1
          (subst (λ n. Ascending n (walls es))
            (sym (ap (last_or 0) times ∙ last_or-snoc 0 e.stamp.wall t.times)) a.1)
          (omega (arith, h, split_size, total)) m' reads.1 in
      let result : Loaded (e ∷ es) t (add_rows len r (map (timing_of texts) es) t') = (
        omega (arith, total, total2, split_size),
        times2
            ∙ (ap (λ l. l ++ walls es) times ∙ append_assoc t.times (e.stamp.wall ∷ []) (walls es)),
        elapsed2
            ∙ (ap (λ l. l ++ elapseds es) elapsed
                ∙ append_assoc t.elapsed (e.stamp.elapsed ∷ []) (elapseds es)),
        ends2
            ∙ (ap (λ n. t'.ends ++ ends_from n es) total
                ∙ (ap (λ l. l ++ ends_from (t.total + size) es) ends
                    ∙ append_assoc t.ends ((t.total + size) ∷ []) (ends_from (t.total + size) es))),
      ) in
      result

  complete : (len : ℕ) (t : Timing) → t.total ≡ len → add_rest len t ≡ t
  unfolding add_rest
  complete len t e = by_test (ltb t.total len) refl (not (is_empty t.times))
    where
      rest : Timing
      rest = record t {
        times = t.times ++ last_or 0 t.times ∷ [];
        elapsed = t.elapsed ++ last_or 0 t.elapsed ∷ [];
        ends = t.ends ++ len ∷ [];
      }

      by_test : (b : Bool) → (b ≡ ltb t.total len) → (c : Bool) → (if c && b then rest else t) ≡ t
      by_test true f c = absurd (ground (arith, f, e))
      by_test false f true = refl
      by_test false f false = refl

  -- Chunks that the recorder wrote, none empty and with wall times that never go backwards, load back
  -- as they were, where each row of the timing file reads back as its three numbers: one playback chunk
  -- for each, at its wall time and elapsed, ending where its bytes end in the raw file.
  pub load-timing_of :
      (es : List Event) (start_wall : Option ℕ)
      → AllSome es
      → Ascending 0 (walls es)
      → AllRead r texts es
      → let rec = load r (bytes_of es) (some (map (timing_of texts) es)) start_wall in
        (rec.bytes ≡ bytes_of es)
        × (rec.times ≡ walls es)
        × (rec.elapsed ≡ elapseds es)
        × (rec.ends ≡ ends_from 0 es)
  unfolding load
  load-timing_of es start_wall s a reads =
      let len = length (bytes_of es) in
      let t = add_rows len r (map (timing_of texts) es) no_timing in
      let (total, times, elapsed, ends) : Loaded es no_timing t =
        add_rows-Loaded len es no_timing s a (omega arith) (inl refl) reads in
      let whole : add_rest len t ≡ t = complete len t (omega (arith, total)) in
      let result : (bytes_of es ≡ bytes_of es)
          × ((add_rest len t).times ≡ walls es)
          × ((add_rest len t).elapsed ≡ elapseds es)
          × ((add_rest len t).ends ≡ ends_from 0 es) =
        (
          refl,
          ap (λ u. u.times) whole ∙ times,
          ap (λ u. u.elapsed) whole ∙ elapsed,
          ap (λ u. u.ends) whole ∙ ends,
        ) in
      result
