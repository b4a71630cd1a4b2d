-- ===== src/Player/Stream.antt =====
-- `play_to_stream` of ui/replay.py: all the bytes, once, in order, and no long wait.
use py_uart_proxy.Prelude.{
  ℕ, zero, suc, ◌+◌, ◌-◌, ◌*◌, ◌/◌, ◌≤◌, max, String, Bool, true, false, Option, none, some, List,
  [], ◌∷◌, ◌++◌, Bytes, ltb, leb, if◌then◌else◌, length, take, drop, append_assoc, append-nil,
  suc_add, All, ◌≡◌, refl, sym, ap, ◌∙◌, arith, ◌⊎◌, inl, inr,
}
use native.Mathlib.Nat.{div-mul-le_self, le_trans}
use py_uart_proxy.Recording.{Reads, Recording, last_or, load, offset_at, origin}
use py_uart_proxy.Recording.Timeline.{Rising, Ascending, IsWhole, load-IsWhole}
use py_uart_proxy.Recording.Seeking.{last_most}
use py_uart_proxy.Player.{
  Effect, slice, pause, sleep_some, shortened, play_chunks, play_from, play_to_stream, or_one,
}

abbrev pub written : List Effect → Bytes
written [] = []
written (Effect.write bs ∷ es) = bs ++ written es
written (Effect.sleep gap ∷ es) = written es

written-append : (xs ys : List Effect) → written (xs ++ ys) ≡ written xs ++ written ys
written-append [] ys = refl
written-append (Effect.write bs ∷ xs) ys =
    ap (λ t. bs ++ t) (written-append xs ys) ∙ sym (append_assoc bs (written xs) (written ys))
written-append (Effect.sleep gap ∷ xs) ys = written-append xs ys

-- A wait is of at most `max_idle` divided by the speed, which is in quarters, where `max_idle` is not 0.
abbrev pub IsShort : ℕ → ℕ → Effect → Type 0
IsShort speed max_idle (Effect.write bs) = Unit
IsShort speed max_idle (Effect.sleep wait) = (max_idle ≡ 0) ⊎ (wait * speed ≤ max_idle * 4)

take-take : (n m : ℕ) (bs : Bytes) → take n bs ++ take m (drop n bs) ≡ take (n + m) bs
take-take zero m bs = ap (λ k. take k bs) (omega arith)
take-take (suc n) m [] = nothing m (suc n + m)
  where
    nothing : (k l : ℕ) → take {A = ℕ} k [] ≡ take l []
    nothing zero zero = refl
    nothing zero (suc l) = refl
    nothing (suc k) zero = refl
    nothing (suc k) (suc l) = refl
take-take (suc n) m (b ∷ bs) =
    ap (λ t. b ∷ t) (take-take n m bs) ∙ ap (λ k. take k (b ∷ bs)) (sym (suc_add n m))

pub take-slice :
    (start end : ℕ) (bs : Bytes) → start ≤ end → take start bs ++ slice start end bs ≡ take end bs
take-slice start end bs h =
    take-take start (end - start) bs ∙ ap (λ k. take k bs) (omega (arith, h))

pause-written :
    (speed max_idle : ℕ) (previous : Option ℕ) (stamp : ℕ)
    → written (pause speed max_idle previous stamp) ≡ []
pause-written speed max_idle none stamp = refl
pause-written speed max_idle (some p) stamp = by_test (ltb 0 speed) (shortened max_idle (stamp - p))
  where
    by_test : (b : Bool) (gap : ℕ) → written (if b then sleep_some speed gap else []) ≡ []
    by_test true zero = refl
    by_test true (suc gap) = refl
    by_test false gap = refl

pause-IsShort :
    (speed max_idle : ℕ) (previous : Option ℕ) (stamp : ℕ)
    → All (IsShort speed max_idle) (pause speed max_idle previous stamp)
pause-IsShort speed max_idle none stamp = tt
pause-IsShort speed max_idle (some p) stamp =
    by_test (ltb 0 speed) (shortened max_idle (stamp - p)) (ground arith)
  where
    short :
        (gap : ℕ)
        → (max_idle ≡ 0) ⊎ (gap ≤ max_idle)
        → IsShort speed max_idle (Effect.sleep (gap * 4 / speed))
    short gap (inl h) = inl h
    short gap (inr h) = inr (le_trans (div-mul-le_self (gap * 4) speed) (omega (arith, h)))

    by_test :
        (b : Bool) (gap : ℕ)
        → (max_idle ≡ 0) ⊎ (gap ≤ max_idle)
        → All (IsShort speed max_idle) (if b then sleep_some speed gap else [])
    by_test true zero h = tt
    by_test true (suc gap) h = (short (suc gap) h, tt)
    by_test false gap h = tt

-- From `start` on, the loop writes to the last end, where `n` is the end before the first.
play_chunks-written :
    (speed max_idle : ℕ) (bs : Bytes) (start n : ℕ) (previous : Option ℕ) (stamps ends : List ℕ)
    → length stamps ≡ length ends
    → Ascending n ends
    → n ≤ start
    → take start bs ++ written (play_chunks speed max_idle bs start previous stamps ends)
      ≡ take (max start (last_or n ends)) bs
unfolding play_chunks
play_chunks-written speed max_idle bs start n previous [] [] l h k =
    append-nil (take start bs) ∙ ap (λ k. take k bs) (omega (arith, k))
play_chunks-written speed max_idle bs start n previous [] (e ∷ es) l h k = absurd (omega arith)
play_chunks-written speed max_idle bs start n previous (t ∷ ts) [] l h k = absurd (omega arith)
play_chunks-written speed max_idle bs start n previous (t ∷ ts) (e ∷ es) l h k =
    by_test (leb e start) refl
      (play_chunks-written speed max_idle bs start e previous ts es (omega arith) h.1)
      (play_chunks-written speed max_idle bs e e (some t) ts es (omega arith) h.1 (omega arith))
  where
    skipped : List Effect
    skipped = play_chunks speed max_idle bs start previous ts es

    rest : List Effect
    rest = play_chunks speed max_idle bs e (some t) ts es

    by_test :
        (b : Bool)
        → (b ≡ leb e start)
        → (e ≤ start → take start bs ++ written skipped ≡ take (max start (last_or e es)) bs)
        → take e bs ++ written rest ≡ take (max e (last_or e es)) bs
        → take start bs
            ++ written (
                if b
                then skipped
                else pause speed max_idle previous t ++ (Effect.write (slice start e bs) ∷ rest))
          ≡ take (max start (last_or e es)) bs
    by_test true b f g = f (ground (arith, b))
    by_test false b f g =
        ap (λ t. take start bs ++ t)
          (written-append (pause speed max_idle previous t) (Effect.write (slice start e bs) ∷ rest)
            ∙ ap (λ t. t ++ (slice start e bs ++ written rest))
                (pause-written speed max_idle previous t))
        ∙ (sym (append_assoc (take start bs) (slice start e bs) (written rest))
            ∙ (ap (λ t. t ++ written rest) (take-slice start e bs (ground (arith, b)))
                ∙ (g ∙ ap (λ k. take k bs) (ground (arith, b, last_most e es h.1)))))

All-append : (P : Effect → Type 0) (xs ys : List Effect) → All P xs → All P ys → All P (xs ++ ys)
All-append P [] ys h k = k
All-append P (x ∷ xs) ys h k = (h.0, All-append P xs ys h.1 k)

play_chunks-IsShort :
    (speed max_idle : ℕ) (bs : Bytes) (start : ℕ) (previous : Option ℕ) (stamps ends : List ℕ)
    → All (IsShort speed max_idle) (play_chunks speed max_idle bs start previous stamps ends)
unfolding play_chunks
play_chunks-IsShort speed max_idle bs start previous [] ends = tt
play_chunks-IsShort speed max_idle bs start previous (t ∷ ts) [] = tt
play_chunks-IsShort speed max_idle bs start previous (t ∷ ts) (e ∷ es) =
    by_test (leb e start) (play_chunks-IsShort speed max_idle bs start previous ts es)
      (play_chunks-IsShort speed max_idle bs e (some t) ts es)
  where
    by_test :
        (b : Bool)
        → All (IsShort speed max_idle) (play_chunks speed max_idle bs start previous ts es)
        → All (IsShort speed max_idle) (play_chunks speed max_idle bs e (some t) ts es)
        → All (IsShort speed max_idle) (
            if b
            then play_chunks speed max_idle bs start previous ts es
            else pause speed max_idle previous t
              ++ (Effect.write (slice start e bs) ∷ play_chunks speed max_idle bs e (some t) ts es))
    by_test true f g = f
    by_test false f g =
        All-append (IsShort speed max_idle) (pause speed max_idle previous t)
          (Effect.write (slice start e bs) ∷ play_chunks speed max_idle bs e (some t) ts es)
          (pause-IsShort speed max_idle previous t) (tt, g)

Rising-Ascending : (n : ℕ) (xs : List ℕ) → Rising n xs → Ascending n xs
Rising-Ascending n [] h = tt
Rising-Ascending n (x ∷ xs) h = (omega (arith, h.0), Rising-Ascending x xs h.1)

-- The chunks of a recording, or its one chunk where it has none.
or_one-chunks :
    (len : ℕ) (times elapsed ends : List ℕ)
    → IsWhole len times elapsed ends
    → (length (or_one 0 times) ≡ length (or_one len ends))
      × Ascending 0 (or_one len ends)
      × (last_or 0 (or_one len ends) ≡ len)
or_one-chunks len [] elapsed [] h = (refl, (omega arith, tt), refl)
or_one-chunks len [] elapsed (e ∷ es) h = absurd (omega (arith, h.0))
or_one-chunks len (t ∷ ts) elapsed [] h = absurd (omega (arith, h.0))
or_one-chunks len (t ∷ ts) elapsed (e ∷ es) (a, b, c, d, inl k) = absurd (ground (arith, k))
or_one-chunks len (t ∷ ts) elapsed (e ∷ es) (a, b, c, d, inr k) =
    (a, Rising-Ascending 0 (e ∷ es) d, k)

take_all : (n : ℕ) (bs : Bytes) → length bs ≤ n → take n bs ≡ bs
take_all zero [] h = refl
take_all zero (b ∷ bs) h = absurd (omega arith)
take_all (suc n) [] h = refl
take_all (suc n) (b ∷ bs) h = ap (λ t. b ∷ t) (take_all n bs (omega arith))

abbrev pub Plays : ℕ → ℕ → Bytes → List Effect → Type 0
Plays speed max_idle log es = (written es ≡ log) × All (IsShort speed max_idle) es

play_from-written :
    (speed max_idle start : ℕ) (previous : Option ℕ) (r : Recording)
    → IsWhole (length r.bytes) r.times r.elapsed r.ends
    → take start r.bytes ++ written (play_from speed max_idle start previous r) ≡ r.bytes
play_from-written speed max_idle start previous r h =
    let (same, up, full) = or_one-chunks (length r.bytes) r.times r.elapsed r.ends h in
    play_chunks-written speed max_idle r.bytes start 0 previous (or_one 0 r.times)
      (or_one (length r.bytes) r.ends) same up (omega arith)
    ∙ take_all (max start (last_or 0 (or_one (length r.bytes) r.ends))) r.bytes
        (omega (arith, full))

play_to_stream-Plays :
    (speed max_idle start_at : ℕ) (r : Recording)
    → IsWhole (length r.bytes) r.times r.elapsed r.ends
    → Plays speed max_idle r.bytes (play_to_stream speed max_idle start_at r)
unfolding play_to_stream
play_to_stream-Plays speed max_idle start_at r h = by_test (ltb 0 start_at)
  where
    by_test :
        (b : Bool)
        → Plays speed max_idle r.bytes (
            if b
            then Effect.write (take (offset_at start_at r) r.bytes)
              ∷ play_from speed max_idle (offset_at start_at r) (some (origin r + start_at)) r
            else play_from speed max_idle 0 none r)
    by_test true = (
      play_from-written speed max_idle (offset_at start_at r) (some (origin r + start_at)) r h,
      (
        tt,
        play_chunks-IsShort speed max_idle r.bytes (offset_at start_at r)
            (some (origin r + start_at)) (or_one 0 r.times) (or_one (length r.bytes) r.ends),
      ),
    )
    by_test false = (
      play_from-written speed max_idle 0 none r h,
      play_chunks-IsShort speed max_idle r.bytes 0 none (or_one 0 r.times)
          (or_one (length r.bytes) r.ends),
    )

-- A recording is loaded, whichever rows its timing file has of numbers that are neither negative nor
-- `nan` or infinite, and is played to a stream from whatever position and at a speed of a whole number
-- of quarters, or at no pace for the speed 0. What is written is every byte of the log, once and in
-- order; and no wait is longer than `max_idle` divided by the speed, where `max_idle` is not 0.
pub play_to_stream-load :
    (r : Reads) (log : Bytes) (timing : Option (List String)) (start_wall : Option ℕ)
    (speed max_idle start_at : ℕ)
    → Plays speed max_idle log
        (play_to_stream speed max_idle start_at (load r log timing start_wall))
unfolding load
play_to_stream-load r log timing start_wall speed max_idle start_at =
    play_to_stream-Plays speed max_idle start_at (load r log timing start_wall)
      (load-IsWhole r log timing start_wall)
