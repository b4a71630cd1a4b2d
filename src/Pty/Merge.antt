-- ===== src/Pty/Merge.antt =====
-- `--tx-merge line` of core/pty_proxy.py: what a client typed is cut into whole chunks.
use py_uart_proxy.Prelude.{
  ℕ, zero, suc, ◌≤◌, ◌<◌, Bool, true, false, none, some, List, [], ◌∷◌, ◌++◌, Bytes, leb,
  if◌then◌else◌, length, take, drop, any, All, ◌≡◌, refl, sym, ap, ◌∙◌, subst, leb→le, Option-cases,
  inl, inr, ◌⊎◌, arith, append-nil, append_assoc, length-drop,
}
use py_uart_proxy.Pty.{first_flush_point, cut_loop, flush_runaway, merge_line}
use py_uart_proxy.Pty.Flush.{
  ends_chunk, is_whole, first, first_flush_point_lem, first-IsWhole, first-none,
}

-- All the bytes of some chunks.
abbrev pub concat : List Bytes → Bytes
concat [] = []
concat (c ∷ cs) = c ++ concat cs

pub concat-snoc : (cs : List Bytes) (c : Bytes) → concat (cs ++ c ∷ []) ≡ concat cs ++ c
concat-snoc [] c = append-nil c
concat-snoc (d ∷ cs) c = rw (concat-snoc cs c, append_assoc d (concat cs) c)

pub take-drop : (n : ℕ) (bs : Bytes) → take n bs ++ drop n bs ≡ bs
take-drop zero bs = refl
take-drop (suc n) [] = refl
take-drop (suc n) (b ∷ bs) = ap (λ t. b ∷ t) (take-drop n bs)

pub All-snoc {κ} :
    (P : Bytes → Type κ) (cs : List Bytes) (c : Bytes) → All P cs → P c → All P (cs ++ c ∷ [])
All-snoc P [] c h k = (k, tt)
All-snoc P (d ∷ cs) c h k = (h.0, All-snoc P cs c h.1 k)

-- One round of the loop, by what it finds.
cut_loop_stop : (txline : Bytes) (ready : List Bytes) → cut_loop 0 txline ready ≡ (ready, txline)
unfolding cut_loop
cut_loop_stop txline ready = refl

cut_loop_done :
    (fuel : ℕ) (txline : Bytes) (ready : List Bytes)
    → first_flush_point txline ≡ none
    → cut_loop (suc fuel) txline ready ≡ (ready, txline)
unfolding cut_loop
cut_loop_done fuel txline ready e = rw (e, cut_loop) refl

cut_loop_more :
    (fuel : ℕ) (txline : Bytes) (ready : List Bytes) (cut : ℕ)
    → first_flush_point txline ≡ some cut
    → cut_loop (suc fuel) txline ready
      ≡ cut_loop fuel (drop (suc cut) txline) (ready ++ take (suc cut) txline ∷ [])
unfolding cut_loop
cut_loop_more fuel txline ready cut e = rw (e, cut_loop) refl

abbrev joined : List Bytes × Bytes → Bytes
joined (ready, held) = concat ready ++ held

-- The loop neither loses nor moves a byte.
cut_loop-joined :
    (fuel : ℕ) (txline : Bytes) (ready : List Bytes)
    → joined (cut_loop fuel txline ready) ≡ concat ready ++ txline
cut_loop-joined zero txline ready = ap joined (cut_loop_stop txline ready)
cut_loop-joined (suc fuel) txline ready = elim (Option-cases (first_flush_point txline)) [
  | inl e ↦ ap joined (cut_loop_done fuel txline ready e)
  | inr (cut, e) ↦
      ap joined (cut_loop_more fuel txline ready cut e)
      ∙ rw
          (
            cut_loop-joined fuel (drop (suc cut) txline) (ready ++ take (suc cut) txline ∷ []),
            concat-snoc ready (take (suc cut) txline),
            append_assoc (concat ready) (take (suc cut) txline) (drop (suc cut) txline),
            take-drop (suc cut) txline,
          )
          refl
]

-- A cut is the first byte that ends a chunk, and splits off a whole chunk.
cut_whole :
    (txline : Bytes) (cut : ℕ)
    → first ends_chunk txline ≡ some cut
    → (is_whole (take (suc cut) txline) ≡ true) × (0 < length txline)
cut_whole [] cut h = absurd (ground arith)
cut_whole (b ∷ bs) cut h = (first-IsWhole ends_chunk b bs cut h, omega arith)

abbrev AllWhole : List Bytes × Bytes → Type 0
AllWhole (ready, held) = All (λ c. is_whole c ≡ true) ready × (any ends_chunk held ≡ false)

-- With fuel for the whole line, every chunk is whole and the rest has nothing that ends one.
cut_loop-AllWhole :
    (fuel : ℕ) (txline : Bytes) (ready : List Bytes)
    → length txline < fuel
    → All (λ c. is_whole c ≡ true) ready
    → AllWhole (cut_loop fuel txline ready)
cut_loop-AllWhole zero txline ready k h = absurd (omega arith)
cut_loop-AllWhole (suc fuel) txline ready k h = elim (Option-cases (first_flush_point txline)) [
  | inl e ↦
      subst AllWhole (sym (cut_loop_done fuel txline ready e))
        (h, first-none ends_chunk txline (sym (first_flush_point_lem txline) ∙ e))
  | inr (cut, e) ↦
      let (whole, some_bytes) = cut_whole txline cut (sym (first_flush_point_lem txline) ∙ e) in
      subst AllWhole (sym (cut_loop_more fuel txline ready cut e)) (
        cut_loop-AllWhole fuel (drop (suc cut) txline) (ready ++ take (suc cut) txline ∷ [])
          (omega (arith, length-drop (suc cut) txline))
          (All-snoc (λ c. is_whole c ≡ true) ready (take (suc cut) txline) h whole))
]

-- A chunk that may go out, and what a cut leaves.
abbrev pub MayGo : ℕ → Bytes → Type 0
MayGo line_max c = (is_whole c ≡ true) ⊎ (line_max ≤ length c)

abbrev pub IsCut : ℕ → Bytes → List Bytes × Bytes → Type 0
IsCut line_max typed (ready, held) =
    (concat ready ++ held ≡ typed)
    × All (MayGo line_max) ready
    × (any ends_chunk held ≡ false)
    × (length held < line_max)

weaken :
    (line_max : ℕ) (cs : List Bytes) → All (λ c. is_whole c ≡ true) cs → All (MayGo line_max) cs
weaken line_max [] h = tt
weaken line_max (c ∷ cs) h = (inl h.0, weaken line_max cs h.1)

flush_runaway-IsCut :
    (line_max : ℕ) (typed : Bytes) (r : List Bytes × Bytes)
    → 0 < line_max
    → joined r ≡ typed
    → AllWhole r
    → IsCut line_max typed (flush_runaway line_max r)
flush_runaway-IsCut line_max typed (ready, held) h j w = by_test (leb line_max (length held)) refl
  where
    by_test :
        (t : Bool)
        → (t ≡ leb line_max (length held))
        → IsCut line_max typed (if t then (ready ++ held ∷ [], []) else (ready, held))
    by_test true e = (
      (append-nil (concat (ready ++ held ∷ [])) ∙ concat-snoc ready held) ∙ j,
      All-snoc (MayGo line_max) ready held (weaken line_max ready w.0)
          (inr (leb→le line_max (length held) (sym e))),
      refl,
      h,
    )
    by_test false e = (j, weaken line_max ready w.0, w.1, ground arith)

-- Cutting what a mirror has been typed so far, held bytes first, loses, adds and moves no byte: the
-- chunks and then what is still held are those bytes. Each chunk either ends with the only line
-- terminator or signal byte in it, or is a runaway line of at least `line_max` bytes; and what stays
-- held has no such byte and is shorter than `line_max`, if that is not 0.
pub merge_line-IsCut :
    (line_max : ℕ) (typed : Bytes) → 0 < line_max → IsCut line_max typed (merge_line line_max typed)
unfolding merge_line
merge_line-IsCut line_max typed h =
    flush_runaway-IsCut line_max typed (cut_loop (suc (length typed)) typed []) h
      (cut_loop-joined (suc (length typed)) typed [])
      (cut_loop-AllWhole (suc (length typed)) typed [] (omega arith) tt)
