-- ===== src/Pty/Flush.antt =====
-- `_first_flush_point` of core/pty_proxy.py finds the first byte that ends a held chunk.
use py_uart_proxy.Prelude.{
  ℕ, zero, suc, Bool, true, false, not, ◌&&◌, ◌||◌, Option, none, some, [], ◌∷◌, Bytes, ◌==◌,
  if◌then◌else◌, any, take, ◌≡◌, refl, ap, ◌∙◌, arith,
}
use py_uart_proxy.LineAssembler.{find_byte}
use py_uart_proxy.Pty.{flush_bytes, least, min_found, first_flush_point}

-- An independent description: the bytes that end a chunk, and a chunk that ends with the only such
-- byte it has.
abbrev pub ends_chunk : ℕ → Bool
ends_chunk b = any (λ c. b == c) flush_bytes

abbrev pub ends_once : (ℕ → Bool) → Bytes → Bool
ends_once p [] = false
ends_once p (b ∷ []) = p b
ends_once p (b ∷ c ∷ bs) = not (p b) && ends_once p (c ∷ bs)

abbrev pub is_whole : Bytes → Bool
is_whole chunk = ends_once ends_chunk chunk

abbrev later : Option ℕ → Option ℕ
later none = none
later (some i) = some (suc i)

-- The first byte of `bs` that `p` takes.
abbrev pub first : (ℕ → Bool) → Bytes → Option ℕ
first p [] = none
first p (b ∷ bs) = let rest = first p bs in if p b then some 0 else later rest

least-some : (i : Option ℕ) → least (some 0) i ≡ some 0
least-some none = refl
least-some (some i) = ap some (omega arith)

least-later : (i j : Option ℕ) → least (later i) (later j) ≡ later (least i j)
least-later none j = refl
least-later (some i) none = refl
least-later (some i) (some j) = ap some (omega arith)

least_or :
    (a b : Bool) (i j : Option ℕ)
    → least (if a then some 0 else later i) (if b then some 0 else later j)
      ≡ (if a || b then some 0 else later (least i j))
least_or true b i j = least-some (if b then some 0 else later j)
least_or false true none j = refl
least_or false true (some i) j = ap some (omega arith)
least_or false false i j = least-later i j

find_byte-cons :
    (c b : ℕ) (bs : Bytes)
    → find_byte c (b ∷ bs) ≡ (if b == c then some 0 else later (find_byte c bs))
unfolding find_byte
find_byte-cons c b bs = by_option (find_byte c bs)
  where
    by_option :
        (i : Option ℕ)
        → (if b == c then some 0 else elim i [ none ↦ none | some k ↦ some (suc k) ])
          ≡ (if b == c then some 0 else later i)
    by_option none = refl
    by_option (some i) = refl

min_found-nil : (cs : Bytes) → min_found cs [] ≡ none
unfolding min_found find_byte
min_found-nil [] = refl
min_found-nil (c ∷ cs) = min_found-nil cs

min_found-cons :
    (cs : Bytes) (b : ℕ) (bs : Bytes)
    → min_found cs (b ∷ bs) ≡ (if any (λ c. b == c) cs then some 0 else later (min_found cs bs))
unfolding min_found
min_found-cons [] b bs = refl
min_found-cons (c ∷ cs) b bs =
    rw (find_byte-cons c b bs, min_found-cons cs b bs)
      (least_or (b == c) (any (λ d. b == d) cs) (find_byte c bs) (min_found cs bs))

pub first_flush_point_lem : (buf : Bytes) → first_flush_point buf ≡ first ends_chunk buf
unfolding first_flush_point
first_flush_point_lem [] = min_found-nil flush_bytes
first_flush_point_lem (b ∷ bs) =
    min_found-cons flush_bytes b bs
    ∙ ap (λ i. if ends_chunk b then some 0 else later i) (first_flush_point_lem bs)

module _ (p : ℕ → Bool) where
  passed :
      (b : ℕ) (bs : Bytes) (i : ℕ)
      → first p (b ∷ bs) ≡ some (suc i)
      → (p b ≡ false) × (first p bs ≡ some i)
  passed b bs i h = ground arith

  -- What the first of them splits off is one whole chunk.
  pub first-IsWhole :
      (b : ℕ) (bs : Bytes) (i : ℕ)
      → first p (b ∷ bs) ≡ some i
      → ends_once p (take (suc i) (b ∷ bs)) ≡ true
  first-IsWhole b [] i h = ground arith
  first-IsWhole b (c ∷ bs) zero h = ground arith
  first-IsWhole b (c ∷ bs) (suc i) h =
      let (passes, found) = passed b (c ∷ bs) i h in rw passes (first-IsWhole c bs i found)

  pub first-none : (bs : Bytes) → first p bs ≡ none → any p bs ≡ false
  first-none [] h = refl
  first-none (b ∷ bs) h = ground (arith, first-none bs)
