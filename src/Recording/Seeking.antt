-- ===== src/Recording/Seeking.antt =====
-- Positions in a recording of core/recording.py: how many bytes had arrived at each, and when more do.
use py_uart_proxy.Prelude.{
  ℕ, zero, suc, ◌+◌, ◌≤◌, ◌<◌, Bool, true, false, some, List, [], ◌∷◌, leb, if◌then◌else◌, length,
  ◌≡◌, refl, ◌∙◌, arith, ◌⊎◌, inl, inr,
}
use py_uart_proxy.Recording.{
  Recording, last_or, is_empty, bisect_right, get_or_zero, before, origin, offset_at,
  next_time_after,
}
use py_uart_proxy.Recording.Timeline.{Ascending, Rising, IsWhole}

-- The end of the last chunk stamped at most `x`, or `n`: the two lists walked together.
abbrev arrived : ℕ → ℕ → List ℕ → List ℕ → ℕ
arrived x n [] es = n
arrived x n (t ∷ ts) [] = n
arrived x n (t ∷ ts) (e ∷ es) = let rest = arrived x e ts es in if leb t x then rest else n

abbrev at : ℕ → ℕ → List ℕ → ℕ
at n zero es = n
at n (suc i) es = get_or_zero i es

at-get : (n e i : ℕ) (es : List ℕ) → at n (suc i) (e ∷ es) ≡ at e i es
at-get n e zero es = refl
at-get n e (suc i) es = refl

at-arrived :
    (x n : ℕ) (ts es : List ℕ)
    → length ts ≡ length es
    → at n (bisect_right ts x) es ≡ arrived x n ts es
unfolding bisect_right
at-arrived x n [] es h = refl
at-arrived x n (t ∷ ts) [] h = absurd (omega arith)
at-arrived x n (t ∷ ts) (e ∷ es) h =
    by_test (leb t x) (at-get n e (bisect_right ts x) es ∙ at-arrived x e ts es (omega arith))
  where
    by_test :
        (b : Bool)
        → at n (suc (bisect_right ts x)) (e ∷ es) ≡ arrived x e ts es
        → at n (if b then suc (bisect_right ts x) else 0) (e ∷ es)
          ≡ (if b then arrived x e ts es else n)
    by_test true k = k
    by_test false k = refl

arrived_least : (x n : ℕ) (ts es : List ℕ) → Rising n es → n ≤ arrived x n ts es
arrived_least x n [] es h = omega arith
arrived_least x n (t ∷ ts) [] h = omega arith
arrived_least x n (t ∷ ts) (e ∷ es) h = ground (arith, arrived_least x e ts es h.1, h.0)

last_least : (n : ℕ) (es : List ℕ) → Rising n es → n ≤ last_or n es
last_least n [] h = omega arith
last_least n (e ∷ es) h = omega (arith, h.0, last_least e es h.1)

arrived_most : (x n : ℕ) (ts es : List ℕ) → Rising n es → arrived x n ts es ≤ last_or n es
arrived_most x n [] es h = last_least n es h
arrived_most x n (t ∷ ts) [] h = omega arith
arrived_most x n (t ∷ ts) (e ∷ es) h =
    ground (arith, arrived_most x e ts es h.1, last_least e es h.1, h.0)

arrived_mono :
    (x y n : ℕ) (ts es : List ℕ) → x ≤ y → Rising n es → arrived x n ts es ≤ arrived y n ts es
arrived_mono x y n [] es k h = omega arith
arrived_mono x y n (t ∷ ts) [] k h = omega arith
arrived_mono x y n (t ∷ ts) (e ∷ es) k h =
    ground (arith, arrived_mono x y e ts es k h.1, arrived_least y e ts es h.1, h.0, k)

pub last_most : (n : ℕ) (ts : List ℕ) → Ascending n ts → n ≤ last_or n ts
last_most n [] h = omega arith
last_most n (t ∷ ts) h = omega (arith, h.0, last_most t ts h.1)

before-at : (i : ℕ) (es : List ℕ) → before i es ≡ at 0 i es
before-at zero es = refl
before-at (suc i) es = refl

abbrev IsRecording : Recording → Type 0
IsRecording r = IsWhole (length r.bytes) r.times r.elapsed r.ends

-- What `offset_at` computes of the lists.
abbrev offset : ℕ → ℕ → List ℕ → List ℕ → ℕ
offset len x times ends = if is_empty times then len else before (bisect_right times x) ends

offset-arrived :
    (len x : ℕ) (times ends : List ℕ)
    → length times ≡ length ends
    → offset len x times ends ≡ (if is_empty times then len else arrived x 0 times ends)
offset-arrived len x [] ends h = refl
offset-arrived len x (t ∷ ts) ends h =
    before-at (bisect_right (t ∷ ts) x) ends ∙ at-arrived x 0 (t ∷ ts) ends h

abbrev Grows : ℕ → ℕ → ℕ → List ℕ → List ℕ → Type 0
Grows len x y times ends =
    (offset len x times ends ≤ offset len y times ends) × (offset len y times ends ≤ len)

offset-Grows :
    (len x y : ℕ) (times elapsed ends : List ℕ)
    → x ≤ y
    → IsWhole len times elapsed ends
    → Grows len x y times ends
offset-Grows len x y [] elapsed ends k h = (omega arith, omega arith)
offset-Grows len x y (t ∷ ts) elapsed ends k (a, b, c, d, inl e) = absurd (ground (arith, e))
offset-Grows len x y (t ∷ ts) elapsed ends k (a, b, c, d, inr e) = (
  omega (
    arith,
    offset-arrived len x (t ∷ ts) ends a,
    offset-arrived len y (t ∷ ts) ends a,
    arrived_mono x y 0 (t ∷ ts) ends k d,
  ),
  omega (arith, offset-arrived len y (t ∷ ts) ends a, arrived_most y 0 (t ∷ ts) ends d, e),
)

-- Where the search stops for `x` it stops for a later `y`, or the stamp it stops at is one that `y`
-- has reached.
abbrev Stops : ℕ → ℕ → List ℕ → Type 0
Stops x y ts =
    (bisect_right ts y ≡ bisect_right ts x)
    ⊎ ((bisect_right ts x < length ts)
        × (x < get_or_zero (bisect_right ts x) ts)
        × (get_or_zero (bisect_right ts x) ts ≤ y))

pub offset_at_mono :
    (p q : ℕ) (r : Recording)
    → IsWhole (length r.bytes) r.times r.elapsed r.ends
    → p ≤ q
    → offset_at p r ≤ offset_at q r
unfolding offset_at
offset_at_mono p q r whole h =
    let grows : Grows (length r.bytes) (origin r + p) (origin r + q) r.times r.ends =
      offset-Grows (length r.bytes) (origin r + p) (origin r + q) r.times r.elapsed r.ends
        (omega (arith, h)) whole in
    grows.0

abbrev pub Waits : ℕ → ℕ → Recording → Type 0
Waits p q rec =
    (offset_at q rec ≡ offset_at p rec)
    ⊎ ((next : ℕ) × (next_time_after p rec ≡ some next) × (p < next) × (next ≤ q))
