-- ===== src/Pty/Wire.antt =====
-- `--tx-merge line` of core/pty_proxy.py with several clients: what reaches the wire of what each typed.
use py_uart_proxy.Prelude.{
  ℕ, zero, suc, ◌<◌, Bool, true, false, List, [], ◌∷◌, ◌++◌, Bytes, ◌==◌, if◌then◌else◌, length,
  map, All, ◌≡◌, refl, sym, ap, Bool-cases, inl, inr, subst, arith, append-nil, append_assoc,
}
use py_uart_proxy.Pty.{to_forward, merge_line}
use py_uart_proxy.Pty.Merge.{concat, MayGo, IsCut, merge_line-IsCut}

-- A specification with no mirrors, sessions or notices in it: one held line for each client.
abbrev pub after_held : Bytes → List Bytes × List Bytes → List Bytes × List Bytes
after_held t (ready, ts) = (ready, t ∷ ts)

abbrev pub and_held : List Bytes → List Bytes × Bytes → List Bytes × List Bytes
and_held ts (ready, t) = (ready, t ∷ ts)

unfoldable pub cut_at : ℕ → ℕ → Bytes → List Bytes → List Bytes × List Bytes
cut_at line_max i data' [] = ([], [])
cut_at line_max zero data' (t ∷ ts) = and_held ts (to_forward "line" line_max data' t)
cut_at line_max (suc i) data' (t ∷ ts) = after_held t (cut_at line_max i data' ts)

-- The chunks with the client that each is from, and the lines held at the end.
abbrev pub tagged : ℕ → List Bytes → List (ℕ × Bytes)
tagged i ready = map (λ c. (i, c)) ready

abbrev pub then_sent :
    List (ℕ × Bytes) → List (ℕ × Bytes) × List Bytes → List (ℕ × Bytes) × List Bytes
then_sent log (more, ts) = (log ++ more, ts)

unfoldable pub sends : ℕ → List (ℕ × Bytes) → List Bytes → List (ℕ × Bytes) × List Bytes
sends line_max [] ts = ([], ts)
sends line_max (r ∷ rs) ts =
    let (ready, ts') = cut_at line_max r.0 r.1 ts in
    then_sent (tagged r.0 ready) (sends line_max rs ts')

-- What is client `i`'s of a log, or of what was typed.
abbrev pub of : ℕ → List (ℕ × Bytes) → Bytes
of i [] = []
of i (c ∷ cs) = let rest = of i cs in if c.0 == i then c.1 ++ rest else rest

abbrev pub held_at : ℕ → List Bytes → Bytes
held_at i [] = []
held_at zero (t ∷ ts) = t
held_at (suc i) (t ∷ ts) = held_at i ts

of-append : (i : ℕ) (xs ys : List (ℕ × Bytes)) → of i (xs ++ ys) ≡ of i xs ++ of i ys
of-append i [] ys = refl
of-append i (x ∷ xs) ys = by_test (x.0 == i) (of-append i xs ys)
  where
    by_test :
        (t : Bool)
        → of i (xs ++ ys) ≡ of i xs ++ of i ys
        → (if t then x.1 ++ of i (xs ++ ys) else of i (xs ++ ys))
          ≡ (if t then x.1 ++ of i xs else of i xs) ++ of i ys
    by_test true e = rw (e, append_assoc x.1 (of i xs) (of i ys))
    by_test false e = e

of-tagged : (i : ℕ) (cs : List Bytes) → of i (tagged i cs) ≡ concat cs
of-tagged i [] = refl
of-tagged i (c ∷ cs) = rw (i_is_i i, of-tagged i cs)
  where
    i_is_i : (n : ℕ) → (n == n) ≡ true
    i_is_i n = ground arith

of-tagged_other : (i j : ℕ) (cs : List Bytes) → (i == j) ≡ false → of j (tagged i cs) ≡ []
of-tagged_other i j [] e = refl
of-tagged_other i j (c ∷ cs) e = rw e (of-tagged_other i j cs e)

abbrev mine : ℕ → ℕ × Bytes → Bytes
mine i r = if r.0 == i then r.1 else []

of-cons : (i : ℕ) (r : ℕ × Bytes) (rs : List (ℕ × Bytes)) → of i (r ∷ rs) ≡ mine i r ++ of i rs
of-cons i r rs = by_test (r.0 == i)
  where
    by_test :
        (t : Bool) → (if t then r.1 ++ of i rs else of i rs) ≡ (if t then r.1 else []) ++ of i rs
    by_test true = refl
    by_test false = refl

-- The reads are each for one of `n` clients.
abbrev pub AllBelow : ℕ → List (ℕ × Bytes) → Type 0
AllBelow n rs = All (λ r. r.0 < n) rs

abbrev pub AllGo : ℕ → List (ℕ × Bytes) → Type 0
AllGo line_max log = All (λ c. MayGo line_max c.1) log

module _ (line_max : ℕ) (h : 0 < line_max) where
  abbrev Adds : Bytes → Bytes → List Bytes × Bytes → Type 0
  Adds data' t (ready, t') = (concat ready ++ t' ≡ t ++ data') × All (MayGo line_max) ready

  -- A read adds to the line it is for, and what goes out is made of chunks that may.
  to_forward-Adds : (data' t : Bytes) → Adds data' t (to_forward "line" line_max data' t)
  unfolding to_forward
  to_forward-Adds [] t = (sym (append-nil t), tt)
  to_forward-Adds (b ∷ bs) t =
      let (same, go, free, short) : IsCut line_max (t ++ b ∷ bs)
          (merge_line line_max (t ++ b ∷ bs)) =
        merge_line-IsCut line_max (t ++ b ∷ bs) h in
      (same, go)

  abbrev AddsAt : ℕ → Bytes → List Bytes → List Bytes × List Bytes → Type 0
  AddsAt i data' ts (ready, ts') =
      (concat ready ++ held_at i ts' ≡ held_at i ts ++ data')
      × All (MayGo line_max) ready
      × (length ts' ≡ length ts)

  cut_at-AddsAt :
      (i : ℕ) (data' : Bytes) (ts : List Bytes)
      → i < length ts
      → AddsAt i data' ts (cut_at line_max i data' ts)
  unfolding cut_at
  cut_at-AddsAt i data' [] k = absurd (omega arith)
  cut_at-AddsAt zero data' (t ∷ ts) k =
      let (same, go) : Adds data' t (to_forward "line" line_max data' t) =
        to_forward-Adds data' t in
      (same, go, refl)
  cut_at-AddsAt (suc i) data' (t ∷ ts) k =
      let (same, go, size) : AddsAt i data' ts (cut_at line_max i data' ts) =
        cut_at-AddsAt i data' ts (omega arith) in
      (same, go, ap suc size)

  cut_at-other :
      (i j : ℕ) (data' : Bytes) (ts : List Bytes)
      → (i == j) ≡ false
      → held_at j (cut_at line_max i data' ts).1 ≡ held_at j ts
  unfolding cut_at
  cut_at-other i j data' [] e = refl
  cut_at-other zero zero data' (t ∷ ts) e = absurd (ground arith)
  cut_at-other zero (suc j) data' (t ∷ ts) e = refl
  cut_at-other (suc i) zero data' (t ∷ ts) e = refl
  cut_at-other (suc i) (suc j) data' (t ∷ ts) e = cut_at-other i j data' ts (ground arith)

  -- What a read of one client does to what is another's, or its own.
  round :
      (i : ℕ) (r : ℕ × Bytes) (ts : List Bytes)
      → r.0 < length ts
      → let (ready, ts') = cut_at line_max r.0 r.1 ts in
        of i (tagged r.0 ready) ++ held_at i ts' ≡ held_at i ts ++ mine i r
  round i r ts k = elim (Bool-cases (r.0 == i)) [
    | inl e ↦
        let same_client : r.0 ≡ i = ground (arith, e) in
        let (adds, go, size) : AddsAt r.0 r.1 ts (cut_at line_max r.0 r.1 ts) =
          cut_at-AddsAt r.0 r.1 ts k in
        rw e (
          subst
            (λ j.
              of j (tagged r.0 (cut_at line_max r.0 r.1 ts).0)
                ++ held_at j (cut_at line_max r.0 r.1 ts).1
              ≡ held_at j ts ++ r.1)
            same_client (rw (of-tagged r.0 (cut_at line_max r.0 r.1 ts).0) adds))
    | inr e ↦
        rw (e, of-tagged_other r.0 i (cut_at line_max r.0 r.1 ts).0 e, cut_at-other r.0 i r.1 ts e)
          (sym (append-nil (held_at i ts)))
  ]

  abbrev pub SendsAll : ℕ → List (ℕ × Bytes) → List Bytes → List (ℕ × Bytes) × List Bytes → Type 0
  SendsAll i rs ts (log, ts') = of i log ++ held_at i ts' ≡ held_at i ts ++ of i rs

  pub sends-SendsAll :
      (i : ℕ) (rs : List (ℕ × Bytes)) (ts : List Bytes)
      → AllBelow (length ts) rs
      → SendsAll i rs ts (sends line_max rs ts)
  unfolding sends
  sends-SendsAll i [] ts k = sym (append-nil (held_at i ts))
  sends-SendsAll i (r ∷ rs) ts k =
      let (adds, go, size) : AddsAt r.0 r.1 ts (cut_at line_max r.0 r.1 ts) =
        cut_at-AddsAt r.0 r.1 ts k.0 in
      let ready = (cut_at line_max r.0 r.1 ts).0 in
      let ts' = (cut_at line_max r.0 r.1 ts).1 in
      let later = sends line_max rs ts' in
      let ih : SendsAll i rs ts' later =
        sends-SendsAll i rs ts' (subst (λ n. AllBelow n rs) (sym size) k.1) in
      rw
        (
          of-append i (tagged r.0 ready) later.0,
          append_assoc (of i (tagged r.0 ready)) (of i later.0) (held_at i later.1),
          ih,
          ← append_assoc (of i (tagged r.0 ready)) (held_at i ts') (of i rs),
          round i r ts k.0,
          append_assoc (held_at i ts) (mine i r) (of i rs),
        )
        (ap (λ t. held_at i ts ++ t) (sym (of-cons i r rs)))

  tagged-AllGo :
      (i : ℕ) (ready : List Bytes) (log : List (ℕ × Bytes))
      → All (MayGo line_max) ready
      → AllGo line_max log
      → AllGo line_max (tagged i ready ++ log)
  tagged-AllGo i [] log g k = k
  tagged-AllGo i (c ∷ cs) log g k = (g.0, tagged-AllGo i cs log g.1 k)

  pub sends-AllGo :
      (rs : List (ℕ × Bytes)) (ts : List Bytes)
      → AllBelow (length ts) rs
      → AllGo line_max (sends line_max rs ts).0
  unfolding sends
  sends-AllGo [] ts k = tt
  sends-AllGo (r ∷ rs) ts k =
      let (adds, go, size) : AddsAt r.0 r.1 ts (cut_at line_max r.0 r.1 ts) =
        cut_at-AddsAt r.0 r.1 ts k.0 in
      tagged-AllGo r.0 (cut_at line_max r.0 r.1 ts).0
        (sends line_max rs (cut_at line_max r.0 r.1 ts).1).0 go
        (sends-AllGo rs (cut_at line_max r.0 r.1 ts).1 (subst (λ n. AllBelow n rs) (sym size) k.1))
