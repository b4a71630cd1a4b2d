-- ===== src/Client/Kept.antt =====
-- The lines kept against all the lines there ever were.
use py_uart_proxy.Prelude.{
  ℕ, zero, suc, ◌+◌, ◌-◌, ◌≤◌, ◌<◌, max, ◌≡◌, ◌≢◌, refl, sym, ap, ◌∙◌, subst, inl, inr, arith,
  String, Bool, false, Option, none, some, List, [], ◌∷◌, ◌++◌, keep, keep_yes, keep_no,
  last_n-drop, length, drop, last_n, length-drop, length-append, length-last_n, last_n-append,
  drop-drop, ltb, ltb→lt, drop-nil, if◌then◌else◌, Bool-cases,
}
use py_uart_proxy.Json.{Fields}
use py_uart_proxy.Client.{Line, SessionClient, Tools, line_of, add}
use py_uart_proxy.Client.Reading.{after, first_n, limited, dropped_before, read}

-- The numbers k + 1, k + 2, and so on.
abbrev pub AreNumbered : ℕ → List Line → Type 0
AreNumbered k [] = Unit
AreNumbered k (l ∷ ls) = (l.n ≡ suc k) × AreNumbered (suc k) ls

-- `history` is every line that was added; the client holds the newest of them.
pub record IsKept (history : List Line) (c : SessionClient) : Type 0 where
  pub holds : c.lines ≡ last_n c.max_lines history
  pub counts : c.last_n ≡ length history
  pub numbered : AreNumbered 0 history
  pub has_room : 1 ≤ c.max_lines

AreNumbered-append :
    (k : ℕ) (ls : List Line) (l : Line)
    → AreNumbered k ls
    → l.n ≡ suc (k + length ls)
    → AreNumbered k (ls ++ l ∷ [])
AreNumbered-append k [] l h e = (omega (arith, e), tt)
AreNumbered-append k (x ∷ ls) l (n, h) e = (n, AreNumbered-append (suc k) ls l h (omega (arith, e)))

pub AreNumbered-drop :
    (m k : ℕ) (ls : List Line) → AreNumbered k ls → AreNumbered (m + k) (drop m ls)
AreNumbered-drop zero k ls h = subst (λ j. AreNumbered j ls) (omega arith) h
AreNumbered-drop (suc m) k [] h = tt
AreNumbered-drop (suc m) k (l ∷ ls) (n, h) =
    subst (λ j. AreNumbered j (drop m ls)) (omega arith) (AreNumbered-drop m (suc k) ls h)

keep-drop :
    (k cursor : ℕ) (ls : List Line)
    → AreNumbered k ls
    → keep (after cursor) ls ≡ drop (cursor - k) ls
keep-drop k cursor [] h = sym (drop-nil (cursor - k))
keep-drop k cursor (l ∷ ls) (n, h) = elim (Bool-cases (ltb cursor l.n)) [
  | inl e ↦
      let here : cursor - k ≡ 0 = omega (arith, n, ltb→lt cursor l.n e) in
      let later : cursor - suc k ≡ 0 = omega (arith, here) in
      keep_yes (after cursor) l ls e
      ∙ ap (λ x. l ∷ x) (keep-drop (suc k) cursor ls h ∙ ap (λ j. drop j ls) later)
      ∙ ap (λ j. drop j (l ∷ ls)) (sym here)
  | inr e ↦
      let past : cursor - k ≡ suc (cursor - suc k) = ground (arith, n, e) in
      keep_no (after cursor) l ls e
      ∙ keep-drop (suc k) cursor ls h
      ∙ ap (λ j. drop j (l ∷ ls)) (sym past)
]

first_n-drop :
    (k m : ℕ) (ls : List Line)
    → AreNumbered k ls
    → m < length ls
    → (last : ℕ) → first_n (drop m ls) last ≡ suc (k + m)
first_n-drop k m [] h lt last = absurd (omega arith)
first_n-drop k zero (l ∷ ls) (n, h) lt last = omega (arith, n)
first_n-drop k (suc m) (l ∷ ls) (n, h) lt last =
    omega (arith, first_n-drop (suc k) m ls h (omega (arith, lt)) last)

module _ (tools : Tools) where
  -- A client that holds the newest lines of a history holds, after one more line, the newest lines of
  -- the history with that line, which has the next number.
  pub add-IsKept :
      (now : ℕ) (chars : String) (msg : Fields) (replayed : Bool) (history : List Line)
      (c : SessionClient)
      → IsKept history c
      → IsKept
          (history ++ line_of tools chars msg (suc (length history)) replayed false ∷ [])
          (add tools now chars msg replayed c)
  unfolding add line_of
  add-IsKept now chars msg replayed history c h =
      let l = line_of tools chars msg (suc (length history)) replayed false in
      record {
        holds = rw (h.holds, h.counts) (last_n-append c.max_lines history (l ∷ []));
        counts = omega (arith, h.counts, length-append history (l ∷ []));
        numbered = AreNumbered-append 0 history l h.numbered (omega arith);
        has_room = h.has_room;
      }

-- What a reader gets: the newest lines, and how many of those after the cursor it does not.
abbrev pub Complete : List Line → ℕ → List Line × ℕ × ℕ → Type 0
Complete history cursor out =
    (out.0 ≡ last_n (length out.0) history) × (length out.0 + out.2 ≡ length history - cursor)

pub after-drop :
    (history : List Line) (c : SessionClient) (cursor : ℕ)
    → IsKept history c
    → keep (after cursor) c.lines ≡ drop (max cursor (length history - c.max_lines)) history
after-drop history c cursor h =
    let m = length history - c.max_lines in
    rw
      (
        h.holds,
        keep-drop (m + 0) cursor (drop m history) (AreNumbered-drop m 0 history h.numbered),
        drop-drop (cursor - (m + 0)) m history,
      )
      (ap (λ j. drop j history) (omega arith))

dropped_lem :
    (history : List Line) (c : SessionClient) (cursor : ℕ)
    → IsKept history c
    → dropped_before cursor c
      ≡ length history - cursor - (length history - max cursor (length history - c.max_lines))
dropped_lem history c cursor h = elim (Bool-cases (ltb cursor c.last_n)) [
  | inl e ↦
      let m = length history - c.max_lines in
      let lt = ltb→lt cursor c.last_n e in
      let first : first_n c.lines c.last_n ≡ suc (0 + m) =
        ap (λ ls. first_n ls c.last_n) h.holds
        ∙ first_n-drop 0 m history h.numbered (omega (arith, h.counts, h.has_room, lt)) c.last_n in
      rw (e) (omega (arith, first, h.counts, lt))
  | inr e ↦ rw (e) (ground (arith, e, h.counts))
]

-- The newest lines, with a count of the rest.
abbrev Whole : List Line → ℕ → List Line × ℕ → Type 0
Whole history cursor x =
    (x.0 ≡ last_n (length x.0) history) × (length x.0 + x.1 ≡ length history - cursor)

limited-Whole :
    (history : List Line) (cursor j : ℕ) (limit : Option ℕ) (dropped : ℕ)
    → limit ≢ some 0
    → length (drop j history) + dropped ≡ length history - cursor
    → Whole history cursor (limited limit (drop j history) dropped)
limited-Whole history cursor j none dropped z e = (sym (last_n-drop j history), e)
limited-Whole history cursor j (some zero) dropped z e = absurd (z refl)
limited-Whole history cursor j (some (suc n)) dropped z e =
    elim (Bool-cases (ltb (suc n) (length d))) [
      | inl t ↦
          subst (λ b. Whole history cursor (if b then cut else (d, dropped))) (sym t)
            (fewer (ltb→lt (suc n) (length d) t))
      | inr t ↦
          subst (λ b. Whole history cursor (if b then cut else (d, dropped))) (sym t)
            (sym (last_n-drop j history), e)
    ]
  where
    d : List Line
    d = drop j history

    cut : List Line × ℕ
    cut = (last_n (suc n) d, dropped + (length d - suc n))

    fewer : suc n < length d → Whole history cursor cut
    fewer lt =
        let same : last_n (suc n) d ≡ drop (j + (length d - suc n)) history =
          drop-drop (length d - suc n) j history in
        (
          same
              ∙ sym (last_n-drop (j + (length d - suc n)) history)
              ∙ ap (λ x. last_n (length x) history) (sym same),
          omega (arith, length-last_n (suc n) d, lt, e),
        )

-- Out of a client that holds the newest lines of a history, a reader with a cursor gets the newest
-- lines of the history, in order, and the count of lost lines is exactly what else came after the
-- cursor; a limit, where there is one, is not 0.
pub read-Complete :
    (history : List Line) (c : SessionClient) (cursor : ℕ) (limit : Option ℕ)
    → IsKept history c
    → limit ≢ some 0
    → Complete history cursor (read cursor limit c)
unfolding read
read-Complete history c cursor limit h positive =
    let j = max cursor (length history - c.max_lines) in
    rw (after-drop history c cursor h, dropped_lem history c cursor h)
      (limited-Whole history cursor j limit _ positive (omega (arith, length-drop j history)))
