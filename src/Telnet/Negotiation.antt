-- ===== src/Telnet/Negotiation.antt =====
-- Only the options of the two tables are ever enabled, and a negotiation comes to rest.
use py_uart_proxy.Prelude.{
  ℕ, ◌≡◌, refl, sym, ◌∙◌, inl, inr, true, false, Option, none, some, List, [], ◌∷◌, Bytes, arith,
  ◌==◌, Bool-cases, All, subst, ==_iff,
}
use mathlib.Core.Bool.{false≢true}
use py_uart_proxy.Telnet.{
  Telnet, Mode, plain, option, has, add, discard, they_may, we_will, will, wont, do_it, dont,
  negotiate, receive, receive_byte, byte_in, command,
}

abbrev pub Allowed : List ℕ → List ℕ → Type 0
Allowed table = All (λ o. has o table ≡ true)

has-add : (o : ℕ) (s : List ℕ) → has o (add o s) ≡ true
has-add o s = ground arith

has-discard : (o : ℕ) (s : List ℕ) → has o (discard o s) ≡ false
has-discard o [] = refl
has-discard o (x ∷ s) = ground (arith, has-discard o s)

add-Allowed :
    (table : List ℕ) (o : ℕ) (s : List ℕ)
    → has o table ≡ true
    → Allowed table s
    → Allowed table (add o s)
add-Allowed table o s h a = elim (Bool-cases (has o s)) [ inl e ↦ rw e a | inr e ↦ rw e (h, a) ]

discard-Allowed :
    (table : List ℕ) (o : ℕ) (s : List ℕ) → Allowed table s → Allowed table (discard o s)
discard-Allowed table o [] a = tt
discard-Allowed table o (x ∷ s) a = ground (arith, discard-Allowed table o s a.1)

pub record IsAgreed (s : Telnet) : Type 0 where
  pub ours : Allowed we_will s.us
  pub theirs : Allowed they_may s.them

abbrev Agreed : List ℕ → List ℕ → Type 0
Agreed us them = Allowed we_will us × Allowed they_may them

negotiate-Agreed :
    (v o : ℕ) (s : Telnet)
    → Agreed s.us s.them
    → Agreed (negotiate v o s).1.us (negotiate v o s).1.them
unfolding negotiate
negotiate-Agreed v o s a = ground (
  arith,
  add-Allowed they_may o s.them,
  discard-Allowed they_may o s.them,
  add-Allowed we_will o s.us,
  discard-Allowed we_will o s.us,
)

-- What a side that gets the verb answers about the same option; nothing is answered to nothing.
abbrev pub verb_of : Bytes → Option ℕ
verb_of (a ∷ v ∷ rest) = some v
verb_of _ = none

abbrev pub respond : ℕ → Option ℕ → Telnet → Option ℕ × Telnet
respond o none s = (none, s)
respond o (some v) s = let (reply, s') = negotiate v o s in (verb_of reply, s')

-- Two sides that both run this code, one of which gets a verb about an option, are silent about that
-- option after at most three answers, whatever they had enabled before.
pub negotiation_settles :
    (o v : ℕ) (a b : Telnet)
    → let (m, a1) = respond o (some v) a in
      let (n, b1) = respond o m b in let (p, a2) = respond o n a1 in (respond o p b1).0 ≡ none
unfolding negotiate
negotiation_settles o v a b = ground (
  arith,
  has-add o a.us,
  has-add o a.them,
  has-add o b.us,
  has-add o b.them,
  has-discard o a.us,
  has-discard o a.them,
  has-discard o b.us,
  has-discard o b.them,
)

byte_in-Agreed :
    (m : Mode) (c : ℕ) (s : Telnet)
    → Agreed s.us s.them
    → Agreed (byte_in m c s).next.us (byte_in m c s).next.them
unfolding byte_in
byte_in-Agreed plain c s a = ground arith
byte_in-Agreed option c s a = negotiate-Agreed s.verb c s a
byte_in-Agreed _ c s a = ground arith

receive-Agreed :
    (bs : Bytes) (s : Telnet)
    → Agreed s.us s.them
    → Agreed (receive bs s).next.us (receive bs s).next.them
unfolding receive
receive-Agreed [] s a = a
receive-Agreed (c ∷ bs) s a =
    receive-Agreed bs (receive_byte c s).next (byte_in-Agreed s.mode c s a)

-- Whatever a server sends, only options of the two tables are ever enabled, on either side.
pub receive-IsAgreed : (bs : Bytes) (s : Telnet) → IsAgreed s → IsAgreed (receive bs s).next
receive-IsAgreed bs s h =
    let (ours, theirs) = receive-Agreed bs s (h.ours, h.theirs) in
    record { ours = ours; theirs = theirs }

not_has :
    (table : List ℕ) (o : ℕ) (s : List ℕ) → Allowed table s → has o table ≡ false → has o s ≡ false
not_has table o [] a h = refl
not_has table o (x ∷ s) a h = elim (Bool-cases (x == o)) [
  | inl e ↦ absurd (false≢true (sym h ∙ subst (λ t. has t table ≡ true) ((==_iff x o).0 e) a.0))
  | inr e ↦ rw e (not_has table o s a.1 h)
]

-- A side that has only allowed options enabled refuses every request to enable another, changing
-- nothing: DONT to a WILL outside the one table, WONT to a DO outside the other.
pub negotiate_refuses :
    (o : ℕ) (s : Telnet)
    → IsAgreed s
    → (has o they_may ≡ false → negotiate will o s ≡ (command dont o, s))
      × (has o we_will ≡ false → negotiate do_it o s ≡ (command wont o, s))
unfolding negotiate
negotiate_refuses o s h = (
  λ k. rw (not_has they_may o s.them h.theirs k) (ground arith),
  λ k. rw (not_has we_will o s.us h.ours k) (ground arith),
)
