-- ===== src/Telnet/WindowSize.antt =====
-- The window size that is sent is the one that is read at the other end, 255s and all.
use py_uart_proxy.Prelude.{
  ℕ, ◌+◌, ◌*◌, ◌/◌, ◌%◌, ◌<◌, ◌≡◌, refl, sym, ap, ◌∙◌, inl, inr, Option, none, some, [], ◌∷◌, ◌++◌,
  Bytes, arith, ◌==◌, Bool-cases, ==_iff, if◌then◌else◌, append_assoc, subst,
}
use py_uart_proxy.Telnet.{
  Telnet, plain, in_sb, iac, naws_option, naws, size_byte, size_bytes, sb_begin, sb_end, receive,
  byte_in, subnegotiation,
}
use py_uart_proxy.Telnet.RoundTrip.{receive-plain}

-- What the body of the subnegotiation means to the far side (RFC 1073): width and height, high byte
-- first.
abbrev pub read_size : Bytes → Option (ℕ × ℕ)
read_size (o ∷ a ∷ b ∷ c ∷ d ∷ []) =
    if o == naws_option then some (a * 256 + b, c * 256 + d) else none
read_size _ = none

abbrev in_body : Telnet → Bytes → Telnet
in_body s body = record s { sub = body; mode = in_sb }

receive-size_byte :
    (v : ℕ) (body rest : Bytes) (s : Telnet)
    → receive (size_byte v ++ rest) (in_body s body) ≡ receive rest (in_body s (body ++ v ∷ []))
unfolding receive byte_in
receive-size_byte v body rest s = elim (Bool-cases (v == iac)) [
  | inl e ↦
      subst
        (λ t.
          receive (size_byte t ++ rest) (in_body s body)
          ≡ receive rest (in_body s (body ++ t ∷ [])))
        (sym ((==_iff v iac).0 e)) refl
  | inr e ↦ rw (e, size_byte) (rw e)
]

receive-size_bytes :
    (v : ℕ) (body rest : Bytes) (s : Telnet)
    → receive (size_bytes v ++ rest) (in_body s body)
      ≡ receive rest (in_body s (body ++ v / 256 % 256 ∷ v % 256 ∷ []))
receive-size_bytes v body rest s =
    let hi = v / 256 % 256 in
    let lo = v % 256 in
    ap (λ t. receive t (in_body s body)) (append_assoc (size_byte hi) (size_byte lo) rest)
    ∙ receive-size_byte hi body (size_byte lo ++ rest) s
    ∙ receive-size_byte lo (body ++ hi ∷ []) rest s
    ∙ ap (λ t. receive rest (in_body s t)) (append_assoc body (hi ∷ []) (lo ∷ []))

abbrev body_of : ℕ → ℕ → Bytes
body_of cols rows = naws_option ∷ cols / 256 % 256 ∷ cols % 256 ∷ rows / 256 % 256 ∷ rows % 256 ∷ []

end_body :
    (cols rows : ℕ) (s : Telnet)
    → receive (iac ∷ sb_end ∷ []) (in_body s (body_of cols rows))
      ≡ record { out = []; replies = []; next = record s { sub = body_of cols rows; mode = plain } }
unfolding receive byte_in subnegotiation
end_body cols rows s = refl

receive_body :
    (cols rows : ℕ) (s : Telnet)
    → receive
        (size_bytes cols ++ (size_bytes rows ++ iac ∷ sb_end ∷ []))
        (in_body s (naws_option ∷ []))
      ≡ record { out = []; replies = []; next = record s { sub = body_of cols rows; mode = plain } }
receive_body cols rows s =
    receive-size_bytes cols (naws_option ∷ []) _ s
    ∙ receive-size_bytes rows _ _ s
    ∙ end_body cols rows s

naws_run :
    (a b : Telnet)
    → b.mode ≡ plain
    → receive (naws a) b ≡ record {
      out = [];
      replies = [];
      next = record b { sub = body_of a.cols a.rows; mode = plain };
    }
unfolding naws receive byte_in
naws_run a b m =
    receive-plain b m iac
      (sb_begin ∷ naws_option ∷ (size_bytes a.cols ++ (size_bytes a.rows ++ iac ∷ sb_end ∷ [])))
    ∙ receive_body a.cols a.rows b

read_body :
    (cols rows : ℕ)
    → cols < 65536
    → rows < 65536
    → read_size (body_of cols rows) ≡ some (cols, rows)
read_body cols rows c r = λ i. some (word cols c i, word rows r i)
  where
    word : (v : ℕ) → v < 65536 → v / 256 % 256 * 256 + v % 256 ≡ v
    word v h = omega arith

-- A window size below 65536 each way, sent by `naws` to a side that expects data, is read there as
-- the same size; that side gets no data, answers nothing and expects data again.
pub receive-naws :
    (a b : Telnet)
    → b.mode ≡ plain
    → a.cols < 65536
    → a.rows < 65536
    → let p = receive (naws a) b in
      (p.out ≡ [])
      × (p.replies ≡ [])
      × (p.next.mode ≡ plain)
      × (read_size p.next.sub ≡ some (a.cols, a.rows))
receive-naws a b m c r = rw (naws_run a b m) (refl, refl, refl, read_body a.cols a.rows c r)
