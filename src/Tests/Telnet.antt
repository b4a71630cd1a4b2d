-- ===== src/Tests/Telnet.antt =====
-- The telnet framing at concrete inputs.
use py_uart_proxy.Prelude.{arith, ◌≡◌, refl, none, some, [], ◌∷◌}
use py_uart_proxy.Telnet.{
  Telnet, new, naws, plain, byte_in, sga, echo, iac, will, do_it, command, negotiate, receive,
  encode,
}
use py_uart_proxy.Telnet.WindowSize.{read_size, receive-naws}
use py_uart_proxy.Telnet.Negotiation.{IsAgreed, respond, negotiation_settles, receive-IsAgreed}
use py_uart_proxy.Telnet.RoundTrip.{Receives, receive-encode}

abbrev fresh : Telnet
fresh = new 80 24

receive-command : (receive (65 ∷ iac ∷ will ∷ echo ∷ 66 ∷ []) fresh).replies ≡ command do_it echo
unfolding receive negotiate byte_in
receive-command = refl

negotiation_settles_example :
    let (m, a1) = respond sga (some will) fresh in
    let (n, b1) = respond sga m fresh in
    let (p, a2) = respond sga n a1 in (respond sga p b1).0 ≡ none
negotiation_settles_example = negotiation_settles sga will fresh fresh

fresh-IsAgreed : IsAgreed fresh
fresh-IsAgreed = record { ours = tt; theirs = tt }

receive-IsAgreed_example : IsAgreed (receive (iac ∷ will ∷ 99 ∷ []) fresh).next
receive-IsAgreed_example = receive-IsAgreed (iac ∷ will ∷ 99 ∷ []) fresh fresh-IsAgreed

receive-encode_example : Receives (encode (0x0D ∷ iac ∷ 0 ∷ []) fresh) fresh (0x0D ∷ iac ∷ 0 ∷ [])
receive-encode_example = receive-encode fresh fresh (0x0D ∷ iac ∷ 0 ∷ []) refl refl refl

abbrev wide : Telnet
wide = new 255 50

receive-naws_example :
    let p = receive (naws wide) fresh in
    (p.out ≡ [])
    × (p.replies ≡ [])
    × (p.next.mode ≡ plain)
    × (read_size p.next.sub ≡ some (255, 50))
receive-naws_example = receive-naws wide fresh refl (omega arith) (omega arith)
