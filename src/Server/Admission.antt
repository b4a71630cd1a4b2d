-- ===== src/Server/Admission.antt =====
-- Who is let in.
use py_uart_proxy.Prelude.{
  ℕ, zero, suc, ◌≡◌, ◌⊎◌, arith, Bool, true, false, ◌&&◌, Option, is_some, List, [], ◌∷◌, String,
  Bytes, str_eq, if◌then◌else◌, any,
}
use py_uart_proxy.Prelude.Dict
use py_uart_proxy.Prelude.Dict.{Dict}
use py_uart_proxy.Prelude.Result.{Result, ok}
use py_uart_proxy.Json.{Fields, get_json, is_text}
use py_uart_proxy.Event.{Event}
use py_uart_proxy.Session.{Session}
use py_uart_proxy.AuthLimiter.{AuthLimiter}
use py_uart_proxy.Server.{Calls, Client, Message, ProxyServer, Role, decode_message, enqueue}
use py_uart_proxy.Server.Handshake.{code_of}

-- No seconds left of a refusal.
abbrev pub is_free : ℕ → Bool
is_free zero = true
is_free (suc n) = false

abbrev is_live : String → Client → Bool
is_live cid c = str_eq c.cid cid && c.live

-- Whether a connection is in the set that events go to.
abbrev pub lives : String → List Client → Bool
lives cid cs = any (is_live cid) cs

-- A change that puts nobody in the set.
abbrev KeepsOut : String → (Client → Client) → Type 0
KeepsOut cid f = (c : Client) → is_live cid (f c) ≡ true → is_live cid c ≡ true

enqueue-live :
    (cid : String) (o : Option Message) (c : Client) → is_live cid (enqueue o c).1 ≡ is_live cid c
unfolding enqueue
enqueue-live cid o c = ground arith

module _ (calls : Calls) where
  -- Whether the first message on a connection brings a code of the server.
  abbrev brings_code : Dict Role → Result Fields → Bool
  brings_code auth (ok msg) =
      is_text "auth" (get_json "type" msg) && is_some (Dict.get (code_of calls msg) auth)
  brings_code auth _ = false

  abbrev pub opens : Dict Role → List Bytes → Bool
  opens auth [] = false
  opens auth (line ∷ lines) =
      let later = opens auth lines in
      if calls.blank line then later else brings_code auth (decode_message calls.loads line)

module _ (calls : Calls) (cid : String) where
  -- Nobody joins the set from one state to the next.
  abbrev NobodyJoins : ProxyServer → ProxyServer → Type 0
  NobodyJoins s s' = lives cid s'.clients ≡ true → lives cid s.clients ≡ true

  -- Let in exactly as `b` says, and with nobody else in the set than before where not.
  abbrev pub Admits : Bool → ProxyServer → Bool × ProxyServer → Type 0
  Admits b s out =
      (out.0 ≡ b)
      × ((b ≡ true) ⊎ ((lives cid out.1.clients ≡ false) ⊎ (lives cid s.clients ≡ true)))
