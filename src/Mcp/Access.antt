-- ===== src/Mcp/Access.antt =====
-- What the tools of mcp.py may send to a session, by `--allow-send` and by the session's share.
use py_uart_proxy.Prelude.{
  String, Bool, true, false, not, ◌||◌, Option, none, some, List, [], ◌∷◌, Bytes, str_eq, any,
  if◌then◌else◌, All, arith, ◌≡◌, refl, sym, subst, ◌⊎◌, inl, inr,
}
use py_uart_proxy.Prelude.Result.{Result, ok, value_error, raised, Gives, demand, ◌>>=◌}
use py_uart_proxy.Json.{
  Json, ℤ, Fields, field, end, get, get_json, get_or, get_or_else, is_text, int_in, truthy, put_key,
}
use py_uart_proxy.Server.{Role}
use py_uart_proxy.Client.{SessionClient}
use py_uart_proxy.Client
use py_uart_proxy.Client.Messages.{send_text, send_hex, require_full, is_full, eols}
use py_uart_proxy.Client.Requests.{proposal_message, removal_message}
use py_uart_proxy.Mcp.{Outcome, when}
use py_uart_proxy.Mcp.Outcome.{done, tool_error, bad_params, crashed}
use py_uart_proxy.Mcp.Tools.{
  Tool, handler_of, named, or_else, reading, sending, sent_by, call, called, of_client, type_line,
  type_bytes, add_watch, propose, known_eol, hex_of_arg, wid_of, proposed, both, is_null, made_of,
  watch_of,
}

-- Messages about watches, which only report.
abbrev pub is_watch : Json → Bool
is_watch kind =
    is_text "watch_add" kind || (is_text "watch_list" kind || is_text "watch_remove" kind)

abbrev pub Typing : SessionClient → Type 0
Typing c = (c.role ≡ some Role.full) × (c.connected ≡ true)

abbrev pub IsAllowed : Bool → SessionClient → Fields → Type 0
IsAllowed allow_send c msg =
    (is_watch (get_json "type" msg) ≡ true)
    ⊎ ((allow_send ≡ true) × ((is_text "rule_propose" (get_json "type" msg) ≡ true) ⊎ Typing c))

abbrev pub AllAllowed : Bool → SessionClient → Outcome (List Fields) → Type 0
AllAllowed allow_send c (done msgs) = All (IsAllowed allow_send c) msgs
AllAllowed allow_send c (tool_error e) = Unit
AllAllowed allow_send c (bad_params e) = Unit
AllAllowed allow_send c (crashed e) = Unit

may_type : (c : SessionClient) → Gives (λ u. Typing c) (require_full c)
unfolding require_full
may_type c = by_tests c.role c.connected refl refl
  where
    by_tests :
        (role : Option Role) (connected : Bool)
        → (c.role ≡ role)
        → (c.connected ≡ connected)
        → Gives
            (λ u. Typing c)
            (if not (is_full role)
              then value_error "this session is shared read-only: it cannot be written to"
              else demand connected "not connected to the session")
    by_tests none connected e f = tt
    by_tests (some Role.full) true e f = (e, f)
    by_tests (some Role.full) false e f = tt
    by_tests (some Role.readonly) connected e f = tt

module _ (c : SessionClient) where
  after_check :
      (k : Result (Unit {0})) (msg : Fields)
      → Gives (λ u. Typing c) k
      → AllAllowed true c (of_client (k >>= λ u. ok msg))
  after_check (ok u) msg h = (inr (refl, inr h), tt)
  after_check (value_error e) msg h = tt
  after_check raised msg h = tt

  send_text-AllAllowed : (text eol : String) → AllAllowed true c (of_client (send_text text eol c))
  unfolding send_text
  send_text-AllAllowed text eol = by_test (any (str_eq eol) eols)
    where
      by_test :
          (b : Bool)
          → AllAllowed true c (
              of_client (
                demand b "eol must be one of four" >>= λ u.
                (require_full c >>= λ v. ok (
                  field "type"
                    (Json.str "tx")
                    (field "text" (Json.str text) (field "eol" (Json.str eol) end))))))
      by_test true =
          after_check (require_full c)
            (field "type" (Json.str "tx")
              (field "text" (Json.str text) (field "eol" (Json.str eol) end)))
            (may_type c)
      by_test false = tt

  send_hex-AllAllowed :
      (hex_of : Bytes → String) (bytes : Option Bytes)
      → AllAllowed true c (of_client (send_hex hex_of bytes c))
  unfolding send_hex
  send_hex-AllAllowed hex_of none = tt
  send_hex-AllAllowed hex_of (some bytes) =
      after_check (require_full c)
        (field "type" (Json.str "tx") (field "hex" (Json.str (hex_of bytes)) end)) (may_type c)

abbrev acts : Tool → Bool
acts Tool.send_line = true
acts Tool.send_bytes = true
acts Tool.propose_rule = true
acts _ = false

abbrev NoneActs : Option Tool → Type 0
NoneActs none = Unit
NoneActs (some t) = acts t ≡ false

named-NoneActs :
    (name : String) (ts : List (String × Tool))
    → All (λ t. acts t.1 ≡ false) ts
    → NoneActs (named name ts)
named-NoneActs name [] h = tt
named-NoneActs name (t ∷ ts) h = by_test (str_eq t.0 name) (named-NoneActs name ts h.1)
  where
    by_test :
        (b : Bool) → NoneActs (named name ts) → NoneActs (if b then some t.1 else named name ts)
    by_test true k = h.0
    by_test false k = k

proposal_message_type :
    (rule : Fields) → is_text "rule_propose" (get_json "type" (proposal_message rule)) ≡ true
unfolding get_or get
proposal_message_type rule = refl

removal_message_type : (wid : String) → is_watch (get_json "type" (removal_message wid)) ≡ true
unfolding get_or get
removal_message_type wid = refl

list_message_type : is_watch (get_json "type" (field "type" (Json.str "watch_list") end)) ≡ true
unfolding get_or get
list_message_type = refl

module _ (tools : Client.Tools) (hex_of : Bytes → String) (c : SessionClient) where
  made_of-AllAllowed :
      (allow_send : Bool) (f : Fields → Fields) (w : Outcome Fields)
      → ((w : Fields) → IsAllowed allow_send c (f w))
      → AllAllowed allow_send c (made_of f w)
  made_of-AllAllowed allow_send f (done w) h = (h w, tt)
  made_of-AllAllowed allow_send f (tool_error e) h = tt
  made_of-AllAllowed allow_send f (bad_params e) h = tt
  made_of-AllAllowed allow_send f (crashed e) h = tt

  type_line-AllAllowed :
      (text : Json) (eol : Option String) → AllAllowed true c (type_line tools hex_of c text eol)
  type_line-AllAllowed (Json.str text) (some eol) = send_text-AllAllowed c text eol
  type_line-AllAllowed (Json.str text) none = tt
  type_line-AllAllowed _ eol = tt

  type_bytes-AllAllowed :
      (text : Option String) → AllAllowed true c (type_bytes tools hex_of c text)
  type_bytes-AllAllowed none = tt
  type_bytes-AllAllowed (some text) = send_hex-AllAllowed c hex_of (tools.from_hex text)

  propose-AllAllowed : (args : Fields) → AllAllowed true c (propose tools hex_of args)
  propose-AllAllowed args = by_test (
      both tools hex_of (not (is_null (get_json "send_text" args)))
        (truthy (get_json "send_hex" args)))
    where
      by_test :
          (b : Bool)
          → AllAllowed true c (
              if b
              then bad_params "give send_text or send_hex"
              else made_of (λ w. proposal_message (proposed tools hex_of args w)) (when args))
      by_test true = tt
      by_test false =
          made_of-AllAllowed true (λ w. proposal_message (proposed tools hex_of args w)) (when args)
            (λ w. (inr (refl, inl (proposal_message_type (proposed tools hex_of args w)))))

  watch_of_type :
      (args : Fields) (context : ℤ) (w : Fields)
      → is_watch (get_json "type" (watch_of tools hex_of args context w)) ≡ true
  unfolding get_or get put_key
  watch_of_type args context w = refl

  add_watch-AllAllowed :
      (allow_send : Bool) (args : Fields) (context : Option ℤ)
      → AllAllowed allow_send c (add_watch tools hex_of args context)
  add_watch-AllAllowed allow_send args none = tt
  add_watch-AllAllowed allow_send args (some context) =
      made_of-AllAllowed allow_send (watch_of tools hex_of args context) (when args)
        (λ w. inl (watch_of_type args context w))

  wid_of-AllAllowed : (allow_send : Bool) (wid : Json) → AllAllowed allow_send c (wid_of wid)
  wid_of-AllAllowed allow_send (Json.str wid) = (inl (removal_message_type wid), tt)
  wid_of-AllAllowed allow_send _ = tt

  allowed_by :
      (allow_send : Bool) (o : Outcome (List Fields))
      → allow_send ≡ true
      → AllAllowed true c o
      → AllAllowed allow_send c o
  allowed_by allow_send o e h = subst (λ b. AllAllowed b c o) (sym e) h

  sent_by-AllAllowed :
      (allow_send : Bool) (t : Tool) (args : Fields)
      → (acts t ≡ false) ⊎ (allow_send ≡ true)
      → AllAllowed allow_send c (sent_by tools hex_of t args c)
  unfolding sent_by
  sent_by-AllAllowed allow_send Tool.send_line args (inl e) = absurd (ground (arith, e))
  sent_by-AllAllowed allow_send Tool.send_line args (inr e) =
      let eol = known_eol (get_or "eol" (Json.str "cr") args) in
      allowed_by allow_send (type_line tools hex_of c (get_json "text" args) eol) e
        (type_line-AllAllowed (get_json "text" args) eol)
  sent_by-AllAllowed allow_send Tool.send_bytes args (inl e) = absurd (ground (arith, e))
  sent_by-AllAllowed allow_send Tool.send_bytes args (inr e) =
      let text = hex_of_arg (get_json "hex" args) in
      allowed_by allow_send (type_bytes tools hex_of c text) e (type_bytes-AllAllowed text)
  sent_by-AllAllowed allow_send Tool.propose_rule args (inl e) = absurd (ground (arith, e))
  sent_by-AllAllowed allow_send Tool.propose_rule args (inr e) =
      allowed_by allow_send (propose tools hex_of args) e (propose-AllAllowed args)
  sent_by-AllAllowed allow_send Tool.watch_add args h =
      add_watch-AllAllowed allow_send args (int_in (get_or "context" (Json.int (ℤ.pos 3)) args))
  sent_by-AllAllowed allow_send Tool.watch_list args h = (inl list_message_type, tt)
  sent_by-AllAllowed allow_send Tool.watch_remove args h =
      wid_of-AllAllowed allow_send (get_json "id" args)
  sent_by-AllAllowed allow_send t args h = tt

  abbrev Reached : Bool → Option Tool → Type 0
  Reached allow_send none = Unit
  Reached allow_send (some t) = (acts t ≡ false) ⊎ (allow_send ≡ true)

  handler_of-Reached :
      (allow_send : Bool) (name : String) → Reached allow_send (handler_of allow_send name)
  unfolding handler_of
  handler_of-Reached true name = by_tool (or_else (named name reading) (named name sending))
    where
      by_tool : (t : Option Tool) → Reached true t
      by_tool none = tt
      by_tool (some t) = inr refl
  handler_of-Reached false name = by_tool (named name reading) (
      named-NoneActs name reading
        (refl, (refl, (refl, (refl, (refl, (refl, (refl, (refl, (refl, (refl, (refl, tt))))))))))))
    where
      by_tool : (t : Option Tool) → NoneActs t → Reached false t
      by_tool none h = tt
      by_tool (some t) h = inl h

  called-AllAllowed :
      (allow_send : Bool) (t : Option Tool) (args : Json) (name : String)
      → Reached allow_send t
      → AllAllowed allow_send c (called tools hex_of t args name c)
  called-AllAllowed allow_send none args name h = tt
  called-AllAllowed allow_send (some t) (Json.obj args) name h =
      sent_by-AllAllowed allow_send t args h
  called-AllAllowed allow_send (some t) _ name h = tt

  -- Whatever tool an agent calls, by any name and with any parameters, what the server sends to the
  -- session is about watches, which only report; or the server was started with `--allow-send`, and
  -- what it sends is a proposal that a person decides on, or the session is shared with full access and
  -- connected.
  pub call-AllAllowed :
      (allow_send : Bool) (name : String) (params : Fields)
      → AllAllowed allow_send c (call tools hex_of allow_send name params c)
  unfolding call
  call-AllAllowed allow_send name params =
      called-AllAllowed allow_send (handler_of allow_send name)
        (get_or_else "arguments" (Json.obj end) params) name (handler_of-Reached allow_send name)
