-- ===== src/Server/Proposals.antt =====
-- Rules that a client proposes, the messages of `_reader_loop`, and the end of a connection.
use py_uart_proxy.Prelude.{
  suc, ◌-◌, String, Bool, true, false, not, ◌||◌, Option, none, some, List, [], ◌∷◌, Bytes, str_eq,
  str_append, if◌then◌else◌, map,
}
use py_uart_proxy.Prelude.Result.{Result, ok, value_error, raised, ◌>>=◌}
use py_uart_proxy.Json.{Json, Fields, field, end, get_json, get_or_else, is_text, put_key}
use py_uart_proxy.Triggers.{Triggers, Rule, Spec}
use py_uart_proxy.Triggers.Normalise.{normalise, fields_of, text_in}
use py_uart_proxy.Triggers.View.{spec_fields}
use py_uart_proxy.Triggers.Adding.{add, remove_where}
use py_uart_proxy.Triggers.Rules.{approve}
use py_uart_proxy.Server.{shutdown, Calls, Client, ProxyServer, reply, typed, decode_message}
use py_uart_proxy.Server.Requests.{
  is_full, owner_says, ai_owner, is_of, handle_tx, handle_resize, handle_watch, proposal, because,
}

-- A rule that waits for the owner, on a thread of its own.
pub record Proposal : Type 0 where
  pub pid : String
  pub client : Client
  pub rule : Spec

-- {**rule, "owner": …, "approved": None, "enabled": True}
abbrev pub as_proposed : Json → Fields → Fields
as_proposed owner rule =
    put_key "enabled" (Json.flag true) (put_key "approved" Json.null (put_key "owner" owner rule))

abbrev pub refuse : Client → String → String → ProxyServer → Option Proposal × ProxyServer
refuse c pid reason s = (none, reply c (proposal pid "refused" (because reason)) s)

abbrev pub plain : Result ProxyServer → Result (Option Proposal × ProxyServer)
plain r = r >>= λ s. ok (none, s)

abbrev pub any_watch : Json → Bool
any_watch j = is_text "watch_add" j || (is_text "watch_remove" j || is_text "watch_list" j)

module _ (calls : Calls) where
  abbrev proposed :
      Client → String → Result Spec → ProxyServer → Result (Option Proposal × ProxyServer)
  proposed c pid (ok rule) s =
      ok (
        some (record { pid = pid; client = c; rule = rule }),
        reply c (proposal pid "pending" end) s,
      )
  proposed c pid (value_error e) s = ok (refuse c pid e s)
  proposed c pid raised s = raised

  abbrev given_rule : Fields → Result Fields
  given_rule msg = fields_of (get_or_else "rule" (Json.obj end) msg)

  abbrev pub propose_as :
      Client → String → Fields → ProxyServer → Result (Option Proposal × ProxyServer)
  propose_as c pid msg s = do
    rule ← given_rule msg
    proposed c pid (normalise calls.python (as_proposed (ai_owner c s.sid) rule)) s

  abbrev pub propose_to :
      Option Triggers
      → Option (Spec → Client → Result Bool)
      → Client
      → String
      → Fields
      → ProxyServer
      → Result (Option Proposal × ProxyServer)
  propose_to none ask c pid msg s = ok (refuse c pid "this session has no triggers" s)
  propose_to (some t) none c pid msg s = ok (
      refuse c pid
        (if not (is_full c.role)
          then "read-only: a rule that acts needs a share that may send"
          else "the session's owner takes no proposals now")
        s)
  propose_to (some t) (some ask) c pid msg s =
      if not (is_full c.role)
      then ok (refuse c pid "read-only: a rule that acts needs a share that may send" s)
      else propose_as c pid msg s

  -- `_handle_propose`, up to the thread that asks.
  unfoldable pub handle_propose :
      Client → Fields → ProxyServer → Result (Option Proposal × ProxyServer)
  handle_propose c msg s =
      let pid = str_append "p" (calls.world.decimal s.next_pid) in
      propose_to s.triggers s.propose c pid msg (record s { next_pid = suc s.next_pid })

  -- An exception here ends the thread without an answer.
  abbrev pub accepted : Proposal → Result (String × Triggers) → ProxyServer → ProxyServer
  accepted q (ok (rid, t)) s = elim (approve calls.world rid t) [
    | some t' ↦
        reply q.client (proposal q.pid "accepted" (field "rule" (Json.str rid) end))
          (record s { triggers = some t' })
    | none ↦ record s { triggers = some t }
  ]
  accepted q (value_error e) s = s
  accepted q raised s = s

  abbrev pub decided : Proposal → Result Bool → Option Triggers → ProxyServer → ProxyServer
  decided q (ok true) (some t) s =
      accepted q (add calls.world calls.python (spec_fields calls.world.hex_text q.rule) t) s
  decided q (ok true) none s = s
  decided q (ok false) t s = reply q.client (proposal q.pid "declined" end) s
  decided q (value_error e) t s =
      reply q.client
        (proposal q.pid "refused" (because (str_append "the owner could not be asked: " e))) s
  decided q raised t s =
      reply q.client (proposal q.pid "refused" (because "the owner could not be asked")) s

  -- `decide`, by the owner's answer.
  unfoldable pub decide : Proposal → Result Bool → ProxyServer → ProxyServer
  decide q answer s = decided q answer s.triggers s

  -- One message of `_reader_loop`.
  unfoldable pub handle : Client → Fields → ProxyServer → Result (Option Proposal × ProxyServer)
  handle c msg s =
      let mtype = get_json "type" msg in
      if is_text "tx" mtype
      then plain (handle_tx calls c msg s)
      else if is_text "ping" mtype
      then ok (none, reply c (typed "pong" end) s)
      else if is_text "resize" mtype
      then ok (none, handle_resize calls c msg s)
      else if any_watch mtype
      then plain (handle_watch calls c (text_in mtype) msg s)
      else if is_text "rule_propose" mtype
      then handle_propose c msg s
      else ok (none, s)

  -- A line of the client: blank lines and lines that are no message are passed over.
  unfoldable pub read_line : Client → Bytes → ProxyServer → Result (Option Proposal × ProxyServer)
  read_line c line s =
      if calls.blank line
      then ok (none, s)
      else elim (decode_message calls.loads line) [ ok msg ↦ handle c msg s | _ ↦ ok (none, s) ]

abbrev without_rules : (Rule → Bool) → Option Triggers → Option Triggers
without_rules p none = none
without_rules p (some t) = some (remove_where p t).1

abbrev others : String → List Client → List Client
others cid [] = []
others cid (c ∷ cs) = let rest = others cid cs in if str_eq c.cid cid then rest else c ∷ rest

-- The end of `_handle_client` and of `_serve_counted`: the client leaves the set and is shut down, its
-- rules go, and it counts no more.
unfoldable pub end_client : Client → ProxyServer → ProxyServer
end_client c s = record s {
  clients = others c.cid s.clients;
  triggers = without_rules (is_of c.cid s.sid) s.triggers;
  active = s.active - 1;
}

abbrev of_server : String → Rule → Bool
of_server sid r = owner_says "server" sid r.spec.owner

abbrev stopped : Client → Client
stopped c = if c.live then record (shutdown c) { live = false } else c

-- `stop`: nobody is in the set any more, and the rules of the server's clients go.
unfoldable pub stop : ProxyServer → ProxyServer
stop s = record s {
  clients = map stopped s.clients;
  triggers = without_rules (of_server s.sid) s.triggers;
}
