-- ===== src/Server/Capacity.antt =====
-- `_accept_loop` and `_serve_counted`: how many connections are served at once.
use py_uart_proxy.Prelude.{
  suc, ◌≤◌, ◌<◌, ◌≡◌, refl, ◌∙◌, arith, String, Bool, true, ◌&&◌, List, [], ◌∷◌, Option, none, some,
  ltb, leb, if◌then◌else◌, str_append,
}
use py_uart_proxy.Json
use py_uart_proxy.Json.{field, end}
use py_uart_proxy.Server.{Calls, Client, Message, ProxyServer, typed}
use py_uart_proxy.Server.Handshake.{connect}
use py_uart_proxy.Server.Proposals.{end_client}

abbrev pub is_at_cap : ProxyServer → Bool
is_at_cap s = ltb 0 s.max_clients && leb s.max_clients s.active

abbrev served : Client × ProxyServer → Option Client × ProxyServer
served (c, s) = (some c, record s { active = suc s.active })

-- `_refuse_full`: what a connection at the cap is told.
abbrev pub refuse_full : Calls → ProxyServer → Message
refuse_full calls s = typed "auth_fail" (
    field "retry" (Json.Json.flag true) (
      field "reason"
        (Json.Json.str (
          str_append "server full ("
            (str_append (calls.world.decimal s.max_clients) " connections)")))
        end))

-- A connection comes from an address, or one that is served ends.
pub data Change : Type 0 where
  comes : String → String → Change
  ends : Client → Change

module _ (calls : Calls) where
  -- A connection comes: it is served, or it is turned away at the cap.
  unfoldable pub accept : String → String → ProxyServer → Option Client × ProxyServer
  accept address endpoint s =
      if is_at_cap s then (none, s) else served (connect calls address endpoint s)

  unfoldable pub change : Change → ProxyServer → ProxyServer
  change (comes address endpoint) s = (accept address endpoint s).1
  change (ends c) s = end_client c s

  unfoldable pub changes : List Change → ProxyServer → ProxyServer
  changes [] s = s
  changes (x ∷ xs) s = changes xs (change x s)

  abbrev pub Within : ProxyServer → Type 0
  Within s = (0 < s.max_clients) × (s.active ≤ s.max_clients)

  change-Within :
      (x : Change) (s : ProxyServer)
      → Within s
      → Within (change x s) × ((change x s).max_clients ≡ s.max_clients)
  unfolding change accept connect end_client
  change-Within (comes address endpoint) s (p, h) = ground (arith, p, h)
  change-Within (ends c) s (p, h) = ((p, omega arith), refl)

  -- Where the server has a limit, no more connections than it are served at once, however connections
  -- come and end; and the limit stays what it was.
  pub changes-Within :
      (xs : List Change) (s : ProxyServer)
      → Within s
      → Within (changes xs s) × ((changes xs s).max_clients ≡ s.max_clients)
  unfolding changes
  changes-Within [] s h = (h, refl)
  changes-Within (x ∷ xs) s h =
      let (h', e) = change-Within x s h in
      let (k, e') = changes-Within xs (change x s) h' in (k, e' ∙ e)
