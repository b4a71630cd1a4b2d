-- ===== src/Server/Reach.antt =====
-- Whom an event reaches.
use py_uart_proxy.Prelude.{◌≡◌, refl, ap, ◌∙◌, String, Bool, Option, none, some, List, [], ◌∷◌, map}
use py_uart_proxy.Json.{Fields}
use py_uart_proxy.Event.{Event}
use py_uart_proxy.Session.{Session}
use py_uart_proxy.Server.{Calls, Client, ProxyServer}
use py_uart_proxy.Server.Fanout.{
  offer_unless, remember, on_event, publish, message_of, skipped, fan_out,
}

-- The messages of events, each with whom it is kept from.
abbrev pub cast : Option String → Option Fields → Client → Client
cast skip none c = c
cast skip (some m) c = offer_unless skip m c

module _ (calls : Calls) where
  -- What one client hears of the session's events, whatever the others do.
  abbrev pub hears : Option String → Bool → Session → List Event → Client → Client
  hears origin echo_tx h [] c = c
  hears origin echo_tx h (e ∷ es) c =
      hears origin echo_tx h es (cast (skipped calls origin e) (message_of calls echo_tx h e) c)

  map-cast :
      (skip : Option String) (m : Option Fields) (cs : List Client)
      → fan_out skip m cs ≡ map (cast skip m) cs
  map-cast skip none [] = refl
  map-cast skip none (c ∷ cs) = ap (λ x. c ∷ x) (map-cast skip none cs)
  map-cast skip (some m) cs = refl

  map-hears :
      (origin : Option String) (echo_tx : Bool) (h : Session) (e : Event) (es : List Event)
      (cs : List Client)
      → map
          (hears origin echo_tx h es)
          (map (cast (skipped calls origin e) (message_of calls echo_tx h e)) cs)
        ≡ map (hears origin echo_tx h (e ∷ es)) cs
  map-hears origin echo_tx h e es [] = refl
  map-hears origin echo_tx h e es (c ∷ cs) =
      ap (λ x. hears origin echo_tx h (e ∷ es) c ∷ x) (map-hears origin echo_tx h e es cs)

  nobody : (cs : List Client) → cs ≡ map (λ c. c) cs
  nobody [] = refl
  nobody (c ∷ cs) = ap (λ x. c ∷ x) (nobody cs)

  -- A list of events reaches each client on its own: what a client's queue becomes depends on no
  -- other client's, so that a slow one holds up nobody.
  pub publish-hears :
      (origin : Option String) (es : List Event) (s : ProxyServer)
      → (publish calls origin es s).clients ≡ map (hears origin s.echo_tx s.session es) s.clients
  unfolding publish on_event
  publish-hears origin [] s = nobody s.clients
  publish-hears origin (e ∷ es) s =
      let s' =
        on_event calls origin e (record s { replay = remember calls.world.wall_str e s.replay }) in
      let skip = skipped calls origin e in
      let m = message_of calls s.echo_tx s.session e in
      publish-hears origin es s'
      ∙ ap (map (hears origin s.echo_tx s.session es)) (map-cast skip m s.clients)
      ∙ map-hears origin s.echo_tx s.session e es s.clients
