-- ===== src/Triggers/Kept.antt =====
-- What a checked rule keeps of the rule given: whether it sends, whether it is on, its approval.
use py_uart_proxy.Prelude.{
  zero, suc, ◌≡◌, refl, sym, ap, ◌∙◌, subst, inl, inr, String, Bool, true, false, not, ◌&&◌, ◌||◌,
  some, List, [], ◌∷◌, str_eq, eq_iff, if◌then◌else◌, arith, Bool-cases,
}
use py_uart_proxy.Prelude.Result.{
  Result, ok, value_error, raised, ◌>>=◌, ◌>>◌, demand, Gives, Gives-bind, Gives-demand, either_way,
  anything,
}
use py_uart_proxy.Json
use py_uart_proxy.Json.{
  Json, Fields, Items, truthy, get_json, get_or, get_or_else, or_default, put_key, int_in, field,
  end, get,
}
use py_uart_proxy.Triggers.{Action, Spec, level_of, is_send, send_text, send_hex}
use py_uart_proxy.Triggers.Pattern.{Python, hex_bytes, max_context}
use py_uart_proxy.Triggers.Normalise.{
  normalise, a_person, is_one_of, hashable, kind_action, send_of, action_of, actions_of, with_event,
  items_of, default_actions, approval_of, rule_with, eols, text_in, limit_of, the_when, owner_of,
  or_error, between,
}
use py_uart_proxy.Triggers.Loading.{sends_kind, any_sends, sends_in, sends_of}

module _ (p : Python) where
  abbrev Sends : Action → Type 0
  Sends a = is_send a ≡ true

  send_of-Sends : (action : Fields) → Gives Sends (send_of p action)
  unfolding send_of
  send_of-Sends action =
      let words = p.to_str (get_json "text" action) in
      let eol = get_or "eol" (Json.str "cr") action in
      let known =
        (demand (is_one_of eols eol) "'eol' is one of four"
          >> ok (send_text words (text_in eol))) in
      let by_text =
        (demand (not (p.from_match words)) "a send cannot use anything from the match"
          >> (hashable eol >> known)) in
      let by_hex =
        (hex_bytes p (p.to_str (get_json "hex" action)) >>= λ bytes. ok (send_hex bytes)) in
      let sent : Gives Sends by_text =
        Gives-bind (λ u. Unit {0}) Sends
          (demand (not (p.from_match words)) "a send cannot use anything from the match")
          (λ _. hashable eol >> known) (anything _)
          (λ _ _.
            Gives-bind (λ u. Unit {0}) Sends (hashable eol) (λ _. known) (anything _)
              (λ _ _.
                Gives-demand Sends (is_one_of eols eol) _ (ok (send_text words (text_in eol)))
                  (λ _. refl))) in
      let right : Gives Sends by_hex =
        Gives-bind (λ b. Unit {0}) Sends (hex_bytes p (p.to_str (get_json "hex" action)))
          (λ bytes. ok (send_hex bytes)) (anything _) (λ b _. refl) in
      let both = Json.has "text" action && Json.has "hex" action in
      let neither = not (Json.has "text" action) && not (Json.has "hex" action) in
      either_way Sends (both || neither) (value_error "a send has 'text' or 'hex'")
        (if Json.has "text" action then by_text else by_hex) tt
        (either_way Sends (Json.has "text" action) by_text by_hex sent right)

  kind_action-Sends :
      (kind : Json) (action : Fields)
      → Gives (λ a. is_send a ≡ is_one_of ("send" ∷ []) kind) (kind_action p kind action)
  kind_action-Sends (Json.str s) action = elim (Bool-cases (str_eq s "send")) [
    | inl e ↦
        subst
          (λ x.
            Gives (λ a. is_send a ≡ is_one_of ("send" ∷ []) (Json.str x))
              (kind_action p (Json.str x) action))
          (sym ((eq_iff s "send").0 e)) (send_of-Sends action)
    | inr e ↦ ground (arith, e)
  ]
  kind_action-Sends Json.null action = tt
  kind_action-Sends (Json.flag b) action = tt
  kind_action-Sends (Json.int n) action = tt
  kind_action-Sends (Json.float n) action = tt
  kind_action-Sends (Json.arr n) action = tt
  kind_action-Sends (Json.obj n) action = tt

  abbrev kind_of : Fields → Json
  kind_of action = get_json "kind" action

  named_kind :
      (kind : Json) (b : Bool)
      → (hashable kind >>= λ u. ok (is_one_of ("send" ∷ []) kind)) ≡ ok b
      → is_one_of ("send" ∷ []) kind ≡ b
  named_kind (Json.str s) b e = cc
  named_kind Json.null b e = cc
  named_kind (Json.flag x) b e = cc
  named_kind (Json.int n) b e = cc
  named_kind (Json.float n) b e = cc
  named_kind (Json.arr n) b e = cc
  named_kind (Json.obj n) b e = cc

  fields-Sends :
      (action : Fields) (b : Bool)
      → sends_kind (Json.obj action) ≡ ok b
      → Gives
          (λ a. is_send a ≡ b)
          (hashable (kind_of action) >> kind_action p (kind_of action) action)
  unfolding sends_kind
  fields-Sends action b e =
      let named = named_kind (kind_of action) b e in
      Gives-bind (λ u. Unit {0}) (λ a. is_send a ≡ b) (hashable (kind_of action))
        (λ _. kind_action p (kind_of action) action) (anything _)
        λ _ _.
          subst (λ x. Gives (λ a. is_send a ≡ x) (kind_action p (kind_of action) action)) named
            (kind_action-Sends (kind_of action) action)

  action_of-Sends :
      (j : Json) (b : Bool) → sends_kind j ≡ ok b → Gives (λ a. is_send a ≡ b) (action_of p j)
  unfolding action_of sends_kind
  action_of-Sends (Json.obj end) b e = fields-Sends end b e
  action_of-Sends (Json.obj (field k v rest)) b e = fields-Sends (field k v rest) b e
  action_of-Sends Json.null b e = cc
  action_of-Sends (Json.flag x) b e = cc
  action_of-Sends (Json.int x) b e = cc
  action_of-Sends (Json.float x) b e = cc
  action_of-Sends (Json.str x) b e = cc
  action_of-Sends (Json.arr x) b e = cc

  abbrev Level : Bool → List Action → Type 0
  Level b actions = level_of actions ≡ b

  first-Sends :
      (r : Result Bool) (j : Json) (js : Items) (b : Bool)
      → sends_kind j ≡ r
      → (r >>= λ here. if here then ok true else any_sends js) ≡ ok b
      → (any_sends js ≡ ok b → Gives (Level b) (actions_of p js))
      → Gives (Level b) (actions_of p (Items.cons j js))
  unfolding actions_of
  first-Sends (ok true) j js b first e later =
      Gives-bind (λ a. is_send a ≡ true) (Level b) (action_of p j) _ (action_of-Sends j true first)
        λ a sends.
          Gives-bind (λ as'. Unit {0}) (Level b) (actions_of p js) _ (anything _)
            λ as' _. ground (arith, sends, e)
  first-Sends (ok false) j js b first e later =
      Gives-bind (λ a. is_send a ≡ false) (Level b) (action_of p j) _
        (action_of-Sends j false first)
        λ a sends.
          Gives-bind (Level b) (Level b) (actions_of p js) _ (later e)
            λ as' rest. ground (arith, sends, rest)
  first-Sends (value_error x) j js b first e later = cc
  first-Sends raised j js b first e later = cc

  actions_of-Sends :
      (js : Items) (b : Bool) → any_sends js ≡ ok b → Gives (Level b) (actions_of p js)
  unfolding actions_of any_sends
  actions_of-Sends Items.nil b e = ground arith
  actions_of-Sends (Items.cons j js) b e =
      first-Sends (sends_kind j) j js b refl e (actions_of-Sends js b)

  level_of-with_event : (actions : List Action) → level_of (with_event actions) ≡ level_of actions
  level_of-with_event actions = ground arith

text-Sends :
    (s : String) (c b : Bool)
    → sends_in (if c then Json.str s else Json.arr Items.nil) ≡ ok b
    → Gives (λ items. any_sends items ≡ ok b) (items_of (if c then Json.str s else default_actions))
unfolding any_sends sends_kind get_or get
text-Sends s true b e = tt
text-Sends s false b e = e

items-Sends :
    (v : Json) (b : Bool)
    → sends_in (if truthy v then v else Json.arr Items.nil) ≡ ok b
    → Gives (λ items. any_sends items ≡ ok b) (items_of (if truthy v then v else default_actions))
unfolding any_sends sends_kind get_or get
items-Sends Json.null b e = e
items-Sends (Json.flag true) b e = tt
items-Sends (Json.flag false) b e = e
items-Sends (Json.int (Json.pos zero)) b e = e
items-Sends (Json.int (Json.pos (suc n))) b e = tt
items-Sends (Json.int (Json.negsuc n)) b e = tt
items-Sends (Json.float (Json.pos zero)) b e = e
items-Sends (Json.float (Json.pos (suc n))) b e = tt
items-Sends (Json.float (Json.negsuc n)) b e = tt
items-Sends (Json.str s) b e = text-Sends s (not (str_eq s "")) b e
items-Sends (Json.arr Items.nil) b e = e
items-Sends (Json.arr (Items.cons x xs)) b e = e
items-Sends (Json.obj end) b e = e
items-Sends (Json.obj (field k x rest)) b e = tt

-- get after {**msg, key: value}
get-put_key :
    (key other : String) (v : Json) (fs : Fields)
    → get other (put_key key v fs) ≡ (if str_eq key other then some v else get other fs)
unfolding get put_key
get-put_key key other v end = refl
get-put_key key other v (field k x rest) =
    ground (arith, eq_iff key other, eq_iff k key, eq_iff k other, get-put_key key other v rest)

pub get_or-put :
    (key other : String) (d v : Json) (fs : Fields)
    → get_or other d (put_key key v fs) ≡ (if str_eq key other then v else get_or other d fs)
unfolding get_or
get_or-put key other d v fs =
    ap (or_default d) (get-put_key key other v fs) ∙ by_test (str_eq key other)
  where
    by_test :
        (b : Bool)
        → or_default d (if b then some v else get other fs) ≡ (if b then v else get_or other d fs)
    by_test true = refl
    by_test false = refl

module _ (p : Python) where
  -- What a checked rule keeps of the one given, where that one's actions send or do not.
  abbrev pub Keeps : Fields → Bool → Spec → Type 0
  Keeps rule b spec =
      (level_of spec.actions ≡ b)
      × (spec.enabled ≡ truthy (get_or "enabled" (Json.flag true) rule))
      × (spec.approved ≡ approval_of (get_json "approved" rule))

  pub normalise-Keeps :
      (rule : Fields) (b : Bool) → sends_of rule ≡ ok b → Gives (Keeps rule b) (normalise p rule)
  unfolding normalise get_or_else
  normalise-Keeps rule b e =
      let K = Keeps rule b in
      Gives-bind (λ a. Unit {0}) K (p.to_dict (get_or_else "when" (Json.obj end) rule)) _
        (anything _)
        λ when _.
          Gives-bind (λ a. Unit {0}) K (the_when p when) _ (anything _)
            λ on _.
              Gives-bind (λ a. Unit {0}) K (limit_of (get_json "limit" rule)) _ (anything _)
                λ limit _.
                  Gives-bind (λ items. any_sends items ≡ ok b) K
                    (items_of (get_or_else "actions" default_actions rule)) _
                    (items-Sends (get_json "actions" rule) b e)
                    λ items sends.
                      Gives-bind (Level p b) K (actions_of p items) _
                        (actions_of-Sends p items b sends)
                        λ actions level.
                          Gives-bind (λ n. Unit {0}) K
                            (or_error "'context' is 0 to 20 lines" (
                              between 0 max_context
                                (int_in (get_or "context" (Json.int (Json.pos 3)) rule))))
                            _ (anything _)
                            λ context _.
                              Gives-bind (λ o. Unit {0}) K
                                (owner_of (get_or_else "owner" a_person rule)) _ (anything _)
                                λ owner _.
                                  let kept : K (rule_with p rule on limit actions context owner) =
                                    (level_of-with_event p actions ∙ level, refl, refl) in
                                  kept
