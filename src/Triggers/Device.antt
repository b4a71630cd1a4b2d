-- ===== src/Triggers/Device.antt =====
-- The order of the changes of the device's state that rules hear of.
use py_uart_proxy.Prelude.{
  ℕ, String, ◌≡◌, refl, Bool, true, false, Option, none, some, List, [], ◌∷◌, str_eq, if◌then◌else◌,
}
use py_uart_proxy.Triggers.{Triggers, new}
use py_uart_proxy.Triggers.Watching.{device_change, came, went, says_gone}

pub data Phase : Type 0 where
  never up down : Phase

-- First `connected`, then `disconnected` and `reconnected` by turns.
pub Alternates : Phase → List String → Type 0
Alternates p [] = Unit
Alternates never (c ∷ cs) = (c ≡ "connected") × Alternates up cs
Alternates up (c ∷ cs) = (c ≡ "disconnected") × Alternates down cs
Alternates down (c ∷ cs) = (c ≡ "reconnected") × Alternates up cs

abbrev add_change : Option String → List String → List String
add_change none cs = cs
add_change (some c) cs = c ∷ cs

-- What a sequence of statuses, each at its time, sets off.
unfoldable pub changes : List (ℕ × String) → Triggers → List String
changes [] t = []
changes ((now, status) ∷ statuses) t =
    let (change, t') = device_change now status t in add_change change (changes statuses t')

In : Phase → Triggers → Type 0
In never t = (t.connected ≡ false) × (t.ever_connected ≡ false) × (t.dropped ≡ false)
In up t = (t.connected ≡ true) × (t.ever_connected ≡ true) × (t.dropped ≡ false)
In down t = (t.connected ≡ false) × (t.ever_connected ≡ true) × (t.dropped ≡ true)

-- A status leaves the phase and says nothing, or says what the phase allows and changes it.
Allows : Phase → Option String × Triggers → Type 0
Allows p (none, t) = In p t
Allows never (some c, t) = (c ≡ "connected") × In up t
Allows up (some c, t) = (c ≡ "disconnected") × In down t
Allows down (some c, t) = (c ≡ "reconnected") × In up t

either_way :
    (p : Phase) (b : Bool) (x y : Option String × Triggers)
    → Allows p x
    → Allows p y
    → Allows p (if b then x else y)
either_way p true x y h k = h
either_way p false x y h k = k

came-Allows : (p : Phase) (now : ℕ) (t : Triggers) → In p t → Allows p (came now t)
unfolding came Allows In
came-Allows never now t (a, b, c) = rw b (refl, (refl, refl, refl))
came-Allows up now t (a, b, c) = rw (b, c) (refl, refl, refl)
came-Allows down now t (a, b, c) = rw (b, c) (refl, (refl, refl, refl))

went-Allows : (p : Phase) (t : Triggers) → In p t → Allows p (went t)
unfolding went Allows In
went-Allows never t (a, b, c) = rw a (refl, b, c)
went-Allows up t (a, b, c) = rw a (refl, (refl, b, refl))
went-Allows down t (a, b, c) = rw a (refl, b, c)

device_change-Allows :
    (p : Phase) (now : ℕ) (status : String) (t : Triggers)
    → In p t
    → Allows p (device_change now status t)
unfolding device_change Allows
device_change-Allows p now status t h =
    either_way p (str_eq status "connected") (came now t)
      (if says_gone status then went t else (none, t)) (came-Allows p now t h)
      (either_way p (says_gone status) (went t) (none, t) (went-Allows p t h) h)

add-Alternates :
    (p : Phase) (o : Option String × Triggers) (f : Triggers → List String)
    → Allows p o
    → ((q : Phase) (t : Triggers) → In q t → Alternates q (f t))
    → Alternates p (add_change o.0 (f o.1))
unfolding Allows Alternates
add-Alternates never (none, t) f h k = k never t h
add-Alternates up (none, t) f h k = k up t h
add-Alternates down (none, t) f h k = k down t h
add-Alternates never (some c, t) f (e, h) k = (e, k up t h)
add-Alternates up (some c, t) f (e, h) k = (e, k down t h)
add-Alternates down (some c, t) f (e, h) k = (e, k up t h)

changes-Alternates_from :
    (statuses : List (ℕ × String)) (p : Phase) (t : Triggers)
    → In p t
    → Alternates p (changes statuses t)
unfolding changes Alternates
changes-Alternates_from [] p t h = tt
changes-Alternates_from ((now, status) ∷ statuses) p t h =
    add-Alternates p (device_change now status t) (changes statuses)
      (device_change-Allows p now status t h) (λ q t' h'. changes-Alternates_from statuses q t' h')

-- Whatever statuses the session publishes, the rules are told of a first `connected`, and from then on
-- of `disconnected` and `reconnected` by turns, never of the same change twice.
pub changes-Alternates :
    (statuses : List (ℕ × String)) (now : ℕ) → Alternates never (changes statuses (new now))
unfolding In
changes-Alternates statuses now =
    changes-Alternates_from statuses never (new now) (refl, refl, refl)
