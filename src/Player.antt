-- ===== src/Player.antt =====
-- ui/replay.py: a recording played to a stream, and in the replay application. Times are ticks, a speed
-- is a number of quarters and not negative, and a product of the two is rounded down to a tick. The terminal emulator is
-- the type `E` with its feeding and its reset; painting and the status line are left out.
pub mod Stream
pub mod Screen
use py_uart_proxy.Prelude.{
  ℕ, zero, suc, ◌+◌, ◌-◌, ◌*◌, ◌/◌, min, max, Bool, true, false, not, ◌&&◌, ◌||◌, Option, none,
  some, List, [], ◌∷◌, ◌++◌, Bytes, ◌==◌, ltb, leb, if◌then◌else◌, length, take, drop,
}
use py_uart_proxy.Recording.{
  Recording, is_empty, origin, duration, offset_at, next_time_after, previous_time_at, get_or_zero,
}

abbrev pub default_max_idle : ℕ
default_max_idle = 20000

-- data[start:end]
abbrev pub slice : ℕ → ℕ → Bytes → Bytes
slice start end bs = take (end - start) (drop start bs)

-- What the player does to the stream and the clock; a `sleep` is in ticks.
pub data Effect : Type 0 where
  write : Bytes → Effect
  sleep : ℕ → Effect

abbrev pub shortened : ℕ → ℕ → ℕ
shortened max_idle gap = if ltb 0 max_idle then min gap max_idle else gap

-- `if gap > 0: sleep(gap / speed)`, the speed in quarters
abbrev pub sleep_some : ℕ → ℕ → List Effect
sleep_some speed zero = []
sleep_some speed (suc gap) = Effect.sleep (suc gap * 4 / speed) ∷ []

abbrev pub pause : ℕ → ℕ → Option ℕ → ℕ → List Effect
pause speed max_idle none stamp = []
pause speed max_idle (some previous) stamp =
    if ltb 0 speed then sleep_some speed (shortened max_idle (stamp - previous)) else []

-- The loop over the chunks, the two lists side by side.
unfoldable pub play_chunks : ℕ → ℕ → Bytes → ℕ → Option ℕ → List ℕ → List ℕ → List Effect
play_chunks speed max_idle bs start previous (stamp ∷ stamps) (end ∷ ends) =
    let skipped = play_chunks speed max_idle bs start previous stamps ends in
    let rest = play_chunks speed max_idle bs end (some stamp) stamps ends in
    if leb end start
    then skipped
    else pause speed max_idle previous stamp ++ (Effect.write (slice start end bs) ∷ rest)
play_chunks speed max_idle bs start previous _ _ = []

-- `xs or [x]`
abbrev pub or_one : ℕ → List ℕ → List ℕ
or_one x [] = x ∷ []
or_one x (y ∷ ys) = y ∷ ys

abbrev pub play_from : ℕ → ℕ → ℕ → Option ℕ → Recording → List Effect
play_from speed max_idle start previous r =
    play_chunks speed max_idle r.bytes start previous (or_one 0 r.times)
      (or_one (length r.bytes) r.ends)

unfoldable pub play_to_stream : ℕ → ℕ → ℕ → Recording → List Effect
play_to_stream speed max_idle start_at r =
    if ltb 0 start_at
    then (let start = offset_at start_at r in
        Effect.write (take start r.bytes)
        ∷ play_from speed max_idle start (some (origin r + start_at)) r)
    else play_from speed max_idle 0 none r

-- 0.25 to 64
abbrev pub speeds : List ℕ
speeds = 1 ∷ 2 ∷ 4 ∷ 8 ∷ 16 ∷ 32 ∷ 64 ∷ 128 ∷ 256 ∷ []

abbrev pub seek_step : ℕ
seek_step = 50000

abbrev pub distance : ℕ → ℕ → ℕ
distance a b = (a - b) + (b - a)

-- The index of the first of the nearest speeds, from `i` on: `best` is at distance `least`.
unfoldable pub nearest : ℕ → List ℕ → ℕ → ℕ → ℕ → ℕ
nearest speed [] i best least = best
nearest speed (s ∷ ss) i best least =
    let nearer = nearest speed ss (suc i) i (distance s speed) in
    let rest = nearest speed ss (suc i) best least in
    if ltb (distance s speed) least then nearer else rest

pub record ReplayApp (E : Type 0) : Type 0 where
  pub speed : ℕ
  pub max_idle : ℕ
  pub position : ℕ
  pub playing : Bool
  pub fed : ℕ
  pub last_tick : Option ℕ
  pub term : E

-- A key or a tick of the application. `goto` has the position of what was typed, where it is a time.
pub data Action : Type 0 where
  tick : ℕ → Action
  toggle : Action
  seek_back : Action
  seek_on : Action
  slower : Action
  faster : Action
  home : Action
  end : Action
  goto : Option ℕ → Action

abbrev pub elapsed_since : Option ℕ → ℕ → ℕ
elapsed_since none now = 0
elapsed_since (some before) now = now - before

-- Where `advance` goes: to the next chunk, once enough of a long silence has been sat through.
abbrev pub cut_idle : ℕ → ℕ → ℕ → Option ℕ → ℕ
cut_idle max_idle quiet_since target none = target
cut_idle max_idle quiet_since target (some upcoming) =
    if ltb 0 max_idle
      && (ltb max_idle (upcoming - quiet_since) && leb max_idle (target - quiet_since))
    then max target upcoming
    else target

module _ {E : Type 0} (feed : Bytes → E → E) (reset : E → E) (rec : Recording) where
  abbrev pub new_app : ℕ → ℕ → E → ReplayApp E
  new_app speed max_idle blank = record {
    speed = speed;
    max_idle = max_idle;
    position = 0;
    playing = true;
    fed = 0;
    last_tick = none;
    term = blank;
  }

  unfoldable pub feed_to : ℕ → ReplayApp E → ReplayApp E
  feed_to offset s =
      if ltb s.fed offset
      then record s { term = feed (slice s.fed offset rec.bytes) s.term; fed = offset }
      else s

  abbrev pub stop_at_end : ReplayApp E → ReplayApp E
  stop_at_end s = if leb (duration rec) s.position then record s { playing = false } else s

  abbrev pub target : ℕ → ReplayApp E → ℕ
  target seconds s =
      cut_idle s.max_idle (previous_time_at s.position rec) (s.position + seconds)
        (next_time_after s.position rec)

  abbrev pub move_to : ℕ → ReplayApp E → ReplayApp E
  move_to position s = feed_to (offset_at position rec) (record s { position = position })

  unfoldable pub advance : ℕ → ReplayApp E → ReplayApp E
  advance seconds s = stop_at_end (move_to (min (target seconds s) (duration rec)) s)

  abbrev pub rewind : ℕ → ReplayApp E → ReplayApp E
  rewind offset s = if ltb offset s.fed then record s { term = reset s.term; fed = 0 } else s

  unfoldable pub seek : ℕ → ReplayApp E → ReplayApp E
  seek position s = let to = min position (duration rec) in move_to to (rewind (offset_at to rec) s)

  abbrev pub set_speed : ℕ → ReplayApp E → ReplayApp E
  set_speed index s = record s { speed = get_or_zero index speeds }

  abbrev pub index_of : ReplayApp E → ℕ
  index_of s = nearest s.speed speeds 0 0 (suc (distance 1 s.speed))

  abbrev pub on_tick : ℕ → ReplayApp E → ReplayApp E
  on_tick now s =
      let s' = record s { last_tick = some now } in
      if s.playing then advance (elapsed_since s.last_tick now * s.speed / 4) s' else s'

  abbrev pub action_toggle : ReplayApp E → ReplayApp E
  action_toggle s =
      let s' = if not s.playing && leb (duration rec) s.position then seek 0 s else s in
      record s' { playing = not s'.playing }

  abbrev pub action_goto : Option ℕ → ReplayApp E → ReplayApp E
  action_goto none s = s
  action_goto (some position) s = seek position s

  unfoldable pub act : Action → ReplayApp E → ReplayApp E
  act (Action.tick now) s = on_tick now s
  act Action.toggle s = action_toggle s
  act Action.seek_back s = seek (s.position - seek_step) s
  act Action.seek_on s = seek (s.position + seek_step) s
  act Action.slower s = set_speed (index_of s - 1) s
  act Action.faster s = set_speed (min (length speeds - 1) (suc (index_of s))) s
  act Action.home s = seek 0 s
  act Action.end s = seek (duration rec) s
  act (Action.goto position) s = action_goto position s

  unfoldable pub act_all : List Action → ReplayApp E → ReplayApp E
  act_all [] s = s
  act_all (a ∷ rest) s = act_all rest (act a s)
