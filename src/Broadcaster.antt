-- ===== src/Broadcaster.antt =====
-- kine/pkg/broadcaster/broadcaster.go: the streams of a subscriber. The lock makes each of the steps
-- below one action; an execution is a sequence of actions. A subscriber that is too slow is removed
-- by a goroutine of its own, so between the drop and the removal other actions may come.
pub mod Delivery
pub mod Gap
use thesis_code.Prelude.{
  ℕ, zero, suc, ◌+◌, ◌-◌, ltb, ◌==◌, Bool, true, false, not, ◌||◌, List, [], ◌∷◌, ◌++◌, map, length,
  if◌then◌else◌,
}

-- The capacity of the channel of a subscriber.
abbrev pub sub_size : ℕ
sub_size = 100

-- A channel in the map `subs`: what waits in it, all that was ever sent to it, how many items were
-- streamed before it was made, and whether a goroutine is about to remove it.
pub record Sub (A : Type 0) : Type 0 where
  pub id : ℕ
  pub waiting : ℕ
  pub received : List A
  pub start : ℕ
  pub dropped : Bool

pub record Broadcaster (A : Type 0) : Type 0 where
  pub running : Bool
  pub subs : List (Sub A)
  -- All items that stream has read from its input, oldest first, and the number of channels made.
  pub streamed : List A
  pub next : ℕ

pub data Action (A : Type 0) : Type 0 where
  -- Subscribe, and whether connect would succeed.
  subscribe : Bool → Action A
  -- unsub of a channel, when its context is done or it was dropped.
  unsub : ℕ → Action A
  -- One turn of the loop of stream, and what follows the loop.
  item : A → Action A
  closed : Action A
  -- The subscriber reads from its channel.
  receive : ℕ → Action A

module _ {A : Type 0} where
  -- select { case sub <- item: default: go b.unsub(sub, true) }
  unfoldable pub offer : A → Sub A → Sub A
  offer x sub =
      if ltb sub.waiting sub_size
      then record sub { waiting = sub.waiting + 1; received = sub.received ++ x ∷ [] }
      else record sub { dropped = true }

  unfoldable pub remove : ℕ → List (Sub A) → List (Sub A)
  remove id [] = []
  remove id (sub ∷ subs) = let rest = remove id subs in if sub.id == id then rest else sub ∷ rest

  unfoldable pub take_one : ℕ → Sub A → Sub A
  take_one id sub = if sub.id == id then record sub { waiting = sub.waiting - 1 } else sub

  abbrev pub new_sub : Broadcaster A → Sub A
  new_sub b = record {
    id = b.next;
    waiting = 0;
    received = [];
    start = length b.streamed;
    dropped = false;
  }

  unfoldable pub step : Broadcaster A → Action A → Broadcaster A
  unfolding offer remove take_one
  step b (subscribe connected) =
      if b.running || connected
      then record b { running = true; subs = new_sub b ∷ b.subs; next = suc b.next }
      else b
  step b (unsub id) = record b { subs = remove id b.subs }
  step b (item x) = record b { subs = map (offer x) b.subs; streamed = b.streamed ++ x ∷ [] }
  step b closed = record b { running = false; subs = [] }
  step b (receive id) = record b { subs = map (take_one id) b.subs }

  unfoldable pub run : Broadcaster A → List (Action A) → Broadcaster A
  unfolding step
  run b [] = b
  run b (a ∷ actions) = run (step b a) actions

  abbrev pub fresh : Broadcaster A
  fresh = record { running = false; subs = []; streamed = []; next = 0 }
