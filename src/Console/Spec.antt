-- ===== src/Console/Spec.antt =====
-- What the console's queue promises: a bounded first-in first-out queue that, once it has lost a
-- byte, forgets all it holds, says so once, and takes nothing more until a line ends.
use mmurtl_rs.Base.{
  ℕ, Bool, true, false, not, ◌==◌, if◌then◌else◌, Option, none, some, List, [], ◌∷◌, ◌++◌, length,
}
use mmurtl_rs.Console.{InputEvent, byte, lost_input, queue_size, ends_line}

pub record Input : Type 0 where
  pub pending : List ℕ
  pub told : Bool
  pub skipping : Bool

unfoldable pub push : ℕ → Input → Input
push c v =
    if v.skipping
    then record v { skipping = not (ends_line c) }
    else if length v.pending == queue_size
    then record { pending = []; told = true; skipping = not (ends_line c) }
    else record v { pending = v.pending ++ c ∷ [] }

abbrev pop_pending : Input → List ℕ → Option InputEvent × Input
pop_pending v [] = (none, v)
pop_pending v (c ∷ rest) = (some (byte c), record v { pending = rest })

unfoldable pub pop : Input → Option InputEvent × Input
pop v = if v.told then (some lost_input, record v { told = false }) else pop_pending v v.pending
