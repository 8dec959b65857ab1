-- ===== src/Console.antt =====
-- keyboard.rs: the bounded input queue of the console and the amd64 scancode translation.
use mmurtl_rs.Base.{
  ℕ, ◌+◌, ◌-◌, ◌%◌, Bool, true, false, not, ◌&&◌, ◌||◌, ◌==◌, leb, if◌then◌else◌, Option, none,
  some, List, [], ◌∷◌, ◌++◌, length, get_or, set, replicate,
}
pub mod Spec
pub mod Refine
mod Tests

-- QUEUE_SIZE
abbrev pub queue_size : ℕ
queue_size = 1024

pub data InputEvent : Type 0 where
  byte : ℕ → InputEvent
  lost_input : InputEvent

pub record InputQueue : Type 0 where
  pub bytes : List ℕ
  pub head : ℕ
  pub tail : ℕ
  pub len : ℕ
  pub lost : Bool
  pub discarding : Bool

unfoldable pub new : InputQueue
new = record {
  bytes = replicate queue_size 0;
  head = 0;
  tail = 0;
  len = 0;
  lost = false;
  discarding = false;
}

unfoldable pub invalidate : InputQueue → InputQueue
invalidate q = record q { head = 0; tail = 0; len = 0; lost = true; discarding = true }

-- `matches!(byte, b'\n' | b'\r')`
abbrev pub ends_line : ℕ → Bool
ends_line c = c == 10 || c == 13

-- The end of a line ends the recovery.
abbrev pub recover : ℕ → InputQueue → InputQueue
recover c q = if ends_line c then record q { discarding = false } else q

unfoldable pub push : ℕ → InputQueue → InputQueue
unfolding invalidate
push c q =
    if q.discarding
    then recover c q
    else if q.len == queue_size
    then recover c (invalidate q)
    else record q {
      bytes = set q.bytes q.head c;
      head = (q.head + 1) % queue_size;
      len = q.len + 1;
    }

-- The index `tail` is below the size of the array; `Refine.IsValid` keeps it there.
unfoldable pub pop : InputQueue → Option InputEvent × InputQueue
pop q =
    if q.lost
    then (some lost_input, record q { lost = false })
    else if q.len == 0
    then (none, q)
    else (
      some (byte (get_or q.bytes q.tail 0)),
      record q { tail = (q.tail + 1) % queue_size; len = q.len - 1 },
    )

abbrev map_lower : List ℕ
map_lower =
    0
    ∷ 0x1b
    ∷ b'1'
    ∷ b'2'
    ∷ b'3'
    ∷ b'4'
    ∷ b'5'
    ∷ b'6'
    ∷ b'7'
    ∷ b'8'
    ∷ b'9'
    ∷ b'0'
    ∷ b'-'
    ∷ b'='
    ∷ 8
    ∷ 9
    ∷ b'q'
    ∷ b'w'
    ∷ b'e'
    ∷ b'r'
    ∷ b't'
    ∷ b'y'
    ∷ b'u'
    ∷ b'i'
    ∷ b'o'
    ∷ b'p'
    ∷ b'['
    ∷ b']'
    ∷ 10
    ∷ 0
    ∷ b'a'
    ∷ b's'
    ∷ b'd'
    ∷ b'f'
    ∷ b'g'
    ∷ b'h'
    ∷ b'j'
    ∷ b'k'
    ∷ b'l'
    ∷ b';'
    ∷ 39
    ∷ 96
    ∷ 0
    ∷ 92
    ∷ b'z'
    ∷ b'x'
    ∷ b'c'
    ∷ b'v'
    ∷ b'b'
    ∷ b'n'
    ∷ b'm'
    ∷ b','
    ∷ b'.'
    ∷ b'/'
    ∷ 0
    ∷ b'*'
    ∷ 0
    ∷ 32
    ∷ replicate 6 0

abbrev map_upper : List ℕ
map_upper =
    0
    ∷ 0x1b
    ∷ b'!'
    ∷ b'@'
    ∷ b'#'
    ∷ b'$'
    ∷ b'%'
    ∷ b'^'
    ∷ b'&'
    ∷ b'*'
    ∷ b'('
    ∷ b')'
    ∷ b'_'
    ∷ b'+'
    ∷ 8
    ∷ 9
    ∷ b'Q'
    ∷ b'W'
    ∷ b'E'
    ∷ b'R'
    ∷ b'T'
    ∷ b'Y'
    ∷ b'U'
    ∷ b'I'
    ∷ b'O'
    ∷ b'P'
    ∷ b'{'
    ∷ b'}'
    ∷ 10
    ∷ 0
    ∷ b'A'
    ∷ b'S'
    ∷ b'D'
    ∷ b'F'
    ∷ b'G'
    ∷ b'H'
    ∷ b'J'
    ∷ b'K'
    ∷ b'L'
    ∷ b':'
    ∷ 34
    ∷ b'~'
    ∷ 0
    ∷ b'|'
    ∷ b'Z'
    ∷ b'X'
    ∷ b'C'
    ∷ b'V'
    ∷ b'B'
    ∷ b'N'
    ∷ b'M'
    ∷ b'<'
    ∷ b'>'
    ∷ b'?'
    ∷ 0
    ∷ b'*'
    ∷ 0
    ∷ 32
    ∷ replicate 6 0

-- The static MODIFIERS beside the queue; MOD_SHIFT is its lowest bit.
pub record Keyboard : Type 0 where
  pub modifiers : ℕ
  pub queue : InputQueue

abbrev pub is_shift : ℕ → Bool
is_shift code = code == 0x2a || code == 0x36

abbrev pub set_shift : Bool → Keyboard → Keyboard
set_shift released k =
    let others = k.modifiers - k.modifiers % 2 in
    record k { modifiers = if released then others else others + 1 }

unfoldable pub translate : ℕ → ℕ → ℕ
translate modifiers code =
    if modifiers % 2 == 1 then get_or map_upper code 0 else get_or map_lower code 0

unfoldable pub handle_scancode : ℕ → Keyboard → Keyboard
unfolding translate
handle_scancode scancode k =
    let released = leb 128 scancode in
    let code = scancode % 128 in
    let c = translate k.modifiers code in
    if scancode == 0xe0
    then k
    else if is_shift code
    then set_shift released k
    else if released || leb (length map_lower) code
    then k
    else if c == 0
    then k
    else record k { queue = push c k.queue }
