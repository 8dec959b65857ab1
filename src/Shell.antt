-- ===== src/Shell.antt =====
-- shell/parse.rs: command lines and paths. A string is the list of its characters' code points; the
-- buffers hold UTF-8 bytes, and a list of the bytes written stands for a buffer and its length.
use mmurtl_rs.Base.{
  ℕ, zero, suc, ◌+◌, ◌-◌, ◌*◌, ◌/◌, ◌%◌, ◌⊎◌, inl, inr, Bool, true, false, not, ◌&&◌, ◌||◌, ◌==◌,
  leb, ltb, holds, if◌then◌else◌, is_none, is_empty, Option, none, some, List, [], ◌∷◌, ◌++◌,
  length, drop, take, any,
}
pub mod Paths
mod Tests

-- MAX_LINE, MAX_ARGS
abbrev pub max_line : ℕ
max_line = 256

abbrev pub max_args : ℕ
max_args = 16

pub data ParseError : Type 0 where
  too_many_arguments command_too_long unclosed_quote : ParseError

-- The bytes of the arguments one after the other, and where each begins and ends.
pub record Command : Type 0 where
  pub bytes : List ℕ
  pub spans : List (ℕ × ℕ)

-- `char::is_ascii_whitespace`
abbrev pub is_space : ℕ → Bool
is_space c = c == 32 || c == 9 || c == 10 || c == 12 || c == 13

-- `char::encode_utf8`
abbrev pub encode_utf8 : ℕ → List ℕ
encode_utf8 c =
    if ltb c 0x80
    then c ∷ []
    else if ltb c 0x800
    then (0xc0 + c / 64) ∷ (0x80 + c % 64) ∷ []
    else if ltb c 0x10000
    then (0xe0 + c / 4096) ∷ (0x80 + c / 64 % 64) ∷ (0x80 + c % 64) ∷ []
    else (0xf0 + c / 262144) ∷ (0x80 + c / 4096 % 64) ∷ (0x80 + c / 64 % 64) ∷ (0x80 + c % 64) ∷ []

unfoldable pub skip_spaces : List ℕ → List ℕ
skip_spaces [] = []
skip_spaces (c ∷ cs) = if is_space c then skip_spaces cs else c ∷ cs

-- A character that closes the open quote, or opens one.
abbrev pub is_mark : Option ℕ → ℕ → Bool
is_mark quote c = holds quote c || (is_none quote && (c == 39 || c == 34))

abbrev pub toggle : Option ℕ → ℕ → Option ℕ
toggle quote c = if holds quote c then none else if is_mark quote c then some c else quote

-- The bytes written, the quote that is open at the end, and the characters left.
abbrev Word : Type 0
Word = List ℕ × Option ℕ × List ℕ

-- The loop over the characters of one argument.
unfoldable pub read_word : Option ℕ → List ℕ → List ℕ → ParseError ⊎ Word
read_word quote out [] = inr (out, quote, [])
read_word quote out (c ∷ cs) =
    let written = if is_mark quote c then out else out ++ encode_utf8 c in
    let rest = read_word (toggle quote c) written cs in
    if is_none quote && is_space c
    then inr (out, quote, c ∷ cs)
    else if ltb max_line (length written)
    then inl ParseError.command_too_long
    else rest

-- The outer loop. Every round takes a character at least.
unfoldable pub read_args : Command → List ℕ → ℕ → ParseError ⊎ Command
unfolding skip_spaces read_word
read_args cmd line zero = inr cmd
read_args cmd line (suc fuel) =
    let left = skip_spaces line in
    if is_empty left
    then inr cmd
    else if length cmd.spans == max_args
    then inl ParseError.too_many_arguments
    else elim (read_word none cmd.bytes left) [
      | inl e ↦ inl e
      | inr (out, quote, rest) ↦
          if not (is_none quote)
          then inl ParseError.unclosed_quote
          else read_args
              (record { bytes = out; spans = cmd.spans ++ (length cmd.bytes, length out) ∷ [] })
              rest fuel
    ]

unfoldable pub parse : List ℕ → ParseError ⊎ Command
unfolding read_args
parse line = read_args (record { bytes = []; spans = [] }) line (length line + 1)

-- `arg`, once the span of the argument is looked up.
abbrev pub arg : Command → ℕ × ℕ → List ℕ
arg cmd span = take (span.1 - span.0) (drop span.0 cmd.bytes)

pub data PathError : Type 0 where
  bad_characters path_too_long : PathError

-- `Path`, and `Path::root`
abbrev pub root : List ℕ
root = b'/' ∷ []

-- `char::is_control`
abbrev pub is_control : ℕ → Bool
is_control c = ltb c 32 || (leb 127 c && ltb c 160)

abbrev pub is_separator : ℕ → Bool
is_separator c = c == b'/' || c == 92

abbrev pub cons_first : ℕ → List (List ℕ) → List (List ℕ)
cons_first c [] = (c ∷ []) ∷ []
cons_first c (part ∷ parts) = (c ∷ part) ∷ parts

-- `name.split(['/', '\\'])`
unfoldable pub split : List ℕ → List (List ℕ)
split [] = [] ∷ []
split (c ∷ cs) = if is_separator c then [] ∷ split cs else cons_first c (split cs)

unfoldable pub to_utf8 : List ℕ → List ℕ
to_utf8 [] = []
to_utf8 (c ∷ cs) = encode_utf8 c ++ to_utf8 cs

abbrev pub last_byte : List ℕ → ℕ
last_byte [] = 0
last_byte (b ∷ []) = b
last_byte (b ∷ c ∷ rest) = last_byte (c ∷ rest)

-- `path.len -= 1`
abbrev pub shorten : List ℕ → List ℕ
shorten path = take (length path - 1) path

-- `while path.len > 1 && path.bytes[path.len - 1] != b'/'`, in at most as many rounds as bytes.
unfoldable pub strip_name : ℕ → List ℕ → List ℕ
strip_name zero path = path
strip_name (suc fuel) path =
    let rest = strip_name fuel (shorten path) in
    if ltb 1 (length path) && not (last_byte path == b'/') then rest else path

unfoldable pub parent : List ℕ → List ℕ
unfolding strip_name
parent path =
    let stripped = strip_name (length path) path in
    if ltb 1 (length stripped) then shorten stripped else stripped

unfoldable pub append_name : List ℕ → List ℕ → PathError ⊎ List ℕ
append_name path part =
    let slash = if ltb 1 (length path) then b'/' ∷ [] else [] in
    if ltb max_line (length path + length slash + length part)
    then inl PathError.path_too_long
    else inr (path ++ slash ++ part)

abbrev pub is_dot : List ℕ → Bool
is_dot (c ∷ []) = c == b'.'
is_dot _ = false

abbrev pub is_dots : List ℕ → Bool
is_dots (c ∷ d ∷ []) = c == b'.' && d == b'.'
is_dots _ = false

-- The `match` on one part of the name.
unfoldable pub step_into : List ℕ → List ℕ → PathError ⊎ List ℕ
unfolding parent append_name to_utf8
step_into path part =
    if is_empty part || is_dot part
    then inr path
    else if is_dots part
    then inr (parent path)
    else append_name path (to_utf8 part)

unfoldable pub walk : List ℕ → List (List ℕ) → PathError ⊎ List ℕ
unfolding step_into
walk path [] = inr path
walk path (part ∷ parts) = elim (step_into path part) [ inl e ↦ inl e | inr p ↦ walk p parts ]

abbrev pub starts_at_root : List ℕ → Bool
starts_at_root [] = false
starts_at_root (c ∷ cs) = is_separator c

unfoldable pub resolve : List ℕ → List ℕ → PathError ⊎ List ℕ
unfolding walk split
resolve path name =
    if any (λ c. c == b':') name || any is_control name
    then inl PathError.bad_characters
    else walk (if starts_at_root name then root else path) (split name)
