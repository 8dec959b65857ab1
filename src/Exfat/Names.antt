-- ===== src/Exfat/Names.antt =====
-- fs/exfat.rs: the entries with the parts of a name are read back by `parse_entries`.
use mmurtl_rs.Base.{
  ℕ, zero, suc, ◌+◌, ◌*◌, ◌≤◌, ◌<◌, ◌≡◌, refl, sym, ap, ◌∙◌, true, false, ◌==◌, ltb, none, some,
  List, [], ◌∷◌, ◌++◌, length, get_or, take, drop, arith, length-append, length-drop, length-take,
  take-append-drop,
}
use mmurtl_rs.Exfat.{
  DirFile, Parse, push_unit, push_units, add_secondary, parse_entry, parse_from, name_units,
  name_parts,
}
use mathlib.Core.List.{append-nil, append_assoc}

-- Every byte is ASCII, and none is zero.
abbrev pub IsAscii : List ℕ → Type 0
IsAscii [] = Unit
IsAscii (c ∷ name) = (0 < c) × (c < 128) × IsAscii name

drop-IsAscii : (n : ℕ) (name : List ℕ) → IsAscii name → IsAscii (drop n name)
drop-IsAscii zero name h = h
drop-IsAscii (suc n) [] h = h
drop-IsAscii (suc n) (c ∷ name) h = drop-IsAscii n name h.2

push_unit_ascii :
    (c : ℕ) (name : List ℕ)
    → 0 < c
    → c < 128
    → length name < 255
    → push_unit c name ≡ name ++ c ∷ []
push_unit_ascii c name pos small room =
    let nonzero : (c == 0) ≡ false = ground arith in
    let ascii : ltb c 128 ≡ true = ground arith in
    let fits : ltb (length name) 255 ≡ true = ground arith in rw (nonzero, ascii, fits) refl

-- The units of a part, pushed one by one, are its bytes.
push_units-name_units :
    (n : ℕ) (name acc : List ℕ)
    → IsAscii name
    → length acc + length name ≤ 255
    → push_units n (name_units n name) acc ≡ acc ++ take n name
unfolding push_units name_units
push_units-name_units zero name acc h room = sym (append-nil acc)
push_units-name_units (suc n) [] acc h room =
    push_units-name_units n [] acc tt room ∙ ap (λ t. acc ++ t) (take_nil n)
  where
    take_nil : (n : ℕ) → take {A = ℕ} n [] ≡ []
    take_nil zero = refl
    take_nil (suc n) = refl
push_units-name_units (suc n) (c ∷ name) acc h room =
    let unit : push_unit (c + 0) acc ≡ acc ++ c ∷ [] =
      ap (λ u. push_unit u acc) (omega arith) ∙ push_unit_ascii c acc h.0 h.1 (omega arith) in
    ap (λ a. push_units n (name_units n name) a) unit
    ∙ push_units-name_units n name (acc ++ c ∷ []) h.2 (omega (arith, length-append acc (c ∷ [])))
    ∙ append_assoc acc (c ∷ []) (take n name)

-- One entry other than the end mark.
pub parse_from_cons :
    (idx : ℕ) (e : List ℕ) (rest : List (List ℕ)) (p : Parse)
    → (get_or e 0 0 == 0) ≡ false
    → parse_from idx (e ∷ rest) p ≡ parse_from (suc idx) rest (parse_entry idx e p)
unfolding parse_from
parse_from_cons idx e rest p h = rw h refl

abbrev pub under_way : List DirFile → DirFile → ℕ → Parse
under_way out f n = record { out = out; current = some f; secondaries_left = n }

abbrev pub finished : List DirFile → DirFile → Parse
finished out f = record { out = out ++ f ∷ []; current = none; secondaries_left = 0 }

add_secondary_part :
    (name : List ℕ) (f : DirFile)
    → IsAscii name
    → length (f.name) + length name ≤ 255
    → add_secondary (0xc1 ∷ 0 ∷ name_units 15 name) f ≡ record f { name = f.name ++ take 15 name }
unfolding add_secondary
add_secondary_part name f h room =
    ap (λ t. record f { name = t }) (push_units-name_units 15 name f.name h room)

-- A part of the name, the last of its set or not.
parse_part_last :
    (idx : ℕ) (name : List ℕ) (out : List DirFile) (f : DirFile)
    → parse_entry idx (0xc1 ∷ 0 ∷ name_units 15 name) (under_way out f 1)
      ≡ finished out (add_secondary (0xc1 ∷ 0 ∷ name_units 15 name) f)
unfolding parse_entry
parse_part_last idx name out f = refl

parse_part_more :
    (n idx : ℕ) (name : List ℕ) (out : List DirFile) (f : DirFile)
    → parse_entry idx (0xc1 ∷ 0 ∷ name_units 15 name) (under_way out f (suc (suc n)))
      ≡ under_way out (add_secondary (0xc1 ∷ 0 ∷ name_units 15 name) f) (suc n)
unfolding parse_entry
parse_part_more n idx name out f = let more : (suc n == 0) ≡ false = ground arith in rw more refl

take_all : (n : ℕ) (xs : List ℕ) → length xs ≤ n → take n xs ≡ xs
take_all zero [] h = refl
take_all zero (x ∷ xs) h = absurd (omega arith)
take_all (suc n) [] h = refl
take_all (suc n) (x ∷ xs) h = ap (λ t. x ∷ t) (take_all n xs (omega arith))

-- The parts of a name, read while a set is in progress, finished it.
pub parse-name_parts :
    (n idx : ℕ) (name : List ℕ) (later : List (List ℕ)) (out : List DirFile) (f : DirFile)
    → IsAscii name
    → length (f.name) + length name ≤ 255
    → length name ≤ 15 * suc n
    → parse_from idx (name_parts (suc n) name ++ later) (under_way out f (suc n))
      ≡ parse_from (idx + suc n) later (finished out (record f { name = f.name ++ name }))
unfolding name_parts
parse-name_parts zero idx name later out f h room few =
    parse_from_cons idx (0xc1 ∷ 0 ∷ name_units 15 name) later (under_way out f 1) refl
    ∙ ap (λ p. parse_from (suc idx) later p)
        (parse_part_last idx name out f
          ∙ ap (finished out) (
              add_secondary_part name f h room
              ∙ ap (λ t. record f { name = f.name ++ t }) (take_all 15 name few)))
    ∙ ap (λ i. parse_from i later (finished out (record f { name = f.name ++ name }))) (omega arith)
parse-name_parts (suc n) idx name later out f h room few =
    let f' : DirFile = record f { name = f.name ++ take 15 name } in
    parse_from_cons idx (0xc1 ∷ 0 ∷ name_units 15 name) (name_parts (suc n) (drop 15 name) ++ later)
      (under_way out f (suc (suc n))) refl
    ∙ ap (λ p. parse_from (suc idx) (name_parts (suc n) (drop 15 name) ++ later) p)
        (parse_part_more n idx name out f
          ∙ ap (λ g. under_way out g (suc n)) (add_secondary_part name f h room))
    ∙ parse-name_parts n (suc idx) (drop 15 name) later out f' (drop-IsAscii 15 name h)
        (omega (
          arith,
          length-append f.name (take 15 name),
          length-take 15 name,
          length-drop 15 name,
          room,
        ))
        (omega (arith, length-drop 15 name, few))
    ∙ ap (λ t. parse_from (suc idx + suc n) later (finished out (record f { name = t })))
        (append_assoc f.name (take 15 name) (drop 15 name)
          ∙ ap (λ t. f.name ++ t) (take-append-drop 15 name))
    ∙ ap (λ i. parse_from i later (finished out (record f { name = f.name ++ name }))) (omega arith)
