-- ===== src/Console/Tests.antt =====
-- Runs of the console's queue, and the instances of its theorems there.
use mmurtl_rs.Base.{
  ℕ, ◌≡◌, refl, true, false, some, [], ◌∷◌, ◌++◌, replicate, length-replicate, arith,
}
use mmurtl_rs.Console.{InputQueue, Keyboard, byte, new, push, pop, handle_scancode}
use mmurtl_rs.Console.Spec
use mmurtl_rs.Console.Refine.{
  IsValid, view, push_refines, pop_refines, push_all, push_all-line, push-IsValid, pop-IsValid,
}

-- Two bytes lie at the end of the ring, and the next goes round to its start.
abbrev wrapped : InputQueue
wrapped = record {
  bytes = replicate 1024 65;
  head = 0;
  tail = 1022;
  len = 2;
  lost = false;
  discarding = false;
}

wrapped-IsValid : IsValid wrapped
wrapped-IsValid = record {
  size = length-replicate {A = ℕ} 1024 65;
  tail_in = omega arith;
  head_at = omega arith;
  len_in = omega arith;
}

push_refines_example : view (push 66 wrapped) ≡ Spec.push 66 (view wrapped)
push_refines_example = push_refines 66 wrapped wrapped-IsValid

pop_refines_example :
    ((pop wrapped).0 ≡ (Spec.pop (view wrapped)).0)
    × (view (pop wrapped).1 ≡ (Spec.pop (view wrapped)).1)
pop_refines_example = pop_refines wrapped wrapped-IsValid

bytes_kept : IsValid (pop (push 66 wrapped)).1
bytes_kept = pop-IsValid (push 66 wrapped) (push-IsValid 66 wrapped wrapped-IsValid)

abbrev broken : InputQueue
broken = record wrapped { discarding = true; lost = true }

push_all-line_example :
    (push_all (68 ∷ 69 ∷ []) broken ≡ broken)
    × (push_all ((68 ∷ 69 ∷ []) ++ 10 ∷ []) broken ≡ record broken { discarding = false })
push_all-line_example = push_all-line (68 ∷ 69 ∷ []) 10 broken refl (refl, (refl, tt)) refl

-- Shift down, the key 2, shift up.
abbrev fresh : Keyboard
fresh = record { modifiers = 0; queue = new }

abbrev typed : Keyboard
typed = handle_scancode 0xaa (handle_scancode 3 (handle_scancode 0x2a fresh))

typed_at_sign : (pop typed.queue).0 ≡ some (byte b'@')
unfolding handle_scancode push pop new
typed_at_sign = refl
