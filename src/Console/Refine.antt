-- ===== src/Console/Refine.antt =====
-- The ring of keyboard.rs behaves as the queue of Console/Spec.
use native.Mathlib.Numerals.{add-one}
use mmurtl_rs.Base.{
  ℕ, zero, suc, ◌+◌, ◌-◌, ◌%◌, ◌≤◌, ◌<◌, ◌≡◌, ◌≢◌, refl, sym, ap, ◌∙◌, true, false, List, [], ◌∷◌,
  ◌++◌, length, get_or, set, length-set, length-append, ◌==◌, arith, Bool-cases, inl, inr, subst,
}
use mmurtl_rs.Console.{InputQueue, queue_size, push, pop, ends_line}
use mmurtl_rs.Console.Spec
use mmurtl_rs.Console.Spec.{Input}

pub record IsValid (q : InputQueue) : Type 0 where
  pub size : length q.bytes ≡ queue_size
  pub tail_in : q.tail < queue_size
  pub head_at : q.head ≡ (q.tail + q.len) % queue_size
  pub len_in : q.len ≤ queue_size

-- The `n` bytes from index `t` on, going round.
abbrev pub from : List ℕ → ℕ → ℕ → List ℕ
from buf t zero = []
from buf t (suc n) = from buf t n ++ get_or buf ((t + n) % queue_size) 0 ∷ []

length-from : (buf : List ℕ) (t n : ℕ) → length (from buf t n) ≡ n
length-from buf t zero = refl
length-from buf t (suc n) =
    omega (
      arith,
      length-append (from buf t n) (get_or buf ((t + n) % 1024) 0 ∷ []),
      length-from buf t n,
    )

get_or-set_self : (xs : List ℕ) (i v : ℕ) → i < length xs → get_or (set xs i v) i 0 ≡ v
get_or-set_self [] i v h = absurd (omega arith)
get_or-set_self (x ∷ xs) zero v h = refl
get_or-set_self (x ∷ xs) (suc i) v h = get_or-set_self xs i v (omega arith)

get_or-set_ne : (xs : List ℕ) (i j v : ℕ) → i ≢ j → get_or (set xs i v) j 0 ≡ get_or xs j 0
get_or-set_ne [] i j v h = refl
get_or-set_ne (x ∷ xs) zero zero v h = absurd (h refl)
get_or-set_ne (x ∷ xs) zero (suc j) v h = refl
get_or-set_ne (x ∷ xs) (suc i) zero v h = refl
get_or-set_ne (x ∷ xs) (suc i) (suc j) v h = get_or-set_ne xs i j v (λ e. h (ap suc e))

-- A write past the bytes leaves them alone.
from-set :
    (buf : List ℕ) (t n m c : ℕ)
    → n ≤ m
    → m < queue_size
    → from (set buf ((t + m) % queue_size) c) t n ≡ from buf t n
from-set buf t zero m c le lt = refl
from-set buf t (suc n) m c le lt =
    let apart : (t + m) % 1024 ≢ (t + n) % 1024 = omega arith in
    rw (from-set buf t n m c (omega arith) lt)
      (ap (λ (x : ℕ). from buf t n ++ x ∷ []) (get_or-set_ne buf ((t + m) % 1024) _ c apart))

-- The oldest byte comes first.
from-suc :
    (buf : List ℕ) (t n : ℕ)
    → t < queue_size
    → from buf t (suc n) ≡ get_or buf t 0 ∷ from buf ((t + 1) % queue_size) n
from-suc buf t zero lt = ap (λ (i : ℕ). get_or buf i 0 ∷ []) (omega arith)
from-suc buf t (suc n) lt =
    let e : (t + suc n) % 1024 ≡ ((t + 1) % 1024 + n) % 1024 = omega arith in
    rw (from-suc buf t n lt)
      (ap (λ (i : ℕ). get_or buf t 0 ∷ (from buf ((t + 1) % 1024) n ++ get_or buf i 0 ∷ [])) e)

pub view : InputQueue → Input
view q = record { pending = from q.bytes q.tail q.len; told = q.lost; skipping = q.discarding }

pub push-IsValid : (c : ℕ) (q : InputQueue) → IsValid q → IsValid (push c q)
unfolding push
push-IsValid c q v = ground (arith, length-set q.bytes q.head c)

pub pop-IsValid : (q : InputQueue) → IsValid q → IsValid (pop q).1
unfolding pop
pop-IsValid q v = ground arith

stored :
    (buf : List ℕ) (t n c i : ℕ)
    → length buf ≡ queue_size
    → n < queue_size
    → i ≡ (t + n) % queue_size
    → from (set buf i c) t (n + 1) ≡ from buf t n ++ c ∷ []
stored buf t n c i size room e =
    subst (λ k. from (set buf k c) t (n + 1) ≡ from buf t n ++ c ∷ []) (sym e)
      (subst (λ k. from (set buf ((t + n) % queue_size) c) t k ≡ from buf t n ++ c ∷ [])
        (sym (add-one n))
        (rw (from-set buf t n n c (omega arith) room) (
          ap (λ (x : ℕ). from buf t n ++ x ∷ [])
            (get_or-set_self buf ((t + n) % 1024) c (omega arith)))))

oldest :
    (buf : List ℕ) (t n : ℕ)
    → t < queue_size
    → (n == 0) ≡ false
    → from buf t n ≡ get_or buf t 0 ∷ from buf ((t + 1) % queue_size) (n - 1)
oldest buf t zero lt h = absurd (ground arith)
oldest buf t (suc n) lt h =
    let e : n ≡ suc n - 1 = omega arith in
    from-suc buf t n lt ∙ ap (λ k. get_or buf t 0 ∷ from buf ((t + 1) % queue_size) k) e

-- Pushing a byte does to the queue what the specification says.
pub push_refines : (c : ℕ) (q : InputQueue) → IsValid q → view (push c q) ≡ Spec.push c (view q)
unfolding push view Spec.push
push_refines c q v = elim (Bool-cases q.discarding) [
  | inl d ↦ rw d (ground arith)
  | inr d ↦ elim (Bool-cases (q.len == queue_size)) [
    | inl full ↦ ground (arith, length-from q.bytes q.tail q.len)
    | inr room ↦ ground (
      arith,
      length-from q.bytes q.tail q.len,
      stored q.bytes q.tail q.len c q.head v.size,
      v.head_at,
    )
  ]
]

-- Popping returns the event that the specification says, and leaves the queue that it says.
pub pop_refines :
    (q : InputQueue)
    → IsValid q
    → ((pop q).0 ≡ (Spec.pop (view q)).0) × (view (pop q).1 ≡ (Spec.pop (view q)).1)
unfolding pop view Spec.pop
pop_refines q v = elim (Bool-cases q.lost) [
  | inl l ↦ (ground arith, ground arith)
  | inr l ↦ elim (Bool-cases (q.len == 0)) [
    | inl e ↦
        let zero_len : q.len ≡ 0 = ground arith in
        let nothing : from q.bytes q.tail q.len ≡ [] = ap (from q.bytes q.tail) zero_len in
        (ground (arith, nothing), ground (arith, nothing))
    | inr e ↦ (
      ground (arith, oldest q.bytes q.tail q.len v.tail_in),
      ground (arith, oldest q.bytes q.tail q.len v.tail_in),
    )
  ]
]

pub push_all : List ℕ → InputQueue → InputQueue
push_all [] q = q
push_all (c ∷ cs) q = push_all cs (push c q)

abbrev pub NoLineEnd : List ℕ → Type 0
NoLineEnd [] = Unit
NoLineEnd (c ∷ cs) = (ends_line c ≡ false) × NoLineEnd cs

push-discarding :
    (c : ℕ) (q : InputQueue) → q.discarding ≡ true → ends_line c ≡ false → push c q ≡ q
unfolding push
push-discarding c q d e = rw (d, e)

-- Once a byte was lost, the rest of that line is dropped with the byte that ends it, and only then
-- is the queue open again: what it holds does not change meanwhile.
pub push_all-line :
    (cs : List ℕ) (last : ℕ) (q : InputQueue)
    → q.discarding ≡ true
    → NoLineEnd cs
    → ends_line last ≡ true
    → (push_all cs q ≡ q) × (push_all (cs ++ last ∷ []) q ≡ record q { discarding = false })
unfolding push_all
push_all-line [] last q d no_end e = (refl, unfold push in rw (d, e))
push_all-line (c ∷ cs) last q d no_end e =
    let same = push-discarding c q d no_end.0 in
    let (kept, closed) = push_all-line cs last q d no_end.1 e in
    (ap (push_all cs) same ∙ kept, ap (push_all (cs ++ last ∷ [])) same ∙ closed)
