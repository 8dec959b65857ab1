-- ===== src/Asids/Alloc.antt =====
-- The search for a tag that is not in use.
use mmurtl_rs.Base.{
  cycle_covers, ℕ, zero, suc, ◌+◌, ◌-◌, ◌%◌, ◌^◌, ◌≤◌, ◌<◌, ◌≡◌, ◌≢◌, refl, sym, ap, ◌∙◌, subst,
  inl, inr, true, false, ◌==◌, Option, none, some, arith, Bool-cases, if◌then◌else◌,
}
use native.Mathlib.Nat.{add-mod_right, mod-eq_of_lt}
use mmurtl_rs.Asids.{Asids, mark, allocate_in, allocate}
use mmurtl_rs.Asids.Valid.{IsTag, IsTagged}

abbrev pub moved : ℕ → Asids → Asids
moved n a = record a { next = n }

-- A tag that was not in use is returned and marked, or the place of the search alone moves.
pub data Finds (a : Asids) : Option ℕ × Asids → Type 0 where
  found :
      (n t : ℕ)
      → (1 ≤ n) × (n ≤ a.limit)
      → IsTag a t
      → a.used t ≡ false
      → Finds a (some t, mark t (moved n a))
  missed : (n : ℕ) → (1 ≤ n) × (n ≤ a.limit) → Finds a (none, moved n a)

-- The tag that the search looks at after `k` rounds.
abbrev slot : Asids → ℕ → ℕ
slot a k = 1 + (a.next - 1 + k) % a.limit

abbrev step : Asids → ℕ
step a = if a.next == a.limit then 1 else a.next + 1

allocate-hit :
    (left : ℕ) (a : Asids)
    → a.used a.next ≡ false
    → allocate_in (suc left) a ≡ (some (a.next % 2 ^ 16), mark a.next (moved (step a) a))
unfolding allocate_in
allocate-hit left a e = rw e refl

allocate-pass :
    (left : ℕ) (a : Asids)
    → a.used a.next ≡ true
    → allocate_in (suc left) a ≡ allocate_in left (moved (step a) a)
unfolding allocate_in
allocate-pass left a e = rw e refl

allocate_in-Finds :
    (left : ℕ) (a : Asids)
    → a.limit < 2 ^ 16
    → (1 ≤ a.next) × (a.next ≤ a.limit)
    → (a.used 0 ≡ true) × (a.used 255 ≡ true)
    → Finds a (allocate_in left a)
allocate_in-Finds zero a small next_in reserved = unfold allocate_in in missed a.next next_in
allocate_in-Finds (suc left) a small next_in reserved = elim (Bool-cases (a.used a.next)) [
  | inl busy ↦ subst (Finds a) (sym (allocate-pass left a busy)) (
      back (allocate_in left (moved (step a) a))
        (allocate_in-Finds left (moved (step a) a) small (ground arith) reserved))
  | inr idle ↦
      let same : a.next % 2 ^ 16 ≡ a.next = omega arith in
      let not_boot : a.next ≢ 255 = λ e. absurd (cc (sym (ap a.used e) ∙ idle, reserved.1)) in
      subst (Finds a)
        (sym (
          allocate-hit left a idle ∙ ap (λ (x : ℕ). (some x, mark a.next (moved (step a) a))) same))
        (found (step a) a.next (ground arith) (next_in.0, next_in.1, not_boot) idle)
]
  where
    back : (r : Option ℕ × Asids) → Finds (moved (step a) a) r → Finds a r
    back r (found n t n_in t_in free) = found n t n_in t_in free
    back r (missed n n_in) = missed n n_in

pub allocate-Finds : {g : ℕ} (a : Asids) → IsTagged g a → Finds a (allocate a)
unfolding allocate
allocate-Finds a v = allocate_in-Finds a.limit a v.small v.next_in v.reserved

-- Every tag that a space may have is in use.
abbrev pub IsFull : Asids → Type 0
IsFull a = (t : ℕ) → IsTag a t → a.used t ≡ true

slot-moved :
    (a : Asids) (k : ℕ)
    → (1 ≤ a.next) × (a.next ≤ a.limit)
    → slot (moved (step a) a) k ≡ slot a (suc k)
slot-moved a k (lo, hi) = elim (Bool-cases (a.next == a.limit)) [
  | inl e ↦
      let last : a.next - 1 + suc k ≡ k + a.limit = ground arith in
      let first : 1 - 1 + k ≡ k = omega arith in rw (e, last, add-mod_right k a.limit, first) refl
  | inr e ↦
      let further : a.next + 1 - 1 + k ≡ a.next - 1 + suc k = omega arith in rw (e, further) refl
]

visited :
    (left : ℕ) (a : Asids)
    → (1 ≤ a.next) × (a.next ≤ a.limit)
    → a.used a.next ≡ true
    → ((k : ℕ) → k < left → a.used (slot (moved (step a) a) k) ≡ true)
    → (k : ℕ) → k < suc left
    → a.used (slot a k) ≡ true
visited left a next_in busy later zero lt =
    let here : slot a 0 ≡ a.next =
      ap (λ n. 1 + n) (mod-eq_of_lt (omega (arith, next_in))) ∙ omega (arith, next_in) in
    ap a.used here ∙ busy
visited left a next_in busy later (suc k) lt =
    ap a.used (sym (slot-moved a k next_in)) ∙ later k (omega arith)

-- A search that finds none has looked at the tag of each round.
allocate_in-visits :
    (left : ℕ) (a : Asids)
    → (1 ≤ a.next) × (a.next ≤ a.limit)
    → (allocate_in left a).0 ≡ none
    → (k : ℕ) → k < left
    → a.used (slot a k) ≡ true
allocate_in-visits zero a next_in miss k lt = absurd (omega arith)
allocate_in-visits (suc left) a next_in miss k lt = elim (Bool-cases (a.used a.next)) [
  | inr idle ↦
      let hit = ap (λ (r : Option ℕ × Asids). r.0) (allocate-hit left a idle) in
      absurd (cc (sym hit ∙ miss))
  | inl busy ↦
      let pass = ap (λ (r : Option ℕ × Asids). r.0) (allocate-pass left a busy) in
      visited left a next_in busy
        (allocate_in-visits left (moved (step a) a) (ground arith) (sym pass ∙ miss)) k lt
]

-- Where the search finds no tag, there is none.
pub allocate-IsFull : {g : ℕ} (a : Asids) → IsTagged g a → (allocate a).0 ≡ none → IsFull a
unfolding allocate
allocate-IsFull a v miss t (lo, hi, not_boot) =
    let (m, lt, at) = cycle_covers (a.next - 1) a.limit (t - 1) (omega arith) in
    let here : slot a m ≡ t = omega (arith, at) in
    ap a.used (sym here) ∙ allocate_in-visits a.limit a v.next_in miss m lt

-- Marking a tag and moving the search keep the tags apart.
pub mark-IsTagged :
    (g n t : ℕ) (a : Asids)
    → IsTagged g a
    → (1 ≤ n) × (n ≤ a.limit)
    → IsTagged g (mark t (moved n a))
mark-IsTagged g n t a v n_in = record {
  small = v.small;
  some_tags = v.some_tags;
  next_in = n_in;
  reserved = (ground (arith, v.reserved), ground (arith, v.reserved));
  roots = v.roots;
  tags = v.tags;
  apart = v.apart;
  marked = λ i s at user now. ground (arith, v.marked i s at user now);
  empty = v.empty;
  old = v.old;
}

pub moved-IsTagged :
    (g n : ℕ) (a : Asids) → IsTagged g a → (1 ≤ n) × (n ≤ a.limit) → IsTagged g (moved n a)
moved-IsTagged g n a v n_in = record {
  small = v.small;
  some_tags = v.some_tags;
  next_in = n_in;
  reserved = v.reserved;
  roots = v.roots;
  tags = v.tags;
  apart = v.apart;
  marked = v.marked;
  empty = v.empty;
  old = v.old;
}
