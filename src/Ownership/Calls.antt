-- ===== src/Ownership/Calls.antt =====
-- virtio/ownership.rs: what `reserve` and `complete` do, on every branch.
use mmurtl_rs.Base.{
  ℕ, zero, suc, ◌+◌, ◌-◌, ◌%◌, ◌^◌, ◌≤◌, ◌<◌, ◌≡◌, ◌⊎◌, inl, inr, refl, sym, ap, subst, ◌∙◌, Bool,
  true, false, not, ◌&&◌, ◌==◌, ◌||◌, ltb, if◌then◌else◌, Option, none, some, List, [], get_elem?,
  arith, Bool-cases, Option-cases, get_elem?-lt, get_elem?-set_self, ==_iff, &&_both,
}
use mmurtl_rs.Ownership.{Ownership, walk, reserve, complete, poison, expects}
use mmurtl_rs.Ownership.Lists.{IsLinked, IsLinked-split, walk-IsLinked, split_at}
use mmurtl_rs.Ownership.Valid.{Place, IsValid}
use mmurtl_rs.Ownership.Reserve.{reserved-IsValid, head_in_pending, whole}
use mmurtl_rs.Ownership.Complete.{completed-IsValid, split_last}

-- Every descriptor is free or in one chain, and in one place.
unfoldable pub IsOwned : ℕ → Ownership → Type 0
IsOwned size o =
    (place : Place) × (free_ids : List ℕ) × (chains : ℕ → List ℕ) × IsValid size place free_ids
      chains o

pub poison-IsOwned : (size : ℕ) (o : Ownership) → IsOwned size o → IsOwned size (poison o)
unfolding IsOwned
poison-IsOwned size o (place, free_ids, chains, v) = (
  place,
  free_ids,
  chains,
  record {
    small = v.small;
    next_size = v.next_size;
    pending_size = v.pending_size;
    last = v.last;
    linked = v.linked;
    counted = v.counted;
    placed = v.placed;
    lent = v.lent;
    conserved = v.conserved;
    covered = v.covered;
  },
)

-- What a reservation of `count` descriptors does.
unfoldable pub Reserves : ℕ → ℕ → Ownership → Option ℕ → Ownership → Type 0
Reserves size count o r o' =
    ((r ≡ none) × (o' ≡ o) × ((o.broken ≡ true) ⊎ ((count ≡ 0) ⊎ (o.free < count))))
    ⊎ ((o.broken ≡ false)
        × (0 < count)
        × (r ≡ some o.free_head)
        × (o'.free + count ≡ o.free)
        × (get_elem? o'.pending o.free_head ≡ some count))

lends :
    (size k : ℕ) (o : Ownership)
    → o.broken ≡ false
    → suc k ≤ o.free
    → IsOwned size o
    → (o' : Ownership) × (reserve (suc k) o ≡ some (some o.free_head, o'))
      × IsOwned size o'
      × (o'.free + suc k ≡ o.free)
      × (get_elem? o'.pending o.free_head ≡ some (suc k))
unfolding reserve IsOwned
lends size k o working enough (place, free_ids, chains, v) =
    let (front, t, rest, e, len) = split_at k free_ids (omega (arith, v.counted)) in
    let linked = subst (λ ids. IsLinked o.next o.free_head ids v.last) e v.linked in
    let (before, m, at, behind) = IsLinked-split o.next o.free_head v.last front t rest linked in
    let steps : walk o.next (suc k - 1) o.free_head ≡ some t =
      ap (λ n. walk o.next n o.free_head) (omega (arith, len))
      ∙ walk-IsLinked o.next o.free_head t front before in
    let passes : (o.broken || suc k == 0 || ltb o.free (suc k)) ≡ false = ground arith in
    let valid =
      reserved-IsValid size place free_ids chains o v k front t rest e len m at before behind in
    (
      _,
      rw (passes, steps, at) refl,
      (_, _, _, valid),
      omega (arith, enough),
      get_elem?-set_self o.pending o.free_head (suc k % 2 ^ 16)
            (head_in_pending size place free_ids chains o v k front t rest e len)
          ∙ ap some (whole size place free_ids chains o v k front t rest e len),
    )

refuses :
    (count : ℕ) (o : Ownership)
    → (o.broken || count == 0 || ltb o.free count) ≡ true
    → reserve count o ≡ some (none, o)
unfolding reserve
refuses count o stops = rw stops refl

refusal :
    (count : ℕ) (o : Ownership)
    → (o.broken || count == 0 || ltb o.free count) ≡ true
    → (o.broken ≡ true) ⊎ ((count ≡ 0) ⊎ (o.free < count))
refusal count o stops = elim (Bool-cases o.broken) [
  | inl b ↦ inl b
  | inr b ↦ elim (Bool-cases (count == 0)) [
    | inl z ↦ inr (inl ((==_iff count 0).0 z))
    | inr z ↦ inr (inr (ground arith))
  ]
]

-- On a queue whose descriptors are all free or in one chain, `reserve` never panics and keeps that so.
-- It refuses and changes nothing where the queue is broken, the count is 0, or fewer descriptors are
-- free; otherwise it lends a chain of exactly `count` descriptors that were free.
pub reserve_lem :
    (size count : ℕ) (o : Ownership)
    → IsOwned size o
    → (r : Option ℕ) × (o' : Ownership) × (reserve count o ≡ some (r, o'))
      × IsOwned size o'
      × Reserves size count o r o'
unfolding Reserves
reserve_lem size count o v = elim (Bool-cases (o.broken || count == 0 || ltb o.free count)) [
  | inl stops ↦ (none, o, refuses count o stops, v, inl (refl, refl, refusal count o stops))
  | inr goes ↦ going count goes
]
  where
    going :
        (n : ℕ)
        → (o.broken || n == 0 || ltb o.free n) ≡ false
        → (r : Option ℕ) × (o' : Ownership) × (reserve n o ≡ some (r, o'))
          × IsOwned size o'
          × Reserves size n o r o'
    going zero goes = absurd (ground arith)
    going (suc k) goes =
        let (o', done, v', fewer, lent) = lends size k o (ground arith) (ground arith) v in
        (some o.free_head, o', done, v', inr (ground arith, omega arith, refl, fewer, lent))

-- Whether a completion names a chain that is lent, with its count.
abbrev pub names_lent : Option ℕ → ℕ → ℕ → Option ℕ → Bool
names_lent none id count expected = false
names_lent (some lent) id count expected = not (count == 0) && lent == count && expects expected id

abbrev pub is_well_formed : ℕ → ℕ → Option ℕ → Ownership → Bool
is_well_formed id count expected o = names_lent (get_elem? o.pending id) id count expected

else_branch : {A : Type 0} (b : Bool) (x y : A) → b ≡ false → (if b then x else y) ≡ y
else_branch true x y h = cc
else_branch false x y h = refl

well_formed_parts :
    (id count : ℕ) (expected : Option ℕ) (o : Ownership)
    → is_well_formed id count expected o ≡ true
    → (lent : ℕ) × (get_elem? o.pending id ≡ some count)
      × ((count == 0) ≡ false)
      × (expects expected id ≡ true)
well_formed_parts id count expected o good = elim (Option-cases (get_elem? o.pending id)) [
  | inl e ↦
      let no : false ≡ true = sym (ap (λ l. names_lent l id count expected) e) ∙ good in absurd (cc)
  | inr (lent, e) ↦
      let all : (not (count == 0) && lent == count && expects expected id) ≡ true =
        sym (ap (λ l. names_lent l id count expected) e) ∙ good in
      let (both, wanted) = &&_both (not (count == 0) && lent == count) (expects expected id) all in
      let (nonzero, same) = &&_both (not (count == 0)) (lent == count) both in
      (lent, e ∙ ap some ((==_iff lent count).0 same), ground arith, wanted)
]

-- What a completion does.
unfoldable pub Completes : ℕ → ℕ → Option ℕ → Ownership → Option ℕ → Ownership → Type 0
Completes id count expected o r o' =
    ((o.broken ≡ true) × (r ≡ none) × (o' ≡ o))
    ⊎ (((o.broken ≡ false)
          × (is_well_formed id count expected o ≡ false)
          × (r ≡ none)
          × (o' ≡ poison o))
        ⊎ ((o.broken ≡ false)
            × (is_well_formed id count expected o ≡ true)
            × (r ≡ some id)
            × (o'.free ≡ o.free + count)
            × (get_elem? o'.pending id ≡ some 0)))

takes_back :
    (size id k : ℕ) (expected : Option ℕ) (o : Ownership)
    → o.broken ≡ false
    → get_elem? o.pending id ≡ some (suc k)
    → expects expected id ≡ true
    → IsOwned size o
    → (o' : Ownership) × (complete id (suc k) expected o ≡ some (some id, o'))
      × IsOwned size o'
      × (o'.free ≡ o.free + suc k)
      × (get_elem? o'.pending id ≡ some 0)
unfolding complete IsOwned
takes_back size id k expected o working lent wanted (place, free_ids, chains, v) =
    let chain = v.lent id (suc k) lent (omega arith) in
    let (front, t, e, len) = split_last k (chains id) chain.counted in
    let linked = subst (λ ids. IsLinked o.next id ids chain.last) e chain.linked in
    let (before, m, at, behind) = IsLinked-split o.next id chain.last front t [] linked in
    let steps : walk o.next (suc k - 1) id ≡ some t =
      ap (λ n. walk o.next n id) (omega (arith, len)) ∙ walk-IsLinked o.next id t front before in
    let passes : (suc k == 0 || not (suc k == suc k) || not (expects expected id)) ≡ false =
      ground arith in
    let valid = completed-IsValid size place free_ids chains o v id k lent front t e m at before in
    (
      _,
      else_branch o.broken _ _ working ∙ rw (lent, passes, steps) refl,
      (_, _, _, valid),
      refl,
      get_elem?-set_self o.pending id 0 (get_elem?-lt o.pending id lent),
    )

refuses_completion :
    (id count : ℕ) (expected : Option ℕ) (o : Ownership)
    → o.broken ≡ false
    → is_well_formed id count expected o ≡ false
    → complete id count expected o ≡ some (none, poison o)
unfolding complete
refuses_completion id count expected o working bad = elim (Option-cases (get_elem? o.pending id)) [
  | inl e ↦ rw (working, e) refl
  | inr (lent, e) ↦
      let malformed : (not (count == 0) && lent == count && expects expected id) ≡ false =
        sym (ap (λ l. names_lent l id count expected) e) ∙ bad in
      let stops : (count == 0 || not (lent == count) || not (expects expected id)) ≡ true =
        denied (count == 0) (lent == count) (expects expected id) malformed in
      rw (working, e, stops) refl
]
  where
    denied : (a b c : Bool) → (not a && b && c) ≡ false → (a || not b || not c) ≡ true
    denied a b c h = ground arith

broken_completion :
    (id count : ℕ) (expected : Option ℕ) (o : Ownership)
    → o.broken ≡ true
    → complete id count expected o ≡ some (none, o)
unfolding complete
broken_completion id count expected o b = rw b refl

-- On a queue whose descriptors are all free or in one chain, `complete` never panics and keeps that so.
-- A broken queue is left as it is; a completion that does not name the head of a chain that is lent with
-- its count, or not the chain that is expected, breaks the queue; any other frees the chain and yields it.
pub complete_lem :
    (size id count : ℕ) (expected : Option ℕ) (o : Ownership)
    → IsOwned size o
    → (r : Option ℕ) × (o' : Ownership) × (complete id count expected o ≡ some (r, o'))
      × IsOwned size o'
      × Completes id count expected o r o'
unfolding Completes
complete_lem size id count expected o v = elim (Bool-cases o.broken) [
  | inl b ↦ (none, o, broken_completion id count expected o b, v, inl (b, refl, refl))
  | inr b ↦ elim (Bool-cases (is_well_formed id count expected o)) [
    | inr bad ↦ (
      none,
      poison o,
      refuses_completion id count expected o b bad,
      poison-IsOwned size o v,
      inr (inl (b, bad, refl, refl)),
    )
    | inl good ↦
        let (lent, at, counted, wanted) = well_formed_parts id count expected o good in
        freed count b good at counted wanted
  ]
]
  where
    freed :
        (n : ℕ)
        → o.broken ≡ false
        → is_well_formed id n expected o ≡ true
        → get_elem? o.pending id ≡ some n
        → (n == 0) ≡ false
        → expects expected id ≡ true
        → (r : Option ℕ) × (o' : Ownership) × (complete id n expected o ≡ some (r, o'))
          × IsOwned size o'
          × Completes id n expected o r o'
    freed zero b good at counted wanted = absurd (ground arith)
    freed (suc k) b good at counted wanted =
        let (o', done, v', more, cleared) = takes_back size id k expected o b at wanted v in
        (some id, o', done, v', inr (inr (b, good, refl, more, cleared)))
