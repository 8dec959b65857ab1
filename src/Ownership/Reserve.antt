-- ===== src/Ownership/Reserve.antt =====
-- virtio/ownership.rs: a reservation lends a chain of free descriptors.
use mmurtl_rs.Base.{
  Bool-cases, get_elem?-set_ne, get_elem?-set_self, ℕ, zero, suc, ◌+◌, ◌-◌, ◌%◌, ◌^◌, ◌<◌, ◌≡◌, ◌≢◌,
  ◌⊎◌, inl, inr, refl, sym, ap, subst, ◌∙◌, true, false, ◌==◌, if◌then◌else◌, none, some, List, [],
  ◌∷◌, ◌++◌, length, get_elem?, set, arith, length-append, length-set, lt-get_elem?, get_elem?-lt,
  set_cases,
}
use mmurtl_rs.Ownership.{Ownership, end_mark}
use mmurtl_rs.Ownership.Lists.{
  IsLinked, IsIn, IsIn-split, IsPlaced, IsWithout, set-IsLinked, behind-IsWithout,
  elsewhere-IsWithout, ahead-IsWithout, IsPlaced-back, total-set,
}
use mmurtl_rs.Ownership.Valid.{
  Place, IsChain, IsCovered, IsValid, lend, lend-front, lend-rest, lend-chain, relinked,
}
use mathlib.Core.List.{append_assoc}

head_of :
    (place : Place) (next : List ℕ) (head end : ℕ) (xs : List ℕ) (t : ℕ) (ys : List ℕ)
    → IsLinked next head (xs ++ t ∷ ys) end
    → IsPlaced place none (xs ++ t ∷ ys)
    → (r : ℕ) × (place head ≡ (none, r))
head_of place next head end [] t ys (e, n, at, k) (here, l) =
    (length ys, subst (λ h. place h ≡ (none, length ys)) e here)
head_of place next head end (x ∷ xs) t ys (e, n, at, k) (here, l) =
    (length (xs ++ t ∷ ys), subst (λ h. place h ≡ (none, length (xs ++ t ∷ ys))) e here)

head_lt :
    (next : List ℕ) (head end : ℕ) (xs : List ℕ) (t : ℕ) (ys : List ℕ)
    → IsLinked next head (xs ++ t ∷ ys) end
    → head < length next
head_lt next head end [] t ys (e, n, at, k) =
    subst (λ h. h < length next) e (get_elem?-lt next t at)
head_lt next head end (x ∷ xs) t ys (e, n, at, k) =
    subst (λ h. h < length next) e (get_elem?-lt next x at)

module _ (size : ℕ) (place : Place) (free_ids : List ℕ) (chains : ℕ → List ℕ) (o : Ownership)
    (v : IsValid size place free_ids chains o) where
  -- No chain is lent at a free descriptor.
  not_lent :
      (id r count : ℕ) → place id ≡ (none, r) → get_elem? (o.pending) id ≡ some count → count ≡ 0
  not_lent id r zero at lent = refl
  not_lent id r (suc n) at lent = lent_at (chains id) (v.lent id (suc n) lent (omega arith))
    where
      lent_at : (ids : List ℕ) → IsChain place ids (o.next) id (suc n) → suc n ≡ 0
      lent_at [] c = absurd (omega (arith, c.counted))
      lent_at (x ∷ ids) c =
          let here : place id ≡ (some id, length ids) =
            subst (λ y. place y ≡ (some id, length ids)) (c.linked.0) (c.placed.0) in
          let clash : none ≡ some id = ap (λ p. p.0) (sym at ∙ here) in absurd (cc)

  -- The first `k + 1` free descriptors are lent.
  module _ (k : ℕ) (front : List ℕ) (t : ℕ) (rest : List ℕ) (e : free_ids ≡ front ++ t ∷ rest)
      (len : length front ≡ k) where
    abbrev after : ℕ → Ownership
    after m = record o {
      next = set o.next t end_mark;
      pending = set o.pending o.free_head (suc k % 2 ^ 16);
      free_head = m;
      free = o.free - suc k;
    }

    abbrev chains_after : ℕ → List ℕ
    chains_after h = if o.free_head == h then front ++ t ∷ [] else chains h

    IsPlaced-before : IsPlaced place none (front ++ t ∷ rest)
    IsPlaced-before = subst (IsPlaced place none) e v.placed

    t_place : place t ≡ (none, length rest)
    t_place = (IsPlaced-back place none front (t ∷ rest) IsPlaced-before).0

    free_after : length free_ids ≡ suc k + length rest
    free_after = ap length e ∙ omega (arith, len, length-append front (t ∷ rest))

    not_in_front : IsWithout t front
    not_in_front =
        ahead-IsWithout place none t (length rest) front (t ∷ rest) t_place (omega arith)
          IsPlaced-before

    head_place : (r : ℕ) × (place o.free_head ≡ (none, r))
    head_place =
        head_of place o.next o.free_head v.last front t rest
          (subst (λ ids. IsLinked o.next o.free_head ids v.last) e v.linked) IsPlaced-before

    IsLinked-before : IsLinked o.next o.free_head (front ++ t ∷ rest) v.last
    IsLinked-before = subst (λ ids. IsLinked o.next o.free_head ids v.last) e v.linked

    pub head_in_pending : o.free_head < length o.pending
    head_in_pending =
        let lt : o.free_head < length o.next =
          head_lt o.next o.free_head v.last front t rest IsLinked-before in
        omega (arith, v.next_size, v.pending_size)

    pub whole : suc k % 2 ^ 16 ≡ suc k
    whole = omega (arith, free_after, v.counted, v.conserved, v.small)

    lent_chain :
        (m : ℕ)
        → get_elem? o.next t ≡ some m
        → IsLinked o.next o.free_head front t
        → IsChain
            (lend o.free_head (length rest) place)
            (front ++ t ∷ [])
            (set o.next t end_mark)
            o.free_head
            (suc k)
    lent_chain m at before = record {
      last = end_mark;
      linked = relinked o.next o.free_head t end_mark m front not_in_front before at;
      counted = omega (arith, length-append front (t ∷ []), len);
      placed =
          lend-front o.free_head place (front ++ t ∷ []) rest
            (subst (IsPlaced place none) (sym (append_assoc front (t ∷ []) rest)) IsPlaced-before);
    }

    -- A chain is the one that was lent now, or an old one.
    lent_after :
        (m : ℕ)
        → get_elem? o.next t ≡ some m
        → IsLinked o.next o.free_head front t
        → (h c : ℕ)
        → ((o.free_head ≡ h) × (c ≡ suc k % 2 ^ 16))
          ⊎ ((o.free_head ≢ h) × (get_elem? o.pending h ≡ some c))
        → 0 < c
        → IsChain
            (lend o.free_head (length rest) place)
            (chains_after h)
            (set o.next t end_mark)
            h
            c
    lent_after m at before h c (inl (same, count)) pos =
        let here : (o.free_head == o.free_head) ≡ true = ground arith in
        subst
          (λ x.
            IsChain (lend o.free_head (length rest) place) (chains_after x) (set o.next t end_mark)
              x c)
          same
          (rw here (
            subst
              (λ n.
                IsChain (lend o.free_head (length rest) place) (front ++ t ∷ [])
                  (set o.next t end_mark) o.free_head n)
              (sym (count ∙ whole)) (lent_chain m at before)))
    lent_after m at before h c (inr (ne, old)) pos =
        let other : (o.free_head == h) ≡ false = ground arith in
        let chain = v.lent h c old pos in
        rw other (record {
          last = chain.last;
          linked =
              set-IsLinked o.next t end_mark h chain.last (chains h)
                (elsewhere-IsWithout place (some h) none t (length rest) (chains h) t_place
                  (λ q. cc) chain.placed)
                chain.linked;
          counted = chain.counted;
          placed = lend-chain o.free_head (length rest) h place (chains h) chain.placed;
        })

    -- A free descriptor stays free or is lent now; one that was lent stays lent.
    IsCovered-after :
        (d : ℕ)
        → IsCovered free_ids chains o.pending d
        → IsCovered rest chains_after (set o.pending o.free_head (suc k % 2 ^ 16)) d
    IsCovered-after d (inl free_one) =
        let here : (o.free_head == o.free_head) ≡ true = ground arith in
        let both : IsIn d ((front ++ t ∷ []) ++ rest) =
          subst (IsIn d) (e ∙ sym (append_assoc front (t ∷ []) rest)) free_one in
        elim (IsIn-split d (front ++ t ∷ []) rest both) [
          | inl lent ↦ inr (
            o.free_head,
            suc k % 2 ^ 16,
            get_elem?-set_self o.pending o.free_head (suc k % 2 ^ 16) head_in_pending,
            omega (arith, whole),
            rw here lent,
          )
          | inr left ↦ inl left
        ]
    IsCovered-after d (inr (h, c, at, pos, member)) =
        let (r, place_head) = head_place in
        elim (Bool-cases (o.free_head == h)) [
          | inl same ↦
              let here : o.free_head ≡ h = ground arith in
              let at_head : get_elem? o.pending o.free_head ≡ some c =
                ap (get_elem? o.pending) here ∙ at in
              absurd (omega (arith, not_lent o.free_head r c place_head at_head, pos))
          | inr other ↦
              let apart : o.free_head ≢ h = ground arith in
              inr (
                h,
                c,
                get_elem?-set_ne o.pending o.free_head h (suc k % 2 ^ 16) apart ∙ at,
                pos,
                rw other member,
              )
        ]

    pub reserved-IsValid :
        (m : ℕ)
        → get_elem? o.next t ≡ some m
        → IsLinked o.next o.free_head front t
        → IsLinked o.next m rest v.last
        → IsValid size (lend o.free_head (length rest) place) rest chains_after (after m)
    reserved-IsValid m at before behind = record {
      small = v.small;
      next_size = length-set o.next t end_mark ∙ v.next_size;
      pending_size = length-set o.pending o.free_head (suc k % 2 ^ 16) ∙ v.pending_size;
      last = v.last;
      linked =
          set-IsLinked o.next t end_mark m v.last rest
            (behind-IsWithout place none t (length rest) rest t_place (omega arith) rest_placed)
            behind;
      counted = omega (arith, free_after, v.counted);
      placed = lend-rest o.free_head (length rest) place rest (omega arith) rest_placed;
      lent = λ h c lent pos.
          lent_after m at before h c (set_cases o.pending o.free_head h (suc k % 2 ^ 16) lent) pos;
      covered = λ d lt. IsCovered-after d (v.covered d lt);
      conserved =
          let (old, at_head) = lt-get_elem? o.pending o.free_head head_in_pending in
          let (r, place_head) = head_place in
          omega (
            arith,
            total-set o.pending o.free_head (suc k % 2 ^ 16) at_head,
            not_lent o.free_head r old place_head at_head,
            whole,
            v.conserved,
            free_after,
            v.counted,
          );
    }
      where
        rest_placed : IsPlaced place none rest
        rest_placed = (IsPlaced-back place none front (t ∷ rest) IsPlaced-before).1
