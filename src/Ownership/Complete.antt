-- ===== src/Ownership/Complete.antt =====
-- virtio/ownership.rs: a completion puts a chain before the free descriptors.
use mmurtl_rs.Base.{
  Bool-cases, ◌==◌, get_elem?-set_ne, ℕ, zero, suc, ◌+◌, ◌<◌, ◌≡◌, ◌≢◌, ◌⊎◌, inl, inr, refl, sym,
  ap, subst, ◌∙◌, none, some, List, [], ◌∷◌, ◌++◌, length, get_elem?, set, arith, length-append,
  length-set, set_cases, some_inj,
}
use mmurtl_rs.Ownership.{Ownership}
use mmurtl_rs.Ownership.Lists.{
  IsLinked, IsIn, IsIn-append_left, IsIn-append_right, IsWithout, set-IsLinked, IsLinked-append,
  elsewhere-IsWithout, ahead-IsWithout, IsPlaced-back, total-set,
}
use mmurtl_rs.Ownership.Valid.{
  Place, IsChain, IsCovered, IsValid, regain, regain-front, regain-chain, relinked,
}

-- The last entry of a list that is not empty.
pub split_last :
    (k : ℕ) (ids : List ℕ)
    → length ids ≡ suc k
    → (front : List ℕ) × (t : ℕ) × (ids ≡ front ++ t ∷ []) × (length front ≡ k)
split_last k [] e = absurd (omega (arith, e))
split_last zero (x ∷ []) e = ([], x, refl, refl)
split_last zero (x ∷ y ∷ ids) e = absurd (omega (arith, e))
split_last (suc k) (x ∷ ids) e =
    let (front, t, f, len) = split_last k ids (omega (arith, e)) in
    (x ∷ front, t, ap (λ ys. x ∷ ys) f, ap suc len)

module _ (size : ℕ) (place : Place) (free_ids : List ℕ) (chains : ℕ → List ℕ) (o : Ownership)
    (v : IsValid size place free_ids chains o) (id k : ℕ)
    (lent : get_elem? (o.pending) id ≡ some (suc k)) (front : List ℕ) (t : ℕ)
    (e : chains id ≡ front ++ t ∷ []) where
  abbrev back : Ownership
  back = record o {
    next = set o.next t o.free_head;
    pending = set o.pending id 0;
    free_head = id;
    free = o.free + suc k;
  }

  chain : IsChain place (front ++ t ∷ []) o.next id (suc k)
  chain =
      subst (λ ids. IsChain place ids o.next id (suc k)) e (v.lent id (suc k) lent (omega arith))

  t_place : place t ≡ (some id, 0)
  t_place = (IsPlaced-back place (some id) front (t ∷ []) chain.placed).0

  not_in_front : IsWithout t front
  not_in_front =
      ahead-IsWithout place (some id) t 0 front (t ∷ []) t_place (omega arith) chain.placed

  -- The other chains stay.
  kept_chain :
      (h c : ℕ)
      → ((id ≡ h) × (c ≡ 0)) ⊎ ((id ≢ h) × (get_elem? o.pending h ≡ some c))
      → 0 < c
      → IsChain (regain id (length free_ids) place) (chains h) (set o.next t o.free_head) h c
  kept_chain h c (inl (same, none_left)) pos = absurd (omega (arith, none_left, pos))
  kept_chain h c (inr (ne, old)) pos =
      let other = v.lent h c old pos in
      let apart : h ≢ id = λ q. ne (sym q) in
      record {
        last = other.last;
        linked =
            set-IsLinked o.next t o.free_head h other.last (chains h)
              (elsewhere-IsWithout place (some h) (some id) t 0 (chains h) t_place
                (λ q. ne (some_inj q)) other.placed)
              other.linked;
        counted = other.counted;
        placed = regain-chain id (length free_ids) h place (chains h) apart other.placed;
      }

  IsCovered-after :
      (d : ℕ)
      → IsCovered free_ids chains o.pending d
      → IsCovered ((front ++ t ∷ []) ++ free_ids) chains (set o.pending id 0) d
  IsCovered-after d (inl free_one) = inl (IsIn-append_right d (front ++ t ∷ []) free_ids free_one)
  IsCovered-after d (inr (h, c, at, pos, member)) = elim (Bool-cases (id == h)) [
    | inl same ↦
        let here : id ≡ h = ground arith in
        let in_chain : IsIn d (front ++ t ∷ []) =
          subst (IsIn d) (sym (ap chains here) ∙ e) member in
        inl (IsIn-append_left d (front ++ t ∷ []) free_ids in_chain)
    | inr other ↦
        let apart : id ≢ h = ground arith in
        inr (h, c, get_elem?-set_ne o.pending id h 0 apart ∙ at, pos, member)
  ]

  pub completed-IsValid :
      (m : ℕ)
      → get_elem? o.next t ≡ some m
      → IsLinked o.next id front t
      → IsValid size (regain id (length free_ids) place) ((front ++ t ∷ []) ++ free_ids) chains back
  completed-IsValid m at before = record {
    small = v.small;
    next_size = length-set o.next t o.free_head ∙ v.next_size;
    pending_size = length-set o.pending id 0 ∙ v.pending_size;
    last = v.last;
    linked =
        IsLinked-append (set o.next t o.free_head) id o.free_head v.last (front ++ t ∷ []) free_ids
          (relinked o.next id t o.free_head m front not_in_front before at)
          (set-IsLinked o.next t o.free_head o.free_head v.last free_ids
            (elsewhere-IsWithout place none (some id) t 0 free_ids t_place (λ q. cc) v.placed)
            v.linked);
    counted = omega (arith, length-append (front ++ t ∷ []) free_ids, chain.counted, v.counted);
    placed = regain-front id place (front ++ t ∷ []) free_ids chain.placed v.placed;
    lent = λ h c l pos. kept_chain h c (set_cases o.pending id h 0 l) pos;
    conserved = omega (arith, total-set o.pending id 0 lent, v.conserved);
    covered = λ d lt. IsCovered-after d (v.covered d lt);
  }
