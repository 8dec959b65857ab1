-- ===== src/Fat/Chain.antt =====
-- The walk along a cluster chain finds exactly the chains that end, repeat nothing and are no
-- longer than the limit.
use mmurtl_rs.Base.{
  ℕ, zero, suc, ◌+◌, ◌≤◌, ◌≡◌, ◌↔◌, refl, ap, sym, ◌∙◌, subst, List, [], ◌∷◌, ◌++◌, length,
  length-append, arith, not, ◌||◌, leb, Bool-cases, inl, inr, ◌==◌, true, false, some, none,
  some_inj,
}
use mmurtl_rs.Fat.{Volume, valid, entry, get, is_eof, contains, chain_from, chain}

-- The table links the clusters of the list, from `c` on, and ends the chain after the last.
pub data Follows (v : Volume) : ℕ → List ℕ → Type 0 where
  ends :
      {c n : ℕ}
      → valid v c ≡ true
      → get v c ≡ some n
      → is_eof v.kind n ≡ true
      → Follows v c (c ∷ [])
  goes_on :
      {c n : ℕ} {cs : List ℕ}
      → valid v c ≡ true
      → get v c ≡ some n
      → is_eof v.kind n ≡ false
      → Follows v n cs
      → Follows v c (c ∷ cs)

-- None of the clusters is among `out` or before itself.
abbrev pub NoRepeat : List ℕ → List ℕ → Type 0
NoRepeat out [] = Unit
NoRepeat out (c ∷ cs) = (contains c out ≡ false) × NoRepeat (out ++ c ∷ []) cs

snoc-append : (out : List ℕ) (c : ℕ) (cs : List ℕ) → (out ++ c ∷ []) ++ cs ≡ out ++ c ∷ cs
snoc-append [] c cs = refl
snoc-append (x ∷ out) c cs = ap (λ (r : List ℕ). x ∷ r) (snoc-append out c cs)

length-snoc : (out : List ℕ) (c : ℕ) → length (out ++ c ∷ []) ≡ length out + 1
length-snoc out c = length-append out (c ∷ [])

module _ (v : Volume) (max : ℕ) where
  IsStopped : ℕ → List ℕ → Type 0
  IsStopped c out = (not (valid v c) || leb max (length out) || contains c out) ≡ true

  chain-stop :
      (c : ℕ) (out : List ℕ) (fuel : ℕ)
      → (not (valid v c) || leb max (length out) || contains c out) ≡ true
      → chain_from v c max out (suc fuel) ≡ none
  unfolding chain_from
  chain-stop c out fuel e = rw e refl

  chain-go :
      (c : ℕ) (out : List ℕ) (fuel : ℕ) {n : ℕ}
      → (not (valid v c) || leb max (length out) || contains c out) ≡ false
      → get v c ≡ some n
      → is_eof v.kind n ≡ false
      → chain_from v c max out (suc fuel) ≡ chain_from v n max (out ++ c ∷ []) fuel
  unfolding chain_from
  chain-go c out fuel e f g = rw (e, f, g) refl

  chain-end :
      (c : ℕ) (out : List ℕ) (fuel : ℕ) {n : ℕ}
      → (not (valid v c) || leb max (length out) || contains c out) ≡ false
      → get v c ≡ some n
      → is_eof v.kind n ≡ true
      → chain_from v c max out (suc fuel) ≡ some (out ++ c ∷ [])
  unfolding chain_from
  chain-end c out fuel e f g = rw (e, f, g) refl

  get-valid : (c : ℕ) → valid v c ≡ true → (n : ℕ) × (get v c ≡ some n)
  unfolding get
  get-valid c e = (entry v.kind v.fat c, rw e refl)

  pub chain_from-some :
      (c : ℕ) (out : List ℕ) (fuel : ℕ) {r : List ℕ}
      → chain_from v c max out fuel ≡ some r
      → (cs : List ℕ) × (r ≡ out ++ cs) × Follows v c cs × NoRepeat out cs × (length r ≤ max)
  chain_from-some c out zero h = absurd (unfold chain_from in cc h)
  chain_from-some c out (suc fuel) {r} h =
      elim (Bool-cases (not (valid v c) || leb max (length out) || contains c out)) [
        | inl stop ↦ absurd (cc (sym (chain-stop c out fuel stop) ∙ h))
        | inr go ↦
            let ok : valid v c ≡ true = ground arith in
            let fresh : contains c out ≡ false = ground arith in
            let (n, at) = get-valid c ok in
            elim (Bool-cases (is_eof v.kind n)) [
              | inl last ↦
                  let e : some (out ++ c ∷ []) ≡ some r =
                    sym (chain-end c out fuel go at last) ∙ h in
                  let size = length-snoc out c in
                  (
                    c ∷ [],
                    sym (some_inj e),
                    ends ok at last,
                    (fresh, tt),
                    subst (λ x. length x ≤ max) (some_inj e) (ground arith),
                  )
              | inr more ↦
                  let e : chain_from v n max (out ++ c ∷ []) fuel ≡ some r =
                    sym (chain-go c out fuel go at more) ∙ h in
                  let (cs, whole, follows, no_repeat, short) =
                    chain_from-some n (out ++ c ∷ []) fuel e in
                  (
                    c ∷ cs,
                    whole ∙ snoc-append out c cs,
                    goes_on ok at more follows,
                    (fresh, no_repeat),
                    short,
                  )
            ]
      ]

  pub chain_from_complete :
      {c : ℕ} {cs : List ℕ} (out : List ℕ) (fuel : ℕ)
      → Follows v c cs
      → NoRepeat out cs
      → length out + length cs ≤ max
      → length cs ≤ fuel
      → chain_from v c max out fuel ≡ some (out ++ cs)
  chain_from_complete out zero (ends ok at last) no_repeat short enough = absurd (omega arith)
  chain_from_complete out zero (goes_on ok at more follows) no_repeat short enough =
      absurd (omega arith)
  chain_from_complete out (suc fuel) (ends {c} ok at last) no_repeat short enough =
      let go : (not (valid v c) || leb max (length out) || contains c out) ≡ false =
        ground (arith, no_repeat.0) in
      chain-end c out fuel go at last
  chain_from_complete out (suc fuel) (goes_on {c} {n} {cs} ok at more follows) no_repeat short
        enough =
      let go : (not (valid v c) || leb max (length out) || contains c out) ≡ false =
        ground (arith, no_repeat.0) in
      let size = length-snoc out c in
      chain-go c out fuel go at more
      ∙ chain_from_complete (out ++ c ∷ []) fuel follows no_repeat.1 (omega arith) (omega arith)
      ∙ ap (λ (r : List ℕ). some r) (snoc-append out c cs)

chain-start :
    (v : Volume) (first max : ℕ)
    → v.failed ≡ false
    → (first == 0) ≡ false
    → chain v first max ≡ chain_from v first max [] (max + 1)
unfolding chain
chain-start v first max working some_first = ground arith

-- On a volume that has not failed, the clusters that `chain` returns from a first cluster other
-- than 0 are linked by the table up to an end mark, repeat nothing and are at most `max`; and every
-- such list of clusters is returned.
pub chain_lem :
    (v : Volume) (first max : ℕ) (cs : List ℕ)
    → v.failed ≡ false
    → (first == 0) ≡ false
    → (chain v first max ≡ some cs) ↔ (Follows v first cs × NoRepeat [] cs × (length cs ≤ max))
chain_lem v first max cs working some_first = (
  λ h.
      let e : chain_from v first max [] (max + 1) ≡ some cs =
        sym (chain-start v first max working some_first) ∙ h in
      let (ds, whole, follows, no_repeat, short) = chain_from-some v max first [] (max + 1) e in
      (
        subst (Follows v first) (sym whole) follows,
        subst (NoRepeat []) (sym whole) no_repeat,
        short,
      ),
  λ (follows, no_repeat, short).
      chain-start v first max working some_first
      ∙ chain_from_complete v max [] (max + 1) follows no_repeat (omega arith) (omega arith),
)
