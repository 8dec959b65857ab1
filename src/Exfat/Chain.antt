-- ===== src/Exfat/Chain.antt =====
-- fs/exfat.rs: a chain of clusters is bounded and stays in the table, whatever the table holds.
use mmurtl_rs.Base.{
  ℕ, zero, suc, ◌+◌, ◌*◌, ◌/◌, ◌%◌, ◌≤◌, ◌<◌, ◌≡◌, ◌⊎◌, inl, inr, refl, sym, ap, subst, ◌∙◌, false,
  ltb, Option, some, List, [], ◌∷◌, length, arith, Bool-cases, le32,
}
use mmurtl_rs.Exfat.{Volume, sector_size}
use mmurtl_rs.Exfat.Io.{Device, and_then, bind_inv, result_inj, succeed}
use mmurtl_rs.Exfat.Disk.{ends_chain, fat_read, walk_chain, collect_chain}

-- Every cluster of a list is one of the volume's.
pub InTable : Volume → List ℕ → Type 0
InTable vol [] = Unit
InTable vol (c ∷ cs) = (2 ≤ c) × (c ≤ vol.cluster_count + 1) × InTable vol cs

-- A chain from `first`: at most `n` clusters, those behind the first all in the table.
pub IsChain : Volume → ℕ → ℕ → List ℕ → Type 0
IsChain vol n first [] = ⊥
IsChain vol n first (c ∷ cs) = (c ≡ first) × (length cs < n) × InTable vol cs

goes_on :
    (vol : Volume) (next : ℕ)
    → ends_chain vol next ≡ false
    → (2 ≤ next) × (next ≤ vol.cluster_count + 1)
goes_on vol next h = (ground arith, ground arith)

module _ {D : Type 0} (dev : Device D) (vol : Volume) where
  -- One round of the walk: the chain ends, or goes on in the table.
  walk_chain_step :
      (left c : ℕ) (d : D) {chain : List ℕ} {d' : D}
      → walk_chain dev vol (suc left) c d ≡ (some chain, d')
      → (rest : List ℕ) × (chain ≡ c ∷ rest)
        × ((rest ≡ [])
            ⊎ ((next : ℕ) × (d1 : D) × (2 ≤ next)
                × (next ≤ vol.cluster_count + 1)
                × (walk_chain dev vol left next d1 ≡ (some rest, d'))))
  unfolding walk_chain
  walk_chain_step left c d {chain} {d'} h =
      let (next, d1, first, h1) = bind_inv (fat_read dev vol c d) _ h in
      elim (Bool-cases (ends_chain vol next)) [
        | inl e ↦
            let ended : ◌≡◌ {A = Option (List ℕ) × D} (some (c ∷ []), d1) (some chain, d') =
              rw (sym h1, e) refl in
            ([], sym (result_inj ended), inl refl)
        | inr e ↦
            let goes : and_then (walk_chain dev vol left next d1) (λ r. succeed (c ∷ r))
                ≡ (some chain, d') =
              rw (sym h1, e) refl in
            let (rest, d2, second, h2) =
              bind_inv (walk_chain dev vol left next d1) (λ r. succeed (c ∷ r)) goes in
            let (low, high) = goes_on vol next e in
            (
              rest,
              sym (result_inj h2),
              inr (next, d1, low, high, second ∙ ap (λ x. (some rest, x)) (ap (λ r. r.1) h2)),
            )
      ]

  -- A walk that goes on from a cluster of the table stays in it.
  walk_chain-InTable :
      (left c : ℕ) (d : D) {chain : List ℕ} {d' : D}
      → 2 ≤ c
      → c ≤ vol.cluster_count + 1
      → walk_chain dev vol left c d ≡ (some chain, d')
      → (length chain ≤ left) × InTable vol chain
  unfolding InTable walk_chain
  walk_chain-InTable zero c d low high h =
      subst (λ t. (length t ≤ 0) × InTable vol t) (result_inj h) (omega arith, tt)
  walk_chain-InTable (suc left) c d {chain} low high h =
      let (rest, e, more) = walk_chain_step left c d h in
      subst (λ t. (length t ≤ suc left) × InTable vol t) (sym e)
        (elim more [
          | inl f ↦
              subst (λ t. (length (c ∷ t) ≤ suc left) × InTable vol (c ∷ t)) (sym f)
                (omega arith, (low, high, tt))
          | inr (next, d1, low', high', walked) ↦
              let (short, inside) = walk_chain-InTable left next d1 low' high' walked in
              (omega arith, (low, high, inside))
        ])

  -- A chain that is read from the table, from a first cluster of 2 or more, begins with that
  -- cluster, is at most `cluster_count + 1` long, and has only clusters of the volume behind the
  -- first: whatever the table holds, a loop in it included.
  pub collect_chain-IsChain :
      (first len : ℕ) (d : D) {chain : List ℕ} {d' : D}
      → 2 ≤ first
      → collect_chain dev vol first false len d ≡ (some chain, d')
      → IsChain vol (vol.cluster_count + 1) first chain
  unfolding collect_chain IsChain InTable
  collect_chain-IsChain first len d {chain} {d'} ok h =
      let large : ltb first 2 ≡ false = ground arith in
      let walked : walk_chain dev vol (suc vol.cluster_count) first d ≡ (some chain, d') =
        subst (λ n. walk_chain dev vol n first d ≡ (some chain, d')) {x = vol.cluster_count + 1}
          {y = suc vol.cluster_count} (omega arith) (rw (sym h, large) refl) in
      let (rest, e, more) = walk_chain_step vol.cluster_count first d walked in
      subst (IsChain vol (vol.cluster_count + 1) first) (sym e) (elim more [
        | inl f ↦
            subst (λ t. IsChain vol (vol.cluster_count + 1) first (first ∷ t)) (sym f)
              (refl, omega arith, tt)
        | inr (next, d1, low, high, walked') ↦
            let (short, inside) = walk_chain-InTable vol.cluster_count next d1 low high walked' in
            (refl, omega arith, inside)
      ])

  -- Where no read fails, reading a chain ends with one.
  module _
      (reads : (lba : ℕ) (d : D)
        → (buf : List ℕ) × (d' : D) × (dev.read_sector lba d ≡ (some buf, d'))) where
    fat_read_total :
        (c : ℕ) (d : D) → (next : ℕ) × (d' : D) × (fat_read dev vol c d ≡ (some next, d'))
    unfolding fat_read
    fat_read_total c d =
        let (buf, d', e) = reads (vol.fat_lba + c * 4 / sector_size) d in
        (le32 buf (c * 4 % sector_size), d', rw e refl)

    walk_chain_total :
        (left c : ℕ) (d : D)
        → (chain : List ℕ) × (d' : D) × (walk_chain dev vol left c d ≡ (some chain, d'))
    unfolding walk_chain
    walk_chain_total zero c d = ([], d, refl)
    walk_chain_total (suc left) c d =
        let (next, d1, e) = fat_read_total c d in
        elim (Bool-cases (ends_chain vol next)) [
          | inl f ↦ (c ∷ [], d1, rw (e, f) refl)
          | inr f ↦
              let (rest, d2, g) = walk_chain_total left next d1 in (c ∷ rest, d2, rw (e, f, g) refl)
        ]

    -- On a device on which no read fails, reading a chain from the table ends with a chain for every
    -- first cluster of 2 or more, a loop in the table included, and the chain is at most
    -- `cluster_count + 1` long.
    pub collect_chain_total :
        (first len : ℕ) (d : D)
        → 2 ≤ first
        → (chain : List ℕ) × (d' : D) × (collect_chain dev vol first false len d ≡ (some chain, d'))
          × IsChain vol (vol.cluster_count + 1) first chain
    unfolding collect_chain
    collect_chain_total first len d ok =
        let large : ltb first 2 ≡ false = ground arith in
        let (chain, d', e) = walk_chain_total (vol.cluster_count + 1) first d in
        let collected : collect_chain dev vol first false len d ≡ (some chain, d') =
          rw (large, e) refl in
        (chain, d', collected, collect_chain-IsChain first len d ok collected)
