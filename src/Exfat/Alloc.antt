-- ===== src/Exfat/Alloc.antt =====
-- fs/exfat.rs: the run of clusters that the bitmap yields was free.
use mmurtl_rs.Base.{
  ℕ, zero, suc, ◌+◌, ◌*◌, ◌/◌, ◌%◌, ◌≤◌, ◌<◌, ◌≡◌, ◌⊎◌, inl, inr, refl, sym, ap, subst, ◌∙◌, Bool,
  true, false, ◌==◌, leb, if◌then◌else◌, Option, none, some, List, arith, Bool-cases, ==_iff,
  some_inj,
}
use mmurtl_rs.Exfat.{Volume}
use mmurtl_rs.Exfat.Io.{Device, bind_inv, result_inj, succeed, need, ◌>>=◌, ◌>>◌}
use mmurtl_rs.Exfat.Disk.{
  test_bit, bits_per_sector, Search, looking, over, look_at, look_in, find_run, bitmap_lba,
  bitmap_alloc, bitmap_sectors, bitmap_set, range,
}

module _ (bitmap : ℕ → List ℕ) (vol : Volume) where
  -- Whether the cluster of a bit is allocated, in a bitmap given by its sectors.
  abbrev pub is_allocated : ℕ → Bool
  is_allocated bit = test_bit (bitmap (bit / bits_per_sector)) (bit % bits_per_sector)

  -- A bit that stands for a cluster of the volume that is free.
  abbrev pub IsFree : ℕ → Type 0
  IsFree bit = (bit < vol.cluster_count) × (is_allocated bit ≡ false)

  -- The bits of a run are all free.
  abbrev pub IsFreeRun : ℕ → ℕ → Type 0
  IsFreeRun start count = (i : ℕ) → i < count → IsFree (start + i)

  -- What a search knows before bit `bit`: the present run ends there and is free.
  IsSearch : ℕ → ℕ → Search → Type 0
  IsSearch count bit (looking run_start run_len) =
      (run_len < count)
      × ((run_len ≡ 0) ⊎ (run_start + run_len ≡ bit))
      × IsFreeRun run_start run_len
  IsSearch count bit (over none) = Unit
  IsSearch count bit (over (some start)) = IsFreeRun start count

  -- A free bit makes the present run one longer.
  longer_run :
      (bit run_start run_len : ℕ)
      → ((run_len ≡ 0) ⊎ (run_start + run_len ≡ bit))
      → IsFreeRun run_start run_len
      → IsFree bit
      → ((if run_len == 0 then bit else run_start) + run_len ≡ bit)
        × IsFreeRun (if run_len == 0 then bit else run_start) (suc run_len)
  longer_run bit run_start zero ends old now = (omega arith, λ i lt. subst IsFree (omega arith) now)
  longer_run bit run_start (suc n) ends old now =
      let more : (suc n == 0) ≡ false = ground arith in
      let joins : run_start + suc n ≡ bit = ground arith in
      rw more (
        joins,
        λ i lt. elim (Bool-cases (i == suc n)) [
          | inl e ↦ subst IsFree (sym joins ∙ ap (λ k. run_start + k) (ground arith)) now
          | inr e ↦ old i (ground arith)
        ],
      )

  look_at-IsSearch :
      (count : ℕ) (buf : List ℕ) (bit bit_in_sector run_start run_len : ℕ)
      → test_bit buf bit_in_sector ≡ is_allocated bit
      → IsSearch count bit (looking run_start run_len)
      → IsSearch count
          (suc bit)
          (look_at vol.cluster_count count buf bit bit_in_sector run_start run_len)
  unfolding look_at IsSearch
  look_at-IsSearch count buf bit bit_in_sector run_start run_len same (short, ends, old) =
      elim (Bool-cases (leb vol.cluster_count bit)) [
        | inl past ↦ rw past tt
        | inr here ↦ elim (Bool-cases (test_bit buf bit_in_sector)) [
          | inl used ↦ rw (here, used) (omega arith, inl refl, λ i lt. absurd (omega arith))
          | inr unused ↦
              let (joins, run) =
                longer_run bit run_start run_len ends old (ground arith, sym same ∙ unused) in
              elim (Bool-cases (suc run_len == count)) [
                | inl full ↦
                    rw (here, unused, full)
                      (subst (IsFreeRun (if run_len == 0 then bit else run_start))
                        ((==_iff (suc run_len) count).0 full) run)
                | inr open' ↦ rw (here, unused, open') (ground arith, inr (omega arith), run)
              ]
        ]
      ]

  -- The bits of one sector, from `at` on.
  look_in-IsSearch :
      (count sector at left : ℕ) (buf : List ℕ) (s : Search)
      → buf ≡ bitmap sector
      → at + left ≤ bits_per_sector
      → IsSearch count (sector * bits_per_sector + at) s
      → IsSearch count
          (sector * bits_per_sector + (at + left))
          (look_in vol.cluster_count count buf (sector * bits_per_sector) at left s)
  unfolding look_in IsSearch
  look_in-IsSearch count sector at left buf (over none) same fits k = k
  look_in-IsSearch count sector at left buf (over (some start)) same fits k = k
  look_in-IsSearch count sector at zero buf (looking run_start run_len) same fits k =
      subst (λ n. IsSearch count (sector * bits_per_sector + n) (looking run_start run_len))
        (omega arith) k
  look_in-IsSearch count sector at (suc left) buf (looking run_start run_len) same fits k =
      let quotient : (sector * bits_per_sector + at) / bits_per_sector ≡ sector = omega arith in
      let remainder : (sector * bits_per_sector + at) % bits_per_sector ≡ at = omega arith in
      let bit : test_bit buf at ≡ is_allocated (sector * bits_per_sector + at) =
        rw (quotient, remainder, same) refl in
      subst
        (λ n. IsSearch count (sector * bits_per_sector + n) (
          look_in vol.cluster_count count buf (sector * bits_per_sector) at (suc left)
            (looking run_start run_len)))
        (omega arith)
        (look_in-IsSearch count sector (suc at) left buf
          (look_at vol.cluster_count count buf (sector * bits_per_sector + at) at run_start run_len)
          same (omega arith)
          (subst
            (λ n. IsSearch count n (
              look_at vol.cluster_count count buf (sector * bits_per_sector + at) at run_start
                run_len))
            (omega arith)
            (look_at-IsSearch count buf (sector * bits_per_sector + at) at run_start run_len bit
              k)))

  -- A device that reads the sectors of `bitmap` where the bitmap lies, when it reads them, and is not
  -- changed by that.
  module _ {D : Type 0} (dev : Device D) (d : D)
      (reads : (s : ℕ) (buf : List ℕ) (d' : D)
        → dev.read_sector (bitmap_lba dev vol + s) d ≡ (some buf, d')
        → (buf ≡ bitmap s) × (d' ≡ d)) where
    -- What a search holds after one more sector.
    abbrev after_sector : ℕ → ℕ → ℕ → ℕ → List ℕ → Search
    after_sector count sector run_start run_len buf =
        look_in vol.cluster_count count buf (sector * bits_per_sector) 0 bits_per_sector
          (looking run_start run_len)

    find_run_step :
        (count sector left run_start run_len : ℕ) {found : Option ℕ} {d' : D}
        → find_run dev vol count sector (suc left) (looking run_start run_len) d ≡ (some found, d')
        → (buf : List ℕ) × (buf ≡ bitmap sector)
          × (find_run dev vol count
                (suc sector)
                left
                (after_sector count sector run_start run_len buf)
                d
              ≡ (some found, d'))
    unfolding find_run
    find_run_step count sector left run_start run_len {found} {d'} h =
        let (buf, d1, read, rest) =
          bind_inv (dev.read_sector (bitmap_lba dev vol + sector) d)
            (λ b.
              find_run dev vol count (suc sector) left
                (after_sector count sector run_start run_len b))
            h in
        let (same, unchanged) = reads sector buf d1 read in
        (
          buf,
          same,
          subst
              (λ e.
                find_run dev vol count (suc sector) left
                  (after_sector count sector run_start run_len buf) e
                ≡ (some found, d'))
              unchanged rest,
        )

    find_run-over :
        (count sector left : ℕ) (found : Option ℕ) {start : ℕ} {d' : D}
        → find_run dev vol count sector left (over found) d ≡ (some (some start), d')
        → found ≡ some start
    unfolding find_run
    find_run-over count sector zero found h = result_inj h
    find_run-over count sector (suc left) found h = result_inj h

    find_run-none :
        (count sector run_start run_len : ℕ) {start : ℕ} {d' : D}
        → find_run dev vol count sector 0 (looking run_start run_len) d ≡ (some (some start), d')
        → none ≡ some start
    unfolding find_run
    find_run-none count sector run_start run_len h = result_inj h

    find_run-IsFreeRun :
        (count sector left : ℕ) (s : Search) (start : ℕ) (d' : D)
        → IsSearch count (sector * bits_per_sector) s
        → find_run dev vol count sector left s d ≡ (some (some start), d')
        → IsFreeRun start count
    unfolding IsSearch
    find_run-IsFreeRun count sector left (over (some found)) start d' k h =
        subst (λ n. IsFreeRun n count) (some_inj (find_run-over count sector left (some found) h)) k
    find_run-IsFreeRun count sector left (over none) start d' k h =
        let impossible : none ≡ some start = find_run-over count sector left none h in absurd (cc)
    find_run-IsFreeRun count sector zero (looking run_start run_len) start d' k h =
        let impossible : none ≡ some start = find_run-none count sector run_start run_len h in
        absurd (cc)
    find_run-IsFreeRun count sector (suc left) (looking run_start run_len) start d' k h =
        let (buf, same, rest) = find_run_step count sector left run_start run_len h in
        find_run-IsFreeRun count (suc sector) left (after_sector count sector run_start run_len buf)
          start d'
          (subst (λ n. IsSearch count n (after_sector count sector run_start run_len buf))
            (omega arith)
            (look_in-IsSearch count sector 0 bits_per_sector buf (looking run_start run_len) same
              (omega arith)
              (subst (λ n. IsSearch count n (looking run_start run_len)) (omega arith) k)))
          rest

    -- A search that begins knows nothing.
    first-IsSearch : (count : ℕ) → 0 < count → IsSearch count 0 (looking 0 0)
    unfolding IsSearch
    first-IsSearch count pos = (pos, inl refl, λ i lt. absurd (omega arith))

    -- The rest of `bitmap_alloc`, once the search is over.
    take_run :
        (count : ℕ) (found : Option ℕ) (d1 : D) {first : ℕ} {d' : D}
        → 0 < count
        → find_run dev vol count 0 (bitmap_sectors dev vol) (looking 0 0) d ≡ (some found, d1)
        → (need found >>= λ start.
              (bitmap_set dev vol (range (start + 2) count) true >> succeed (start + 2)))
            d1
          ≡ (some first, d')
        → (start : ℕ) × (first ≡ start + 2) × IsFreeRun start count
    take_run count none d1 {first} pos searched h =
        let impossible : none ≡ some first = ap (λ r. r.0) h in absurd (cc)
    take_run count (some start) d1 {first} pos searched h =
        let (_, d2, marked, done) =
          bind_inv (bitmap_set dev vol (range (start + 2) count) true d1) (λ u. succeed (start + 2))
            h in
        (
          start,
          sym (result_inj done),
          find_run-IsFreeRun count 0 (bitmap_sectors dev vol) (looking 0 0) start d1
              (subst (λ n. IsSearch count n (looking 0 0)) (omega arith) (first-IsSearch count pos))
              searched,
        )

    -- Where `bitmap_alloc` yields a first cluster for `count` clusters, one or more, the bits of these
    -- clusters in the bitmap are those of clusters of the volume, and were clear, on a device that
    -- reads the sectors of `bitmap` where the bitmap lies, when it reads them, and is not changed by that.
    pub bitmap_alloc-IsFreeRun :
        (count : ℕ) {first : ℕ} {d' : D}
        → 0 < count
        → bitmap_alloc dev vol count d ≡ (some first, d')
        → (start : ℕ) × (first ≡ start + 2) × IsFreeRun start count
    unfolding bitmap_alloc
    bitmap_alloc-IsFreeRun count pos h =
        let (found, d1, searched, h1) =
          bind_inv (find_run dev vol count 0 (bitmap_sectors dev vol) (looking 0 0) d)
            (λ o. need o >>= λ start.
              (bitmap_set dev vol (range (start + 2) count) true >> succeed (start + 2)))
            h in
        take_run count found d1 pos searched h1
