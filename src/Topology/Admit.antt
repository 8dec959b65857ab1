-- ===== src/Topology/Admit.antt =====
-- With sibling threads switched off, no two CPUs that are online share a core.
use mmurtl_rs.Base.{
  ◌≡◌, ◌≢◌, sym, ap, ◌∙◌, ◌⊎◌, inl, inr, true, false, not, ◌||◌, ◌==◌, leb, length, get_or,
  get_elem?, set_cases, ℕ, zero, suc, replicate, some_inj, some, arith, Bool-cases, any, any-false,
}
use mmurtl_rs.Topology.{
  Core, Record, Reason, Admission, overlaps, is_online, known, shares, judge, admit, bsp, new,
  empty_record, is_empty_slot,
}

-- Of two CPUs that are online, the test of one against the other finds no shared core.
pub IsApart : Admission → Type 0
IsApart a =
    (i j : ℕ) (r s : Record)
    → i ≢ j
    → get_elem? a.records i ≡ some r
    → get_elem? a.records j ≡ some s
    → is_online r.reason ≡ true
    → is_online s.reason ≡ true
    → (overlaps r.core s.core ≡ false) ⊎ (overlaps s.core r.core ≡ false)

judge-online :
    (core : Core) (a : Admission)
    → a.disable_smt ≡ true
    → is_online (judge core a) ≡ true
    → any (shares core) a.records ≡ false
unfolding judge
judge-online core a off h = elim (Bool-cases (any (shares core) a.records)) [
  | inl e ↦
      elim (Bool-cases (not (known core) || not (known (get_or a.records 0 empty_record).core))) [
        | inl f ↦ absurd (ground arith)
        | inr f ↦ absurd (ground arith)
      ]
  | inr e ↦ e
]

-- When sibling threads are switched off, admitting a CPU keeps the CPUs that are online on
-- different cores, whatever the answer.
pub admit-IsApart :
    (cpu : ℕ) (core : Core) (a : Admission)
    → a.disable_smt ≡ true
    → IsApart a
    → IsApart (admit cpu core a).1
unfolding admit IsApart
admit-IsApart cpu core a off v =
    elim (Bool-cases (
      cpu == 0
      || leb (length a.records) cpu
      || not (is_empty_slot (get_or a.records cpu empty_record).reason))) [
        | inl refused ↦ rw refused v
        | inr taken ↦ rw taken (λ i j r s ne at_i at_j on_i on_j.
            elim (set_cases a.records cpu i (record { core = core; reason = judge core a }) at_i) [
              | inl (same_i, r_is) ↦
                  elim (set_cases a.records cpu j (record { core = core; reason = judge core a })
                    at_j) [
                      | inl (same_j, s_is) ↦ absurd (ne (sym same_i ∙ same_j))
                      | inr (other_j, old_j) ↦ inl (
                          clear (ap (λ (x : Record). x.core) r_is)
                            (sym (ap (λ (x : Record). is_online x.reason) r_is) ∙ on_i) j old_j
                            on_j)
                    ]
              | inr (other_i, old_i) ↦
                  elim (set_cases a.records cpu j (record { core = core; reason = judge core a })
                    at_j) [
                      | inl (same_j, s_is) ↦ inr (
                          clear (ap (λ (x : Record). x.core) s_is)
                            (sym (ap (λ (x : Record). is_online x.reason) s_is) ∙ on_j) i old_i
                            on_i)
                      | inr (other_j, old_j) ↦ v i j r s ne old_i old_j on_i on_j
                    ]
            ])
      ]
  where
    clear :
        {c : Core}
        → c ≡ core
        → is_online (judge core a) ≡ true
        → (k : ℕ) {s : Record} → get_elem? a.records k ≡ some s
        → is_online s.reason ≡ true
        → overlaps c s.core ≡ false
    clear same on k {s} at s_on =
        let free = any-false (shares core) a.records k (judge-online core a off on) at in
        ap (λ x. overlaps x s.core) same ∙ ground (arith, free)

replicate-same : (n i : ℕ) {p q : Record} → get_elem? (replicate n p) i ≡ some q → q ≡ p
replicate-same zero i h = cc
replicate-same (suc n) zero h = sym (some_inj h)
replicate-same (suc n) (suc i) h = replicate-same n i h

-- At the start only the boot CPU is online.
pub bsp-IsApart : (core : Core) (cpus : ℕ) → IsApart (bsp core (new cpus true))
unfolding bsp new IsApart
bsp-IsApart core cpus i j r s ne at_i at_j on_i on_j =
    elim (set_cases (replicate cpus empty_record) 0 i
      (record { core = core; reason = Reason.online }) at_i) [
        | inl (same_i, r_is) ↦
            elim (set_cases (replicate cpus empty_record) 0 j
              (record { core = core; reason = Reason.online }) at_j) [
                | inl (same_j, s_is) ↦ absurd (ne (sym same_i ∙ same_j))
                | inr (other_j, old_j) ↦ absurd (
                    cc
                      (ap (λ (x : Record). is_online x.reason) (replicate-same cpus j old_j), on_j))
              ]
        | inr (other_i, old_i) ↦
            absurd
              (cc (ap (λ (x : Record). is_online x.reason) (replicate-same cpus i old_i), on_i))
      ]
