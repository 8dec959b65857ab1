-- ===== src/Asids/Reach.antt =====
-- Every history of the pool: address spaces come and go, CPUs load and unload them.
use native.Mathlib.Nat.{pow-le-pow_right}
use mmurtl_rs.Base.{
  ℕ, zero, suc, ◌-◌, ◌^◌, ◌≤◌, ◌<◌, ◌≡◌, ◌≢◌, refl, sym, ap, ◌∙◌, subst, inl, inr, Bool, true,
  false, ◌&&◌, ◌==◌, leb, ltb, Option, none, some, some_inj, length, lt-get_elem?, get_elem?, set,
  replicate, position, position-some, arith, Bool-cases, Option-cases,
}
use mmurtl_rs.Asids.{
  Space, Asids, is_root, empty_space, reserved_tags, new, register, activate, release,
}
use mmurtl_rs.Asids.Valid.{IsValid}
use mmurtl_rs.Asids.Activate.{load-IsValid, activate_lem, running_apart}
use mmurtl_rs.Asids.Spaces.{register-IsValid, release-IsValid}

replicate-get {ℓ} : {A : Type ℓ} (n i : ℕ) {x y : A} → get_elem? (replicate n x) i ≡ some y → y ≡ x
replicate-get zero i h = cc
replicate-get (suc n) zero h = sym (some_inj h)
replicate-get (suc n) (suc i) h = replicate-get n i h

new-eq :
    (spaces cpus bits : ℕ)
    → (ltb 0 bits && leb bits 16) ≡ true
    → new spaces cpus bits
      ≡ some (record {
        spaces = replicate spaces empty_space;
        active = replicate cpus (0, 0);
        used = reserved_tags;
        limit = 2 ^ bits - 1;
        next = 1;
        generation = 1;
      })
unfolding new
new-eq spaces cpus bits e = rw e refl

-- In a new pool there are no spaces and nothing runs.
pub new-IsValid : (spaces cpus bits : ℕ) {a : Asids} → new spaces cpus bits ≡ some a → IsValid a
new-IsValid spaces cpus bits {a} e = elim (Bool-cases (ltb 0 bits && leb bits 16)) [
  | inr bad ↦
      let stopped : new spaces cpus bits ≡ none = unfold new in rw bad refl in
      absurd (cc (stopped, e))
  | inl fine ↦
      let low : 1 ≤ bits = ground arith in
      let high : bits ≤ 16 = ground arith in
      let least : 2 ≤ 2 ^ bits = pow-le-pow_right {n = 2} (omega arith) {i = 1} low in
      let most : 2 ^ bits ≤ 65536 = pow-le-pow_right {n = 2} (omega arith) {j = 16} high in
      subst IsValid (some_inj (sym (new-eq spaces cpus bits fine) ∙ e)) (record {
        tagged = record {
          small = omega arith;
          some_tags = omega arith;
          next_in = (omega arith, omega arith);
          reserved = (refl, refl);
          roots = λ i j s t at_i at_j user same. absurd (user (rootless i s at_i));
          tags = λ i s at user late. absurd (user (rootless i s at));
          apart = λ i j s t at_i at_j user_s user_t late_s late_t same.
              absurd (user_s (rootless i s at_i));
          marked = λ i s at user now. absurd (user (rootless i s at));
          empty = λ i s at none_here. ap (λ (z : Space). z.generation) (replicate-get spaces i at);
          old =
              λ i s at. omega (arith, ap (λ (z : Space). z.generation) (replicate-get spaces i at));
        };
        begun = omega arith;
        running =
            λ c r t at user. absurd (user (ap (λ (p : ℕ × ℕ). p.0) (replicate-get cpus c at)));
      })
]
  where
    rootless :
        (i : ℕ) (s : Space) → get_elem? (replicate spaces empty_space) i ≡ some s → s.root ≡ 0
    rootless i s at = ap (λ (z : Space). z.root) (replicate-get spaces i at)

activate-idle :
    (cpu : ℕ) (a : Asids) {old : ℕ × ℕ}
    → get_elem? a.active cpu ≡ some old
    → activate cpu 0 a ≡ some ((some 0, false), record a { active = set a.active cpu (0, 0) })
unfolding activate
activate-idle cpu a at = rw at refl

activate-unknown :
    (cpu root : ℕ) (a : Asids) {old : ℕ × ℕ}
    → get_elem? a.active cpu ≡ some old
    → (root == 0) ≡ false
    → position (is_root root) a.spaces ≡ none
    → activate cpu root a ≡ none
unfolding activate
activate-unknown cpu root a at e f = rw (at, e, f) refl

-- Whatever a call of `activate` that returns was given, the pool stays valid.
activate-IsValid :
    (cpu root : ℕ) (a : Asids) {r : (Option ℕ × Bool) × Asids}
    → IsValid a
    → cpu < length a.active
    → a.generation < 2 ^ 64 - 1
    → activate cpu root a ≡ some r
    → IsValid r.1
activate-IsValid cpu root a {r} v lt left e =
    let (old, old_at) = lt-get_elem? a.active cpu lt in
    elim (Bool-cases (root == 0)) [
      | inl none_here ↦
          let is_zero : 0 ≡ root = ground arith in
          let done : activate cpu root a
              ≡ some ((some 0, false), record a { active = set a.active cpu (0, 0) }) =
            subst
              (λ x.
                activate cpu x a
                ≡ some ((some 0, false), record a { active = set a.active cpu (0, 0) }))
              is_zero (activate-idle cpu a old_at) in
          subst (λ (x : (Option ℕ × Bool) × Asids). IsValid x.1) (some_inj (sym done ∙ e))
            (load-IsValid cpu 0 0 a v (λ user. absurd (user refl)))
      | inr user ↦ elim (Option-cases (position (is_root root) a.spaces)) [
        | inl missing ↦ absurd (cc (activate-unknown cpu root a old_at user missing, e))
        | inr (i, place) ↦
            let (s, at, its) = position-some (is_root root) a.spaces place in
            let s_root : s.root ≡ root = ground arith in
            let (q, done, x) = activate_lem cpu i a s v lt at (ground arith) left in
            let done' : activate cpu root a ≡ some q =
              subst (λ y. activate cpu y a ≡ some q) s_root done in
            subst (λ (y : (Option ℕ × Bool) × Asids). IsValid y.1) (some_inj (sym done' ∙ e))
              x.valid
      ]
    ]

-- The calls of the kernel, each made under one lock; generations do not run out.
pub data Step (a : Asids) : Asids → Type 0 where
  registers : (root : ℕ) (r : Bool × Asids) → register root a ≡ some r → Step a r.1
  releases : (root : ℕ) (b : Asids) → release root a ≡ some b → Step a b
  activates :
      (cpu root : ℕ) (r : (Option ℕ × Bool) × Asids)
      → cpu < length a.active
      → a.generation < 2 ^ 64 - 1
      → activate cpu root a ≡ some r
      → Step a r.1

pub data Reach (spaces cpus bits : ℕ) : Asids → Type 0 where
  here : {a : Asids} → new spaces cpus bits ≡ some a → Reach spaces cpus bits a
  next : {a b : Asids} → Reach spaces cpus bits a → Step a b → Reach spaces cpus bits b

Step-IsValid : {a b : Asids} → Step a b → IsValid a → IsValid b
Step-IsValid {a} (registers root r e) v = register-IsValid root a v e
Step-IsValid {a} (releases root b e) v = release-IsValid root a v e
Step-IsValid {a} (activates cpu root r lt left e) v = activate-IsValid cpu root a v lt left e

pub Reach-IsValid : {spaces cpus bits : ℕ} {a : Asids} → Reach spaces cpus bits a → IsValid a
Reach-IsValid {spaces} {cpus} {bits} (here e) = new-IsValid spaces cpus bits e
Reach-IsValid (next r st) = Step-IsValid st (Reach-IsValid r)

-- After every history of registrations, releases and activations from a new pool, in which the
-- generations do not run out, two CPUs that run different address spaces run them with different
-- tags, neither of them 0 or 255.
pub Reach-apart :
    {spaces cpus bits : ℕ} {a : Asids} (c d q r t u : ℕ)
    → Reach spaces cpus bits a
    → get_elem? a.active c ≡ some (q, t)
    → get_elem? a.active d ≡ some (r, u)
    → q ≢ 0
    → r ≢ 0
    → q ≢ r
    → (t ≢ u) × (t ≢ 0) × (t ≢ 255)
Reach-apart {a = a} c d q r t u h c_at d_at q_user r_user apart =
    let v = Reach-IsValid h in
    let (i, s, at, s_root, s_tag, late) = v.running c q t c_at q_user in
    let (low, high, boot) = v.tagged.tags i s at (λ e. q_user (sym s_root ∙ e)) late in
    (
      running_apart a c d q r t u v c_at d_at q_user r_user apart,
      λ e. absurd (omega (arith, s_tag, e, low)),
      λ e. boot (s_tag ∙ e),
    )
