-- ===== src/Asids/Reload.antt =====
-- A new generation: every tag that a CPU runs with stays with its space.
use mmurtl_rs.Base.{
  ◌⊎◌, ℕ, zero, suc, ◌+◌, ◌-◌, ◌^◌, ◌≤◌, ◌<◌, ◌≡◌, ◌≢◌, refl, sym, ap, ◌∙◌, subst, inl, inr, true,
  false, ◌==◌, leb, some, List, [], ◌∷◌, get_elem?, set, get_elem?_det, get_elem?-set_self,
  get_elem?-set_ne, get_elem?-lt, position, position-some, position-none, arith, Bool-cases,
  Option-cases,
}
use mmurtl_rs.Asids.{Space, Asids, is_root, mark, with_space, reload, rollover, reserved_tags}
use mmurtl_rs.Asids.Valid.{IsTag, IsTagged, IsValid, Runs, given-IsTagged, given-Runs}
use mmurtl_rs.Asids.Alloc.{mark-IsTagged}

-- The space of a root is where the code looks for it.
pub position-root :
    {g : ℕ} (a : Asids) (i : ℕ) (s : Space)
    → IsTagged g a
    → get_elem? a.spaces i ≡ some s
    → s.root ≢ 0
    → position (is_root s.root) a.spaces ≡ some i
position-root a i s v at user = elim (Option-cases (position (is_root s.root) a.spaces)) [
  | inl e ↦ absurd (ground (arith, position-none (is_root s.root) a.spaces i e at))
  | inr (j, e) ↦
      let (t, j_at, same) = position-some (is_root s.root) a.spaces e in
      let root_same : s.root ≡ t.root = ground arith in
      e ∙ ap (λ (x : ℕ). some x) (sym (v.roots i j s t at j_at user root_same))
]

-- Each place keeps its root.
abbrev pub SameRoots : Asids → Asids → Type 0
SameRoots a b =
    (i : ℕ) (s : Space)
    → get_elem? a.spaces i ≡ some s
    → (t : Space) × (get_elem? b.spaces i ≡ some t) × (t.root ≡ s.root)

given-SameRoots :
    (a : Asids) (i : ℕ) (s : Space) (tag : ℕ)
    → get_elem? a.spaces i ≡ some s
    → SameRoots a (with_space i (record s { tag = tag; generation = a.generation }) a)
given-SameRoots a i s tag at j p j_at = elim (Bool-cases (i == j)) [
  | inl e ↦
      let ij : i ≡ j = ground arith in
      (
        record s { tag = tag; generation = a.generation },
        subst
            (λ k.
              get_elem? (set a.spaces i (record s { tag = tag; generation = a.generation })) k
              ≡ some (record s { tag = tag; generation = a.generation }))
            ij
            (get_elem?-set_self a.spaces i (record s { tag = tag; generation = a.generation })
              (get_elem?-lt a.spaces i at)),
        ap (λ (x : Space). x.root) (get_elem?_det a.spaces ij at j_at),
      )
  | inr e ↦ let ij : i ≢ j = ground arith in (p, get_elem?-set_ne a.spaces i j _ ij ∙ j_at, refl)
]

-- Some CPU of the list runs a user root with the tag.
abbrev pub IsRun : List (ℕ × ℕ) → ℕ → Type 0
IsRun cpus t = (c : ℕ) × (r : ℕ) × (get_elem? cpus c ≡ some (r, t)) × (r ≢ 0)

IsRun-later :
    (cpu : ℕ × ℕ) (rest : List (ℕ × ℕ)) (t : ℕ) {A : Type 0}
    → A ⊎ IsRun rest t
    → A ⊎ IsRun (cpu ∷ rest) t
IsRun-later cpu rest t (inl x) = inl x
IsRun-later cpu rest t (inr (c, r, at, user)) = inr (suc c, r, at, user)

-- A tag that is in use after one was marked was so before, or is that one.
IsRun-mark :
    (root tag : ℕ) (rest : List (ℕ × ℕ)) (a : Asids) (t : ℕ)
    → root ≢ 0
    → ((mark tag a).used t ≡ true) ⊎ IsRun rest t
    → (a.used t ≡ true) ⊎ IsRun ((root, tag) ∷ rest) t
IsRun-mark root tag rest a t user (inr later) = IsRun-later (root, tag) rest t (inr later)
IsRun-mark root tag rest a t user (inl used) = elim (Bool-cases (tag == t)) [
  | inl e ↦
      let same : tag ≡ t = ground arith in inr (0, root, ap (λ (x : ℕ). some (root, x)) same, user)
  | inr e ↦ inl (ground arith)
]

-- What the loop makes of a pool in which the CPUs of the list run with tags of generation `g` on.
pub record Reloads (g : ℕ) (rest : List (ℕ × ℕ)) (a b : Asids) : Type 0 where
  pub tagged : IsTagged g b
  pub same : (b.generation ≡ a.generation) × (b.active ≡ a.active)
  pub roots : SameRoots a b
  pub kept : (h r t : ℕ) → g ≤ h → h ≤ a.generation → Runs h a r t → Runs h b r t
  pub now : (c r t : ℕ) → get_elem? rest c ≡ some (r, t) → r ≢ 0 → Runs a.generation b r t
  pub only : (t : ℕ) → b.used t ≡ true → (a.used t ≡ true) ⊎ IsRun rest t

reload-keep :
    (root tag : ℕ) (rest : List (ℕ × ℕ)) (a : Asids) {i : ℕ} {s : Space}
    → (root == 0) ≡ false
    → (tag == 0) ≡ false
    → leb tag a.limit ≡ true
    → position (is_root root) a.spaces ≡ some i
    → get_elem? a.spaces i ≡ some s
    → reload ((root, tag) ∷ rest) a
      ≡ reload rest (with_space i (record s { tag = tag; generation = a.generation }) (mark tag a))
unfolding reload
reload-keep root tag rest a e f g h k = rw (e, f, g, h, k) refl

reload-skip :
    (root tag : ℕ) (rest : List (ℕ × ℕ)) (a : Asids)
    → (root == 0) ≡ true
    → reload ((root, tag) ∷ rest) a ≡ reload rest a
unfolding reload
reload-skip root tag rest a e = rw e refl

reload-Reloads :
    (g : ℕ) (rest : List (ℕ × ℕ)) (a : Asids)
    → IsTagged g a
    → g ≤ a.generation
    → ((c r t : ℕ) → get_elem? rest c ≡ some (r, t) → r ≢ 0 → Runs g a r t)
    → (b : Asids) × (reload rest a ≡ some b) × Reloads g rest a b
reload-Reloads g [] a v late runs = (
  a,
  unfold reload in refl,
  record {
    tagged = v;
    same = (refl, refl);
    roots = λ i s at. (s, at, refl);
    kept = λ h r t lo hi x. x;
    now = λ c r t at. absurd (cc at);
    only = λ t e. inl e;
  },
)
reload-Reloads g ((root, tag) ∷ rest) a v late runs = elim (Bool-cases (root == 0)) [
  | inl zero_root ↦
      let (b, e, x) = reload-Reloads g rest a v late (λ c. runs (suc c)) in
      (
        b,
        reload-skip root tag rest a zero_root ∙ e,
        record {
          tagged = x.tagged;
          same = x.same;
          roots = x.roots;
          kept = x.kept;
          now = λ c r t at user. later b x c r t at user zero_root;
          only = λ t e. IsRun-later (root, tag) rest t (x.only t e);
        },
      )
  | inr user ↦
      let is_user : root ≢ 0 = ground arith in
      let (i, s, at, s_root, s_tag, s_late) = runs 0 root tag refl is_user in
      let s_user : s.root ≢ 0 = λ e. is_user (sym s_root ∙ e) in
      let in_range : IsTag a tag = subst (IsTag a) s_tag (v.tags i s at s_user s_late) in
      let place : position (is_root root) a.spaces ≡ some i =
        subst (λ x. position (is_root x) a.spaces ≡ some i) s_root
          (position-root a i s v at s_user) in
      let m = mark tag a in
      let mv = mark-IsTagged g a.next tag a v v.next_in in
      let in_use : m.used tag ≡ true = ground arith in
      let own : (j : ℕ) (t : Space)
          → get_elem? a.spaces j ≡ some t
          → i ≢ j
          → t.root ≢ 0
          → g ≤ t.generation
          → t.tag ≢ tag =
        λ j t j_at ij t_user t_late same.
          ij (v.apart i j s t at j_at s_user t_user s_late t_late (s_tag ∙ sym same)) in
      let n = with_space i (record s { tag = tag; generation = a.generation }) m in
      let nv : IsTagged g n = given-IsTagged g m i s tag mv at s_user in_range in_use late own in
      let carry : (h r t : ℕ) → h ≤ a.generation → Runs h a r t → Runs h n r t = λ h r t hi.
        given-Runs g m i s tag mv at s_user in_range in_use late own r t h hi
          (λ x xr sx hs. s_tag) in
      let (b, e, x) =
        reload-Reloads g rest n nv late
          (λ c r t c_at r_user. carry g r t late (runs (suc c) r t c_at r_user)) in
      let placed : Runs a.generation n root tag = (
        i,
        record s { tag = tag; generation = a.generation },
        get_elem?-set_self a.spaces i _ (get_elem?-lt a.spaces i at),
        s_root,
        refl,
        omega arith,
      ) in
      (
        b,
        reload-keep root tag rest a user (ground arith) (ground arith) place at ∙ e,
        record {
          tagged = x.tagged;
          same = x.same;
          roots = λ j p j_at.
              let (q, q_at, q_root) = given-SameRoots a i s tag at j p j_at in
              let (w, w_at, w_root) = x.roots j q q_at in (w, w_at, w_root ∙ q_root);
          kept = λ h r t lo hi run. x.kept h r t lo hi (carry h r t hi run);
          now = λ c r t c_at r_user.
              placed_later b x (x.kept a.generation root tag late (omega arith) placed) c r t c_at
                r_user;
          only = λ t e. IsRun-mark root tag rest a t is_user (x.only t e);
        },
      )
]
  where
    later :
        (b : Asids)
        → Reloads g rest a b
        → (c r t : ℕ) → get_elem? ((root, tag) ∷ rest) c ≡ some (r, t)
        → r ≢ 0
        → (root == 0) ≡ true
        → Runs a.generation b r t
    later b x zero r t at user z = absurd (ground arith)
    later b x (suc c) r t at user z = x.now c r t at user

    placed_later :
        (b : Asids) {n : Asids}
        → Reloads g rest n b
        → Runs n.generation b root tag
        → (c r t : ℕ) → get_elem? ((root, tag) ∷ rest) c ≡ some (r, t)
        → r ≢ 0
        → Runs n.generation b r t
    placed_later b {n} x here zero r t at user =
        let same : (root, tag) ≡ (r, t) = cc at in
        subst (λ (p : ℕ × ℕ). Runs n.generation b p.0 p.1) same here
    placed_later b x here (suc c) r t at user = x.now c r t at user

abbrev fresh : Asids → Asids
fresh a = record a { generation = a.generation + 1; used = reserved_tags; next = 1 }

fresh-IsTagged : (a : Asids) → IsValid a → IsTagged a.generation (fresh a)
fresh-IsTagged a v = record {
  small = v.tagged.small;
  some_tags = v.tagged.some_tags;
  next_in = (omega arith, v.tagged.some_tags);
  reserved = (refl, refl);
  roots = v.tagged.roots;
  tags = v.tagged.tags;
  apart = v.tagged.apart;
  marked = λ i s at user now. absurd (omega (arith, v.tagged.old i s at));
  empty = v.tagged.empty;
  old = λ i s at. omega (arith, v.tagged.old i s at);
}

weaken : {g : ℕ} (b : Asids) → IsTagged g b → g ≤ b.generation → IsTagged b.generation b
weaken b v le = record {
  small = v.small;
  some_tags = v.some_tags;
  next_in = v.next_in;
  reserved = v.reserved;
  roots = v.roots;
  tags = λ i s at user late. v.tags i s at user (omega arith);
  apart = λ i j s t at_i at_j user_s user_t late_s late_t.
      v.apart i j s t at_i at_j user_s user_t (omega arith) (omega arith);
  marked = v.marked;
  empty = v.empty;
  old = v.old;
}

-- A new generation, while there is one left.
pub record RollsOver (a b : Asids) : Type 0 where
  pub valid : IsValid b
  pub newer : b.generation ≡ a.generation + 1
  pub active : b.active ≡ a.active
  pub roots : SameRoots a b
  pub only_run : (t : ℕ) → IsTag b t → b.used t ≡ true → IsRun b.active t

pub rollover_lem :
    (a : Asids)
    → IsValid a
    → a.generation < 2 ^ 64 - 1
    → (b : Asids) × (rollover a ≡ some b) × RollsOver a b
unfolding rollover
rollover_lem a v left =
    let go_on : (a.generation == 2 ^ 64 - 1) ≡ false = ground arith in
    let (b, e, x) =
      reload-Reloads a.generation a.active (fresh a) (fresh-IsTagged a v) (omega arith) v.running in
    let newer : b.generation ≡ a.generation + 1 = x.same.0 in
    (
      b,
      rw go_on e,
      record {
        valid = record {
          tagged = weaken b x.tagged (omega arith);
          begun = omega arith;
          running = λ c r t at user.
              subst (λ g. Runs g b r t) (sym newer)
                (x.now c r t (subst (λ l. get_elem? l c ≡ some (r, t)) x.same.1 at) user);
        };
        newer = newer;
        active = x.same.1;
        roots = x.roots;
        only_run = λ t t_in used.
            subst (λ l. IsRun l t) (sym x.same.1) (user_tag t t_in.0 t_in.2 (x.only t used));
      },
    )
  where
    user_tag :
        (t : ℕ) → 1 ≤ t → t ≢ 255 → (reserved_tags t ≡ true) ⊎ IsRun a.active t → IsRun a.active t
    user_tag t pos not_boot (inl reserved) = absurd (ground arith)
    user_tag t pos not_boot (inr run) = run
