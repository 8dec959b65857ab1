-- ===== src/Exfat/Grow.antt =====
-- fs/exfat.rs: the loop of `place_entry_set` that makes the root directory larger ends.
use mmurtl_rs.Base.{
  ℕ, zero, suc, ◌+◌, ◌-◌, ◌*◌, ◌≤◌, ◌<◌, ◌≡◌, refl, sym, ap, ◌∙◌, Bool, true, leb, Option, none,
  some, List, [], ◌∷◌, ◌++◌, length, take, replicate, arith, Bool-cases, inl, inr, length-append,
  length-take, length-replicate,
}
use mmurtl_rs.Exfat.{Volume, cluster_bytes}
use mmurtl_rs.Exfat.Io.{Io, Device, and_then, check, on_failure}
use mmurtl_rs.Exfat.Disk.{bitmap_alloc, fat_write}
use mmurtl_rs.Exfat.Files.{resize, last_of, grow, give_back, init_cluster}

-- Two programs that begin with the same step and go on alike.
bind_same :
    {D A B : Type 0} (r : Option A × D) (f g : A → Io D B)
    → ((a : A) (d : D) → f a d ≡ g a d)
    → and_then r f ≡ and_then r g
bind_same (none, d) f g h = refl
bind_same (some a, d) f g h = h a d

length-resize : (bytes : List ℕ) (n : ℕ) → length (resize bytes n) ≡ n
length-resize bytes n = omega (
  arith,
  length-append (take n bytes) (replicate (n - length bytes) 0),
  length-take n bytes,
  length-replicate {A = ℕ} (n - length bytes) 0,
)

one_more : (x y : ℕ) → (x + 1) * y ≡ x * y + y
one_more x y = omega arith

-- What one more cluster makes of the length of a directory.
length_grown :
    (vol : Volume) (chain bytes : List ℕ) (cluster : ℕ)
    → length (resize bytes ((length chain + 1) * cluster_bytes vol))
      ≡ length (chain ++ cluster ∷ []) * cluster_bytes vol
length_grown vol chain bytes cluster =
    length-resize bytes ((length chain + 1) * cluster_bytes vol)
    ∙ ap (λ n. n * cluster_bytes vol) (omega (arith, length-append chain (cluster ∷ [])))

gets_closer :
    (n cb end size left have have' : ℕ)
    → 0 < cb
    → have ≡ n * cb
    → have' ≡ (n + 1) * cb
    → end + size ≤ have + suc left
    → end + size ≤ have' + left
gets_closer n cb end size left have have' pos a b enough = omega (arith, one_more n cb)

module _ {D : Type 0} (dev : Device D) (vol : Volume) (is_root : Bool) (end size : ℕ) where
  -- Once nothing is missing, the fuel does not matter.
  grow_fits :
      (fuel : ℕ) (chain bytes : List ℕ) (d : D)
      → leb (end + size) (length bytes) ≡ true
      → grow dev fuel vol is_root end size chain bytes d ≡ (some (chain, bytes), d)
  unfolding grow
  grow_fits zero chain bytes d h = rw h refl
  grow_fits (suc left) chain bytes d h = rw h refl

  grow_more :
      (fuel more : ℕ) (chain bytes : List ℕ) (d : D)
      → 0 < cluster_bytes vol
      → length bytes ≡ length chain * cluster_bytes vol
      → end + size ≤ length bytes + fuel
      → fuel ≤ more
      → grow dev more vol is_root end size chain bytes d
        ≡ grow dev fuel vol is_root end size chain bytes d
  unfolding grow
  grow_more zero more chain bytes d pos whole enough le =
      grow_fits more chain bytes d (ground arith)
      ∙ sym (grow_fits zero chain bytes d (ground arith))
  grow_more (suc left) zero chain bytes d pos whole enough le = absurd (omega arith)
  grow_more (suc left) (suc more) chain bytes d pos whole enough le =
      elim (Bool-cases (leb (end + size) (length bytes))) [
        | inl fits ↦ rw fits refl
        | inr short ↦ rw short (
            bind_same (check is_root d) _ _ (λ _ d1.
              bind_same (bitmap_alloc dev vol 1 d1) _ _ (λ cluster d2.
                bind_same (on_failure (init_cluster dev vol cluster) (give_back dev vol cluster) d2)
                  _ _
                  (λ _ d3.
                    bind_same
                      (on_failure (fat_write dev vol (last_of chain 0) cluster)
                        (give_back dev vol cluster) d3)
                      _ _
                      (λ _ d4.
                        grow_more left more (chain ++ cluster ∷ [])
                          (resize bytes ((length chain + 1) * cluster_bytes vol)) d4 pos
                          (length_grown vol chain bytes cluster)
                          (gets_closer (length chain) (cluster_bytes vol) end size left
                            (length bytes)
                            (length (resize bytes ((length chain + 1) * cluster_bytes vol))) pos
                            whole (length-resize bytes ((length chain + 1) * cluster_bytes vol))
                            enough)
                          (omega arith))))))
      ]

-- Growing a directory for a set never runs out of fuel: more fuel than the size of the set, which
-- `place_entry_set` gives, yields the same result and the same device, for a directory that is
-- loaded whole, on a volume whose clusters are not empty.
pub grow_fuel :
    {D : Type 0} (dev : Device D) (vol : Volume) (is_root : Bool) (end size more : ℕ)
    (chain bytes : List ℕ) (d : D)
    → 0 < cluster_bytes vol
    → length bytes ≡ length chain * cluster_bytes vol
    → end ≤ length bytes
    → size ≤ more
    → grow dev more vol is_root end size chain bytes d
      ≡ grow dev size vol is_root end size chain bytes d
grow_fuel dev vol is_root end size more chain bytes d pos whole inside le =
    grow_more dev vol is_root end size size more chain bytes d pos whole (omega arith) le
