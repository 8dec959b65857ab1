-- ===== src/Exfat/Chunks.antt =====
-- fs/exfat.rs: the bytes of an entry set fall into the entries that it was built from.
use mmurtl_rs.Base.{
  ℕ, zero, suc, ◌+◌, ◌*◌, ◌≡◌, refl, ap, ◌∙◌, List, [], ◌∷◌, ◌++◌, length, take, drop, arith,
}
use mmurtl_rs.Exfat.{
  entry_size, chunks, name_units, name_parts, concat, raw_entries, file_entry, stream_entry,
  name_entry_count, put_checksum, build_entry_set, entry_set_checksum,
}
use mathlib.Core.List.{append_assoc}

take_exact : (n : ℕ) (xs ys : List ℕ) → length xs ≡ n → take n (xs ++ ys) ≡ xs
take_exact zero [] ys h = refl
take_exact zero (x ∷ xs) ys h = absurd (omega arith)
take_exact (suc n) [] ys h = absurd (omega arith)
take_exact (suc n) (x ∷ xs) ys h = ap (λ t. x ∷ t) (take_exact n xs ys (omega arith))

drop_exact : (n : ℕ) (xs ys : List ℕ) → length xs ≡ n → drop n (xs ++ ys) ≡ ys
drop_exact zero [] ys h = refl
drop_exact zero (x ∷ xs) ys h = absurd (omega arith)
drop_exact (suc n) [] ys h = absurd (omega arith)
drop_exact (suc n) (x ∷ xs) ys h = drop_exact n xs ys (omega arith)

-- An entry at the front of a directory is its first chunk.
chunks_cons :
    (n : ℕ) (e rest : List ℕ)
    → length e ≡ entry_size
    → chunks (suc n) (e ++ rest) ≡ e ∷ chunks n rest
unfolding chunks
chunks_cons n e rest h =
    ap (λ t. t ∷ chunks n (drop entry_size (e ++ rest))) (take_exact entry_size e rest h)
    ∙ ap (λ t. e ∷ chunks n t) (drop_exact entry_size e rest h)

length-name_units : (n : ℕ) (name : List ℕ) → length (name_units n name) ≡ 2 * n
unfolding name_units
length-name_units zero name = refl
length-name_units (suc n) [] = omega (arith, length-name_units n [])
length-name_units (suc n) (c ∷ name) = omega (arith, length-name_units n name)

chunks-name_parts :
    (n m : ℕ) (name rest : List ℕ)
    → chunks (n + m) (concat (name_parts n name) ++ rest) ≡ name_parts n name ++ chunks m rest
unfolding name_parts concat
chunks-name_parts zero m name rest = ap (λ k. chunks k rest) (omega arith)
chunks-name_parts (suc n) m name rest =
    let part : List ℕ = 0xc1 ∷ 0 ∷ name_units 15 name in
    let others : List ℕ = concat (name_parts n (drop 15 name)) in
    ap (λ k. chunks k ((part ++ others) ++ rest)) (omega arith)
    ∙ ap (chunks (suc (n + m))) (append_assoc part others rest)
    ∙ chunks_cons (n + m) part (others ++ rest) (omega (arith, length-name_units 15 name))
    ∙ ap (λ t. part ∷ t) (chunks-name_parts n m (drop 15 name) rest)

-- The entries of a set that is built, in front of `rest`.
pub chunks-build_entry_set :
    (m : ℕ) (name : List ℕ) (attributes flags first len : ℕ) (rest : List ℕ)
    → (sum : ℕ) × (chunks
          (suc (suc (name_entry_count name + m)))
          (build_entry_set name attributes flags first len ++ rest)
        ≡ put_checksum sum (file_entry (name_entry_count name) attributes)
            ∷ stream_entry name flags first len
            ∷ name_parts (name_entry_count name) name
          ++ chunks m rest)
unfolding build_entry_set
chunks-build_entry_set m name attributes flags first len rest =
    let k = name_entry_count name in
    let sum = entry_set_checksum (concat (raw_entries name attributes flags first len)) in
    let file = put_checksum sum (file_entry k attributes) in
    let stream = stream_entry name flags first len in
    let parts = concat (name_parts k name) in
    (
      sum,
      chunks_cons (suc (k + m)) file (stream ++ (parts ++ rest)) refl
          ∙ ap (λ t. file ∷ t)
              (chunks_cons (k + m) stream (parts ++ rest) refl
                ∙ ap (λ t. stream ∷ t) (chunks-name_parts k m name rest)),
    )
