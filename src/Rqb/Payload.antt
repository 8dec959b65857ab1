-- ===== src/Rqb/Payload.antt =====
-- What scheduler/rqb.rs promises of status codes and payloads.
use mmurtl_rs.Base.{
  ◌≤◌, ◌<◌, ◌⊎◌, inl, inr, some, none, Bool-cases, ◌==◌, ◌%◌, ◌^◌, ℕ, zero, suc, ◌≡◌, refl, ap, ◌∙◌,
  ◌↔◌, true, min, List, [], ◌∷◌, ◌++◌, length, take, drop, length-take, length-drop, length-append,
  arith,
}
use mmurtl_rs.Rqb.{
  RqbStatus, as_u16, from_u16, Rqb, rqb_data_size, set_data, get_data, set_status, is_ok,
}

-- Reading back the code of any status gives that status.
pub from_u16-as_u16 : (s : RqbStatus) → from_u16 (as_u16 s) ≡ s
unfolding as_u16 from_u16
from_u16-as_u16 RqbStatus.success = refl
from_u16-as_u16 RqbStatus.general_failure = refl
from_u16-as_u16 RqbStatus.invalid_service = refl
from_u16-as_u16 RqbStatus.invalid_param = refl
from_u16-as_u16 RqbStatus.timeout = refl
from_u16-as_u16 RqbStatus.no_memory = refl
from_u16-as_u16 RqbStatus.access_denied = refl
from_u16-as_u16 RqbStatus.not_found = refl
from_u16-as_u16 RqbStatus.busy = refl
from_u16-as_u16 RqbStatus.aborted = refl

take-append_exact {ℓ} :
    {A : Type ℓ} (n : ℕ) (xs ys : List A) → length xs ≡ n → take n (xs ++ ys) ≡ xs
take-append_exact zero [] ys h = refl
take-append_exact zero (x ∷ xs) ys h = absurd (omega arith)
take-append_exact (suc n) [] ys h = absurd (omega arith)
take-append_exact (suc n) (x ∷ xs) ys h = ap (λ r. x ∷ r) (take-append_exact n xs ys (omega arith))

take_all {ℓ} : {A : Type ℓ} (k : ℕ) (xs : List A) → length xs ≤ k → take k xs ≡ xs
take_all zero [] h = refl
take_all zero (x ∷ xs) h = absurd (omega arith)
take_all (suc k) [] h = refl
take_all (suc k) (x ∷ xs) h = ap (λ r. x ∷ r) (take_all k xs (omega arith))

module _ (bytes : List ℕ) (r : Rqb) (full : length r.payload ≡ rqb_data_size) where
  abbrev len : ℕ
  len = min (length bytes) rqb_data_size

  abbrev copied : Rqb
  copied = record r { payload = take len bytes ++ drop len r.payload; data_size = len % 2 ^ 16 }

  get_data-copied : length bytes ≤ rqb_data_size → get_data copied ≡ bytes
  unfolding get_data
  get_data-copied fits =
      ap (λ n. take n (take len bytes ++ drop len r.payload)) (omega arith)
      ∙ take-append_exact len (take len bytes) (drop len r.payload)
          (omega (arith, length-take len bytes))
      ∙ take_all len bytes (omega arith)

  copied_size : length copied.payload ≡ rqb_data_size
  copied_size = omega (
    arith,
    length-append (take len bytes) (drop len r.payload),
    length-take len bytes,
    length-drop len r.payload,
  )

  -- Setting up to 64 bytes in a buffer of 64 bytes succeeds, reading gives these bytes back, and the
  -- buffer keeps its size; setting more than 64 bytes panics.
  pub get_data-set_data :
      ((length bytes ≤ rqb_data_size)
        × ((r' : Rqb) × (set_data bytes r ≡ some r')
            × (get_data r' ≡ bytes)
            × (length r'.payload ≡ rqb_data_size)))
      ⊎ ((rqb_data_size < length bytes) × (set_data bytes r ≡ none))
  unfolding set_data
  get_data-set_data = elim (Bool-cases (length bytes == len)) [
    | inl e ↦
        let fits : length bytes ≤ rqb_data_size = ground arith in
        inl (fits, (copied, rw e refl, get_data-copied fits, copied_size))
    | inr e ↦ inr (ground arith, rw e refl)
  ]

-- A request reads as successful exactly when the status last set on it is success.
is_ok-set_status :
    (s : RqbStatus) (r : Rqb) → (is_ok (set_status s r) ≡ true) ↔ (s ≡ RqbStatus.success)
unfolding is_ok set_status as_u16
is_ok-set_status RqbStatus.success r = (λ _. refl, λ _. refl)
is_ok-set_status s r = (λ h. cc, λ h. cc)
