-- ===== src/Rqb/Tests.antt =====
-- Runs on concrete messages, and the instances of the theorems there.
use mmurtl_rs.Base.{ℕ, ◌≤◌, ◌<◌, ◌⊎◌, ◌≡◌, refl, none, some, List, [], ◌∷◌, length, replicate}
use mmurtl_rs.Rqb.{Rqb, RqbStatus, from_u16, rqb_data_size, new, set_data, get_data}
use mmurtl_rs.Rqb.Payload.{get_data-set_data}

abbrev three_bytes : List ℕ
three_bytes = 1 ∷ 2 ∷ 3 ∷ []

get_data-set_data_example :
    ((length three_bytes ≤ rqb_data_size)
      × ((r' : Rqb) × (set_data three_bytes new ≡ some r')
          × (get_data r' ≡ three_bytes)
          × (length r'.payload ≡ rqb_data_size)))
    ⊎ ((rqb_data_size < length three_bytes) × (set_data three_bytes new ≡ none))
unfolding new
get_data-set_data_example = get_data-set_data three_bytes new refl

-- 65 bytes do not fit.
set_data-oversized : set_data (replicate 65 7) new ≡ none
unfolding set_data
set_data-oversized = refl

unknown_code : from_u16 77 ≡ RqbStatus.general_failure
unfolding from_u16
unknown_code = refl
