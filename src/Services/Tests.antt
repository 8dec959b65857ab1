-- ===== src/Services/Tests.antt =====
-- A name that moves to another task, and the instance of the theorem there.
use mmurtl_rs.Base.{ℕ, ◌≡◌, refl, true, false, some, List, [], ◌∷◌}
use mmurtl_rs.Services.{Services, same_name, register_service, lookup_service}
use mmurtl_rs.Services.Registry.{register_service_lem}

abbrev text : List ℕ
text = b't' ∷ b'e' ∷ b'x' ∷ b't' ∷ []

abbrev served : Services
served = (text, 5) ∷ (b'd' ∷ [], 6) ∷ []

moved : lookup_service text (register_service text 9 served).1 ≡ some 9
unfolding lookup_service register_service
moved = refl

register_service_lem_example :
    ((register_service text 9 served).0 ≡ true)
    × (lookup_service text (register_service text 9 served).1 ≡ some 9)
    × ((other : List ℕ)
        → same_name text other ≡ false
        → lookup_service other (register_service text 9 served).1 ≡ lookup_service other served)
register_service_lem_example = register_service_lem text 9 served refl
