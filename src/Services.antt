-- ===== src/Services.antt =====
-- ipc/mod.rs: the registry of named services. A name is the list of its bytes.
use mmurtl_rs.Base.{
  ℕ, Bool, true, false, not, ◌&&◌, ◌||◌, ◌==◌, ltb, if◌then◌else◌, is_empty, Option, none, some,
  List, [], ◌∷◌, ◌++◌, length,
}
pub mod Registry
mod Tests

-- SERVICE_NAME_MAX
abbrev pub service_name_max : ℕ
service_name_max = 16

-- The static SERVICES: who serves which name.
abbrev pub Services : Type 0
Services = List (List ℕ × ℕ)

abbrev pub same_name : List ℕ → List ℕ → Bool
same_name [] [] = true
same_name (a ∷ xs) (b ∷ ys) = a == b && same_name xs ys
same_name _ _ = false

-- `s.retain(|(n, _)| n.as_str() != name)`
unfoldable pub retain_others : List ℕ → Services → Services
retain_others name [] = []
retain_others name (e ∷ s) =
    let rest = retain_others name s in if not (same_name e.0 name) then e ∷ rest else rest

unfoldable pub register_service : List ℕ → ℕ → Services → Bool × Services
unfolding retain_others
register_service name tid s =
    if is_empty name || ltb service_name_max (length name)
    then (false, s)
    else (true, retain_others name s ++ (name, tid) ∷ [])

unfoldable pub lookup_service : List ℕ → Services → Option ℕ
lookup_service name [] = none
lookup_service name (e ∷ s) =
    let rest = lookup_service name s in if same_name e.0 name then some e.1 else rest
