-- ===== src/Shell/Tests.antt =====
-- The runs of the tests in shell/parse.rs, and the instance of the theorem there.
use mmurtl_rs.Base.{ℕ, ◌≡◌, refl, inl, inr, List, [], ◌∷◌, arith, any}
use mmurtl_rs.Shell.{parse, ParseError, resolve}
use mmurtl_rs.Shell.Paths.{IsPath, Yields, resolve-Yields}

-- /a/b
abbrev inner : List ℕ
inner = b'/' ∷ b'a' ∷ b'/' ∷ b'b' ∷ []

inner-IsPath : IsPath inner
inner-IsPath = record { rooted = refl; fits = omega arith }

-- ../c
abbrev sideways : List ℕ
sideways = b'.' ∷ b'.' ∷ b'/' ∷ b'c' ∷ []

resolved : resolve inner sideways ≡ inr (b'/' ∷ b'a' ∷ b'/' ∷ b'c' ∷ [])
unfolding resolve any
resolved = refl

unclosed : parse (b'x' ∷ 39 ∷ b'y' ∷ []) ≡ inl ParseError.unclosed_quote
unfolding parse
unclosed = refl

two_arguments :
    parse (32 ∷ b'x' ∷ 32 ∷ 34 ∷ b'a' ∷ 32 ∷ b'b' ∷ 34 ∷ [])
    ≡ inr (record { bytes = b'x' ∷ b'a' ∷ 32 ∷ b'b' ∷ []; spans = (0, 1) ∷ (1, 4) ∷ [] })
unfolding parse
two_arguments = refl

resolve-Yields_example : Yields (resolve inner sideways)
resolve-Yields_example = resolve-Yields inner sideways inner-IsPath
