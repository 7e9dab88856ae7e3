-- ===== src/Auth/Search.antt =====
-- The texts' `startsWith` and `includes`, and what they find.
use freysa_spark_hackathon.Common.{
  ◌≡◌, refl, Bool, true, false, ◌||◌, ◌&&◌, [], ◌∷◌, ◌++◌, ◌==◌, Text, arith,
}

unfoldable pub starts_with : Text → Text → Bool
starts_with [] s = true
starts_with (c ∷ w) [] = false
starts_with (c ∷ w) (d ∷ s) = c == d && starts_with w s

unfoldable pub includes : Text → Text → Bool
includes w [] = starts_with w []
includes w (c ∷ s) = starts_with w (c ∷ s) || includes w s

pub starts_with-append : (w s : Text) → starts_with w (w ++ s) ≡ true
unfolding starts_with
starts_with-append [] s = refl
starts_with-append (c ∷ w) s = ground (arith, starts_with-append w s)

pub starts_with→append : (w s : Text) → starts_with w s ≡ true → (r : Text) × (s ≡ w ++ r)
unfolding starts_with
starts_with→append [] s h = (s, refl)
starts_with→append (c ∷ w) [] h = cc
starts_with→append (c ∷ w) (d ∷ s) h =
    let same : c ≡ d = ground arith in
    let rest : starts_with w s ≡ true = ground arith in
    let found = starts_with→append w s rest in (found.0, cc (same, found.1))

includes_prefix : (w s : Text) → starts_with w s ≡ true → includes w s ≡ true
unfolding includes
includes_prefix w [] h = h
includes_prefix w (c ∷ s) h = rw h

pub includes-append : (w a b : Text) → includes w (a ++ (w ++ b)) ≡ true
unfolding includes
includes-append w [] b = includes_prefix w (w ++ b) (starts_with-append w b)
includes-append w (c ∷ a) b = ground (arith, includes-append w a b)
