-- ===== src/Range/Tests.antt =====
-- Runs of the range and precondition code.
use r2storage.Prelude.{[], codes, decimal_from, is_digit, is_space, refl, some}
use r2storage.Range.{is_finite, parse_range_header}
use r2storage.Range.Selection.{Asked, Serves, parse_range_header-Serves, range_text}

parse_range_header-Serves_example :
    Serves
      (Asked (codes "2") (codes "99") 5)
      5
      (parse_range_header (some (range_text (codes " ") (codes "2") (codes "99") [])) 5)
unfolding is_space is_digit is_finite decimal_from
parse_range_header-Serves_example =
    parse_range_header-Serves (codes " ") (codes "2") (codes "99") [] 5 refl refl refl refl
      (λ e. cc) refl refl
