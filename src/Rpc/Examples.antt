-- ===== src/Rpc/Examples.antt =====
-- Tests of the errors, and the theorem at a concrete input.
use backend_go.Prelude.{[], codes, ◌≡◌, refl, trim_space}
use backend_go.Rpc.{Code, new_error, parse_error}
use backend_go.Rpc.Errors.{parse_error-new_error}

no_reason :
    parse_error (new_error Code.not_found [] (codes " gone "))
    ≡ (Code.not_found, codes "internal_error", codes "gone")
unfolding parse_error new_error trim_space
no_reason = refl

parse_error-new_error_example :
    parse_error (new_error Code.not_found (codes "not_found") (codes "a|b"))
    ≡ (Code.not_found, codes "not_found", codes "a|b")
unfolding trim_space
parse_error-new_error_example =
    parse_error-new_error Code.not_found (codes "not_found") (codes "a|b") refl refl refl (λ e. cc)
      (λ e. cc) refl
