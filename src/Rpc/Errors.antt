-- ===== src/Rpc/Errors.antt =====
-- Errors made by one service and read by another.
use backend_go.Prelude.{
  true, false, not, some, [], ◌∷◌, ◌++◌, Text, trim_space, all, ◌==◌, ◌≡◌, ◌≢◌, refl, arith,
}
use backend_go.Rpc.{Code, is_ok, cut, new_error, parse_error}

cut-append :
    (reason msg : Text)
    → all (λ c. not (c == b'|')) reason ≡ true
    → cut (reason ++ b'|' ∷ msg) ≡ some (reason, msg)
cut-append [] msg h = refl
cut-append (c ∷ reason) msg h =
    let same = cut-append reason msg (ground arith) in
    let ne : (c == b'|') ≡ false = ground arith in rw (ne, same) refl

-- A trimmed reason and message, neither empty, the reason without the separator, are read back
-- from the error that was made with them, with its code, for every code but OK.
pub parse_error-new_error :
    (code : Code) (reason msg : Text)
    → is_ok code ≡ false
    → trim_space reason ≡ reason
    → trim_space msg ≡ msg
    → reason ≢ []
    → msg ≢ []
    → all (λ c. not (c == b'|')) reason ≡ true
    → parse_error (new_error code reason msg) ≡ (code, reason, msg)
unfolding parse_error new_error
parse_error-new_error code [] msg e r m ne nm h = absurd (ne refl)
parse_error-new_error code (c ∷ reason) [] e r m ne nm h = absurd (nm refl)
parse_error-new_error code (c ∷ reason) (d ∷ msg) e r m ne nm h =
    rw (e, r, m, cut-append (c ∷ reason) (d ∷ msg) h, r, m) refl
