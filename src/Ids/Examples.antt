-- ===== src/Ids/Examples.antt =====
-- Tests of the ids, and the theorems at concrete inputs.
use backend_go.Prelude.{
  ◌∷◌, [], ◌*◌, ◌+◌, ◌^◌, true, none, some, codes, ◌≡◌, refl, arith, to_upper, trim_space,
}
use backend_go.Ids.{new, parse, is_valid, is_crockford, encode_time, symbol, encode_from}
use backend_go.Ids.Encoding.{decode, bytes_from, decode-new}
use backend_go.Ids.Parsing.{parse-canonical, parse-new}

thirty_three : encode_time 33 ≡ codes "0000000011"
unfolding encode_time encode_from symbol
thirty_three = refl

lower_case :
    parse (codes " 01arz3ndektsv4rrffq69g5fav ") ≡ some (codes "01ARZ3NDEKTSV4RRFFQ69G5FAV")
unfolding parse is_valid is_crockford trim_space
lower_case = refl

letter_u : parse (codes "01ARZ3NDEKTSV4RRFFQ69G5FAU") ≡ none
unfolding parse is_valid is_crockford trim_space
letter_u = refl

decode-new_example :
    decode (new 1_700_000_000_000 1 2 (3 ∷ 4 ∷ 5 ∷ 6 ∷ 7 ∷ 8 ∷ 9 ∷ 10 ∷ []))
    ≡ 1_700_000_000_000 * 2 ^ 80 + bytes_from 0 (1 ∷ 2 ∷ 3 ∷ 4 ∷ 5 ∷ 6 ∷ 7 ∷ 8 ∷ 9 ∷ 10 ∷ [])
decode-new_example =
    decode-new 1_700_000_000_000 1 2 (3 ∷ 4 ∷ 5 ∷ 6 ∷ 7 ∷ 8 ∷ 9 ∷ 10 ∷ []) (omega arith)
      (omega arith) (omega arith)
      (
        omega arith,
        (
          omega arith,
          (
            omega arith,
            (omega arith, (omega arith, (omega arith, (omega arith, (omega arith, tt))))),
          ),
        ),
      )
      refl

parse-canonical_example :
    (is_valid (codes "01ARZ3NDEKTSV4RRFFQ69G5FAV") ≡ true)
    × (to_upper (codes "01ARZ3NDEKTSV4RRFFQ69G5FAV") ≡ codes "01ARZ3NDEKTSV4RRFFQ69G5FAV")
    × (parse (codes "01ARZ3NDEKTSV4RRFFQ69G5FAV") ≡ some (codes "01ARZ3NDEKTSV4RRFFQ69G5FAV"))
parse-canonical_example =
    parse-canonical (codes " 01arz3ndektsv4rrffq69g5fav ") (codes "01ARZ3NDEKTSV4RRFFQ69G5FAV")
      lower_case

parse-new_example : parse (new 33 1 2 (3 ∷ [])) ≡ some (new 33 1 2 (3 ∷ []))
parse-new_example = parse-new 33 1 2 (3 ∷ [])
