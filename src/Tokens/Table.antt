-- ===== src/Tokens/Table.antt =====
-- What a contract of the table is like.
use backend_go.Prelude.{
  Bool, true, ◌&&◌, Option, none, some, List, [], ◌∷◌, Text, text_eq, trim_space, to_upper, all,
  leb, leb→le, ◌≤◌, ◌≡◌, refl, arith, Bool-cases, inl, inr,
}
use backend_go.Tokens.{
  TokenContract, TokenMap, lookup, by_symbol, evm_token_contracts, known_evm_token_contract,
  is_hex_address,
}

lookup-all :
    {A : Type 0} (p : A → Bool) (key : Text) (m : List (Text × A)) (a : A)
    → all (λ row. p row.1) m ≡ true
    → lookup key m ≡ some a
    → p a ≡ true
lookup-all p key [] a h e = cc
lookup-all p key ((k, b) ∷ m) a h e = elim (Bool-cases (text_eq k key)) [
  | inl same ↦ ground arith
  | inr other ↦ lookup-all p key m a (ground arith) (rw other at e)
]

abbrev is_proper : TokenContract → Bool
is_proper c = is_hex_address c.address && leb c.decimals 18

table_proper :
    all
      (λ (row : Text × TokenMap). all (λ (r : Text × TokenContract). is_proper r.1) row.1)
      evm_token_contracts
    ≡ true
unfolding evm_token_contracts is_hex_address trim_space
table_proper = refl

by_symbol-proper :
    (symbol : Text) (found : Option TokenMap) (c : TokenContract)
    → ((m : TokenMap) → found ≡ some m → all (λ (r : Text × TokenContract). is_proper r.1) m ≡ true)
    → by_symbol symbol found ≡ some c
    → is_proper c ≡ true
by_symbol-proper symbol none c rows h = cc
by_symbol-proper symbol (some m) c rows h =
    lookup-all is_proper (to_upper (trim_space symbol)) m c (rows m refl) h

-- Every contract that is found has a well-formed address, and at most 18 decimals.
pub known_evm_token_contract-proper :
    (chain_name symbol : Text) (c : TokenContract)
    → known_evm_token_contract chain_name symbol ≡ some c
    → (is_hex_address c.address ≡ true) × (c.decimals ≤ 18)
unfolding known_evm_token_contract
known_evm_token_contract-proper chain_name symbol c h =
    let proper =
      by_symbol-proper symbol _ c
        (λ m e.
          lookup-all (λ (m : TokenMap). all (λ (r : Text × TokenContract). is_proper r.1) m) _
            evm_token_contracts m table_proper e)
        h in
    (ground arith, leb→le c.decimals 18 (ground arith))
