-- ===== src/Observer/Scan.antt =====
-- `filterERC20TransferLogs`: the newest blocks are searched for transfers, window by window.
-- `filter from to` stands for client.FilterLogs, none for its error. Block numbers are below 2^63,
-- so no uint64 operation wraps.
use backend_go.Prelude.{
  ℕ, zero, suc, ◌+◌, ◌-◌, ◌*◌, ◌≤◌, ◌<◌, Bool, true, false, not, ◌&&◌, ◌||◌, Option, none, some,
  List, [], ◌∷◌, ◌++◌, Text, codes, contains, to_lower, ltb, ◌==◌, ◌≡◌, ◌≢◌, ◌⊎◌, arith, Bool-cases,
  Option-cases, inl, inr, if◌then◌else◌,
}

abbrev pub scan_depth : ℕ
scan_depth = 50_000

unfoldable pub chunk_size : Text → ℕ
chunk_size chain_name = if contains (codes "hyper") (to_lower chain_name) then 1_000 else 10_000

unfoldable pub from_floor : ℕ → ℕ
from_floor latest = if ltb scan_depth latest then latest - scan_depth else 0

-- the first block of the window that ends at `to`
unfoldable pub window_start : ℕ → ℕ → ℕ → ℕ
window_start chunk floor to =
    if ltb chunk to && ltb floor (to - chunk + 1) then to - chunk + 1 else floor

pub data Scanned (L : Type 0) : Type 0 where
  found : List L → Scanned L
  failed : Scanned L

abbrev pub is_empty : {L : Type 0} → List L → Bool
is_empty [] = true
is_empty (x ∷ xs) = false

module _ {L : Type 0} (filter : ℕ → ℕ → Option (List L)) where
  -- the `for` loop, on fuel; none means that the fuel ran out
  unfoldable pub scan : ℕ → ℕ → ℕ → ℕ → Option (Scanned L)
  scan zero chunk floor to = none
  scan (suc fuel) chunk floor to =
      let from = window_start chunk floor to in
      let rest = scan fuel chunk floor (from - 1) in
      elim (filter from to) [
        | none ↦ some failed
        | some logs ↦ if not (is_empty logs) || from == floor then some (found logs) else rest
      ]

  -- 52 rounds are enough for 50,000 blocks in windows of 1,000
  unfoldable pub filter_transfer_logs : Text → ℕ → Option (Scanned L)
  unfolding chunk_size from_floor
  filter_transfer_logs chain_name latest =
      scan 52 (chunk_size chain_name) (from_floor latest) latest

-- the logs of `n` blocks from `lo` on, if `at` has those of each block
abbrev pub range : {L : Type 0} → (ℕ → List L) → ℕ → ℕ → List L
range at lo zero = []
range at lo (suc n) = at lo ++ range at (lo + 1) n

-- the window ends at `to`, starts at the floor or later, and is shorter than the rest below it
window_facts :
    (chunk floor to : ℕ)
    → 0 < chunk
    → floor ≤ to
    → (floor ≤ window_start chunk floor to) × (window_start chunk floor to ≤ to)
unfolding window_start
window_facts chunk floor to h k = ground arith

window_size :
    (chunk floor to : ℕ)
    → (window_start chunk floor to ≡ floor) ⊎ (window_start chunk floor to + chunk ≡ to + 1)
unfolding window_start
window_size chunk floor to = ground arith

-- what a scan down to `floor` returns: the logs of one window, and nothing only if no block in
-- the whole range has a log
abbrev pub Complete : {L : Type 0} → (ℕ → List L) → ℕ → ℕ → Option (Scanned L) → Type 0
Complete {L} at floor to r =
    (logs : List L) × (r ≡ some (found logs))
    × (lo : ℕ) × (n : ℕ) × (floor ≤ lo)
    × (lo + n ≤ to + 1)
    × (logs ≡ range at lo n)
    × ((b : ℕ) → floor ≤ b → b ≤ to → at b ≢ [] → logs ≢ [])

chunk_size_cases :
    (chain_name : Text) → (chunk_size chain_name ≡ 1_000) ⊎ (chunk_size chain_name ≡ 10_000)
unfolding chunk_size
chunk_size_cases chain_name = ground arith

from_floor_facts :
    (latest : ℕ) → (from_floor latest ≤ latest) × (latest ≤ from_floor latest + 50_000)
unfolding from_floor
from_floor_facts latest = ground arith

next_window :
    (fuel chunk floor to : ℕ)
    → floor < window_start chunk floor to
    → to < floor + suc fuel * chunk
    → window_start chunk floor to - 1 < floor + fuel * chunk
next_window fuel chunk floor to up m = omega (arith, window_size chunk floor to)

module _ {L : Type 0} (filter : ℕ → ℕ → Option (List L)) where
  scan-total :
      (fuel chunk floor to : ℕ)
      → 0 < chunk
      → floor ≤ to
      → to < floor + fuel * chunk
      → scan filter fuel chunk floor to ≢ none
  unfolding scan
  scan-total zero chunk floor to c h m = absurd (omega arith)
  scan-total (suc fuel) chunk floor to c h m =
      let from = window_start chunk floor to in
      let (above, below) = window_facts chunk floor to c h in
      elim (Option-cases (filter from to)) [
        | inl error ↦ rw (error, scan) (λ e. cc)
        | inr (logs, answer) ↦
            rw (answer, scan)
              (elim (Bool-cases (not (is_empty logs) || from == floor)) [
                | inl last ↦ rw last (λ e. cc)
                | inr more ↦ rw more (
                    scan-total fuel chunk floor (from - 1) c (ground arith)
                      (next_window fuel chunk floor to (ground arith) m))
              ])
      ]

  -- Whatever the node answers, errors included, the loop ends with logs or with the error.
  pub filter_transfer_logs-total :
      (chain_name : Text) (latest : ℕ) → filter_transfer_logs filter chain_name latest ≢ none
  unfolding filter_transfer_logs
  filter_transfer_logs-total chain_name latest =
      let (low, high) = from_floor_facts latest in
      elim (chunk_size_cases chain_name) [
        | inl c ↦
            rw c (scan-total 52 1_000 (from_floor latest) latest (omega arith) low (omega arith))
        | inr c ↦
            rw c (scan-total 52 10_000 (from_floor latest) latest (omega arith) low (omega arith))
      ]
