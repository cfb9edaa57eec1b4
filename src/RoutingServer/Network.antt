-- ===== src/RoutingServer/Network.antt =====
-- home_exam/utils/include/common.h and `getIndexFromAddress` of home_exam/utils/src/common.c.
-- Addresses and weights are numbers of at least 0.
use in_lib.Base.{
  ℕ, suc, Option, none, some, List, [], ◌∷◌, ◌==◌, if◌then◌else◌, ◌≡◌, ◌<◌, arith, length, get_or,
  Bool-cases, Option-cases, inl, inr, zero, ◌*◌, ◌++◌, refl, ap, drop, All,
}
use in_lib.Base.Words.{write_u32, u32_at, u32_at-write_u32}
use mathlib.Core.Option

-- `neighborAddresses[i]` and `edgeWeights[i]`: the two arrays have the same length nNeighbors.
pub record Neighbor : Type 0 where
  pub address : ℕ
  pub weight : ℕ

pub record Node : Type 0 where
  pub address : ℕ
  pub neighbors : List Neighbor

pub record RoutingTableRow : Type 0 where
  pub destination : ℕ
  pub next_hop : ℕ

-- The rows below nRows.
abbrev pub RoutingTable : Type 0
RoutingTable = List RoutingTableRow

pub record Edge : Type 0 where
  pub low_node_address : ℕ
  pub high_node_address : ℕ

-- `array` holds the edges below firstAvailablePosition.
pub record EdgeArray : Type 0 where
  pub array : List Edge
  pub max_edges : ℕ

-- `map` of `struct IndexToAddress`.
abbrev pub IndexToAddress : Type 0
IndexToAddress = List ℕ

unfoldable pub get_index_from_address : ℕ → IndexToAddress → Option ℕ
get_index_from_address address [] = none
get_index_from_address address (a ∷ rest) =
    if address == a then some 0 else Option.map suc (get_index_from_address address rest)

-- The index that is found stands below n and has the address.
pub get_index_from_address_lem :
    (address : ℕ) (index_to_address : IndexToAddress) (i : ℕ)
    → get_index_from_address address index_to_address ≡ some i
    → (i < length index_to_address) × (get_or index_to_address i 0 ≡ address)
unfolding get_index_from_address
get_index_from_address_lem address [] i h = cc
get_index_from_address_lem address (a ∷ rest) i h = elim (Bool-cases (address == a)) [
  | inl hit ↦ ground arith
  | inr miss ↦ elim (Option-cases (get_index_from_address address rest)) [
    | inl nowhere ↦ ground arith
    | inr (j, e) ↦ ground (arith, get_index_from_address_lem address rest j)
  ]
]

-- How many rows of a table are for a destination.
abbrev pub rows_for : ℕ → RoutingTable → ℕ
rows_for destination [] = 0
rows_for destination (r ∷ rows) =
    if r.destination == destination
    then suc (rows_for destination rows)
    else rows_for destination rows

-- `n` rows in memory.
abbrev pub write_rows : RoutingTable → List ℕ
write_rows [] = []
write_rows (r ∷ rows) = write_u32 r.destination ++ (write_u32 r.next_hop ++ write_rows rows)

abbrev pub rows_at : ℕ → List ℕ → RoutingTable
rows_at zero bs = []
rows_at (suc n) bs =
    record { destination = u32_at bs; next_hop = u32_at (drop 4 bs) } ∷ rows_at n (drop 8 bs)

-- The numbers of a row fit in an `int`.
abbrev pub IsRowOfInts : RoutingTableRow → Type 0
IsRowOfInts r = (r.destination < 2147483648) × (r.next_hop < 2147483648)

pub length-write_rows : (rows : RoutingTable) → length (write_rows rows) ≡ 8 * length rows
length-write_rows [] = refl
length-write_rows (r ∷ rows) = omega (arith, length-write_rows rows)

pub rows_at-write_rows :
    (rows : RoutingTable) → All IsRowOfInts rows → rows_at (length rows) (write_rows rows) ≡ rows
rows_at-write_rows [] h = refl
rows_at-write_rows (r ∷ rows) h =
    rw
      (
        u32_at-write_u32 r.destination (write_u32 r.next_hop ++ write_rows rows)
            (omega (arith, h.0.0)),
        u32_at-write_u32 r.next_hop (write_rows rows) (omega (arith, h.0.1)),
      )
      (ap (λ rs. r ∷ rs) (rows_at-write_rows rows h.1))
