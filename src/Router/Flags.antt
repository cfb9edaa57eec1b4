-- ===== src/Router/Flags.antt =====
-- `setFlag` and `printRouter` of obligatory_assignment/src/router.c, and `getBinaryString` of
-- src/utils.c: the definitions.
pub mod Bits
pub mod Laws
use in_lib.Base.{
  ℕ, zero, suc, ◌+◌, ◌-◌, ◌*◌, ◌/◌, ◌%◌, ◌^◌, Bool, true, false, ◌&&◌, ◌||◌, Option, none, some,
  List, [], ◌∷◌, ◌++◌, map, get_or, set, Status, success, failure, ◌==◌, ltb, if◌then◌else◌,
  bit_and, bit_or,
}
use in_lib.Base.Int.{ℤ, pos, negsuc, pos_part, ltb_ℤ, eq_ℤ}
use in_lib.Router.{Router, find_router_id, router_at}
use in_lib.Router.Slots.{listed}
use mathlib.Core.Option

-- The first sanity check: flag is none of 0, 1, 2, 4.
abbrev pub bad_flag : ℤ → Bool
bad_flag flag = ltb_ℤ flag (pos 0) || ltb_ℤ (pos 4) flag || eq_ℤ flag (pos 3)

-- The other two: the value is out of range for the flag.
abbrev pub bad_value : ℤ → ℤ → Bool
bad_value flag value =
    ltb_ℤ flag (pos 3) && (ltb_ℤ value (pos 0) || ltb_ℤ (pos 1) value)
    || (ltb_ℤ value (pos 0) || ltb_ℤ (pos 15) value)

-- The loop that reverses the four bits of the value, from round `i` on, with `left` rounds to go.
unfoldable pub reverse_bits : ℕ → ℕ → ℕ → ℕ → ℕ
reverse_bits zero i value acc = acc
reverse_bits (suc left) i value acc =
    reverse_bits left (i + 1) value (bit_or acc (bit_and (value / 2 ^ i) 1 * 2 ^ (3 - i)))

-- The change of the flag byte. `~(1 << flag)` keeps every bit of a byte but one.
unfoldable pub new_flag : ℕ → ℕ → ℕ → ℕ
unfolding reverse_bits
new_flag byte flag value =
    if ltb flag 3
    then if value == 1 then bit_or byte (2 ^ flag) else bit_and byte (255 - 2 ^ flag)
    else if flag == 4
    then (bit_and byte 0x0f + reverse_bits 4 0 value 0 * 2 ^ 4) % 256
    else byte

unfoldable pub set_flag : List Router → ℤ → ℤ → ℤ → Status × List Router
unfolding new_flag
set_flag rs id flag value =
    if bad_flag flag || bad_value flag value then (failure, rs) else elim (find_router_id rs id) [
      | none ↦ (failure, rs)
      | some i ↦
          let r = router_at rs i in
          (success, set rs i (record r { flag = new_flag r.flag (pos_part flag) (pos_part value) }))
    ]

-- `getBinaryString`: the characters for the bits from `left` - 1 down to 0.
unfoldable pub binary_from : ℕ → ℕ → List ℕ
binary_from zero c = []
binary_from (suc i) c = (if bit_and (c / 2 ^ i) 1 == 1 then b'1' else b'0') ∷ binary_from i c

unfoldable pub get_binary_string : ℕ → List ℕ
unfolding binary_from
get_binary_string c = binary_from 8 c

-- `strtol` with base 2, on a text of the characters 0 and 1.
unfoldable pub from_binary : List ℕ → ℕ → ℕ
from_binary [] acc = acc
from_binary (c ∷ cs) acc = from_binary cs (2 * acc + (c - b'0'))

-- What `printRouter` prints, field by field.
pub record Report : Type 0 where
  pub name : Option (List ℕ)
  pub router_id : ℤ
  pub active : Bool
  pub wireless : Bool
  pub five_ghz : Bool
  pub modification_number : ℕ
  pub binary_flag : List ℕ
  pub flag : ℕ
  pub neighbors : List ℕ

-- The modification number is read from the characters 3, 2, 1, 0 of the binary flag.
unfoldable pub modification_number_of : ℕ → ℕ
unfolding get_binary_string from_binary
modification_number_of flag =
    let s = get_binary_string flag in
    from_binary (get_or s 3 0 ∷ get_or s 2 0 ∷ get_or s 1 0 ∷ get_or s 0 0 ∷ []) 0

-- Whether character `i` of the binary flag is '1'.
unfoldable pub bit_shown : ℕ → ℕ → Bool
unfolding get_binary_string
bit_shown flag i = get_or (get_binary_string flag) i 0 == b'1'

-- The lines that `printRouter` prints for the router `r`.
unfoldable pub report : ℤ → Router → Report
unfolding modification_number_of bit_shown
report id r = record {
  name = r.producer_model;
  router_id = id;
  active = bit_shown r.flag 7;
  wireless = bit_shown r.flag 6;
  five_ghz = bit_shown r.flag 5;
  modification_number = modification_number_of r.flag;
  binary_flag = get_binary_string r.flag;
  flag = r.flag;
  neighbors = listed r.neighbors;
}

-- `printRouter`; `none` is EXIT_FAILURE, where no line is printed on standard output.
unfoldable pub print_router : List Router → ℤ → Option Report
unfolding report
print_router rs id = Option.map (λ i. report id (router_at rs i)) (find_router_id rs id)
