-- ===== src/Router/Flags/Bits.antt =====
-- The flag byte before and after `setFlag`, over all bytes and values.
use in_lib.Base.{
  ℕ, zero, suc, ◌-◌, ◌/◌, ◌%◌, ◌^◌, ◌<◌, ◌≡◌, refl, arith, Bool, true, false, ◌&&◌, ◌==◌, ==_iff,
  if◌then◌else◌, Bool-cases, inl, inr,
}
use in_lib.Router.Flags.{new_flag, modification_number_of, bit_shown}

-- Whether a test passes on everything below a bound.
passes_below : ℕ → (ℕ → Bool) → Bool
passes_below zero test = true
passes_below (suc k) test = if test k then passes_below k test else false

-- A test that passed on all of them passed on each.
passed :
    (bound : ℕ) (test : ℕ → Bool) {v : ℕ}
    → passes_below bound test ≡ true
    → v < bound
    → test v ≡ true
unfolding passes_below
passed zero test ran below = absurd (omega (arith, below))
passed (suc k) test {v = v} ran below = elim (Bool-cases (test k)) [
  | inr stopped ↦ absurd (ground (arith, stopped))
  | inl went_on ↦ ground (arith, went_on, passed k test {v = v})
]

-- Bit `i` of a byte.
abbrev pub bit : ℕ → ℕ → ℕ
bit byte i = byte / 2 ^ i % 2

bits_table :
    passes_below 256 (λ byte. passes_below 3 (λ flag. passes_below 2 (λ value.
      passes_below 8
        (λ i. bit (new_flag byte flag value) i == (if i == flag then value else bit byte i)))))
    ≡ true
unfolding passes_below new_flag
bits_table = refl

-- Setting one of the flags 0, 1, 2 to a value writes that bit and no other.
pub bit-new_flag :
    (byte flag value i : ℕ)
    → byte < 256
    → flag < 3
    → value < 2
    → i < 8
    → bit (new_flag byte flag value) i ≡ (if i == flag then value else bit byte i)
bit-new_flag byte flag value i hb hf hv hi =
    (==_iff _ _).0 (passed 8 _ (passed 2 _ (passed 3 _ (passed 256 _ bits_table hb) hf) hv) hi)

number_table :
    passes_below 256 (λ byte. passes_below 16 (λ value.
      (modification_number_of (new_flag byte 4 value) == value)
      && (new_flag byte 4 value % 16 == byte % 16)))
    ≡ true
unfolding passes_below new_flag modification_number_of
number_table = refl

-- Setting flag 4 writes the number that `printRouter` reads back, and keeps the low four bits.
pub modification_number_of-new_flag :
    (byte value : ℕ)
    → byte < 256
    → value < 16
    → (modification_number_of (new_flag byte 4 value) ≡ value)
      × (new_flag byte 4 value % 16 ≡ byte % 16)
modification_number_of-new_flag byte value hb hv =
    let t = passed 16 _ (passed 256 _ number_table hb) hv in ground arith

bool_eq : Bool → Bool → Bool
bool_eq true b = b
bool_eq false true = false
bool_eq false false = true

bool_eq→≡ : (a b : Bool) → bool_eq a b ≡ true → a ≡ b
unfolding bool_eq
bool_eq→≡ true b h = ground arith
bool_eq→≡ false true h = h
bool_eq→≡ false false h = refl

shown_table :
    passes_below 256 (λ byte. passes_below 3 (λ flag. passes_below 2 (λ value. passes_below 3 (λ i.
      bool_eq
        (bit_shown (new_flag byte flag value) (7 - i))
        (if i == flag then value == 1 else bit_shown byte (7 - i))))))
    ≡ true
unfolding passes_below new_flag bit_shown bool_eq
shown_table = refl

-- What is printed of bit `i` after one of the flags 0, 1, 2 was set.
pub bit_shown-new_flag :
    (byte flag value i : ℕ)
    → byte < 256
    → flag < 3
    → value < 2
    → i < 3
    → bit_shown (new_flag byte flag value) (7 - i)
      ≡ (if i == flag then value == 1 else bit_shown byte (7 - i))
bit_shown-new_flag byte flag value i hb hf hv hi =
    bool_eq→≡ _ _ (passed 3 _ (passed 2 _ (passed 3 _ (passed 256 _ shown_table hb) hf) hv) hi)

kept_table :
    passes_below 256 (λ byte. passes_below 16 (λ value.
      passes_below 3
        (λ i. bool_eq (bit_shown (new_flag byte 4 value) (7 - i)) (bit_shown byte (7 - i)))))
    ≡ true
unfolding passes_below new_flag bit_shown bool_eq
kept_table = refl

-- Setting flag 4 changes none of the three bits that are printed.
pub bit_shown-new_flag_4 :
    (byte value i : ℕ)
    → byte < 256
    → value < 16
    → i < 3
    → bit_shown (new_flag byte 4 value) (7 - i) ≡ bit_shown byte (7 - i)
bit_shown-new_flag_4 byte value i hb hv hi =
    bool_eq→≡ _ _ (passed 3 _ (passed 16 _ (passed 256 _ kept_table hb) hv) hi)

number_kept_table :
    passes_below 256 (λ byte. passes_below 3 (λ flag.
      passes_below 2 (λ value.
        modification_number_of (new_flag byte flag value) == modification_number_of byte)))
    ≡ true
unfolding passes_below new_flag modification_number_of
number_kept_table = refl

-- Setting one of the flags 0, 1, 2 keeps the modification number.
pub modification_number_of-new_flag_kept :
    (byte flag value : ℕ)
    → byte < 256
    → flag < 3
    → value < 2
    → modification_number_of (new_flag byte flag value) ≡ modification_number_of byte
modification_number_of-new_flag_kept byte flag value hb hf hv =
    (==_iff _ _).0 (passed 2 _ (passed 3 _ (passed 256 _ number_kept_table hb) hf) hv)
