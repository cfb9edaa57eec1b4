-- ===== src/Node/Packet/RoundTrip.antt =====
-- node_communication.c: what a node reads from a packet is what the sender has put in.
use in_lib.Base.{
  ℕ, ◌+◌, ◌*◌, ◌/◌, ◌%◌, ◌<◌, ◌≤◌, ◌≡◌, refl, ap, true, false, some, List, [], ◌∷◌, ◌++◌, arith,
  ◌==◌, length, length-append, drop, Bool-cases, inl, inr,
}
use in_lib.Base.Int.{ℤ}
use in_lib.Base.Text.{has_char}
use in_lib.Base.Outcomes.{done}
use in_lib.Node.Packet.{
  htons, short_at, to_ushort, break_at, space, new_line, string_at,
  extract_length_destination_and_message, create_packet,
}

break_at-concat :
    (c : ℕ) (before behind : List ℕ)
    → has_char c before ≡ false
    → break_at c (before ++ c ∷ behind) ≡ some (before, behind)
unfolding break_at
break_at-concat c [] behind h = ground arith
break_at-concat c (x ∷ before) behind h = elim (Bool-cases (x == c)) [
  | inl same ↦ absurd (let clash = rw same at h in cc)
  | inr other ↦ rw (other, break_at-concat c before behind (rw other at h)) refl
]

string_at-concat : (msg : List ℕ) → has_char 0 msg ≡ false → string_at (msg ++ 0 ∷ []) ≡ msg
string_at-concat [] h = refl
string_at-concat (x ∷ msg) h = elim (Bool-cases (x == 0)) [
  | inl same ↦ absurd (let clash = rw same at h in cc)
  | inr other ↦ rw other (ap (λ xs. x ∷ xs) (string_at-concat msg (rw other at h)))
]

-- A line `number message` that ends with a new line: the number is what stands before the first
-- space, the message what stands behind it up to the first new line, and the length is that of the
-- header, the message and its NUL, modulo 2 ^ 16.
pub extract_length_destination_and_message_reads :
    (atoi : List ℕ → ℤ) (number msg rest : List ℕ)
    → has_char space number ≡ false
    → has_char new_line msg ≡ false
    → extract_length_destination_and_message atoi true true
        (number ++ space ∷ (msg ++ new_line ∷ rest))
      ≡ some (record {
        length = (7 + length msg) % 65536;
        destination = to_ushort (atoi number);
        msg = msg;
      })
unfolding extract_length_destination_and_message
extract_length_destination_and_message_reads atoi number msg rest no_space no_line =
    rw (break_at-concat space number (msg ++ new_line ∷ rest) no_space)
      (rw (break_at-concat new_line msg rest no_line) refl)

short_of_bytes : (x : ℕ) → x < 65536 → x / 256 % 256 * 256 + x % 256 ≡ x
short_of_bytes x h = omega arith

-- In a block that has room for the header, the message and its NUL, a packet is created, and it has
-- the length, the destination, the source and the message that it was created with, when these fit in
-- 16 bits and the message has no NUL.
pub create_packet_read :
    (size destination source : ℕ) (msg : List ℕ)
    → size < 65536
    → destination < 65536
    → source < 65536
    → has_char 0 msg ≡ false
    → 7 + length msg ≤ size
    → (packet : List ℕ) × (create_packet true size destination source msg ≡ done packet)
      × (length packet ≡ 7 + length msg)
      × (short_at packet 0 ≡ size)
      × (short_at packet 2 ≡ destination)
      × (short_at packet 4 ≡ source)
      × (string_at (drop 6 packet) ≡ msg)
unfolding create_packet
create_packet_read size destination source msg hs hd hc no_nul room = (
  htons size ++ htons destination ++ htons source ++ msg ++ 0 ∷ [],
  ground arith,
  omega (arith, length-append msg (0 ∷ [])),
  short_of_bytes size hs,
  short_of_bytes destination hd,
  short_of_bytes source hc,
  string_at-concat msg no_nul,
)
