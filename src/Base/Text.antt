-- ===== src/Base/Text.antt =====
-- Text as a list of character codes, without the NUL that ends it, and what the C library does with
-- it: `strcmp`, `strtok_r` with one delimiter, and `atoi`. Texts are read by `getline` to their newlines.
use Prim.Native.Nat.{ℕ, zero, suc, ◌+◌, ◌-◌, ◌*◌, ◌/◌, ◌%◌}
use Prim.Native.String.{String}
use Prim.Native.Char.{code}
use mathlib.Core.Path.{◌≡◌, refl, ap, ◌∙◌}
use mathlib.Core.Bool.{Bool, true, false, ◌&&◌, ◌||◌}
use mathlib.Core.Option.{Option, none, some}
use mathlib.Core.List.{List, [], ◌∷◌, ◌++◌}
use native.Mathlib.Omega.{arith}
use in_lib.Base.Tests.{ltb, ◌==◌, leb, if◌then◌else◌, Bool-cases}
use mathlib.Core.Logic.{inl, inr}
use in_lib.Base.Int.{ℤ, pos, negsuc}

abbrev pub codes : String → List ℕ
codes String.[] = []
codes (String.◌∷◌ c s) = code c ∷ codes s

-- `strcmp(a, b) == 0`.
abbrev pub same_string : List ℕ → List ℕ → Bool
same_string [] [] = true
same_string [] (y ∷ ys) = false
same_string (x ∷ xs) [] = false
same_string (x ∷ xs) (y ∷ ys) = (x == y) && same_string xs ys

-- Whether a character stands in some text.
abbrev pub has_char : ℕ → List ℕ → Bool
has_char c [] = false
has_char c (x ∷ xs) = if x == c then true else has_char c xs

-- The text behind the delimiters at its front.
abbrev pub skip_delimiters : ℕ → List ℕ → List ℕ
skip_delimiters d [] = []
skip_delimiters d (c ∷ cs) = if c == d then skip_delimiters d cs else c ∷ cs

-- What stands before the first delimiter, and what stands behind it.
abbrev pub cut_at : ℕ → List ℕ → List ℕ × List ℕ
cut_at d [] = ([], [])
cut_at d (c ∷ cs) =
    let (token, save) = cut_at d cs in if c == d then ([], cs) else (c ∷ token, save)

-- The token, and the text where the next call goes on; `none` is NULL.
unfoldable pub strtok_r : ℕ → List ℕ → Option (List ℕ × List ℕ)
strtok_r d text = elim (skip_delimiters d text) [ [] ↦ none | c ∷ cs ↦ some (cut_at d (c ∷ cs)) ]

-- What the calls of `getline` deliver before they meet the end of the file: the lines with their
-- newline. A last line without a newline comes together with the end of the file.
unfoldable pub complete_lines : List ℕ → List (List ℕ)
complete_lines [] = []
complete_lines (c ∷ cs) =
    let rest = complete_lines cs in
    if c == b'\n'
    then (c ∷ []) ∷ rest
    else elim rest [ [] ↦ [] | line ∷ lines ↦ (c ∷ line) ∷ lines ]

abbrev pub is_digit : ℕ → Bool
is_digit c = leb b'0' c && leb c b'9'

-- `isspace`.
abbrev pub is_space : ℕ → Bool
is_space c = (c == b' ') || (leb 9 c && leb c 13)

-- The number at the front of some text, on top of the digits that were read.
unfoldable pub read_digits : ℕ → List ℕ → ℕ
read_digits n [] = n
read_digits n (c ∷ cs) =
    let rest = read_digits (10 * n + (c - b'0')) cs in if is_digit c then rest else n

abbrev pub negated : ℕ → ℤ
negated zero = pos 0
negated (suc n) = negsuc n

-- A number that is too large for an `int`, which `atoi` leaves undefined, is exact here.
unfoldable pub atoi : List ℕ → ℤ
unfolding read_digits
atoi [] = pos 0
atoi (c ∷ cs) =
    let behind = atoi cs in
    if is_space c
    then behind
    else if c == b'-'
    then negated (read_digits 0 cs)
    else if c == b'+'
    then pos (read_digits 0 cs)
    else pos (read_digits 0 (c ∷ cs))

-- The digits of a number, of which an `int` has ten at most.
unfoldable pub decimal_from : ℕ → ℕ → List ℕ
decimal_from zero n = []
decimal_from (suc left) n =
    let front = decimal_from left (n / 10) in
    if ltb n 10 then (b'0' + n) ∷ [] else front ++ (b'0' + n % 10) ∷ []

-- What `snprintf` writes for `%d`.
unfoldable pub decimal : ℕ → List ℕ
unfolding decimal_from
decimal n = decimal_from 10 n

pub has_char-cons :
    (c x : ℕ) (xs : List ℕ)
    → has_char c (x ∷ xs) ≡ false
    → ((x == c) ≡ false) × (has_char c xs ≡ false)
has_char-cons c x xs h = elim (Bool-cases (x == c)) [
  | inl same ↦ absurd (let clash = rw same at h in cc)
  | inr other ↦ (other, rw other at h)
]

module _ (d : ℕ) where
  cut_at-word :
      (word rest : List ℕ) → has_char d word ≡ false → cut_at d (word ++ d ∷ rest) ≡ (word, rest)
  cut_at-word [] rest h = ground arith
  cut_at-word (c ∷ word) rest h =
      let (other, later) = has_char-cons d c word h in rw (other, cut_at-word word rest later) refl

  cut_at-last_word : (word : List ℕ) → has_char d word ≡ false → cut_at d word ≡ (word, [])
  cut_at-last_word [] h = refl
  cut_at-last_word (c ∷ word) h =
      let (other, later) = has_char-cons d c word h in rw (other, cut_at-last_word word later) refl

  -- A text that does not begin with a delimiter is cut at the first one.
  strtok_r-cut :
      (c : ℕ) (text : List ℕ)
      → (c == d) ≡ false
      → strtok_r d (c ∷ text) ≡ some (cut_at d (c ∷ text))
  unfolding strtok_r
  strtok_r-cut c text other = rw (strtok_r, other) (rw other refl)

  -- A word is taken up to the delimiter behind it.
  pub strtok_r-word :
      (c : ℕ) (word rest : List ℕ)
      → has_char d (c ∷ word) ≡ false
      → strtok_r d ((c ∷ word) ++ d ∷ rest) ≡ some (c ∷ word, rest)
  strtok_r-word c word rest h =
      strtok_r-cut c (word ++ d ∷ rest) (has_char-cons d c word h).0
      ∙ ap some (cut_at-word (c ∷ word) rest h)

  -- The last word is taken up to the end of the text.
  pub strtok_r-last_word :
      (c : ℕ) (word : List ℕ)
      → has_char d (c ∷ word) ≡ false
      → strtok_r d (c ∷ word) ≡ some (c ∷ word, [])
  strtok_r-last_word c word h =
      strtok_r-cut c word (has_char-cons d c word h).0 ∙ ap some (cut_at-last_word (c ∷ word) h)

  pub strtok_r-end : strtok_r d [] ≡ none
  unfolding strtok_r
  strtok_r-end = refl
