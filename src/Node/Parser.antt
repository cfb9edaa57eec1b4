-- ===== src/Node/Parser.antt =====
-- home_exam/node/src/node_parser.c: the arguments `address:weight` of a node.
use in_lib.Base.{
  ℕ, suc, ◌<◌, ◌≡◌, refl, Bool, true, false, not, none, some, List, [], ◌∷◌, ◌++◌, ◌==◌, map,
  if◌then◌else◌, arith, length, All,
}
use in_lib.Base.Int.{ℤ}
use in_lib.Base.Text.{has_char, has_char-cons, strtok_r, strtok_r-word, strtok_r-last_word, atoi}
use in_lib.Base.Outcomes.{Outcome, done, failed, undefined, ◌>>=◌, bind-done}

-- The first character of a text is `c`.
abbrev starts_with : ℕ → List ℕ → Bool
starts_with c [] = false
starts_with c (x ∷ xs) = x == c

-- The body of the loop: the address and the weight of one neighbor. `malloc_ok call` says whether that
-- call of `malloc` delivers memory. `strLen` is measured from the start of the copy, where the token
-- begins unless the text starts with the delimiter; then the copy of the token is shorter and is
-- refused. A missing token is NULL, which C leaves undefined.
unfoldable pub parse_neighbor : (ℕ → Bool) → List ℕ → Outcome (ℤ × ℤ)
parse_neighbor malloc_ok text = if not (malloc_ok 0) then failed else elim (strtok_r b':' text) [
  | none ↦ if length text == 0 then failed else if malloc_ok 1 then undefined else failed
  | some (number, save) ↦
      if not (malloc_ok 1)
      then failed
      else if starts_with b':' text
      then failed
      else elim (strtok_r b' ' save) [
        | none ↦ undefined
        | some (weight, rest) ↦ if malloc_ok 2 then done (atoi number, atoi weight) else failed
      ]
]

-- `parseNodes`, from argument `i` on.
unfoldable pub parse_nodes : (ℕ → ℕ → Bool) → ℕ → List (List ℕ) → Outcome (List (ℤ × ℤ))
unfolding parse_neighbor
parse_nodes malloc_ok i [] = done []
parse_nodes malloc_ok i (text ∷ texts) = do
  neighbor ← parse_neighbor (malloc_ok i) text
  rest ← parse_nodes malloc_ok (suc i) texts
  done (neighbor ∷ rest)

-- The two texts of an argument.
pub record NeighborText : Type 0 where
  pub number : List ℕ
  pub weight : List ℕ

-- They are not empty, and have none of the characters that end them.
pub record IsNeighborText (t : NeighborText) : Type 0 where
  pub some_digit : 0 < length t.number
  pub no_colon : has_char b':' t.number ≡ false
  pub some_weight : 0 < length t.weight
  pub no_space : has_char b' ' t.weight ≡ false

abbrev pub argument_of : NeighborText → List ℕ
argument_of t = t.number ++ b':' ∷ t.weight

abbrev pub numbers_of : NeighborText → ℤ × ℤ
numbers_of t = (atoi t.number, atoi t.weight)

parse_neighbor-argument_of :
    (malloc_ok : ℕ → Bool) (number weight : List ℕ)
    → ((call : ℕ) → malloc_ok call ≡ true)
    → IsNeighborText (record { number = number; weight = weight })
    → parse_neighbor malloc_ok (number ++ b':' ∷ weight) ≡ done (atoi number, atoi weight)
unfolding parse_neighbor
parse_neighbor-argument_of malloc_ok [] weight memory h = absurd (omega (arith, h.some_digit))
parse_neighbor-argument_of malloc_ok (c ∷ number) [] memory h =
    absurd (omega (arith, h.some_weight))
parse_neighbor-argument_of malloc_ok (c ∷ number) (w ∷ weight) memory h =
    rw
      (
        parse_neighbor,
        memory 0,
        strtok_r-word b':' c number (w ∷ weight) h.no_colon,
        memory 1,
        (has_char-cons b':' c number h.no_colon).0,
        strtok_r-last_word b' ' w weight h.no_space,
        memory 2,
      )
      refl

-- Arguments of the form `address:weight` are read as the numbers in these texts, in their order, when
-- there is memory.
pub parse_nodes-argument_of :
    (malloc_ok : ℕ → ℕ → Bool) (i : ℕ) (ts : List NeighborText)
    → ((j call : ℕ) → malloc_ok j call ≡ true)
    → All IsNeighborText ts
    → parse_nodes malloc_ok i (map argument_of ts) ≡ done (map numbers_of ts)
unfolding parse_nodes
parse_nodes-argument_of malloc_ok i [] memory h = refl
parse_nodes-argument_of malloc_ok i (t ∷ ts) memory h =
    bind-done _ _ _ _
      (parse_neighbor-argument_of (malloc_ok i) t.number t.weight (λ call. memory i call) h.0)
      (bind-done _ _ _ _ (parse_nodes-argument_of malloc_ok (suc i) ts memory h.1) refl)
