-- ===== src/Command/Words.antt =====
-- What `getCommand` makes of the text of a command.
use in_lib.Base.{
  ℕ, suc, ◌-◌, ◌<◌, ◌≡◌, refl, ap, ◌∙◌, sym, subst, Bool, true, false, some, List, [], ◌∷◌, ◌++◌,
  ◌==◌, arith, length, length-append, drop-length-append, All,
}
use in_lib.Base.Text.{
  codes, same_string, has_char, has_char-cons, strtok_r, strtok_r-word, strtok_r-last_word,
  strtok_r-end,
}
use in_lib.Command.{count_spaces, chomp, read_args, model_name, read_model_args, get_command}
use in_lib.Base.Outcomes.{done, undefined, bind-done}
use mathlib.Core.List.{append_assoc}

-- A word: some characters, none of them a space.
pub record IsWord (w : List ℕ) : Type 0 where
  pub some_char : 0 < length w
  pub no_space : has_char b' ' w ≡ false

-- A word and others behind it, with one space between two of them.
abbrev pub spaced : List ℕ → List (List ℕ) → List ℕ
spaced w [] = w
spaced w (a ∷ args) = w ++ b' ' ∷ spaced a args

-- The same without the first word.
abbrev joined : List (List ℕ) → List ℕ
joined [] = []
joined (a ∷ args) = spaced a args

set_model-IsWord : IsWord (codes "set_model")
set_model-IsWord = record { some_char = omega arith; no_space = refl }

strtok_r-id : (w rest : List ℕ) → IsWord w → strtok_r b' ' (w ++ b' ' ∷ rest) ≡ some (w, rest)
strtok_r-id [] rest h = absurd (omega (arith, h.some_char))
strtok_r-id (c ∷ w) rest h = strtok_r-word b' ' c w rest h.no_space

strtok_r-spaced :
    (w : List ℕ) (args : List (List ℕ))
    → IsWord w
    → strtok_r b' ' (spaced w args) ≡ some (w, joined args)
strtok_r-spaced [] args h = absurd (omega (arith, h.some_char))
strtok_r-spaced (c ∷ w) [] h = strtok_r-last_word b' ' c w h.no_space
strtok_r-spaced (c ∷ w) (a ∷ args) h = strtok_r-id (c ∷ w) (spaced a args) h

spaced_not_empty :
    (w : List ℕ) (args : List (List ℕ)) → IsWord w → (length (spaced w args) == 0) ≡ false
spaced_not_empty [] args h = absurd (omega (arith, h.some_char))
spaced_not_empty (c ∷ w) [] h = ground arith
spaced_not_empty (c ∷ w) (a ∷ args) h = ground arith

-- The words behind the first, with one space more at the end.
abbrev trailing : List (List ℕ) → List ℕ
trailing [] = []
trailing (a ∷ args) = spaced a args ++ b' ' ∷ []

trailing_not_empty :
    (w : List ℕ) (args : List (List ℕ)) → (length (spaced w args ++ b' ' ∷ []) == 0) ≡ false
trailing_not_empty w args = ground (arith, length-append (spaced w args) (b' ' ∷ []))

strtok_r-trailing :
    (w : List ℕ) (args : List (List ℕ))
    → IsWord w
    → strtok_r b' ' (spaced w args ++ b' ' ∷ []) ≡ some (w, trailing args)
strtok_r-trailing w [] h = strtok_r-id w [] h
strtok_r-trailing w (a ∷ args) h =
    subst (λ text. strtok_r b' ' text ≡ some (w, trailing (a ∷ args)))
      (sym (append_assoc w (b' ' ∷ spaced a args) (b' ' ∷ [])))
      (strtok_r-id w (spaced a args ++ b' ' ∷ []) h)

count_spaces-word :
    (w rest : List ℕ) → has_char b' ' w ≡ false → count_spaces (w ++ rest) ≡ count_spaces rest
count_spaces-word [] rest h = refl
count_spaces-word (c ∷ w) rest h =
    let (other, later) = has_char-cons b' ' c w h in rw other (count_spaces-word w rest later)

count_spaces-last_word : (w : List ℕ) → has_char b' ' w ≡ false → count_spaces w ≡ 0
count_spaces-last_word [] h = refl
count_spaces-last_word (c ∷ w) h =
    let (other, later) = has_char-cons b' ' c w h in rw other (count_spaces-last_word w later)

count_spaces-spaced :
    (w : List ℕ) (args : List (List ℕ))
    → IsWord w
    → All IsWord args
    → count_spaces (spaced w args) ≡ length args
count_spaces-spaced w [] h words = count_spaces-last_word w h.no_space
count_spaces-spaced w (a ∷ args) h words =
    count_spaces-word w (b' ' ∷ spaced a args) h.no_space
    ∙ ap suc (count_spaces-spaced a args words.0 words.1)

count_spaces-trailing :
    (w : List ℕ) (args : List (List ℕ))
    → IsWord w
    → All IsWord args
    → count_spaces (spaced w args ++ b' ' ∷ []) ≡ suc (length args)
count_spaces-trailing w [] h words = count_spaces-word w (b' ' ∷ []) h.no_space
count_spaces-trailing w (a ∷ args) h words =
    subst (λ text. count_spaces text ≡ suc (suc (length args)))
      (sym (append_assoc w (b' ' ∷ spaced a args) (b' ' ∷ [])))
      (count_spaces-word w (b' ' ∷ (spaced a args ++ b' ' ∷ [])) h.no_space
        ∙ ap suc (count_spaces-trailing a args words.0 words.1))

module _ (malloc_ok : ℕ → Bool) (memory : (call : ℕ) → malloc_ok call ≡ true) where
  read_args-joined :
      (call : ℕ) (args : List (List ℕ))
      → All IsWord args
      → read_args malloc_ok call (length args) (joined args) ≡ done args
  unfolding read_args
  read_args-joined call [] words = refl
  read_args-joined call (a ∷ args) words =
      rw (read_args, strtok_r-spaced a args words.0, memory call)
        (bind-done _ _ _ _ (read_args-joined (suc call) args words.1) refl)

  read_args-trailing :
      (call : ℕ) (args : List (List ℕ))
      → All IsWord args
      → read_args malloc_ok call (suc (length args)) (trailing args) ≡ undefined
  unfolding read_args
  read_args-trailing call [] words = rw (read_args, strtok_r-end b' ') refl
  read_args-trailing call (a ∷ args) words =
      rw (read_args, strtok_r-trailing a args words.0, memory call)
        (rw (read_args-trailing (suc call) args words.1) refl)

  -- A command other than `set_model` whose words stand with one space between them is read as its
  -- first word and the others, when there is memory.
  pub get_command-spaced :
      (fresh_is_null : Bool) (w : List ℕ) (args : List (List ℕ))
      → IsWord w
      → All IsWord args
      → same_string w (codes "set_model") ≡ false
      → get_command malloc_ok fresh_is_null (spaced w args) ≡ done (w, args)
  unfolding get_command
  get_command-spaced fresh_is_null w args h words other =
      rw
        (
          get_command,
          memory 0,
          memory 1,
          spaced_not_empty w args h,
          strtok_r-spaced w args h,
          other,
          memory 2,
          count_spaces-spaced w args h words,
        )
        (bind-done _ _ _ _ (read_args-joined 3 args words) refl)

  -- With one space more at the end of such a command, the length of a missing word is asked for.
  pub get_command-trailing_space :
      (fresh_is_null : Bool) (w : List ℕ) (args : List (List ℕ))
      → IsWord w
      → All IsWord args
      → same_string w (codes "set_model") ≡ false
      → get_command malloc_ok fresh_is_null (spaced w args ++ b' ' ∷ []) ≡ undefined
  unfolding get_command
  get_command-trailing_space fresh_is_null w args h words other =
      rw
        (
          get_command,
          memory 0,
          memory 1,
          trailing_not_empty w args,
          strtok_r-trailing w args h,
          other,
          memory 2,
          count_spaces-trailing w args h words,
        )
        (rw (read_args-trailing 3 args words) refl)

  model_name-suffix :
      (front name : List ℕ) (str_len : ℕ)
      → str_len ≡ length name
      → 0 < length name
      → model_name (malloc_ok 4) str_len (front ++ name) ≡ done (chomp name)
  unfolding model_name
  model_name-suffix front name str_len size some_char =
      let size_front : length (front ++ name) - str_len ≡ length front =
        omega (arith, length-append front name, size) in
      let not_empty : (str_len == 0) ≡ false = ground (arith, size, some_char) in
      rw (model_name, memory 4, not_empty, size_front)
        (ap (λ text. done (chomp text)) (drop-length-append front name))

  read_model_args-set_model :
      (id name : List ℕ)
      → IsWord id
      → 0 < length name
      → read_model_args malloc_ok false
          (codes "set_model" ++ b' ' ∷ (id ++ b' ' ∷ name))
          (codes "set_model")
          (id ++ b' ' ∷ name)
        ≡ done (id ∷ chomp name ∷ [])
  unfolding read_model_args
  read_model_args-set_model id name h some_char =
      let front = codes "set_model" ++ b' ' ∷ (id ++ b' ' ∷ []) in
      let text = codes "set_model" ++ b' ' ∷ (id ++ b' ' ∷ name) in
      let split : front ++ name ≡ text =
        ap (λ rest. codes "set_model" ++ b' ' ∷ rest) (append_assoc id (b' ' ∷ []) name) in
      let str_len = length text - length (codes "set_model") - length id - 2 in
      let size : str_len ≡ length name = omega (arith, length-append id (b' ' ∷ name)) in
      rw (read_model_args, memory 2, strtok_r-id id name h, memory 3)
        (bind-done _ _ _ _
          (subst (λ t. model_name (malloc_ok 4) str_len t ≡ done (chomp name)) split
            (model_name-suffix front name str_len size some_char))
          refl)

  -- `set_model`, an id and a name that may have spaces in it are read as these three, the name without
  -- a newline at its end, when there is memory and the cell that is tested does not hold NULL.
  pub get_command-set_model :
      (id name : List ℕ)
      → IsWord id
      → 0 < length name
      → get_command malloc_ok false (codes "set_model" ++ b' ' ∷ (id ++ b' ' ∷ name))
        ≡ done (codes "set_model", id ∷ chomp name ∷ [])
  unfolding get_command
  get_command-set_model id name h some_char =
      let not_empty : (length (codes "set_model" ++ b' ' ∷ (id ++ b' ' ∷ name)) == 0) ≡ false =
        ground arith in
      rw
        (
          get_command,
          memory 0,
          memory 1,
          not_empty,
          strtok_r-id (codes "set_model") (id ++ b' ' ∷ name) set_model-IsWord,
        )
        (bind-done _ _ _ _ (read_model_args-set_model id name h some_char) refl)
