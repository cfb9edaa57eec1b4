-- ===== src/Command.antt =====
-- obligatory_assignment/src/command.c: the text of a command, and the command run on the routers. The
-- main program is in Program. Texts stand without the NUL that ends them.
pub mod Words
pub mod Program
pub mod Invariant
pub mod Kept
pub mod Stored
pub mod Routes
mod Tests
use in_lib.Base.{
  ℕ, zero, suc, ◌+◌, ◌-◌, Bool, not, ◌&&◌, ◌||◌, Option, none, some, List, [], ◌∷◌, ◌==◌, ltb,
  if◌then◌else◌, length, get_elem?, drop,
}
use in_lib.Base.Int.{ℤ, to_uchar}
use in_lib.Base.Text.{codes, same_string, strtok_r, atoi}
use in_lib.Router.{Router}
use in_lib.Router.Links.{add_link}
use in_lib.Router.Model.{set_model}
use in_lib.Router.Flags.{Report, set_flag, print_router}
use in_lib.Router.Deletion.Array.{delete_router}
use in_lib.Router.Search.{exists_route}
use in_lib.Base.Outcomes.{Outcome, done, failed, undefined, ◌>>=◌, by_status, some_or_failed}

-- The first word, and the arguments.
abbrev pub Words : Type 0
Words = List ℕ × List (List ℕ)

-- nSpaces.
abbrev pub count_spaces : List ℕ → ℕ
count_spaces [] = 0
count_spaces (c ∷ cs) = if c == b' ' then suc (count_spaces cs) else count_spaces cs

-- A newline at the end is removed.
abbrev pub chomp : List ℕ → List ℕ
chomp [] = []
chomp (c ∷ []) = if c == b'\n' then [] else c ∷ []
chomp (c ∷ d ∷ cs) = c ∷ chomp (d ∷ cs)

-- The loop that captures the arguments, with `n` of them to go. `malloc_ok call` says whether that
-- call of `malloc` in `getCommand` delivers memory. The length of a token that is NULL is undefined.
unfoldable pub read_args : (ℕ → Bool) → ℕ → ℕ → List ℕ → Outcome (List (List ℕ))
read_args malloc_ok call zero save = done []
read_args malloc_ok call (suc n) save = elim (strtok_r b' ' save) [
  | none ↦ undefined
  | some (token, rest) ↦
      if malloc_ok call
      then (read_args malloc_ok (suc call) n rest >>= λ args. done (token ∷ args))
      else failed
]

-- The name in `set_model`: the last `str_len` characters. At the length 0 and below, the code reads
-- and writes outside of the two texts.
unfoldable pub model_name : Bool → ℕ → List ℕ → Outcome (List ℕ)
model_name allocated str_len text =
    if not allocated
    then failed
    else if str_len == 0
    then undefined
    else done (chomp (drop (length text - str_len) text))

-- The special case for `set_model`. The test `**args == NULL` reads the first cell of the memory that
-- `malloc` has delivered: `fresh_is_null` says whether it happens to hold NULL.
unfoldable pub read_model_args :
    (ℕ → Bool) → Bool → List ℕ → List ℕ → List ℕ → Outcome (List (List ℕ))
unfolding model_name
read_model_args malloc_ok fresh_is_null text command save =
    if not (malloc_ok 2)
    then undefined
    else if fresh_is_null
    then failed
    else elim (strtok_r b' ' save) [
      | none ↦ undefined
      | some (id, rest) ↦
          if not (malloc_ok 3)
          then failed
          else (model_name (malloc_ok 4) (length text - length command - length id - 2) text
              >>= λ name. done (id ∷ name ∷ []))
    ]

-- `getCommand`. A text of spaces has no first word, and its copy is undefined.
unfoldable pub get_command : (ℕ → Bool) → Bool → List ℕ → Outcome Words
unfolding read_args read_model_args
get_command malloc_ok fresh_is_null text =
    if not (malloc_ok 0) || (length text == 0) || not (malloc_ok 1)
    then failed
    else elim (strtok_r b' ' text) [
      | none ↦ undefined
      | some (command, save) ↦
          if same_string command (codes "set_model")
          then (read_model_args malloc_ok fresh_is_null text command save >>= λ args.
              done (command, args))
          else if not (malloc_ok 2) && ltb 0 (count_spaces text)
          then undefined
          else (read_args malloc_ok 3 (count_spaces text) save >>= λ args. done (command, args))
    ]

-- What the calls for memory deliver while one command is read and run: in `getCommand`, in `setModel`
-- (`malloc` and `realloc`), in `deleteRouter` and in `existsRoute`.
pub record Memory : Type 0 where
  pub malloc_ok : ℕ → Bool
  pub fresh_is_null : Bool
  pub model_malloc_ok : Bool
  pub model_realloc_ok : Bool
  pub array_realloc_ok : ℕ → Bool
  pub visited_malloc_ok : Bool

-- What a command prints on standard output.
pub data Printed : Type 0 where
  nothing : Printed
  router_lines : Report → Printed
  route_line : ℕ → ℕ → Bool → Printed

-- The names that `runCommand` compares the first word with.
pub data Name : Type 0 where
  is_print is_set_flag is_set_model is_add_link : Name
  is_delete_router is_exist_route not_implemented : Name

unfoldable pub name_of : List ℕ → Name
name_of command =
    if same_string command (codes "print")
    then is_print
    else if same_string command (codes "set_flag")
    then is_set_flag
    else if same_string command (codes "set_model")
    then is_set_model
    else if same_string command (codes "add_link")
    then is_add_link
    else if same_string command (codes "delete_router")
    then is_delete_router
    else if same_string command (codes "exist_route") || same_string command (codes "path_exist")
    then is_exist_route
    else not_implemented

-- An argument; there are only as many cells in `args` as the text has spaces.
abbrev pub arg : List (List ℕ) → ℕ → Outcome (List ℕ)
arg args i = elim (get_elem? args i) [ none ↦ undefined | some text ↦ done text ]

abbrev pub int_arg : List (List ℕ) → ℕ → Outcome ℤ
int_arg args i = arg args i >>= λ text. done (atoi text)

-- The routers behind a change.
abbrev pub changed : Outcome (List Router) → Outcome (Printed × List Router)
changed o = o >>= λ rs. done (nothing, rs)

-- The answer of `existsRoute`. The outer `none` is fuel, which never runs out (Router.Search.Returns).
abbrev pub answered : Option (Option Bool) → Outcome Bool
answered none = undefined
answered (some answer) = some_or_failed answer

-- The branch of `runCommand` for a name: what is printed, and the routers.
unfoldable pub run_named :
    Memory → List Router → List (List ℕ) → Name → Outcome (Printed × List Router)
run_named memory rs args is_print = do
  id ← int_arg args 0
  lines ← some_or_failed (print_router rs id)
  done (router_lines lines, rs)
run_named memory rs args is_set_flag = do
  id ← int_arg args 0
  flag ← int_arg args 1
  value ← int_arg args 2
  changed (by_status (set_flag rs id flag value))
run_named memory rs args is_set_model = do
  id ← int_arg args 0
  name ← arg args 1
  changed (by_status (set_model memory.model_malloc_ok memory.model_realloc_ok rs id name))
run_named memory rs args is_add_link = do
  from_router ← int_arg args 0
  to_router ← int_arg args 1
  changed (by_status (add_link rs (to_uchar from_router) (to_uchar to_router)))
run_named memory rs args is_delete_router = do
  id ← int_arg args 0
  changed (by_status (delete_router memory.array_realloc_ok rs id))
run_named memory rs args is_exist_route = do
  from_router ← int_arg args 0
  to_router ← int_arg args 1
  let from_id = to_uchar from_router
  let to_id = to_uchar to_router
  exists ← answered (exists_route memory.visited_malloc_ok rs from_id to_id)
  done (route_line from_id to_id exists, rs)
run_named memory rs args not_implemented = failed

-- `runCommand`.
unfoldable pub run_command : Memory → List Router → Words → Outcome (Printed × List Router)
unfolding name_of run_named
run_command memory rs (command, args) = run_named memory rs args (name_of command)

-- A line: `getCommand`, then `runCommand`.
unfoldable pub run_line : Memory → List Router → List ℕ → Outcome (Printed × List Router)
unfolding get_command run_command
run_line memory rs line =
    get_command memory.malloc_ok memory.fresh_is_null line >>= λ words. run_command memory rs words
