-- ===== src/Command/Stored.antt =====
-- The whole program: what it stores comes from the routers in the file by the commands that it ran.
use in_lib.Base.{map, true, false, ℕ, suc, ◌≤◌, ◌≡◌, Bool, Option, some, List, [], ◌∷◌, length}
use in_lib.Base.Text.{complete_lines}
use in_lib.Router.{Router}
use in_lib.Router.Links.{AllCompact}
use in_lib.BinaryFile.{read_binary_file, write_binary_file, c_string}
use in_lib.Command.{Memory, Printed, run_line}
use in_lib.Base.Outcomes.{done}
use in_lib.Command.Program.{is_command_file}

-- The lines from line `i` on, one behind the other: each is run on the routers that the line before
-- has left, and prints its part.
pub data RunsLines (memory : ℕ → Memory)
    : ℕ → List Router → List (List ℕ) → List Printed → List Router → Type 0 where
  at_end : {i : ℕ} {rs : List Router} → RunsLines memory i rs [] [] rs
  then_line :
      {i : ℕ} {rs between after : List Router} {l : List ℕ} {ls : List (List ℕ)} {p : Printed}
      {ps : List Printed}
      → run_line (memory i) rs l ≡ done (p, between)
      → RunsLines memory (suc i) between ls ps after
      → RunsLines memory i rs (l ∷ ls) (p ∷ ps) after

-- The commands that the second argument stands for: the argument itself, or the lines of the file that
-- it names.
pub data Commands (open_file : List ℕ → Option (List ℕ)) (command : List ℕ)
    : List (List ℕ) → Type 0 where
  one_command : is_command_file command ≡ false → Commands open_file command (command ∷ [])
  of_file :
      {content : List ℕ}
      → is_command_file command ≡ true
      → open_file command ≡ some content
      → Commands open_file command (map c_string (complete_lines content))

-- What a run of the program leaves that ends with EXIT_SUCCESS.
pub record Stored (read_malloc_ok : ℕ → Bool) (memory : ℕ → Memory)
    (open_file : List ℕ → Option (List ℕ)) (bin_file command : List ℕ) (printed : List Printed)
    (bytes : List ℕ) : Type 0 where
  pub content : List ℕ
  pub opened : open_file bin_file ≡ some content
  pub before : List Router
  pub was_read : read_binary_file read_malloc_ok content ≡ some before
  pub after : List Router
  pub lines : List (List ℕ)
  pub commands : Commands open_file command lines
  pub ran_all : RunsLines memory 1 before lines printed after
  pub compact : AllCompact after
  pub no_more : length after ≤ length before
  pub written : write_binary_file after ≡ some bytes
