-- ===== src/Command/Program.antt =====
-- obligatory_assignment/src/router_operation.c: the main program, from its arguments to the bytes that
-- it stores. A file that can be opened is read to its end.
use in_lib.Base.{ℕ, suc, Bool, false, Option, none, some, List, [], ◌∷◌, ◌==◌, if◌then◌else◌}
use in_lib.Base.Text.{codes, same_string, complete_lines}
use in_lib.Router.{Router}
use in_lib.BinaryFile.{read_binary_file, write_binary_file, c_string}
use in_lib.Command.{Memory, Printed, run_line}
use in_lib.Base.Outcomes.{Outcome, done, failed, ◌>>=◌, some_or_failed}

-- `strrchr(text, '.')`: the text from its last dot on.
abbrev pub last_dot : List ℕ → Option (List ℕ)
last_dot [] = none
last_dot (c ∷ cs) = elim (last_dot cs) [
  | some tail ↦ some tail
  | none ↦ if c == b'.' then some (c ∷ cs) else none
]

abbrev pub is_command_file : List ℕ → Bool
is_command_file text = elim (last_dot text) [
  | none ↦ false
  | some tail ↦ same_string tail (codes ".txt")
]

-- The loop over the lines, from line `i` on; each line has its own calls for memory.
unfoldable pub run_lines :
    (ℕ → Memory) → ℕ → List Router → List (List ℕ) → Outcome (List Printed × List Router)
unfolding run_line
run_lines memory i rs [] = done ([], rs)
run_lines memory i rs (line ∷ lines) = do
  (printed, rs1) ← run_line (memory i) rs (c_string line)
  (more, rs2) ← run_lines memory (suc i) rs1 lines
  done (printed ∷ more, rs2)

-- The command, or the commands of the file.
unfoldable pub run_commands :
    (ℕ → Memory)
    → (List ℕ → Option (List ℕ))
    → List Router
    → List ℕ
    → Outcome (List Printed × List Router)
unfolding run_lines complete_lines
run_commands memory open_file rs command =
    if is_command_file command
    then (some_or_failed (open_file command) >>= λ content.
        run_lines memory 1 rs (complete_lines content))
    else (run_line (memory 1) rs command >>= λ (printed, rs1). done (printed ∷ [], rs1))

-- The program on its two arguments: what it prints, and the bytes of the file that it stores.
-- `read_malloc_ok` is for `readBinaryFile`, `path_malloc_ok` for the path of the file.
unfoldable pub run_program :
    (ℕ → Bool)
    → Bool
    → (ℕ → Memory)
    → (List ℕ → Option (List ℕ))
    → List ℕ
    → List ℕ
    → Outcome (List Printed × List ℕ)
unfolding run_commands
run_program read_malloc_ok path_malloc_ok memory open_file bin_file command = do
  content ← some_or_failed (open_file bin_file)
  rs ← some_or_failed (read_binary_file read_malloc_ok content)
  (printed, rs1) ← run_commands memory open_file rs command
  bytes ← if path_malloc_ok then some_or_failed (write_binary_file rs1) else failed
  done (printed, bytes)

-- `main`: one argument more or less is refused.
unfoldable pub main :
    (ℕ → Bool)
    → Bool
    → (ℕ → Memory)
    → (List ℕ → Option (List ℕ))
    → List (List ℕ)
    → Outcome (List Printed × List ℕ)
unfolding run_program
main read_malloc_ok path_malloc_ok memory open_file [] = failed
main read_malloc_ok path_malloc_ok memory open_file (program ∷ []) = failed
main read_malloc_ok path_malloc_ok memory open_file (program ∷ bin_file ∷ []) = failed
main read_malloc_ok path_malloc_ok memory open_file (program ∷ bin_file ∷ command ∷ []) =
    run_program read_malloc_ok path_malloc_ok memory open_file bin_file command
main read_malloc_ok path_malloc_ok memory open_file (program ∷ bin_file ∷ command ∷ a ∷ more) =
    failed
