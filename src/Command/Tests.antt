-- ===== src/Command/Tests.antt =====
-- Commands and whole runs of the program at concrete texts and files.
use in_lib.Base.{
  ℕ, ◌≤◌, ◌≡◌, ◌↔◌, refl, Bool, true, false, Option, none, some, List, [], ◌∷◌, ◌++◌, arith,
  if◌then◌else◌, inl,
}
use in_lib.Base.Int.{pos, negsuc}
use in_lib.Base.Text.{codes, same_string, atoi, strtok_r, complete_lines}
use in_lib.Router.{Router, find_router_id, find_free_neighbor}
use in_lib.Router.Slots.{slots_of}
use in_lib.Router.Links.{AllCompact, add_link, link_at}
use in_lib.Router.Tests.{mutual_pair, mutual_pair-AllKnown, pair_at}
use in_lib.Router.Search.Links.{Route}
use in_lib.Command.{Memory, nothing, route_line, get_command, run_line}
use in_lib.Base.Outcomes.{done, undefined}
use in_lib.Command.Words.{
  IsWord, get_command-spaced, get_command-trailing_space, get_command-set_model,
}
use in_lib.Command.Routes.{run_line-exist_route}
use in_lib.Command.Invariant.{stop, line}
use in_lib.Command.Kept.{Runs-bounds}
use in_lib.Command.Stored.{Stored}

atoi_runs :
    (atoi (codes " 12 routers") ≡ pos 12)
    × (atoi (codes "-3") ≡ negsuc 2)
    × (atoi (codes "x") ≡ pos 0)
unfolding atoi
atoi_runs = (refl, refl, refl)

abbrev enough : Memory
enough = record {
  malloc_ok = λ call. true;
  fresh_is_null = false;
  model_malloc_ok = true;
  model_realloc_ok = true;
  array_realloc_ok = λ n. true;
  visited_malloc_ok = true;
}

one-IsWord : IsWord (codes "1")
one-IsWord = record { some_char = omega arith; no_space = refl }

two-IsWord : IsWord (codes "2")
two-IsWord = record { some_char = omega arith; no_space = refl }

add_link-IsWord : IsWord (codes "add_link")
add_link-IsWord = record { some_char = omega arith; no_space = refl }

get_command-spaced_example :
    get_command (λ call. true) true (codes "add_link 1 2")
    ≡ done (codes "add_link", codes "1" ∷ codes "2" ∷ [])
get_command-spaced_example =
    get_command-spaced (λ call. true) (λ call. refl) true (codes "add_link")
      (codes "1" ∷ codes "2" ∷ []) add_link-IsWord (one-IsWord, (two-IsWord, tt)) refl

get_command-trailing_space_example :
    get_command (λ call. true) false (codes "add_link 1 2 ") ≡ undefined
get_command-trailing_space_example =
    get_command-trailing_space (λ call. true) (λ call. refl) false (codes "add_link")
      (codes "1" ∷ codes "2" ∷ []) add_link-IsWord (one-IsWord, (two-IsWord, tt)) refl

get_command-set_model_example :
    get_command (λ call. true) false (codes "set_model 1 Big Box\n")
    ≡ done (codes "set_model", codes "1" ∷ codes "Big Box" ∷ [])
get_command-set_model_example =
    get_command-set_model (λ call. true) (λ call. refl) (codes "1") (codes "Big Box\n") one-IsWord
      (omega arith)

run_line-exist_route_example :
    (exists : Bool) × (run_line enough mutual_pair (codes "exist_route 1 2")
      ≡ done (route_line 1 2 exists, mutual_pair))
    × ((exists ≡ true) ↔ Route mutual_pair 1 2)
unfolding atoi
run_line-exist_route_example =
    run_line-exist_route enough mutual_pair (codes "1") (codes "2") (λ call. refl) refl one-IsWord
      two-IsWord mutual_pair-AllKnown (pair_at 1 (inl refl))

-- The end of the file is met together with a line that has no newline, which is not run.
last_line_lost : complete_lines (codes "print 1\nprint 2") ≡ codes "print 1\n" ∷ []
unfolding complete_lines
last_line_lost = refl

-- Two routers with the models "ab" and "c", and the link from 1 to 2.
abbrev bin_content : List ℕ
bin_content =
    2 ∷ 0 ∷ 0 ∷ 0 ∷ 10 ∷ 1 ∷ 83 ∷ 3 ∷ 97 ∷ 98 ∷ 10 ∷ 2 ∷ 83 ∷ 2 ∷ 99 ∷ 10 ∷ 1 ∷ 2 ∷ 10 ∷ []

abbrev open_file : List ℕ → Option (List ℕ)
open_file path =
    if same_string path (codes "net")
    then some bin_content
    else if same_string path (codes "run.txt")
    then some (codes "add_link 2 1\nset_model 1 Big Box\nset_flag 2 0 0\n")
    else none

-- The links, the model and the flag that the commands set are in the file that is stored.
abbrev stored_content : List ℕ
stored_content =
    2 ∷ 0 ∷ 0 ∷ 0 ∷ 10 ∷ 1 ∷ 83 ∷ 8 ∷ codes "Big Box"
    ++ 10 ∷ 2 ∷ 82 ∷ 2 ∷ 99 ∷ 10 ∷ 1 ∷ 2 ∷ 10 ∷ 2 ∷ 1 ∷ 10 ∷ []

abbrev router_without_links : Router
router_without_links = record {
  router_id = 1;
  flag = 0;
  producer_model = none;
  neighbors = slots_of [] 10;
}

link_added :
    run_line enough (router_without_links ∷ []) (codes "add_link 1 2")
    ≡ done (nothing, record router_without_links { neighbors = slots_of (2 ∷ []) 9 } ∷ [])
unfolding run_line atoi add_link find_router_id link_at find_free_neighbor strtok_r
link_added = refl

Runs-bounds_example :
    AllCompact (record router_without_links { neighbors = slots_of (2 ∷ []) 9 } ∷ []) × (1 ≤ 1)
Runs-bounds_example =
    Runs-bounds (router_without_links ∷ [])
      (record router_without_links { neighbors = slots_of (2 ∷ []) 9 } ∷ [])
      (([], 10, refl, refl), tt) (line enough (codes "add_link 1 2") nothing link_added stop)
