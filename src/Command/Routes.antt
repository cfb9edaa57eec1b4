-- ===== src/Command/Routes.antt =====
-- The command `exist_route`, from its text to its answer.
use in_lib.Base.{ℕ, ◌≡◌, ◌↔◌, refl, arith, Bool, true, List, [], ◌∷◌}
use in_lib.Base.Int.{to_uchar}
use in_lib.Base.Text.{codes, atoi}
use in_lib.Router.{Router}
use in_lib.Router.Search.Links.{Route}
use in_lib.Router.Search.Run.{Known, AllKnown}
use in_lib.Router.Search.Correct.{exists_route_decides}
use in_lib.Command.{Memory, route_line, name_of, run_named, run_command, run_line}
use in_lib.Base.Outcomes.{done, bind-done}
use in_lib.Command.Words.{IsWord, spaced, get_command-spaced}

exist_route-IsWord : IsWord (codes "exist_route")
exist_route-IsWord = record { some_char = omega arith; no_space = refl }

-- The line `exist_route a b`, on a network whose links all lead to routers and that has a router with
-- the id a, prints that the route exists if and only if one leads along the links from a to b, and
-- changes no router, when there is memory. The ids are the numbers in the text modulo 2 ^ 8.
pub run_line-exist_route :
    (memory : Memory) (rs : List Router) (a b : List ℕ)
    → ((call : ℕ) → memory.malloc_ok call ≡ true)
    → memory.visited_malloc_ok ≡ true
    → IsWord a
    → IsWord b
    → AllKnown rs
    → Known rs (to_uchar (atoi a))
    → (exists : Bool) × (run_line memory rs (spaced (codes "exist_route") (a ∷ b ∷ []))
        ≡ done (route_line (to_uchar (atoi a)) (to_uchar (atoi b)) exists, rs))
      × ((exists ≡ true) ↔ Route rs (to_uchar (atoi a)) (to_uchar (atoi b)))
unfolding run_line run_command name_of run_named
run_line-exist_route memory rs a b malloc_ok visited_ok word_a word_b links known =
    let (exists, ran, decides) =
      exists_route_decides rs (to_uchar (atoi a)) (to_uchar (atoi b)) links known in
    (
      exists,
      bind-done _ _ _ _
          (get_command-spaced memory.malloc_ok malloc_ok memory.fresh_is_null (codes "exist_route")
            (a ∷ b ∷ []) exist_route-IsWord (word_a, (word_b, tt)) refl)
          (rw (visited_ok, ran) refl),
      decides,
    )
