-- ===== src/Command/Invariant.antt =====
-- What every command keeps: a property of the router array that `setFlag`, `setModel`, `addLink` and
-- `deleteRouter` keep holds behind every command, and behind every run of the program.
use in_lib.Base.{ℕ, ◌≡◌, ap, subst, ◌∙◌, Bool, List, Status}
use in_lib.Base.Int.{ℤ, to_uchar}
use in_lib.Router.{Router}
use in_lib.Router.Links.{add_link}
use in_lib.Router.Model.{set_model}
use in_lib.Router.Flags.{set_flag, print_router}
use in_lib.Router.Deletion.Array.{delete_router}
use in_lib.Router.Search.{exists_route}
use in_lib.Command.{
  Memory, Printed, Name, is_print, is_set_flag, is_set_model, is_add_link, is_delete_router,
  is_exist_route, not_implemented, name_of, run_named, run_command, get_command, run_line, int_arg,
  arg, changed, answered,
}
use in_lib.Base.Outcomes.{
  done, bind-eq-done, done_inj, by_status, by_status-eq-done, some_or_failed,
}

-- A property of the routers that the operations keep.
pub record IsKept (P : List Router → Type 0) : Type 0 where
  pub flags : (rs : List Router) (id flag value : ℤ) → P rs → P (set_flag rs id flag value).1
  pub models :
      (malloc_ok realloc_ok : Bool) (rs : List Router) (id : ℤ) (name : List ℕ)
      → P rs
      → P (set_model malloc_ok realloc_ok rs id name).1
  pub links :
      (rs : List Router) (from_router to_router : ℕ)
      → P rs
      → P (add_link rs from_router to_router).1
  pub deletions :
      (realloc_ok : ℕ → Bool) (rs : List Router) (id : ℤ)
      → P rs
      → P (delete_router realloc_ok rs id).1

-- A run of command lines, from the routers at its beginning to those at its end; each line has its own
-- calls for memory.
pub data Runs : List Router → List Router → Type 0 where
  stop : {rs : List Router} → Runs rs rs
  line :
      {rs rs1 rs2 : List Router} (memory : Memory) (text : List ℕ) (printed : Printed)
      → run_line memory rs text ≡ done (printed, rs1)
      → Runs rs1 rs2
      → Runs rs rs2

changed-eq-done :
    (p : Status × List Router) (printed : Printed) (rs1 : List Router)
    → changed (by_status p) ≡ done (printed, rs1)
    → p.1 ≡ rs1
changed-eq-done p printed rs1 h =
    let (rs, did, same) = bind-eq-done (by_status p) _ (printed, rs1) h in
    by_status-eq-done p rs did ∙ ap (λ x. x.1) (done_inj same)

module _ (P : List Router → Type 0) (keeps : IsKept P) where
  run_named-kept :
      (memory : Memory) (rs : List Router) (args : List (List ℕ)) (name : Name) (printed : Printed)
      (rs1 : List Router)
      → P rs
      → run_named memory rs args name ≡ done (printed, rs1)
      → P rs1
  unfolding run_named
  run_named-kept memory rs args is_print printed rs1 h ran =
      let (id, read, more) = bind-eq-done (int_arg args 0) _ (printed, rs1) ran in
      let (lines, shown, same) =
        bind-eq-done (some_or_failed (print_router rs id)) _ (printed, rs1) more in
      subst P (ap (λ x. x.1) (done_inj same)) h
  run_named-kept memory rs args is_set_flag printed rs1 h ran =
      let (id, read, ran1) = bind-eq-done (int_arg args 0) _ (printed, rs1) ran in
      let (flag, read1, ran2) = bind-eq-done (int_arg args 1) _ (printed, rs1) ran1 in
      let (value, read2, ran3) = bind-eq-done (int_arg args 2) _ (printed, rs1) ran2 in
      subst P (changed-eq-done (set_flag rs id flag value) printed rs1 ran3)
        (keeps.flags rs id flag value h)
  run_named-kept memory rs args is_set_model printed rs1 h ran =
      let (id, read, ran1) = bind-eq-done (int_arg args 0) _ (printed, rs1) ran in
      let (name, read1, ran2) = bind-eq-done (arg args 1) _ (printed, rs1) ran1 in
      let malloc_ok = memory.model_malloc_ok in
      let realloc_ok = memory.model_realloc_ok in
      subst P (changed-eq-done (set_model malloc_ok realloc_ok rs id name) printed rs1 ran2)
        (keeps.models malloc_ok realloc_ok rs id name h)
  run_named-kept memory rs args is_add_link printed rs1 h ran =
      let (a, read, ran1) = bind-eq-done (int_arg args 0) _ (printed, rs1) ran in
      let (b, read1, ran2) = bind-eq-done (int_arg args 1) _ (printed, rs1) ran1 in
      subst P (changed-eq-done (add_link rs (to_uchar a) (to_uchar b)) printed rs1 ran2)
        (keeps.links rs (to_uchar a) (to_uchar b) h)
  run_named-kept memory rs args is_delete_router printed rs1 h ran =
      let (id, read, ran1) = bind-eq-done (int_arg args 0) _ (printed, rs1) ran in
      subst P (changed-eq-done (delete_router memory.array_realloc_ok rs id) printed rs1 ran1)
        (keeps.deletions memory.array_realloc_ok rs id h)
  run_named-kept memory rs args is_exist_route printed rs1 h ran =
      let (a, read, ran1) = bind-eq-done (int_arg args 0) _ (printed, rs1) ran in
      let (b, read1, ran2) = bind-eq-done (int_arg args 1) _ (printed, rs1) ran1 in
      let (exists, found, same) =
        bind-eq-done (answered (exists_route memory.visited_malloc_ok rs (to_uchar a) (to_uchar b)))
          _ (printed, rs1) ran2 in
      subst P (ap (λ x. x.1) (done_inj same)) h
  run_named-kept memory rs args not_implemented printed rs1 h ran = cc

  pub run_line-kept :
      (memory : Memory) (rs : List Router) (text : List ℕ) (printed : Printed) (rs1 : List Router)
      → P rs
      → run_line memory rs text ≡ done (printed, rs1)
      → P rs1
  unfolding run_line run_command
  run_line-kept memory rs text printed rs1 h ran =
      let (words, read, ran1) =
        bind-eq-done (get_command memory.malloc_ok memory.fresh_is_null text) _ (printed, rs1)
          ran in
      run_named-kept memory rs words.1 (name_of words.0) printed rs1 h ran1

  -- A property that the four operations keep holds at the end of every run of command lines that
  -- succeeds, if it holds at the beginning.
  pub Runs-kept : (rs rs1 : List Router) → P rs → Runs rs rs1 → P rs1
  Runs-kept rs rs1 h stop = h
  Runs-kept rs rs1 h (line memory text printed ran more) =
      Runs-kept _ rs1 (run_line-kept memory rs text printed _ h ran) more
