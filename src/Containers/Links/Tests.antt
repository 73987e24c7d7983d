-- ===== src/Containers/Links/Tests.antt =====
-- Runs of the lists of src/kernel/lib/list.h, and uses of the theorems.
use ricerca.Common.{◌≡◌, refl, List, [], ◌∷◌, arith}
use ricerca.Containers.Links.Defs.{
  Links, list_init, list_append_head, list_append_tail, list_remove_head, list_remove_tail,
  list_remove,
}
use ricerca.Containers.Links.Order.{times, first, last, without}
use ricerca.Containers.Links.Refines.{IsLinked}
use ricerca.Containers.Links.Commands.{
  Command, append_head, append_tail, remove_head, remove_tail, remove_node, AreAllowed, stop, go,
  exec, meaning, exec_all, meaning_all, exec_all-meaning_all,
}

abbrev empty : Links
empty = list_init (λ a. 0) (λ a. 0)

abbrev commands : List Command
commands =
    append_tail 8
    ∷ append_tail 24
    ∷ append_head 16
    ∷ append_tail 40
    ∷ remove_node 8
    ∷ remove_tail
    ∷ remove_head
    ∷ remove_head
    ∷ remove_head
    ∷ []

commands_run : (exec_all commands empty).0 ≡ 0 ∷ 0 ∷ 0 ∷ 0 ∷ 0 ∷ 40 ∷ 16 ∷ 24 ∷ 0 ∷ []
unfolding exec_all exec list_append_head list_append_tail list_remove_head list_remove_tail
    list_remove
commands_run = refl

empty-IsLinked : IsLinked empty []
unfolding times first last
empty-IsLinked = record {
  nodes = record { once = λ a. omega arith; nonzero = refl };
  head_is = refl;
  tail_is = refl;
  next_is = λ a in_a. absurd (omega arith);
  prev_is = λ a in_a. absurd (omega arith);
}

commands-AreAllowed : AreAllowed commands []
unfolding times meaning without first last
commands-AreAllowed =
    go (omega arith, refl)
      (go (omega arith, refl)
        (go (omega arith, refl)
          (go (omega arith, refl)
            (go (omega arith)
              (go (omega arith) (go (omega arith) (go (omega arith) (go (omega arith) stop))))))))

exec_all-meaning_all_example :
    ((exec_all commands empty).0 ≡ (meaning_all commands []).0)
    × IsLinked (exec_all commands empty).1 (meaning_all commands []).1
exec_all-meaning_all_example =
    exec_all-meaning_all commands empty [] empty-IsLinked commands-AreAllowed
