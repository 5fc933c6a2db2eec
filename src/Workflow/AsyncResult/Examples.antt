-- ===== src/Workflow/AsyncResult/Examples.antt =====
-- Callbacks that count their calls, and one that gives a new result.
use cloudify_common.Prelude.{ℕ, ◌+◌, ◌≡◌, refl, some, none, [], ◌∷◌, ok, ◌>>=◌}
use cloudify_common.Workflow.AsyncResult.{
  Callback, AsyncResult, new_result, on_result, call_all, set_result,
}
use cloudify_common.Workflow.AsyncResult.Callbacks.{register, callbacks_once}

program : Unit {0}
unfolding new_result on_result call_all set_result register
program = tt

abbrev counting : Callback ℕ ℕ
counting r s = (none, s + 1)

abbrev replacing : Callback ℕ ℕ
replacing r s = (some (r + 10), s + 1)

callbacks_once_example :
    (r : AsyncResult ℕ ℕ) × (s' : ℕ) × ((do
      (r1, s1) ←
          set_result 3
            (register (replacing ∷ []) new_result 0).0
            (register (replacing ∷ []) new_result 0).1
      ok (register (counting ∷ []) r1 s1))
      ≡ ok (r, s'))
    × (r.stored ≡ some 13)
    × (s' ≡ 2)
unfolding program
callbacks_once_example = callbacks_once (replacing ∷ []) (counting ∷ []) 3 0 ((λ r s. refl), tt)

abbrev set_once : AsyncResult ℕ ℕ
set_once = record { callbacks = []; stored = some 3 }
