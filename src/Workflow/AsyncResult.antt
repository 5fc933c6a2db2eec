-- ===== src/Workflow/AsyncResult.antt =====
-- WorkflowTaskResult of cloudify/workflows/tasks.py: a result that is set once, and the callbacks
-- that are called with it. A callback is any code: it takes the result and the state `S` of the
-- program, and gives a new result or None with the new state.
mod Callbacks
mod Examples
use cloudify_common.Prelude.{
  ℕ, Bool, true, false, Option, none, some, List, [], ◌∷◌, ◌++◌, get_or, Result, ok, raise, ◌>>=◌,
}

pub data ResultError : Type 0 where
  not_set already_set : ResultError

module _ (R S : Type 0) where
  abbrev pub Callback : Type 0
  Callback = R → S → Option R × S

  pub record AsyncResult : Type 0 where
    pub callbacks : List Callback
    pub stored : Option R

module _ {R S : Type 0} where
  unfoldable pub new_result : AsyncResult R S
  new_result = record { callbacks = []; stored = none }

  -- `on_result`
  unfoldable pub on_result : Callback R S → AsyncResult R S → S → AsyncResult R S × S
  on_result f r s =
      let r' = record r { callbacks = r.callbacks ++ f ∷ [] } in
      elim r.stored [ none ↦ (r', s) | some result ↦ (r', (f result s).1) ]

  -- the property `result`
  unfoldable pub get_result : AsyncResult R S → Result ResultError R
  get_result r = elim r.stored [ none ↦ raise not_set | some result ↦ ok result ]

  -- The loop of the setter: a callback's answer other than None takes the place of the result.
  unfoldable pub call_all : List (Callback R S) → R → S → R × S
  call_all [] result s = (result, s)
  call_all (f ∷ fs) result s =
      let (answer, s') = f result s in call_all fs (get_or answer result) s'

  -- the setter of `result`
  unfoldable pub set_result : R → AsyncResult R S → S → Result ResultError (AsyncResult R S × S)
  unfolding call_all
  set_result result r s = elim r.stored [
    | some _ ↦ raise already_set
    | none ↦
        let (final, s') = call_all r.callbacks result s in ok (record r { stored = some final }, s')
  ]
