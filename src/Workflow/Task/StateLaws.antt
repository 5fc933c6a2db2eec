-- ===== src/Workflow/Task/StateLaws.antt =====
-- A task's state: it is always legal, agrees with `is_terminated`, and is final once terminated.
-- A subgraph's result is set exactly when its state is terminated.
use cloudify_common.Prelude.{
  ℕ, ◌≡◌, ap, Bool, true, false, not, ◌&&◌, ◌||◌, some, List, [], ◌∷◌, nat_beq, is_none,
  if◌then◌else◌, Result, ok, ◌>>=◌, >>=-eq-ok, arith,
}
use cloudify_common.Workflow.Task.{
  Task, TaskState, no_value, TaskError, Store, set_object, is_terminated_state, is_legal_state,
}
use cloudify_common.Workflow.Task.State.{
  notify, set_state, set_result, set_subgraph_state, task_finished,
}

-- Every task's state is a legal one, and its flag says whether the state is terminated.
abbrev pub IsSound {ℓ} : {H : Type ℓ} → Store H → Type 0
IsSound s =
    (a : ℕ)
    → (is_legal_state (s.objects a).state ≡ true)
      × ((s.objects a).is_terminated ≡ is_terminated_state (s.objects a).state)

-- The subgraph `g` has its result exactly when its state is terminated.
abbrev pub IsSettled {ℓ} : {H : Type ℓ} → ℕ → Store H → Type 0
IsSettled g s = is_none (s.objects g).result ≡ not (is_terminated_state (s.objects g).state)

module _ {ℓ} {H : Type ℓ} (is_local : Bool) where
  notify_frame :
      (t : ℕ) (state : TaskState) (s : Store H)
      → ((notify is_local t state s).objects ≡ s.objects)
        × ((notify is_local t state s).finished ≡ s.finished)
  unfolding notify
  notify_frame t state s = ground arith

  -- The task after the assignments of `set_state`.
  abbrev pub moved : TaskState → Task H → Task H
  moved state task = record task {
    state = state;
    is_terminated = task.is_terminated || is_terminated_state state;
  }

  pub set_state_cases :
      (t : ℕ) (state : TaskState) (s : Store H) {s' : Store H}
      → set_state is_local t state s ≡ ok s'
      → (is_legal_state state ≡ true)
        × (s'.finished ≡ s.finished)
        × ((a : ℕ)
            → s'.objects a ≡ (
                if nat_beq t a && not (is_terminated_state (s.objects t).state)
                then moved state (s.objects t)
                else s.objects a))
  unfolding set_state
  set_state_cases t state s {s'} h =
      let after = set_object t (moved state (s.objects t)) s in
      let frame = notify_frame t state after in
      (
        ground arith,
        ground (arith, frame.1),
        λ a. ground (arith, ap (λ (f : ℕ → Task H). f a) frame.0),
      )

  -- `set_state` keeps every task sound, or raises.
  set_state-IsSound :
      (t : ℕ) (state : TaskState) (s : Store H) {s' : Store H}
      → IsSound s
      → set_state is_local t state s ≡ ok s'
      → IsSound s'
  set_state-IsSound t state s {s'} sound h a =
      let (legal, _, objects) = set_state_cases t state s h in
      rw (objects a) (ground (arith, sound a, sound t, legal))

  -- A series of calls of `set_state` on one task.
  unfoldable pub set_states : ℕ → List TaskState → Store H → Result TaskError (Store H)
  set_states t [] s = ok s
  set_states t (state ∷ states) s = do s' ← set_state is_local t state s; set_states t states s'

  set_state_terminated :
      (t : ℕ) (state : TaskState) (s : Store H) {s' : Store H}
      → is_terminated_state (s.objects t).state ≡ true
      → set_state is_local t state s ≡ ok s'
      → s' ≡ s
  unfolding set_state
  set_state_terminated t state s e h = ground arith

  -- A terminated state is final: whatever states are set afterwards, nothing at all changes, and
  -- no further notice is sent.
  set_states_terminated :
      (t : ℕ) (states : List TaskState) (s : Store H) {s' : Store H}
      → is_terminated_state (s.objects t).state ≡ true
      → set_states t states s ≡ ok s'
      → s' ≡ s
  unfolding set_states
  set_states_terminated t [] s e h = cc
  set_states_terminated t (state ∷ states) s e h =
      let (middle, one, rest) =
        >>=-eq-ok (set_state is_local t state s) (λ s'. set_states t states s') h in
      let same = set_state_terminated t state s e one in
      set_states_terminated t states s e (rw same at rest)

  -- The store after a change of the subgraph's state that does not raise.
  after_state : ℕ → TaskState → Store H → Store H
  after_state g state s = notify is_local g state (set_object g (moved state (s.objects g)) s)

  after_result : ℕ → Store H → Store H
  after_result g s =
      let s' = set_object g (record (s.objects g) { result = some no_value }) s in
      if (s.objects g).watched then task_finished g no_value s' else s'

  pub after_subgraph_state : ℕ → TaskState → Store H → Store H
  after_subgraph_state g state s =
      let s' = after_state g state s in if is_terminated_state state then after_result g s' else s'

  after_state-objects :
      (g : ℕ) (state : TaskState) (s : Store H) (a : ℕ)
      → (after_state g state s).objects a
        ≡ (if nat_beq g a then moved state (s.objects g) else s.objects a)
  unfolding after_state
  after_state-objects g state s a =
      let after = set_object g (moved state (s.objects g)) s in
      ground (arith, ap (λ (f : ℕ → Task H). f a) (notify_frame g state after).0)

  pub set_subgraph_state_ok :
      (g : ℕ) (state : TaskState) (s : Store H)
      → is_legal_state state ≡ true
      → is_terminated_state (s.objects g).state ≡ false
      → IsSettled g s
      → set_subgraph_state is_local g state s ≡ ok (after_subgraph_state g state s)
  unfolding set_subgraph_state set_state set_result after_subgraph_state after_result after_state
  set_subgraph_state_ok g state s legal running settled = ground arith

  pub after_subgraph_state-objects :
      (g : ℕ) (state : TaskState) (s : Store H) (a : ℕ)
      → (after_subgraph_state g state s).objects a ≡ (
          if nat_beq g a
          then (if is_terminated_state state
              then record (moved state (s.objects g)) { result = some no_value }
              else moved state (s.objects g))
          else s.objects a)
  unfolding after_subgraph_state after_result task_finished
  after_subgraph_state-objects g state s a =
      ground (arith, after_state-objects g state s g, after_state-objects g state s a)
