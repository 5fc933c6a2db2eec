-- ===== src/Workflow/AsyncResult/Callbacks.antt =====
-- A result is set at most once, and each callback is called once, whether it was registered before
-- the result was set or after.
use mathlib.Core.List.{append-nil, append_assoc}
use cloudify_common.Prelude.{
  ◌>>=◌, ap, sym, ◌∙◌, ◌≡◌, refl, Option, none, some, List, [], ◌∷◌, ◌++◌, get_or, Result, ok,
  raise, ◌∙◌, Option-cases, inl, inr,
}
use cloudify_common.Workflow.AsyncResult.{
  ResultError, already_set, Callback, AsyncResult, new_result, on_result, call_all, set_result,
}

module _ {R S : Type 0} where
  -- Registration of several callbacks, in order.
  unfoldable pub register : List (Callback R S) → AsyncResult R S → S → AsyncResult R S × S
  register [] r s = (r, s)
  register (f ∷ fs) r s = let (r', s') = on_result f r s in register fs r' s'

  call_all-append :
      (fs gs : List (Callback R S)) (result : R) (s : S)
      → call_all (fs ++ gs) result s ≡ call_all gs (call_all fs result s).0 (call_all fs result s).1
  unfolding call_all
  call_all-append [] gs result s = refl
  call_all-append (f ∷ fs) gs result s =
      call_all-append fs gs (get_or (f result s).0 result) (f result s).1

  -- A callback that gives no new result.
  abbrev pub IsSilent : Callback R S → Type 0
  IsSilent f = (r : R) (s : S) → (f r s).0 ≡ none

  abbrev pub AllSilent : List (Callback R S) → Type 0
  AllSilent [] = Unit
  AllSilent (f ∷ fs) = IsSilent f × AllSilent fs

  call_all-silent :
      (fs : List (Callback R S)) (result : R) (s : S)
      → AllSilent fs
      → (call_all fs result s).0 ≡ result
  unfolding call_all
  call_all-silent [] result s q = refl
  call_all-silent (f ∷ fs) result s q =
      call_all-silent fs (get_or (f result s).0 result) (f result s).1 q.1 ∙ (rw (q.0 result s))

  register-stored :
      (gs : List (Callback R S)) (r : AsyncResult R S) (s : S)
      → (register gs r s).0.stored ≡ r.stored
  unfolding register on_result
  register-stored [] r s = refl
  register-stored (g ∷ gs) r s = elim (Option-cases r.stored) [
    | inl e ↦
        rw e (register-stored gs (record { callbacks = r.callbacks ++ g ∷ []; stored = none }) s)
    | inr (v, e) ↦ rw e (
        register-stored gs (record { callbacks = r.callbacks ++ g ∷ []; stored = some v })
          (g v s).1)
  ]

  -- After the result is set a callback is called at once.
  register_late :
      (gs : List (Callback R S)) (r : AsyncResult R S) (result : R) (s : S)
      → r.stored ≡ some result
      → AllSilent gs
      → (register gs r s).1 ≡ (call_all gs result s).1
  unfolding register on_result call_all
  register_late [] r result s e q = refl
  register_late (g ∷ gs) r result s e q =
      let r' : AsyncResult R S = record {
        callbacks = r.callbacks ++ g ∷ [];
        stored = some result;
      } in
      let same : get_or (g result s).0 result ≡ result = rw (q.0 result s) in
      rw e (
        register_late gs r' result (g result s).1 refl q.1
        ∙ ap (λ (x : R). (call_all gs x (g result s).1).1) (sym same))

  -- Before the result is set a callback is only kept.
  register_early :
      (fs : List (Callback R S)) (cs : List (Callback R S)) (s : S)
      → register fs (record { callbacks = cs; stored = none }) s
        ≡ (record { callbacks = cs ++ fs; stored = none }, s)
  unfolding register on_result
  register_early [] cs s = rw append-nil
  register_early (f ∷ fs) cs s = register_early fs (cs ++ f ∷ []) s ∙ (rw append_assoc)

  pub callbacks_once :
      (fs gs : List (Callback R S)) (result : R) (s : S)
      → AllSilent gs
      → (r : AsyncResult R S) × (s' : S) × ((do
        (r1, s1) ← set_result result (register fs new_result s).0 (register fs new_result s).1
        ok (register gs r1 s1))
          ≡ ok (r, s'))
        × (r.stored ≡ some (call_all fs result s).0)
        × (s' ≡ (call_all (fs ++ gs) result s).1)
  unfolding set_result new_result
  callbacks_once fs gs result s q =
      let (final, s1) = call_all fs result s in
      let r1 : AsyncResult R S = record { callbacks = fs; stored = some final } in
      (
        (register gs r1 s1).0,
        (register gs r1 s1).1,
        rw (register_early fs [] s),
        register-stored gs r1 s1,
        register_late gs r1 final s1 refl q ∙ (rw call_all-append),
      )

  abbrev stored_of : Result ResultError (AsyncResult R S × S) → Option R
  stored_of (ok x) = x.0.stored
  stored_of (raise e) = none

  set_result_refused :
      (result : R) (r : AsyncResult R S) (s : S) {v : R}
      → r.stored ≡ some v
      → set_result result r s ≡ raise already_set
  unfolding set_result
  set_result_refused result r s e = rw e

  set_result_stores :
      (result : R) (r : AsyncResult R S) (s : S) {r1 : AsyncResult R S × S}
      → set_result result r s ≡ ok r1
      → (v : R) × (r1.0.stored ≡ some v)
  unfolding set_result
  set_result_stores result r s h = elim (Option-cases r.stored) [
    | inl e ↦ ((call_all r.callbacks result s).0, sym (ap stored_of (rw e at h)))
    | inr (v, e) ↦ let no_result = rw e at h in cc
  ]

  -- A second result is refused, however many callbacks were registered since the first.
  set_result_twice :
      (result result' : R) (r : AsyncResult R S) (s : S) (gs : List (Callback R S)) (s' : S)
      → {r1 : AsyncResult R S × S} → set_result result r s ≡ ok r1
      → set_result result' (register gs r1.0 s').0 (register gs r1.0 s').1 ≡ raise already_set
  set_result_twice result result' r s gs s' {r1} h =
      let (v, stored) = set_result_stores result r s h in
      set_result_refused result' (register gs r1.0 s').0 (register gs r1.0 s').1
        (register-stored gs r1.0 s' ∙ stored)
