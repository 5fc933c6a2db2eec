-- ===== src/Workflow/Graph/Order.antt =====
-- `linearize` puts every task after all of its dependencies.
use cloudify_common.Prelude.{
  ℕ, zero, suc, ◌≡◌, refl, sym, true, not, ◌&&◌, ◌||◌, List, [], ◌∷◌, ◌++◌, if◌then◌else◌, arith,
  length, subst, is_empty,
}
use cloudify_common.Prelude.Set.{mem, discard, mem-discard}
use cloudify_common.Workflow.Graph.{Graph, assign}
use cloudify_common.Workflow.Graph.Linearize.{
  Sweep, visit_dependents, visit_round, rounds, starting, linearize,
}
use cloudify_common.Workflow.Graph.Edges.{discard-discard}
use cloudify_common.Workflow.Graph.Invariant.{IsGraph, mem-is_empty, is_empty-discard}

pub mem-append : (b : ℕ) (xs ys : List ℕ) → mem b (xs ++ ys) ≡ (mem b xs || mem b ys)
unfolding mem
mem-append b [] ys = refl
mem-append b (x ∷ xs) ys = ground (arith, mem-append b xs ys)

-- Every task of a list depends only on tasks before it, or among those done before the list.
abbrev pub IsOrdered : (ℕ → List ℕ) → List ℕ → List ℕ → Type 0
IsOrdered deps done [] = Unit
IsOrdered deps done (x ∷ xs) =
    ((b : ℕ) → mem b (deps x) ≡ true → mem b done ≡ true) × IsOrdered deps (x ∷ done) xs

module _ (deps : ℕ → List ℕ) (x : ℕ) where
  IsOrdered-append :
      (done xs : List ℕ)
      → IsOrdered deps done xs
      → ((b : ℕ) → mem b (deps x) ≡ true → (mem b done || mem b xs) ≡ true)
      → IsOrdered deps done (xs ++ x ∷ [])
  unfolding mem
  IsOrdered-append done [] o h = ((λ b m. ground (arith, h b m)), tt)
  IsOrdered-append done (y ∷ xs) o h =
      (o.0, IsOrdered-append (y ∷ done) xs o.1 (λ b m. ground (arith, h b m)))

  -- A task of an ordered list, with what stands before it.
  IsOrdered-split :
      (done before after : List ℕ)
      → IsOrdered deps done (before ++ x ∷ after)
      → (b : ℕ) → mem b (deps x) ≡ true
      → (mem b done || mem b before) ≡ true
  unfolding mem
  IsOrdered-split done [] after o b m = ground (arith, o.0 b m)
  IsOrdered-split done (y ∷ before) after o b m =
      ground (arith, IsOrdered-split (y ∷ done) before after o.1 b m)

visit-copy :
    (t : ℕ) (ds : List ℕ) (s : Sweep) (a : ℕ)
    → (visit_dependents t ds s).copy a ≡ (if mem a ds then discard t (s.copy a) else s.copy a)
unfolding visit_dependents mem
visit-copy t [] s a = refl
visit-copy t (d ∷ ds) s a =
    let left = discard t (s.copy d) in
    ground (
      arith,
      discard-discard t (s.copy a),
      visit-copy t ds
          (record s {
            copy = assign s.copy d left;
            new_ready = if is_empty left then s.new_ready ++ d ∷ [] else s.new_ready;
          })
          a,
    )

visit-new_ready :
    (t : ℕ) (ds : List ℕ) (s : Sweep) (a : ℕ)
    → mem a (visit_dependents t ds s).new_ready
      ≡ (mem a s.new_ready || mem a ds && is_empty (discard t (s.copy a)))
unfolding visit_dependents mem
visit-new_ready t [] s a = ground arith
visit-new_ready t (d ∷ ds) s a =
    let left = discard t (s.copy d) in
    ground (
      arith,
      discard-discard t (s.copy a),
      mem-append a s.new_ready (d ∷ []),
      visit-new_ready t ds
          (record s {
            copy = assign s.copy d left;
            new_ready = if is_empty left then s.new_ready ++ d ∷ [] else s.new_ready;
          })
          a,
    )

visit-ordered : (t : ℕ) (ds : List ℕ) (s : Sweep) → (visit_dependents t ds s).ordered ≡ s.ordered
unfolding visit_dependents
visit-ordered t [] s = refl
visit-ordered t (d ∷ ds) s =
    let left = discard t (s.copy d) in
    visit-ordered t ds (record s {
      copy = assign s.copy d left;
      new_ready = if is_empty left then s.new_ready ++ d ∷ [] else s.new_ready;
    })

-- The copy holds the dependencies that are not ordered yet; the next round depends on none.
record IsSweep (g : Graph) (s : Sweep) : Type 0 where
  copied : (a b : ℕ) → mem b (s.copy a) ≡ (mem b (g.dependencies a) && not (mem b s.ordered))
  fresh : (a : ℕ) → mem a s.new_ready ≡ true → is_empty (s.copy a) ≡ true
  order : IsOrdered g.dependencies [] s.ordered

module _ (g : Graph) (mirror : (a b : ℕ) → mem b (g.dependencies a) ≡ mem a (g.dependents b)) where
  visit : ℕ → Sweep → Sweep
  visit t s = visit_dependents t (g.dependents t) (record s { ordered = s.ordered ++ t ∷ [] })

  visit-IsSweep :
      (t : ℕ) (s : Sweep) → is_empty (s.copy t) ≡ true → IsSweep g s → IsSweep g (visit t s)
  unfolding visit mem
  visit-IsSweep t s e inv =
      let s' : Sweep = record s { ordered = s.ordered ++ t ∷ [] } in
      let ds = g.dependents t in
      record {
        copied = λ a b. ground (
          arith,
          visit-copy t ds s' a,
          visit-ordered t ds s',
          inv.copied a b,
          mem-append b s.ordered (t ∷ []),
          mem-discard t b (s.copy a),
          mirror a t,
        );
        fresh = λ a h. ground (
          arith,
          visit-copy t ds s' a,
          visit-new_ready t ds s' a,
          inv.fresh a,
          is_empty-discard t (s.copy a),
        );
        order = subst (IsOrdered g.dependencies []) (sym (visit-ordered t ds s')) (
            IsOrdered-append g.dependencies t [] s.ordered inv.order
              (λ b m. ground (arith, inv.copied t b, mem-is_empty b (s.copy t) e)));
      }

  visit-is_empty :
      (t : ℕ) (s : Sweep) (a : ℕ)
      → is_empty (s.copy a) ≡ true
      → is_empty ((visit t s).copy a) ≡ true
  unfolding visit
  visit-is_empty t s a e = ground (
    arith,
    is_empty-discard t (s.copy a),
    visit-copy t (g.dependents t) (record s { ordered = s.ordered ++ t ∷ [] }) a,
  )

  round-IsSweep :
      (ready : List ℕ) (s : Sweep)
      → ((a : ℕ) → mem a ready ≡ true → is_empty (s.copy a) ≡ true)
      → IsSweep g s
      → IsSweep g (visit_round g ready s)
  unfolding visit_round mem visit
  round-IsSweep [] s free inv = inv
  round-IsSweep (t ∷ ready) s free inv =
      round-IsSweep ready (visit t s) (λ a m. visit-is_empty t s a (free a (ground arith)))
        (visit-IsSweep t s (free t (ground arith)) inv)

  rounds-IsOrdered :
      (fuel : ℕ) (ready : List ℕ) (s : Sweep)
      → ((a : ℕ) → mem a ready ≡ true → is_empty (s.copy a) ≡ true)
      → IsSweep g s
      → IsOrdered g.dependencies [] (rounds g fuel ready s)
  unfolding rounds mem
  rounds-IsOrdered zero ready s free inv = inv.order
  rounds-IsOrdered (suc fuel) [] s free inv = inv.order
  rounds-IsOrdered (suc fuel) (t ∷ ready) s free inv =
      let start : Sweep = record s { new_ready = [] } in
      let next =
        round-IsSweep (t ∷ ready) start free
          (record { copied = inv.copied; fresh = λ a m. cc; order = inv.order }) in
      rounds-IsOrdered fuel (visit_round g (t ∷ ready) start).new_ready
        (visit_round g (t ∷ ready) start) next.fresh next

  starting-free :
      (tasks : List ℕ) (a : ℕ)
      → mem a (starting g tasks) ≡ true
      → is_empty (g.dependencies a) ≡ true
  unfolding starting mem
  starting-free [] a m = cc
  starting-free (t ∷ tasks) a m = ground (arith, starting-free tasks a)

-- In the list that `linearize` returns, every task stands after all of its dependencies.
pub linearize-IsOrdered :
    (waiting : List ℕ) (g : Graph) (before after : List ℕ) (x b : ℕ)
    → IsGraph waiting g
    → linearize g ≡ before ++ x ∷ after
    → mem b (g.dependencies x) ≡ true
    → mem b before ≡ true
unfolding linearize mem
linearize-IsOrdered waiting g before after x b inv e m =
    let s : Sweep = record { copy = g.dependencies; ordered = []; new_ready = [] } in
    let o =
      rounds-IsOrdered g inv.mirror (suc (length g.tasks)) (starting g g.tasks) s
        (starting-free g inv.mirror g.tasks)
        (record { copied = λ a b. ground arith; fresh = λ a m. cc; order = tt }) in
    IsOrdered-split g.dependencies x [] before after (subst (IsOrdered g.dependencies []) e o) b m
