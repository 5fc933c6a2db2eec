-- ===== src/Local/Storage/Runs.antt =====
-- Any sequence of updates of node instances: no update is lost.
use cloudify_common.Prelude.{
  ℕ, ◌+◌, ◌≤◌, ◌≡◌, refl, String, Option, none, some, if◌then◌else◌, ◌==◌, string_eq, ok, raise,
  arith, eq_iff, Bool-cases, inl, inr,
}
use cloudify_common.Prelude.Dict.{get}
use cloudify_common.Local.Storage.{
  NodeInstance, Storage, storage_conflict, changed, load_instance, update_node_instance,
}
use cloudify_common.Local.Storage.Versions.{
  IsKeyed, stored_at, update_node_instance-cases, update_node_instance-IsKeyed,
}

module _ {N P I : Type 0} where
  -- Any number of updates, of anyone.
  pub data Run (s : Storage N P I) : Storage N P I → Type 0 where
    here : Run s s
    next :
        {s1 : Storage N P I} (s2 : Storage N P I) (id : String) (version : ℕ)
        → (runtime_properties : Option P) (state : Option String) → Run s s1
        → update_node_instance id version runtime_properties state s1 ≡ ok s2
        → Run s s2

  abbrev AtLeast : String → ℕ → Storage N P I → Type 0
  AtLeast id version s =
      (node_instance : NodeInstance P) × (get id s.node_instances ≡ some node_instance)
      × (version ≤ node_instance.version)

  module _ (id : String) (version : ℕ) (runtime_properties : Option P) (state : Option String)
      (s s' : Storage N P I) (keyed : IsKeyed s)
      (h : update_node_instance id version runtime_properties state s ≡ ok s') where
    update_at :
        (other : String)
        → (node_instance : NodeInstance P) × (get id s.node_instances ≡ some node_instance)
          × ((state ≡ none) → version ≡ node_instance.version)
          × (get other s'.node_instances ≡ (
              if id == other
              then some (changed runtime_properties state node_instance)
              else get other s.node_instances))
    unfolding changed
    update_at other =
        let (node_instance, found, current, same) =
          update_node_instance-cases id version runtime_properties state s s' h in
        (
          node_instance,
          found,
          current,
          rw same (
              stored_at id other (changed runtime_properties state node_instance) s
                (keyed id node_instance found)),
        )

    update-AtLeast : (other : String) (least : ℕ) → AtLeast other least s → AtLeast other least s'
    unfolding changed
    update-AtLeast other least (old, there, enough) =
        let (node_instance, found, current, at) = update_at other in
        elim (Bool-cases (id == other)) [
          | inl own ↦ (
            changed runtime_properties state node_instance,
            ground arith,
            ground (arith, eq_iff id other),
          )
          | inr apart ↦ (old, ground arith, enough)
        ]

    update-AtLeast_own : state ≡ none → AtLeast id (version + 1) s'
    unfolding changed
    update-AtLeast_own stateless =
        let (node_instance, found, current, at) = update_at id in
        (
          changed runtime_properties state node_instance,
          ground (arith, eq_iff id id),
          ground (arith, current stateless),
        )

  Run-IsKeyed : {s s' : Storage N P I} → IsKeyed s → Run s s' → IsKeyed s'
  Run-IsKeyed keyed here = keyed
  Run-IsKeyed keyed (next {s1} s2 id version runtime_properties state run h) =
      update_node_instance-IsKeyed id version runtime_properties state s1 s2 (Run-IsKeyed keyed run)
        h

  Run-AtLeast :
      {s s' : Storage N P I} (other : String) (least : ℕ)
      → IsKeyed s
      → AtLeast other least s
      → Run s s'
      → AtLeast other least s'
  Run-AtLeast other least keyed enough here = enough
  Run-AtLeast other least keyed enough (next {s1} s2 id version runtime_properties state run h) =
      update-AtLeast id version runtime_properties state s1 s2 (Run-IsKeyed keyed run) h other least
        (Run-AtLeast other least keyed enough run)

  -- No update is lost: of two updates of the runtime properties that were made at the same version
  -- of an instance, the later one is refused, whatever other updates come in between. Each instance
  -- stands under its own id.
  pub second_update_refused :
      (id : String) (version : ℕ) (first second : Option P) (s s1 s2 : Storage N P I)
      → IsKeyed s
      → update_node_instance id version first none s ≡ ok s1
      → Run s1 s2
      → update_node_instance id version second none s2 ≡ raise storage_conflict
  unfolding update_node_instance load_instance
  second_update_refused id version first second s s1 s2 keyed h run =
      let keyed1 = update_node_instance-IsKeyed id version first none s s1 keyed h in
      let (node_instance, found, newer) =
        Run-AtLeast id (version + 1) keyed1
          (update-AtLeast_own id version first none s s1 keyed h refl) run in
      ground arith
