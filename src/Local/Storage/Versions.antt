-- ===== src/Local/Storage/Versions.antt =====
-- The versions of node instances: what an update does to the table of instances.
use cloudify_common.Prelude.{
  ℕ, ◌+◌, Bool, true, ◌≡◌, refl, sym, ap, String, false, not, ◌&&◌, Option, none, some, List, [],
  ◌∷◌, is_none, if◌then◌else◌, ◌==◌, string_eq, nat_beq, Result, ok, raise, arith, eq_iff,
  Option-cases, Bool-cases, inl, inr, ◌∙◌,
}
use cloudify_common.Prelude.Dict.{Dict, get, put, get-put}
use mathlib.Core.Path.{fun_ext}
use cloudify_common.Local.Storage.{
  NodeInstance, Storage, StorageError, storage_conflict, no_instance, changed, load_instance,
  store_instance, update_node_instance, index_from, init,
}

-- What is promised of the instances: a table from ids, where an update without a state compares the
-- versions, and whatever is written counts one up, at one id only.
abbrev pub Table : Type 0 → Type 0
Table P = String → Option (NodeInstance P)

-- Whoever gives a state may write; otherwise the version that was read has to be the stored one.
abbrev pub may_write : Option String → ℕ → ℕ → Bool
may_write (some state) version stored = true
may_write none version stored = nat_beq version stored

may_write-guard :
    (state : Option String) (version stored : ℕ)
    → may_write state version stored ≡ not (is_none state && not (nat_beq version stored))
may_write-guard none version stored = ground arith
may_write-guard (some state) version stored = ground arith

module _ {P : Type 0} where
  -- An instance that was written: one version later, with what was given and the rest kept.
  abbrev pub written : Option P → Option String → NodeInstance P → NodeInstance P
  written none none n = record n { version = n.version + 1 }
  written none (some state) n = record n { version = n.version + 1; state = some state }
  written (some properties) none n = record n {
    version = n.version + 1;
    runtime_properties = properties;
  }
  written (some properties) (some state) n = record n {
    version = n.version + 1;
    runtime_properties = properties;
    state = some state;
  }

  pub update_table : String → ℕ → Option P → Option String → Table P → Result StorageError (Table P)
  update_table id version runtime_properties state table = elim (table id) [
    | none ↦ raise (no_instance id)
    | some node_instance ↦
        if may_write state version node_instance.version
        then ok (λ other.
          if id == other
          then some (written runtime_properties state node_instance)
          else table other)
        else raise storage_conflict
  ]

  changed-written :
      (runtime_properties : Option P) (state : Option String) (n : NodeInstance P)
      → changed runtime_properties state n ≡ written runtime_properties state n
  unfolding changed
  changed-written none none n = refl
  changed-written none (some state) n = refl
  changed-written (some properties) none n = refl
  changed-written (some properties) (some state) n = refl

module _ {P : Type 0} where
  index_from-IsKeyed :
      (m : Dict String (NodeInstance P)) (node_instances : List (NodeInstance P))
      → ((id : String) (n : NodeInstance P) → get id m ≡ some n → n.id ≡ id)
      → (id : String) (n : NodeInstance P) → get id (index_from m node_instances) ≡ some n
      → n.id ≡ id
  unfolding index_from
  index_from-IsKeyed m [] keyed id n found = keyed id n found
  index_from-IsKeyed m (first ∷ rest) keyed id n found =
      index_from-IsKeyed (put first.id first m) rest
        (λ id n found. ground (arith, get-put first.id id first m, eq_iff first.id id, keyed id n))
        id n found

module _ {N P I : Type 0} where
  -- Each instance stands under its own id.
  abbrev pub IsKeyed : Storage N P I → Type 0
  IsKeyed s =
      (id : String) (node_instance : NodeInstance P)
      → get id s.node_instances ≡ some node_instance
      → node_instance.id ≡ id

  abbrev pub table_of : Storage N P I → Table P
  table_of s id = get id s.node_instances

  -- The table of a result, or its error.
  abbrev pub tables : Result StorageError (Storage N P I) → Result StorageError (Table P)
  tables (ok s) = ok (table_of s)
  tables (raise e) = raise e

  -- A successful update wrote the changed instance, and only that.
  pub update_node_instance-cases :
      (id : String) (version : ℕ) (runtime_properties : Option P) (state : Option String)
      → (s s' : Storage N P I) → update_node_instance id version runtime_properties state s ≡ ok s'
      → (node_instance : NodeInstance P) × (get id s.node_instances ≡ some node_instance)
        × ((state ≡ none) → version ≡ node_instance.version)
        × (s' ≡ store_instance (changed runtime_properties state node_instance) s)
  unfolding update_node_instance load_instance
  update_node_instance-cases id version runtime_properties state s s' h =
      elim (Option-cases (get id s.node_instances)) [
        | inl missing ↦ ground arith
        | inr (node_instance, found) ↦ (node_instance, found, λ e. ground arith, ground arith)
      ]

  pub stored_at :
      (id other : String) (new : NodeInstance P) (s : Storage N P I)
      → new.id ≡ id
      → get other (store_instance new s).node_instances
        ≡ (if id == other then some new else get other s.node_instances)
  unfolding store_instance
  stored_at id other new s e = rw (← e) (get-put new.id other new s.node_instances)

  update_allowed :
      (id : String) (version : ℕ) (runtime_properties : Option P) (state : Option String)
      → (s : Storage N P I) (n : NodeInstance P) → get id s.node_instances ≡ some n
      → may_write state version n.version ≡ true
      → (update_node_instance id version runtime_properties state s
          ≡ ok (store_instance (changed runtime_properties state n) s))
        × (update_table id version runtime_properties state (table_of s)
            ≡ ok (λ other.
              if id == other then some (written runtime_properties state n) else table_of s other))
  unfolding update_node_instance load_instance update_table
  update_allowed id version runtime_properties state s n found allowed =
      let test = may_write-guard state version n.version in
      (ground arith, rw (found, allowed, update_table) refl)

  update_refused :
      (id : String) (version : ℕ) (runtime_properties : Option P) (state : Option String)
      → (s : Storage N P I) (n : NodeInstance P) → get id s.node_instances ≡ some n
      → may_write state version n.version ≡ false
      → (update_node_instance id version runtime_properties state s ≡ raise storage_conflict)
        × (update_table id version runtime_properties state (table_of s) ≡ raise storage_conflict)
  unfolding update_node_instance load_instance update_table
  update_refused id version runtime_properties state s n found refused =
      let test = may_write-guard state version n.version in
      (ground arith, rw (found, refused, update_table) refl)

  written_at :
      (id other : String) (runtime_properties : Option P) (state : Option String)
      (n : NodeInstance P) (s : Storage N P I)
      → n.id ≡ id
      → get other (store_instance (changed runtime_properties state n) s).node_instances
        ≡ (if id == other then some (written runtime_properties state n) else table_of s other)
  unfolding changed
  written_at id other runtime_properties state n s keyed =
      stored_at id other (changed runtime_properties state n) s keyed
      ∙ ap (λ (x : NodeInstance P). if id == other then some x else table_of s other)
          (changed-written runtime_properties state n)

  -- The storage refines the table: where each instance stands under its own id, an update of the
  -- storage is the update of its table, in its result and in its errors.
  pub update_node_instance-table :
      (id : String) (version : ℕ) (runtime_properties : Option P) (state : Option String)
      → (s : Storage N P I) → IsKeyed s
      → tables (update_node_instance id version runtime_properties state s)
        ≡ update_table id version runtime_properties state (table_of s)
  unfolding update_node_instance load_instance update_table
  update_node_instance-table id version runtime_properties state s keyed =
      elim (Option-cases (get id s.node_instances)) [
        | inl missing ↦ ground arith
        | inr (n, found) ↦ elim (Bool-cases (may_write state version n.version)) [
          | inl allowed ↦
              let (one, two) =
                update_allowed id version runtime_properties state s n found allowed in
              ap tables one
              ∙ ap ok (
                  fun_ext
                    (λ other. written_at id other runtime_properties state n s (keyed id n found)))
              ∙ sym two
          | inr refused ↦
              let (one, two) =
                update_refused id version runtime_properties state s n found refused in
              ap tables one ∙ sym two
        ]
      ]

  pub update_node_instance-IsKeyed :
      (id : String) (version : ℕ) (runtime_properties : Option P) (state : Option String)
      → (s s' : Storage N P I) → IsKeyed s
      → update_node_instance id version runtime_properties state s ≡ ok s'
      → IsKeyed s'
  unfolding changed store_instance
  update_node_instance-IsKeyed id version runtime_properties state s s' keyed h other found' m =
      let (node_instance, found, _, same) =
        update_node_instance-cases id version runtime_properties state s s' h in
      let new = changed runtime_properties state node_instance in
      ground (
        arith,
        keyed id node_instance,
        keyed other found',
        get-put new.id other new s.node_instances,
        eq_iff new.id other,
        eq_iff id other,
      )

  -- A new storage holds each instance under its own id.
  pub init-IsKeyed :
      (nodes : Dict String N) (inputs : Dict String I) (node_instances : List (NodeInstance P))
      → IsKeyed (init nodes inputs node_instances)
  unfolding init get
  init-IsKeyed nodes inputs node_instances =
      index_from-IsKeyed [] node_instances (λ id n found. ground arith)
