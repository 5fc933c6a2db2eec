-- ===== src/Functions/Resolution/Unique.antt =====
-- The instance that is found is one of the node's, and no other was meant.
use cloudify_common.Prelude.{
  ℕ, String, true, false, Option, none, some, List, [], ◌∷◌, ◌≡◌, refl, sym, ◌∙◌, ap, subst, arith,
  eq_iff, inl, inr, ◌⊎◌, Bool-cases, if◌then◌else◌, ◌==◌, string_eq, Result, ok, raise, ◌>>=◌,
  >>=-eq-ok,
}
use cloudify_common.Functions.Resolution.{
  StoredNode, StoredInstance, InstanceRelationship, RequestContext, is_among, group_instance,
  instances_in, only_one, instance_by_id, minimal_shared_group, resolve_node_instance,
  resolve_in_group, or_by_target, by_self_or_source, instance_of_targets, related_instance,
  or_ambiguous, or_grouped, from_storage, resolve_by_relationship, resolve_by_scaling_group,
  choose_instance, target_ids,
}

abbrev pub IsIn : StoredInstance → List StoredInstance → Type 0
IsIn node_instance [] = ⊥
IsIn node_instance (other ∷ rest) = (other ≡ node_instance) ⊎ IsIn node_instance rest

instance_by_id-IsIn :
    (id : String) (l : List StoredInstance) (node_instance : StoredInstance)
    → instance_by_id id l ≡ some node_instance
    → IsIn node_instance l × (node_instance.id ≡ id)
unfolding instance_by_id
instance_by_id-IsIn id [] node_instance found = cc
instance_by_id-IsIn id (other ∷ rest) node_instance found = elim (Bool-cases (other.id == id)) [
  | inl same ↦
      let equal : other ≡ node_instance = ground arith in
      (inl equal, subst (λ (i : StoredInstance). i.id ≡ id) equal ((eq_iff other.id id).0 same))
  | inr apart ↦
      let (there, named) = instance_by_id-IsIn id rest node_instance (ground arith) in
      (inr there, named)
]

only_one-eq :
    (l : List StoredInstance) (node_instance : StoredInstance)
    → only_one l ≡ some node_instance
    → l ≡ node_instance ∷ []
unfolding only_one
only_one-eq [] node_instance found = cc
only_one-eq (only ∷ []) node_instance found = cc
only_one-eq (first ∷ second ∷ rest) node_instance found = cc

abbrev IsRelationship : InstanceRelationship → List InstanceRelationship → Type 0
IsRelationship r [] = ⊥
IsRelationship r (other ∷ rest) = (other ≡ r) ⊎ IsRelationship r rest

-- Of these relationships some are to the node of this name, and all of those are to this instance.
abbrev pub LeadsTo : String → String → List InstanceRelationship → Type 0
LeadsTo node_name id l =
    ((r : InstanceRelationship) × IsRelationship r l
      × (r.target_name ≡ node_name)
      × (r.target_id ≡ id))
    × ((r : InstanceRelationship)
        → IsRelationship r l
        → r.target_name ≡ node_name
        → r.target_id ≡ id)

-- A target of a relationship to the node is among the targets.
target_ids_complete :
    (node_name : String) (l : List InstanceRelationship) (r : InstanceRelationship)
    → IsRelationship r l
    → r.target_name ≡ node_name
    → is_among r.target_id (target_ids node_name l) ≡ true
unfolding target_ids is_among
target_ids_complete node_name [] r there named = absurd there
target_ids_complete node_name (first ∷ rest) r (inl same) named =
    let name' : first.target_name ≡ node_name =
      ap (λ (x : InstanceRelationship). x.target_name) same ∙ named in
    let id' : first.target_id ≡ r.target_id = ap (λ (x : InstanceRelationship). x.target_id) same in
    let t : (first.target_name == node_name) ≡ true =
      (eq_iff first.target_name node_name).1 name' in
    let i : (first.target_id == r.target_id) ≡ true = (eq_iff first.target_id r.target_id).1 id' in
    elim (Bool-cases (is_among first.target_id (target_ids node_name rest))) [
      | inl known ↦
          rw (t, known, target_ids)
            (subst (λ (x : String). is_among x (target_ids node_name rest) ≡ true) id' known)
      | inr fresh ↦ rw (t, fresh, target_ids, is_among, i) refl
    ]
target_ids_complete node_name (first ∷ rest) r (inr there) named =
    let later = target_ids_complete node_name rest r there named in ground (arith, later)

-- Every target is one of a relationship to the node.
target_ids_sound :
    (node_name : String) (l : List InstanceRelationship) (id : String)
    → is_among id (target_ids node_name l) ≡ true
    → (r : InstanceRelationship) × IsRelationship r l
      × (r.target_name ≡ node_name)
      × (r.target_id ≡ id)
unfolding target_ids is_among
target_ids_sound node_name [] id h = cc
target_ids_sound node_name (first ∷ rest) id h =
    elim (Bool-cases (is_among id (target_ids node_name rest))) [
      | inl later ↦
          let (r, there, named, same) = target_ids_sound node_name rest id later in
          (r, inr there, named, same)
      | inr none_later ↦
          let t : (first.target_name == node_name) ≡ true = ground arith in
          let i : (first.target_id == id) ≡ true = ground arith in
          (
            first,
            inl refl,
            (eq_iff first.target_name node_name).0 t,
            (eq_iff first.target_id id).0 i,
          )
    ]

target_ids-LeadsTo :
    (node_name id : String) (l : List InstanceRelationship)
    → target_ids node_name l ≡ id ∷ []
    → LeadsTo node_name id l
unfolding is_among
target_ids-LeadsTo node_name id l one = (
  target_ids_sound node_name l id (rw (one, is_among, (eq_iff id id).1 refl) refl),
  λ r there named.
      let among : is_among r.target_id (id ∷ []) ≡ true =
        subst (λ (ids : List String). is_among r.target_id ids ≡ true) one
          (target_ids_complete node_name l r there named) in
      sym ((eq_iff id r.target_id).0 (ground arith)),
)

empty-eq :
    {Err : Type 0} (found : List StoredInstance)
    → Path (Result Err (List StoredInstance)) (ok []) (ok found)
    → [] ≡ found
empty-eq found h = cc

not_dropped :
    {Err : Type 0} (own id : String) (answer : Result Err String)
    → answer ≡ ok own
    → answer ≡ ok id
    → (own == id) ≡ false
    → ⊥
not_dropped own id answer given given' apart =
    let same : own ≡ id = cc in let equal : (own == id) ≡ true = (eq_iff own id).1 same in cc

kept-eq :
    {Err : Type 0} (own id : String) (first : StoredInstance) (kept found : List StoredInstance)
    → (own == id) ≡ true
    → Path
        (Result Err (List StoredInstance))
        (ok (if own == id then first ∷ kept else kept))
        (ok found)
    → (first ∷ kept) ≡ found
kept-eq own id first kept found same h = ground arith

dropped-eq :
    {Err : Type 0} (own id : String) (first : StoredInstance) (kept found : List StoredInstance)
    → (own == id) ≡ false
    → Path
        (Result Err (List StoredInstance))
        (ok (if own == id then first ∷ kept else kept))
        (ok found)
    → kept ≡ found
dropped-eq own id first kept found apart h = ground arith

module _ {StorageError : Type 0} (get_node : String → Result StorageError StoredNode)
    (get_node_instance : Option String → Result StorageError StoredInstance)
    (get_node_instances : String → Result StorageError (List StoredInstance)) where
  -- The instance is in this instance of the group.
  abbrev pub IsInGroup : ℕ → String → String → StoredInstance → Type 0
  IsInGroup fuel group id node_instance =
      group_instance get_node get_node_instance get_node_instances fuel node_instance group ≡ ok id

  -- Those that are found are the instances in the instance of the group.
  instances_in-IsIn :
      (fuel : ℕ) (group id : String) (l found : List StoredInstance)
      → instances_in get_node get_node_instance get_node_instances fuel group id l ≡ ok found
      → (node_instance : StoredInstance)
      → (IsIn node_instance found → IsIn node_instance l × IsInGroup fuel group id node_instance)
        × (IsIn node_instance l → IsInGroup fuel group id node_instance → IsIn node_instance found)
  unfolding instances_in
  instances_in-IsIn fuel group id [] found done node_instance = (
    λ m. absurd (subst (IsIn node_instance) (sym (empty-eq found done)) m),
    λ m in_group. absurd m,
  )
  instances_in-IsIn fuel group id (first ∷ rest) found done node_instance =
      let (own, given, more) =
        >>=-eq-ok (group_instance get_node get_node_instance get_node_instances fuel first group)
          (λ (own : String).
            instances_in get_node get_node_instance get_node_instances fuel group id rest
            >>= λ (l : List StoredInstance). ok (if own == id then first ∷ l else l))
          done in
      let (found', given', last) =
        >>=-eq-ok (instances_in get_node get_node_instance get_node_instances fuel group id rest)
          (λ (l : List StoredInstance). ok (if own == id then first ∷ l else l)) more in
      let (sound, complete) = instances_in-IsIn fuel group id rest found' given' node_instance in
      elim (Bool-cases (own == id)) [
        | inl kept ↦
            subst
              (λ (l : List StoredInstance).
                (IsIn node_instance l
                  → IsIn node_instance (first ∷ rest) × IsInGroup fuel group id node_instance)
                × (IsIn node_instance (first ∷ rest)
                    → IsInGroup fuel group id node_instance
                    → IsIn node_instance l))
              (kept-eq own id first found' found kept last)
              (
                λ m. elim m [
                  | inl same ↦ (
                    inl same,
                    subst (IsInGroup fuel group id) same (given ∙ ap ok ((eq_iff own id).0 kept)),
                  )
                  | inr there ↦ (inr (sound there).0, (sound there).1)
                ],
                λ m in_group. elim m [
                  | inl same ↦ inl same
                  | inr there ↦ inr (complete there in_group)
                ],
              )
        | inr dropped ↦
            subst
              (λ (l : List StoredInstance).
                (IsIn node_instance l
                  → IsIn node_instance (first ∷ rest) × IsInGroup fuel group id node_instance)
                × (IsIn node_instance (first ∷ rest)
                    → IsInGroup fuel group id node_instance
                    → IsIn node_instance l))
              (dropped-eq own id first found' found dropped last)
              (
                λ m. (inr (sound m).0, (sound m).1),
                λ m in_group. elim m [
                  | inl same ↦ absurd (
                      not_dropped own id
                        (group_instance get_node get_node_instance get_node_instances fuel first
                          group)
                        given (subst (IsInGroup fuel group id) (sym same) in_group) dropped)
                  | inr there ↦ complete there in_group
                ],
              )
      ]

  -- Of these instances it alone is in an instance of a group in which the asking one is, too.
  abbrev pub IsOnly : ℕ → Option String → List StoredInstance → StoredInstance → Type 0
  IsOnly fuel context_id l node_instance =
      (context_instance : StoredInstance) × (group : String) × (id : String) × (get_node_instance
          context_id
        ≡ ok context_instance)
      × IsInGroup fuel group id context_instance
      × IsInGroup fuel group id node_instance
      × ((other : StoredInstance)
          → IsIn other l
          → IsInGroup fuel group id other
          → node_instance ≡ other)

  from_storage-eq-ok :
      (A : Type 0) (answer : Result StorageError A) (a : A)
      → from_storage get_node get_node_instance get_node_instances A answer ≡ ok a
      → answer ≡ ok a
  from_storage-eq-ok A (ok b) a h = ground arith
  from_storage-eq-ok A (raise error) a h = cc

  only_one-IsOnly :
      (fuel : ℕ) (group id : String) (l found : List StoredInstance)
      (node_instance : StoredInstance)
      → instances_in get_node get_node_instance get_node_instances fuel group id l ≡ ok found
      → only_one found ≡ some node_instance
      → IsIn node_instance l
        × IsInGroup fuel group id node_instance
        × ((other : StoredInstance)
            → IsIn other l
            → IsInGroup fuel group id other
            → node_instance ≡ other)
  only_one-IsOnly fuel group id l found node_instance done one =
      let single : found ≡ node_instance ∷ [] = only_one-eq found node_instance one in
      let (there, in_group) =
        (instances_in-IsIn fuel group id l found done node_instance).0
          (subst (IsIn node_instance) (sym single) (inl refl)) in
      (
        there,
        in_group,
        λ other m other_in.
            elim (subst (IsIn other) single
              ((instances_in-IsIn fuel group id l found done other).1 m other_in)) [
                | inl same ↦ same
                | inr none_left ↦ absurd none_left
              ],
      )

  resolve_in_group-IsOnly :
      (fuel : ℕ) (context_id : Option String) (c : StoredInstance) (l : List StoredInstance)
      → (shared : Option String) (node_instance : StoredInstance)
      → get_node_instance context_id ≡ ok c
      → resolve_in_group get_node get_node_instance get_node_instances fuel c l shared
        ≡ ok (some node_instance)
      → IsIn node_instance l × IsOnly fuel context_id l node_instance
  unfolding resolve_in_group
  resolve_in_group-IsOnly fuel context_id c l none node_instance stored h = cc
  resolve_in_group-IsOnly fuel context_id c l (some group) node_instance stored h =
      let (id, own, h1) =
        >>=-eq-ok (group_instance get_node get_node_instance get_node_instances fuel c group)
          (λ (id : String).
            instances_in get_node get_node_instance get_node_instances fuel group id l
            >>= λ (found : List StoredInstance). ok (only_one found))
          h in
      let (found, done, one) =
        >>=-eq-ok (instances_in get_node get_node_instance get_node_instances fuel group id l)
          (λ (found : List StoredInstance). ok (only_one found)) h1 in
      let (there, in_group, alone) =
        only_one-IsOnly fuel group id l found node_instance done (ground arith) in
      (there, (c, group, id, stored, own, in_group, alone))

  resolve_node_instance-IsOnly :
      (fuel : ℕ) (first : StoredInstance) (rest : List StoredInstance) (context_id : Option String)
      → (node_instance : StoredInstance)
      → resolve_node_instance get_node get_node_instance get_node_instances fuel first rest
          context_id
        ≡ ok (some node_instance)
      → IsIn node_instance (first ∷ rest) × IsOnly fuel context_id (first ∷ rest) node_instance
  unfolding resolve_node_instance
  resolve_node_instance-IsOnly fuel first rest context_id node_instance h =
      let (c, stored, h1) =
        >>=-eq-ok
          (from_storage get_node get_node_instance get_node_instances StoredInstance
            (get_node_instance context_id))
          (λ (c : StoredInstance).
            minimal_shared_group get_node get_node_instance get_node_instances fuel c first
            >>= λ (shared : Option String).
                resolve_in_group get_node get_node_instance get_node_instances fuel c (first ∷ rest)
                  shared)
          h in
      let (shared, _, h2) =
        >>=-eq-ok (minimal_shared_group get_node get_node_instance get_node_instances fuel c first)
          (λ (shared : Option String).
            resolve_in_group get_node get_node_instance get_node_instances fuel c (first ∷ rest)
              shared)
          h1 in
      resolve_in_group-IsOnly fuel context_id c (first ∷ rest) shared node_instance
        (from_storage-eq-ok StoredInstance (get_node_instance context_id) c stored) h2

  -- One of those who ask finds the instance by a group.
  abbrev pub IsGrouped :
      ℕ → (self source target : Option String) → List StoredInstance → StoredInstance → Type 0
  IsGrouped fuel self source target l node_instance =
      (context_id : Option String) × ((self ≡ context_id)
        ⊎ ((source ≡ context_id) ⊎ (target ≡ context_id)))
      × IsOnly fuel context_id l node_instance

  or_by_target-IsGrouped :
      (fuel : ℕ) (source : String) (target : Option String) (first : StoredInstance)
      (rest : List StoredInstance) (found : Option StoredInstance) (node_instance : StoredInstance)
      → resolve_node_instance get_node get_node_instance get_node_instances fuel first rest
          (some source)
        ≡ ok found
      → or_by_target get_node get_node_instance get_node_instances fuel target first rest found
        ≡ ok (some node_instance)
      → IsIn node_instance (first ∷ rest)
        × IsGrouped fuel none (some source) target (first ∷ rest) node_instance
  unfolding or_by_target
  or_by_target-IsGrouped fuel source target first rest (some i) node_instance given h =
      let (there, only) =
        resolve_node_instance-IsOnly fuel first rest (some source) node_instance (given ∙ h) in
      (there, (some source, inr (inl refl), only))
  or_by_target-IsGrouped fuel source target first rest none node_instance given h =
      let (there, only) = resolve_node_instance-IsOnly fuel first rest target node_instance h in
      (there, (target, inr (inr refl), only))

  by_self_or_source-IsGrouped :
      (fuel : ℕ) (self source target : Option String) (first : StoredInstance)
      (rest : List StoredInstance) (node_instance : StoredInstance)
      → by_self_or_source get_node get_node_instance get_node_instances fuel self source target
          first rest
        ≡ ok (some node_instance)
      → IsIn node_instance (first ∷ rest)
        × IsGrouped fuel self source target (first ∷ rest) node_instance
  unfolding by_self_or_source
  by_self_or_source-IsGrouped fuel (some self) source target first rest node_instance h =
      let (there, only) =
        resolve_node_instance-IsOnly fuel first rest (some self) node_instance h in
      (there, (some self, inl refl, only))
  by_self_or_source-IsGrouped fuel none none target first rest node_instance h = cc
  by_self_or_source-IsGrouped fuel none (some source) target first rest node_instance h =
      let (found, given, h1) =
        >>=-eq-ok
          (resolve_node_instance get_node get_node_instance get_node_instances fuel first rest
            (some source))
          (λ (found : Option StoredInstance).
            or_by_target get_node get_node_instance get_node_instances fuel target first rest found)
          h in
      or_by_target-IsGrouped fuel source target first rest found node_instance given h1

  -- The asking instance has a relationship to the node, and all of these lead to this instance.
  abbrev pub IsRelated : Option String → String → StoredInstance → Type 0
  IsRelated self node_name node_instance =
      (self_id : String) × (self_instance : StoredInstance) × (self ≡ some self_id)
      × (get_node_instance (some self_id) ≡ ok self_instance)
      × LeadsTo node_name node_instance.id self_instance.relationships

  instance_of_targets-IsIn :
      (ids : List String) (l : List StoredInstance) (node_instance : StoredInstance)
      → instance_of_targets get_node get_node_instance get_node_instances ids l
        ≡ ok (some node_instance)
      → IsIn node_instance l × (ids ≡ node_instance.id ∷ [])
  unfolding instance_of_targets
  instance_of_targets-IsIn [] l node_instance h = cc
  instance_of_targets-IsIn (id ∷ other ∷ rest) l node_instance h = cc
  instance_of_targets-IsIn (id ∷ []) l node_instance h =
      let (there, named) = instance_by_id-IsIn id l node_instance (ground arith) in
      (there, ap (λ (x : String). x ∷ []) (sym named))

  related_instance-IsRelated :
      (self : Option String) (node_name : String) (l : List StoredInstance)
      (node_instance : StoredInstance)
      → related_instance get_node get_node_instance get_node_instances self node_name l
        ≡ ok (some node_instance)
      → IsIn node_instance l × IsRelated self node_name node_instance
  unfolding related_instance
  related_instance-IsRelated none node_name l node_instance h = cc
  related_instance-IsRelated (some self) node_name l node_instance h =
      let (s, stored, h1) =
        >>=-eq-ok
          (from_storage get_node get_node_instance get_node_instances StoredInstance
            (get_node_instance (some self)))
          (λ (s : StoredInstance).
            instance_of_targets get_node get_node_instance get_node_instances
              (target_ids node_name s.relationships) l)
          h in
      let (there, one) =
        instance_of_targets-IsIn (target_ids node_name s.relationships) l node_instance h1 in
      (
        there,
        (
          self,
          s,
          refl,
          from_storage-eq-ok StoredInstance (get_node_instance (some self)) s stored,
          target_ids-LeadsTo node_name node_instance.id s.relationships one,
        ),
      )

  or_ambiguous-eq :
      (node_name : String) (grouped : Option StoredInstance) (node_instance : StoredInstance)
      → or_ambiguous get_node get_node_instance get_node_instances node_name grouped
        ≡ ok node_instance
      → grouped ≡ some node_instance
  unfolding or_ambiguous
  or_ambiguous-eq node_name none node_instance h = cc
  or_ambiguous-eq node_name (some i) node_instance h = cc

  or_grouped-IsGrouped :
      (fuel : ℕ) (context : RequestContext) (node_name : String) (first : StoredInstance)
      (rest : List StoredInstance) (related : Option StoredInstance)
      (node_instance : StoredInstance)
      → related_instance get_node get_node_instance get_node_instances context.self node_name
          (first ∷ rest)
        ≡ ok related
      → or_grouped get_node get_node_instance get_node_instances fuel context node_name first rest
          related
        ≡ ok node_instance
      → IsIn node_instance (first ∷ rest)
        × (IsRelated context.self node_name node_instance
            ⊎ IsGrouped fuel context.self context.source context.target
                (first ∷ rest)
                node_instance)
  unfolding or_grouped resolve_by_scaling_group or_ambiguous
  or_grouped-IsGrouped fuel context node_name first rest (some i) node_instance given h =
      let same : i ≡ node_instance = ground arith in
      let (there, is_related) =
        related_instance-IsRelated context.self node_name (first ∷ rest) node_instance
          (given ∙ ap (λ (x : StoredInstance). ok (some x)) same) in
      (there, inl is_related)
  or_grouped-IsGrouped fuel context node_name first rest none node_instance given h =
      let (grouped, found, h1) =
        >>=-eq-ok
          (by_self_or_source get_node get_node_instance get_node_instances fuel context.self
            context.source context.target first rest)
          (λ (grouped : Option StoredInstance).
            or_ambiguous get_node get_node_instance get_node_instances node_name grouped)
          h in
      let (there, is_grouped) =
        by_self_or_source-IsGrouped fuel context.self context.source context.target first rest
          node_instance (found ∙ ap ok (or_ambiguous-eq node_name grouped node_instance h1)) in
      (there, inr is_grouped)

  pub choose_instance-IsMeant :
      (fuel : ℕ) (context : RequestContext) (node_name : String) (l : List StoredInstance)
      (node_instance : StoredInstance)
      → choose_instance get_node get_node_instance get_node_instances fuel context node_name l
        ≡ ok node_instance
      → IsIn node_instance l
        × ((l ≡ node_instance ∷ [])
            ⊎ (IsRelated context.self node_name node_instance
                ⊎ IsGrouped fuel context.self context.source context.target l node_instance))
  unfolding choose_instance resolve_by_relationship
  choose_instance-IsMeant fuel context node_name [] node_instance h = cc
  choose_instance-IsMeant fuel context node_name (only ∷ []) node_instance h =
      let same : only ≡ node_instance = ground arith in
      (inl same, inl (ap (λ (x : StoredInstance). x ∷ []) same))
  choose_instance-IsMeant fuel context node_name (first ∷ second ∷ rest) node_instance h =
      let (related, given, h1) =
        >>=-eq-ok
          (related_instance get_node get_node_instance get_node_instances context.self node_name
            (first ∷ second ∷ rest))
          (λ (related : Option StoredInstance).
            or_grouped get_node get_node_instance get_node_instances fuel context node_name first
              (second ∷ rest) related)
          h in
      let (there, meant) =
        or_grouped-IsGrouped fuel context node_name first (second ∷ rest) related node_instance
          given h1 in
      (there, inr meant)
