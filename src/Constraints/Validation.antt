-- ===== src/Constraints/Validation.antt =====
-- What the validation of a value accepts, and what the validation of a constraint guarantees.
use cloudify_common.Prelude.{
  String, ◌⊎◌, subst, ◌≡◌, refl, ◌↔◌, inl, inr, Bool, true, false, Option, some, List, [], ◌∷◌,
  is_empty, ok, Option-cases, Bool-cases, if◌then◌else◌, arith,
}
use cloudify_common.Constraints.{
  Values, DslError, Operator, equal, greater_than, greater_or_equal, less_than, less_or_equal,
  in_range, valid_values, min_length, max_length, pattern, Constraint, predicate, is_function,
  validate_args, check_constraints, validate_input_value, validation_function, constraint_data_type,
  is_valid_scalar, is_valid_sequence, is_valid_dual_scalar, is_valid_regex, compare_values,
  range_bounds, within, contains, no_length, not_comparable, validation_function,
  constraint_data_type, is_valid_scalar, is_valid_sequence, is_valid_dual_scalar, is_valid_regex,
  compare_values, range_bounds, within, contains,
}

module _ (python : Values) where
  open python use {
    Value, Number, scalar, comparable, len, text_of, sequence, equals, of_number, matches, items,
  }

  abbrev pub IsAmong : Constraint python → List (Constraint python) → Type 0
  IsAmong c [] = ⊥
  IsAmong c (other ∷ cs) = (other ≡ c) ⊎ IsAmong c cs

  -- The value satisfies every constraint.
  abbrev pub Satisfies : List (Constraint python) → Value → Type 0
  Satisfies cs value = (c : Constraint python) → IsAmong c cs → predicate python c value ≡ ok true

  -- The value is a dict with one item, which has the name of a function.
  abbrev pub IsCall : (String → Bool) → Value → Type 0
  IsCall registered value =
      (name : String) × (args : Value) × (items value ≡ some ((name, args) ∷ []))
      × (registered name ≡ true)

  is_function-IsCall :
      (registered : String → Bool) (value : Value)
      → (is_function python registered value ≡ false) ↔ (IsCall registered value → ⊥)
  unfolding is_function
  is_function-IsCall registered value = elim (Option-cases (items value)) [
    | inl nothing ↦ (λ h (name, args, found, known). ground (arith, found), λ h. ground arith)
    | inr ([], found) ↦ (λ h (name, args, found', known). ground (arith, found'), λ h. ground arith)
    | inr ((name, args) ∷ [], found) ↦ (
      λ h (other, args', found', known). ground (arith, found', known),
      λ h. elim (Bool-cases (registered name)) [
        | inl known ↦ absurd (h (name, args, found, known))
        | inr unknown ↦ ground arith
      ],
    )
    | inr (first ∷ second ∷ rest, found) ↦
        (λ h (name, args, found', known). ground (arith, found'), λ h. ground arith)
  ]

  check_constraints_iff :
      (cs : List (Constraint python)) (value : Value)
      → (check_constraints python cs value ≡ ok tt) ↔ Satisfies cs value
  unfolding check_constraints
  check_constraints_iff [] value = (λ h c m. absurd m, λ s. refl)
  check_constraints_iff (c ∷ cs) value =
      let (to, from) = check_constraints_iff cs value in
      (
        λ h other m. elim m [
          | inl same ↦
              subst (λ (x : Constraint python). predicate python x value ≡ ok true) same
                (ground arith)
          | inr there ↦ to (ground arith) other there
        ],
        λ s. rw (s c (inl refl), from (λ other m. s other (inr m))),
      )

  -- The value of an input is accepted exactly when it satisfies every constraint of the input,
  -- and, if there is a constraint at all, is no call of an intrinsic function.
  pub validate_input_value_iff :
      (registered : String → Bool) (cs : List (Constraint python)) (value : Value)
      → (validate_input_value python registered cs value ≡ ok tt)
        ↔ ((is_empty cs ≡ false → IsCall registered value → ⊥) × Satisfies cs value)
  unfolding validate_input_value
  validate_input_value_iff registered cs value =
      let (to, from) = check_constraints_iff cs value in
      let (no_call, no_function) = is_function-IsCall registered value in
      (
        λ h. (λ some_constraint. no_call (ground arith), to (ground arith)),
        λ (calls, s).
            let p = from s in
            elim (Bool-cases (is_empty cs)) [
              | inl none_given ↦ ground arith
              | inr some_given ↦ let q = no_function (calls some_given) in ground arith
            ],
      )

  -- The value has what the operator looks at: a number, a length, or a text.
  abbrev pub Suits : Operator → Value → Type 0
  Suits equal value = Unit
  Suits valid_values value = Unit
  Suits Operator.length value = (n : Number) × (len value ≡ some n)
  Suits min_length value = (n : Number) × (len value ≡ some n)
  Suits max_length value = (n : Number) × (len value ≡ some n)
  Suits pattern value = (s : String) × (text_of value ≡ some s)
  Suits _ value = (n : Number) × (comparable value ≡ some n)

  -- Arguments that `validate_args` accepts have the form that the constraint's data type asks for.
  accepted_args :
      (registered : String → Bool) (operator : Operator) (args : Value)
      → validate_args python registered operator args ≡ ok tt
      → validation_function python (constraint_data_type operator) args ≡ true
  unfolding validate_args
  accepted_args registered operator args h =
      elim (Bool-cases (validation_function python (constraint_data_type operator) args)) [
        | inl valid ↦ valid
        | inr invalid ↦ ground arith
      ]

  valid_number : (v : Value) → is_valid_scalar python v ≡ true → (n : Number) × (scalar v ≡ some n)
  unfolding is_valid_scalar
  valid_number v h = elim (Option-cases (scalar v)) [ inl e ↦ ground arith | inr found ↦ found ]

  compare_ok :
      (test : Number → Number → Bool) (a b : Option Number) (e : DslError)
      → ((n : Number) × (a ≡ some n))
      → ((n : Number) × (b ≡ some n))
      → (r : Bool) × (compare_values python test a b e ≡ ok r)
  unfolding compare_values
  compare_ok test a b e (m, ha) (n, hb) = (test m n, rw (ha, hb))

  within_ok :
      (lo hi value : Value)
      → ((n : Number) × (comparable lo ≡ some n))
      → ((n : Number) × (comparable hi ≡ some n))
      → ((n : Number) × (comparable value ≡ some n))
      → (r : Bool) × (within python lo hi value ≡ ok r)
  unfolding within compare_values
  within_ok lo hi value (l, hl) (h, hh) (v, hv) =
      (if python.le l v then python.le v h else false, ground (arith, hl, hh, hv))

  comparable_of :
      (numbers : (v : Value) (n : Number) → scalar v ≡ some n → comparable v ≡ some n) (v : Value)
      → is_valid_scalar python v ≡ true
      → (n : Number) × (comparable v ≡ some n)
  comparable_of numbers v valid = let (n, found) = valid_number v valid in (n, numbers v n found)

  valid_bounds :
      (args : Value)
      → is_valid_dual_scalar python args ≡ true
      → (lo : Value) × (hi : Value) × (range_bounds python args ≡ some (lo, hi))
        × (is_valid_scalar python lo ≡ true)
        × (is_valid_scalar python hi ≡ true)
  unfolding is_valid_dual_scalar range_bounds
  valid_bounds args h = elim (Option-cases (sequence args)) [
    | inl e ↦ ground arith
    | inr ([], e) ↦ ground arith
    | inr (lo ∷ [], e) ↦ ground arith
    | inr (lo ∷ hi ∷ [], e) ↦ (lo, hi, ground (arith, e), ground arith, ground arith)
    | inr (lo ∷ hi ∷ x ∷ rest, e) ↦ ground arith
  ]

  -- With arguments that `validate_args` accepts, a constraint decides every value that suits its
  -- operator: an exception can only come from the value.
  pub validated_predicate :
      (numbers : (v : Value) (n : Number) → scalar v ≡ some n → comparable v ≡ some n)
      → (registered : String → Bool) (operator : Operator) (args value : Value)
      → validate_args python registered operator args ≡ ok tt
      → Suits operator value
      → (b : Bool) × (predicate python (record { operator = operator; args = args }) value ≡ ok b)
  unfolding predicate validation_function constraint_data_type is_valid_sequence
      is_valid_dual_scalar is_valid_regex range_bounds
  validated_predicate numbers registered greater_than args value h s =
      compare_ok python.lt (comparable args) (comparable value) not_comparable
        (comparable_of numbers args (accepted_args registered greater_than args h)) s
  validated_predicate numbers registered greater_or_equal args value h s =
      compare_ok python.le (comparable args) (comparable value) not_comparable
        (comparable_of numbers args (accepted_args registered greater_or_equal args h)) s
  validated_predicate numbers registered less_than args value h s =
      compare_ok python.lt (comparable value) (comparable args) not_comparable s
        (comparable_of numbers args (accepted_args registered less_than args h))
  validated_predicate numbers registered less_or_equal args value h s =
      compare_ok python.le (comparable value) (comparable args) not_comparable s
        (comparable_of numbers args (accepted_args registered less_or_equal args h))
  validated_predicate numbers registered min_length args value h s =
      compare_ok python.le (comparable args) (len value) no_length
        (comparable_of numbers args (accepted_args registered min_length args h)) s
  validated_predicate numbers registered max_length args value h s =
      compare_ok python.le (len value) (comparable args) no_length s
        (comparable_of numbers args (accepted_args registered max_length args h))
  validated_predicate numbers registered equal args value h s = (_, refl)
  validated_predicate numbers registered Operator.length args value h (n, found) =
      (equals (of_number n) args, ground (arith, found))
  validated_predicate numbers registered valid_values args value h s =
      let valid = accepted_args registered valid_values args h in
      elim (Option-cases (sequence args)) [
        | inl e ↦ ground arith
        | inr (vs, e) ↦ (contains python value vs, ground (arith, e))
      ]
  validated_predicate numbers registered pattern args value h (text, found) =
      let valid = accepted_args registered pattern args h in
      elim (Option-cases (text_of args)) [
        | inl e ↦ ground arith
        | inr (regex, e) ↦ (matches regex text, ground (arith, found, e))
      ]
  validated_predicate numbers registered in_range args value h s =
      let (lo, hi, e, l, u) = valid_bounds args (accepted_args registered in_range args h) in
      let (r, w) =
        within_ok lo hi value (comparable_of numbers lo l) (comparable_of numbers hi u) s in
      (r, ground (arith, e, w))
