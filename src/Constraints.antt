-- ===== src/Constraints.antt =====
-- dsl_parser/constraints.py: the constraints that a blueprint puts on the values of its inputs.
-- What Python and `re` decide about values is the parameter `Values`; an intrinsic function is
-- recognised by `is_function` of dsl_parser/functions.py, given the names that are registered.
mod Validation
mod Examples
use cloudify_common.Prelude.{
  ◌==◌, string_eq, ℕ, String, Bool, true, false, not, ◌&&◌, ◌||◌, Option, none, some, List, [], ◌∷◌,
  is_none, if◌then◌else◌, Result, ok, raise, guard, ◌>>=◌, ◌>>◌, is_empty,
}
use cloudify_common.Prelude.Dict.{Dict}

-- Python's values as the constraints see them.
pub record Values : Type 1 where
  pub Value : Type 0
  pub Number : Type 0
  -- int, float and long: the values that are numbers but no booleans
  pub scalar : Value → Option Number
  -- what a value is compared as: a number, or a boolean as 0 or 1; none is a TypeError
  pub comparable : Value → Option Number
  pub le : Number → Number → Bool
  pub lt : Number → Number → Bool
  pub equals : Value → Value → Bool
  -- the value of a number
  pub of_number : Number → Value
  -- `len`, none is a TypeError
  pub len : Value → Option Number
  -- the members of a list or a tuple
  pub sequence : Value → Option (List Value)
  -- the text of a str
  pub text_of : Value → Option String
  -- `re.compile` succeeds; `bool(re.match(pattern, text))`
  pub compiles : String → Bool
  pub matches : String → String → Bool
  -- the items of a dict
  pub items : Value → Option (Dict String Value)

pub data DslError : Type 0 where
  -- ConstraintException, raised or for a violation
  not_comparable not_searchable no_length not_text violation : DslError
  -- TypeError of `dict`, KeyError of `popitem` and of CONSTRAINTS
  not_a_dict key_error : DslError
  -- DSLParsingLogicException and DSLParsingException with their codes
  parsing_logic parsing : ℕ → DslError

abbrev pub error_invalid_constraint_argument : ℕ
error_invalid_constraint_argument = 212

abbrev pub error_input_with_funcs_and_constraints : ℕ
error_input_with_funcs_and_constraints = 213

-- The keys of CONSTRAINTS.
pub data Operator : Type 0 where
  equal greater_than greater_or_equal less_than less_or_equal : Operator
  in_range valid_values length min_length max_length pattern : Operator

-- `constraint_data_type`
pub data DataType : Type 0 where
  scalar_type dual_scalar_type sequence_type regex_type : DataType

unfoldable pub constraint_data_type : Operator → DataType
constraint_data_type in_range = dual_scalar_type
constraint_data_type valid_values = sequence_type
constraint_data_type pattern = regex_type
constraint_data_type _ = scalar_type

-- CONSTRAINTS, which `register_constraint` fills
unfoldable pub constraint_named : String → Option Operator
constraint_named name =
    if name == "equal"
    then some equal
    else if name == "greater_than"
    then some greater_than
    else if name == "greater_or_equal"
    then some greater_or_equal
    else if name == "less_than"
    then some less_than
    else if name == "less_or_equal"
    then some less_or_equal
    else if name == "in_range"
    then some in_range
    else if name == "valid_values"
    then some valid_values
    else if name == "length"
    then some length
    else if name == "min_length"
    then some min_length
    else if name == "max_length"
    then some max_length
    else if name == "pattern"
    then some pattern
    else none

-- `popitem` of a dict: the item that was put in last.
unfoldable pub last_item {ℓ} : {A : Type ℓ} → List A → Option A
last_item [] = none
last_item (x ∷ []) = some x
last_item (x ∷ y ∷ rest) = last_item (y ∷ rest)

module _ (python : Values) where
  open python use {
    Value, Number, scalar, comparable, le, lt, equals, of_number, len, sequence, text_of, compiles,
    matches, items,
  }

  -- A Constraint object: the class and `self.args`.
  pub record Constraint : Type 0 where
    pub operator : Operator
    pub args : Value

  unfoldable pub parse : Value → Result DslError Constraint
  unfolding constraint_named last_item
  parse definition = elim (items definition) [
    | none ↦ raise not_a_dict
    | some entries ↦ elim (last_item entries) [
      | none ↦ raise key_error
      | some (name, args) ↦ elim (constraint_named name) [
        | none ↦ raise key_error
        | some operator ↦ ok (record { operator = operator; args = args })
      ]
    ]
  ]

  -- `extract_constraints`, of what an input definition has under its key of constraints
  unfoldable pub extract_constraints : List Value → Result DslError (List Constraint)
  unfolding parse
  extract_constraints [] = ok []
  extract_constraints (definition ∷ rest) = do
    c ← parse definition
    cs ← extract_constraints rest
    ok (c ∷ cs)

  -- `_try_predicate_func` over a comparison of two values.
  unfoldable pub compare_values :
      (Number → Number → Bool) → Option Number → Option Number → DslError → Result DslError Bool
  compare_values test (some a) (some b) e = ok (test a b)
  compare_values test _ _ e = raise e

  -- The two members of a dual scalar; `args[0]` or `args[1]` of a shorter sequence is an error that
  -- `validate_args` rules out.
  unfoldable pub range_bounds : Value → Option (Value × Value)
  range_bounds args = elim (sequence args) [ some (lo ∷ hi ∷ rest) ↦ some (lo, hi) | _ ↦ none ]

  -- `lo <= value <= hi`
  unfoldable pub within : Value → Value → Value → Result DslError Bool
  unfolding compare_values
  within lo hi value = do
    above ← compare_values le (comparable lo) (comparable value) not_comparable
    if above then compare_values le (comparable value) (comparable hi) not_comparable else ok false

  unfoldable pub contains : Value → List Value → Bool
  contains value [] = false
  contains value (v ∷ vs) = equals v value || contains value vs

  -- `predicate`, by class
  unfoldable pub predicate : Constraint → Value → Result DslError Bool
  unfolding compare_values range_bounds within contains
  predicate c value = elim c.operator [
    | equal ↦ ok (equals value c.args)
    | greater_than ↦ compare_values lt (comparable c.args) (comparable value) not_comparable
    | greater_or_equal ↦ compare_values le (comparable c.args) (comparable value) not_comparable
    | less_than ↦ compare_values lt (comparable value) (comparable c.args) not_comparable
    | less_or_equal ↦ compare_values le (comparable value) (comparable c.args) not_comparable
    | in_range ↦ elim (range_bounds c.args) [
      | some (lo, hi) ↦ within lo hi value
      | none ↦ raise not_comparable
    ]
    | valid_values ↦ elim (sequence c.args) [
      | some vs ↦ ok (contains value vs)
      | none ↦ raise not_searchable
    ]
    | length ↦ elim (len value) [
      | some n ↦ ok (equals (of_number n) c.args)
      | none ↦ raise no_length
    ]
    | min_length ↦ compare_values le (comparable c.args) (len value) no_length
    | max_length ↦ compare_values le (len value) (comparable c.args) no_length
    | pattern ↦ elim (text_of value) [
      | none ↦ raise not_text
      | some text ↦ elim (text_of c.args) [
        | none ↦ raise not_text
        | some regex ↦ ok (matches regex text)
      ]
    ]
  ]

  -- is_valid_scalar, is_valid_sequence, is_valid_dual_scalar, is_valid_regex
  unfoldable pub is_valid_scalar : Value → Bool
  is_valid_scalar arg = not (is_none (scalar arg))

  unfoldable pub is_valid_sequence : Value → Bool
  is_valid_sequence args = not (is_none (sequence args))

  unfoldable pub is_valid_dual_scalar : Value → Bool
  unfolding is_valid_scalar
  is_valid_dual_scalar args = elim (sequence args) [
    | some (lo ∷ hi ∷ []) ↦ is_valid_scalar lo && is_valid_scalar hi
    | _ ↦ false
  ]

  unfoldable pub is_valid_regex : Value → Bool
  is_valid_regex arg = elim (text_of arg) [ none ↦ false | some text ↦ compiles text ]

  -- VALIDATION_FUNCTIONS
  unfoldable pub validation_function : DataType → Value → Bool
  unfolding is_valid_scalar is_valid_dual_scalar is_valid_sequence is_valid_regex
  validation_function scalar_type = is_valid_scalar
  validation_function dual_scalar_type = is_valid_dual_scalar
  validation_function sequence_type = is_valid_sequence
  validation_function regex_type = is_valid_regex

  -- `functions.is_function`, where `registered` are the keys of TEMPLATE_FUNCTIONS
  unfoldable pub is_function : (String → Bool) → Value → Bool
  is_function registered value = elim (items value) [
    | some ((name, args) ∷ []) ↦ registered name
    | _ ↦ false
  ]

  unfoldable pub validate_args : (String → Bool) → Operator → Value → Result DslError (Unit {0})
  unfolding is_function validation_function constraint_data_type
  validate_args registered operator args =
      if is_function registered args
        || not (validation_function (constraint_data_type operator) args)
      then raise (parsing_logic error_invalid_constraint_argument)
      else ok tt

  -- The loop of `validate_input_value`.
  unfoldable pub check_constraints : List Constraint → Value → Result DslError (Unit {0})
  check_constraints [] value = ok tt
  check_constraints (c ∷ cs) value = do
    satisfied ← predicate c value
    guard satisfied violation
    check_constraints cs value

  unfoldable pub validate_input_value :
      (String → Bool) → List Constraint → Value → Result DslError (Unit {0})
  unfolding is_function
  validate_input_value registered constraints value =
      if not (is_empty constraints) && is_function registered value
      then raise (parsing error_input_with_funcs_and_constraints)
      else check_constraints constraints value

  -- `validate_input_defaults` over the inputs of a plan: the default and the constraints of each.
  unfoldable pub validate_input_defaults :
      (String → Bool) → List (Option Value × List Constraint) → Result DslError (Unit {0})
  unfolding validate_input_value
  validate_input_defaults registered [] = ok tt
  validate_input_defaults registered ((none, constraints) ∷ inputs) =
      validate_input_defaults registered inputs
  validate_input_defaults registered ((some default, constraints) ∷ inputs) = do
    validate_input_value registered constraints default
    validate_input_defaults registered inputs
