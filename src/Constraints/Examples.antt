-- ===== src/Constraints/Examples.antt =====
-- The theorems on constraints, for the values that are numbers or pairs of numbers.
use cloudify_common.Prelude.{
  ℕ, ◌≡◌, ◌↔◌, refl, Bool, true, false, Option, none, some, List, [], ◌∷◌, ok, nat_beq, leb, ltb,
}
use cloudify_common.Constraints.{
  Values, in_range, less_than, Constraint, predicate, is_function, validate_args,
  validate_input_value,
}
use cloudify_common.Constraints.Validation.{
  IsCall, Satisfies, validate_input_value_iff, validated_predicate,
}

data Item : Type 0 where
  number : ℕ → Item
  pair : ℕ → ℕ → Item

abbrev number_of : Item → Option ℕ
number_of (number n) = some n
number_of (pair a b) = none

abbrev members : Item → Option (List Item)
members (number n) = none
members (pair a b) = some (number a ∷ number b ∷ [])

abbrev equal_items : Item → Item → Bool
equal_items (number m) (number n) = nat_beq m n
equal_items _ _ = false

abbrev python : Values
python = record {
  Value = Item;
  Number = ℕ;
  scalar = number_of;
  comparable = number_of;
  le = leb;
  lt = ltb;
  equals = equal_items;
  of_number = number;
  len = λ v. none;
  sequence = members;
  text_of = λ v. none;
  compiles = λ s. true;
  matches = λ s t. false;
  items = λ v. none;
}

abbrev small : Constraint python
small = record { operator = less_than; args = number 10 }

abbrev middle : Constraint python
middle = record { operator = in_range; args = pair 2 8 }

validate_input_value_iff_example :
    (validate_input_value python (λ s. false) (small ∷ middle ∷ []) (number 5) ≡ ok tt) ↔ (
      (false ≡ false → IsCall python (λ s. false) (number 5) → ⊥)
      × Satisfies python (small ∷ middle ∷ []) (number 5))
unfolding is_function
validate_input_value_iff_example =
    validate_input_value_iff python (λ s. false) (small ∷ middle ∷ []) (number 5)

validated_predicate_example : (b : Bool) × (predicate python middle (number 5) ≡ ok b)
unfolding is_function validate_args
validated_predicate_example =
    validated_predicate python (λ v n h. h) (λ s. false) in_range (pair 2 8) (number 5) refl
      (5, refl)
