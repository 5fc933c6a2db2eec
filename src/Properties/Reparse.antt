-- ===== src/Properties/Reparse.antt =====
-- A value that was parsed is parsed again to itself.
use cloudify_common.Properties.Loop.{
  merge_properties-cons, parse_value-cases, merge_properties-LeftOut, merge_properties-PutIn,
  merge_properties-IsDict, merge_properties-none,
}
use cloudify_common.Prelude.{
  ℕ, zero, suc, String, Bool, true, Option, none, some, [], ◌∷◌, ◌≡◌, inl, inr, refl, string_eq,
  Result, ok, Option-cases, Bool-cases, arith, eq_iff, subst,
}
use cloudify_common.Prelude.Dict.{Dict, get, update, has_key, IsDict, or_else, get-update}
use cloudify_common.Interfaces.Operation.{Schema}
use cloudify_common.Properties.{
  Python, PropertyError, check_defined, merge_properties, merge_flattened, with_derived,
  parse_value,
}

module _ (python : Python) (raise_on_missing : Bool) where
  open python use {Value}

  check_defined_of_keys :
      (given : Dict String Value) (schema : Schema Value)
      → ((key : String) → has_key key given ≡ true → has_key key schema ≡ true)
      → check_defined python given schema ≡ ok tt
  unfolding check_defined get
  check_defined_of_keys [] schema known = refl
  check_defined_of_keys ((k, v) ∷ given) schema known =
      let own : has_key k schema ≡ true = known k (ground (arith, eq_iff k k)) in
      let rest = check_defined_of_keys given schema (λ key m. known key (ground arith)) in
      rw own rest

  module _ (parse : Value → Option Value → Option String → Result PropertyError Value)
      (flattened merged : Dict String Value) where
    module _
        (again : (v : Value) (derived : Option Value) (type_name : Option String) (v' : Value)
          → parse v derived type_name ≡ ok v'
          → parse v' derived type_name ≡ ok v')
        (no_default : (key : String) → get key merged ≡ none → get key flattened ≡ none)
        (merged' : Dict String Value) where
      merge_properties-again :
          (schema : Schema Value) {d : Dict String Value}
          → IsDict schema
          → ((key : String)
              → has_key key schema ≡ true
              → get key merged' ≡ or_else (get key d) (get key flattened))
          → merge_properties python parse raise_on_missing flattened merged schema ≡ ok d
          → merge_properties python parse raise_on_missing flattened merged' schema ≡ ok d
      unfolding merge_properties get
      merge_properties-again [] distinct agree h = h
      merge_properties-again ((k, p) ∷ schema) {d} distinct agree h =
          elim (merge_properties-cons python raise_on_missing parse flattened merged k p schema d
            h) [
              | inl (missing, free, more) ↦
                  let gone : get k merged' ≡ none = ground (
                    arith,
                    agree k,
                    eq_iff k k,
                    no_default k,
                    merge_properties-none python raise_on_missing parse flattened merged schema more
                        k,
                  ) in
                  merge_properties-LeftOut python raise_on_missing parse flattened merged' k p
                    schema
                    (
                      gone,
                      free,
                      merge_properties-again schema distinct.1
                          (λ key m. agree key (ground (arith, eq_iff k key))) more,
                    )
              | inr (value, v', rest, present, parsed, more, same) ↦
                  let kept : get k merged' ≡ some v' = ground (arith, agree k, eq_iff k k, same) in
                  merge_properties-PutIn python raise_on_missing parse flattened merged' k p schema
                    (
                      v',
                      v',
                      rest,
                      kept,
                      again value (get k flattened) p.type_name v' parsed,
                      merge_properties-again schema distinct.1
                          (λ key m. ground (arith, agree key, eq_iff k key, same)) more,
                      same,
                    )
            ]

module _ (python : Python) (data_types : Dict String (Schema (python.Value)))
    (raise_on_missing : Bool) where
  open python use {Value, items, of_items, items-of_items, items-IsDict, is_function}

  -- A value that `parse_value` returned, with what was derived unchanged, is parsed to itself:
  -- nothing is filled in or refused the second time.
  pub parse_value-again :
      ((name : String) (schema : Schema Value) → get name data_types ≡ some schema → IsDict schema)
      → (n : ℕ) (value : Value) (derived : Option Value) (type_name : Option String) (v' : Value)
      → parse_value python data_types raise_on_missing n value derived type_name ≡ ok v'
      → parse_value python data_types raise_on_missing n v' derived type_name ≡ ok v'
  unfolding parse_value merge_flattened
  parse_value-again dicts zero value derived type_name v' h = cc
  parse_value-again dicts (suc n) value derived none v' h = refl
  parse_value-again dicts (suc n) value derived (some type_name) v' h =
      elim (parse_value-cases python data_types raise_on_missing n value derived type_name v' h) [
        | inl (function, same) ↦
            subst
              (λ (x : Value).
                parse_value python data_types raise_on_missing (suc n) x derived (some type_name)
                ≡ ok v')
              same h
        | inr (inl (p, known, accepted, same)) ↦
            subst
              (λ (x : Value).
                parse_value python data_types raise_on_missing (suc n) x derived (some type_name)
                ≡ ok v')
              same h
        | inr (inr (schema, given, d, defined, found, is_dict, checked, looped, same)) ↦
            let parse = parse_value python data_types raise_on_missing n in
            let defaults = with_derived python schema derived in
            let distinct = dicts type_name schema found in
            let merged = update defaults given in
            let no_default = λ (key : String) (m : get key merged ≡ none).
              let gone : get key defaults ≡ none =
                ground (arith, get-update key defaults given (items-IsDict value given is_dict)) in
              gone in
            let d-IsDict =
              merge_properties-IsDict python raise_on_missing parse defaults merged schema distinct
                looped in
            let looped_again =
              merge_properties-again python raise_on_missing parse defaults merged
                (parse_value-again dicts n) no_default (update defaults d) schema distinct
                (λ key m. get-update key defaults d d-IsDict) looped in
            let checked_again = check_defined_of_keys python raise_on_missing d schema (λ key m.
              elim (Option-cases (get key schema)) [
                | inl gone ↦ ground (
                  arith,
                  merge_properties-none python raise_on_missing parse defaults merged schema looped
                      key gone,
                )
                | inr (p, there) ↦ ground (arith, there)
              ]) in
            subst
              (λ (x : Value).
                parse_value python data_types raise_on_missing (suc n) x derived (some type_name)
                ≡ ok x)
              same
              (elim (Bool-cases (is_function (of_items d))) [
                | inl function ↦ rw (function, parse_value) refl
                | inr plain ↦
                    rw (plain, defined, found, items-of_items d d-IsDict, parse_value)
                      (rw checked_again (rw looped_again refl))
              ])
      ]
