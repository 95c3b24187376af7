-- ===== src/Params/Dictionary.antt =====
-- The parameters of src/TransportParamVector.cpp and the header lines of src/HeaderVector.cpp as
-- dictionaries.
use satpi.Base.{
  ℕ, ◌+◌, ◌≡◌, inl, inr, refl, ap, ◌∙◌, arith, true, false, if◌then◌else◌, none, some, List, [],
  ◌∷◌, ◌++◌, map, length, drop, take, Bool-cases, Option-cases, All,
}
use mathlib.Core.List.{append_assoc}
use satpi.Text.{is_one_of, starts_with}
use satpi.Text.Search.{text_eq, text_eq_iff, trim_whitespace}
use satpi.Params.{entry_value, find_value, get_parameter, replace_parameter}
use satpi.Params.Lookup.{entry_value-entry, entry_value_here, entry_value_missing, starts_with_eq}

abbrev pub join : ℕ → List ℕ × List ℕ → List ℕ
join sep (key, value) = key ++ (sep ∷ value)

-- The value of the first pair with the name, and nothing where there is none.
abbrev pub value_of : List ℕ → List (List ℕ × List ℕ) → List ℕ
value_of name [] = []
value_of name ((key, value) ∷ pairs) =
    if text_eq name key then trim_whitespace value else value_of name pairs

abbrev pub HasNo : ℕ → List ℕ → Type 0
HasNo sep s = is_one_of s sep ≡ false

-- What is found under a name without the separator in entries "name, separator, value" is the value
-- of the first entry with just that name, without the white space round it, and nothing if there is
-- no such entry. So `getParameter` and `getFieldParameter` read their entries as a dictionary.
pub find_value-join :
    (sep : ℕ) (name : List ℕ) (pairs : List (List ℕ × List ℕ))
    → HasNo sep name
    → All (λ pair. HasNo sep pair.0) pairs
    → find_value sep name (map (join sep) pairs) ≡ value_of name pairs
unfolding find_value
find_value-join sep name [] n keys = refl
find_value-join sep name ((key, value) ∷ pairs) n keys =
    rw (entry_value-entry sep name key value n keys.0, find_value)
      (elim (Bool-cases (text_eq name key)) [
        | inl t ↦ rw t refl
        | inr f ↦ rw f (find_value-join sep name pairs n keys.1)
      ])

-- The entry that takes the place of one of the name.
replaced :
    (name value param : List ℕ)
    → starts_with (name ++ (61 ∷ [])) param ≡ true
    → take (length name + 1) param ++ value ≡ name ++ (61 ∷ value)
replaced [] value [] h = absurd (cc)
replaced [] value (d ∷ param) h = ground arith
replaced (c ∷ name) value [] h = absurd (cc)
replaced (c ∷ name) value (d ∷ param) h = ground (arith, replaced name value param)

module _ (asked name value : List ℕ) (a : HasNo 61 asked) (n : HasNo 61 name) where
  found_replaced :
      (param : List ℕ) (params : List (List ℕ))
      → starts_with (name ++ (61 ∷ [])) param ≡ true
      → find_value 61 asked ((take (length name + 1) param ++ value) ∷ params) ≡ (
          if text_eq asked name
          then trim_whitespace value
          else find_value 61 asked (param ∷ params))
  unfolding find_value
  found_replaced param params h =
      let rest = drop (length (name ++ (61 ∷ []))) param in
      let e : param ≡ name ++ (61 ∷ rest) =
        starts_with_eq (name ++ (61 ∷ [])) param h ∙ append_assoc name (61 ∷ []) rest in
      let old : entry_value 61 asked param ≡ (if text_eq asked name then some rest else none) =
        ap (entry_value 61 asked) e ∙ entry_value-entry 61 asked name rest a n in
      rw (replaced name value param h) (
        rw (entry_value-entry 61 asked name value a n, find_value)
          (elim (Bool-cases (text_eq asked name)) [
            | inl t ↦ rw t refl
            | inr f ↦
                let old' : entry_value 61 asked param ≡ none = rw f at old in
                rw f (rw (old', find_value) refl)
          ]))

  found_kept :
      (param : List ℕ) (params params' : List (List ℕ))
      → starts_with (name ++ (61 ∷ [])) param ≡ false
      → find_value 61 asked params'
        ≡ (if text_eq asked name then trim_whitespace value else find_value 61 asked params)
      → find_value 61 asked (param ∷ params') ≡ (
          if text_eq asked name
          then trim_whitespace value
          else find_value 61 asked (param ∷ params))
  unfolding find_value
  found_kept param params params' h ih = elim (Bool-cases (text_eq asked name)) [
    | inl t ↦
        let e : asked ≡ name = (text_eq_iff asked name).0 t in
        let none_here : entry_value 61 asked param ≡ none =
          rw e (entry_value_missing 61 name n param h) in
        rw (none_here, find_value) ih
    | inr f ↦ elim (Option-cases (entry_value 61 asked param)) [
      | inl o ↦ rw (o, find_value) ih
      | inr (v, o) ↦ rw (o, find_value, f) refl
    ]
  ]

-- After a parameter was replaced, its name gives the new value, without the white space round it,
-- and every other name the value it gave before, whatever the parameters were. The names have no
-- '=' in them.
pub get_parameter-replace :
    (asked name value : List ℕ) (params : List (List ℕ))
    → HasNo 61 asked
    → HasNo 61 name
    → get_parameter asked (replace_parameter name value params)
      ≡ (if text_eq asked name then trim_whitespace value else get_parameter asked params)
unfolding get_parameter replace_parameter
get_parameter-replace asked name value [] a n =
    rw (entry_value-entry 61 asked name value a n, find_value) (ground arith)
get_parameter-replace asked name value (param ∷ params) a n =
    elim (Bool-cases (starts_with (name ++ (61 ∷ [])) param)) [
      | inl h ↦
          rw (entry_value_here 61 name n param h, replace_parameter)
            (found_replaced asked name value a n param params h)
      | inr h ↦
          rw (entry_value_missing 61 name n param h, replace_parameter)
            (found_kept asked name value a n param params (replace_parameter name value params) h
              (get_parameter-replace asked name value params a n))
    ]
