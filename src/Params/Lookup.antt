-- ===== src/Params/Lookup.antt =====
-- How src/TransportParamVector.cpp and src/HeaderVector.cpp tell whether an entry carries a name: by
-- where the name is found in it, and by the first character behind that the name does not have.
use satpi.Base.{
  ℕ, zero, suc, ◌+◌, ◌<◌, ◌≤◌, ◌≡◌, inl, inr, refl, ◌∙◌, arith, Bool, true, false, not, ◌&&◌,
  if◌then◌else◌, ◌==◌, Option, none, some, List, [], ◌∷◌, ◌++◌, length, drop, get_or, Bool-cases,
  Option-cases, All, ==_refl,
}
use native.Mathlib.Nat.{zero-add}
use satpi.Text.{starts_with, is_one_of, find_index, find_first_not_of}
use mathlib.Core.List.{append_assoc}
use satpi.Text.Search.{find_sub, text_eq, text_eq_iff}
use satpi.Params.{entry_value}

starts_with-append : (part s : List ℕ) → starts_with part (part ++ s) ≡ true
starts_with-append [] s = refl
starts_with-append (c ∷ part) s = rw (==_refl c) (starts_with-append part s)

pub starts_with_eq :
    (part s : List ℕ) → starts_with part s ≡ true → s ≡ part ++ drop (length part) s
starts_with_eq [] s h = refl
starts_with_eq (c ∷ part) [] h = absurd (cc)
starts_with_eq (c ∷ part) (d ∷ s) h = ground (arith, starts_with_eq part s)

find_sub_starts :
    (part s : List ℕ) (i : ℕ) → find_sub part s ≡ some i → starts_with part (drop i s) ≡ true
unfolding find_sub
find_sub_starts part [] zero h = ground arith
find_sub_starts part [] (suc i) h = ground arith
find_sub_starts part (c ∷ s) zero h = ground (arith)
find_sub_starts part (c ∷ s) (suc i) h = ground (arith, find_sub_starts part s i)

find_sub_zero : (part s : List ℕ) → starts_with part s ≡ true → find_sub part s ≡ some 0
unfolding find_sub
find_sub_zero part [] h = rw h
find_sub_zero part (c ∷ s) h = rw h

-- Characters that a text begins with and that fail the test are passed.
find_index_behind :
    (p : ℕ → Bool) (part s : List ℕ) (i : ℕ)
    → All (λ c. p c ≡ false) part
    → starts_with part s ≡ true
    → find_index p s ≡ some i
    → (length part ≤ i) × (i < length s)
unfolding find_index
find_index_behind p part [] i a h e = absurd (cc)
find_index_behind p [] (d ∷ s) zero a h e = omega arith
find_index_behind p [] (d ∷ s) (suc i) a h e = ground (arith, find_index_behind p [] s i tt refl)
find_index_behind p (c ∷ part) (d ∷ s) zero a h e = ground arith
find_index_behind p (c ∷ part) (d ∷ s) (suc i) a h e =
    ground (arith, find_index_behind p part s i a.1)

find_index-append :
    (p : ℕ → Bool) (part : List ℕ) (c : ℕ) (s : List ℕ)
    → All (λ d. p d ≡ false) part
    → p c ≡ true
    → find_index p (part ++ (c ∷ s)) ≡ some (length part)
unfolding find_index
find_index-append p [] c s a h = rw h
find_index-append p (d ∷ part) c s a h = ground (arith, find_index-append p part c s a.1 h)

members :
    (set part : List ℕ)
    → ((c : ℕ) → is_one_of part c ≡ true → is_one_of set c ≡ true)
    → All (λ c. not (is_one_of set c) ≡ false) part
members set [] h = tt
members set (c ∷ part) h =
    (rw (h c (rw (==_refl c) refl)) refl, members set part (λ d m. h d (ground arith)))

-- The name and a separator at the begin decide, and the value stands behind.
abbrev value_behind : ℕ → List ℕ → List ℕ → Option (List ℕ)
value_behind sep name entry =
    if starts_with (name ++ (sep ∷ [])) entry then some (drop (length name + 1) entry) else none

starts_with_sep :
    (sep : ℕ) (name s : List ℕ)
    → starts_with name s ≡ true
    → length name < length s
    → (get_or s (length name) 0 == sep) ≡ true
    → starts_with (name ++ (sep ∷ [])) s ≡ true
starts_with_sep sep [] [] h l e = absurd (omega arith)
starts_with_sep sep [] (d ∷ s) h l e = ground arith
starts_with_sep sep (c ∷ name) [] h l e = absurd (omega arith)
starts_with_sep sep (c ∷ name) (d ∷ s) h l e = ground (arith, starts_with_sep sep name s)

starts_with_front :
    (sep : ℕ) (name s : List ℕ)
    → starts_with (name ++ (sep ∷ [])) s ≡ true
    → starts_with name s ≡ true
starts_with_front sep [] s h = refl
starts_with_front sep (c ∷ name) [] h = h
starts_with_front sep (c ∷ name) (d ∷ s) h = ground (arith, starts_with_front sep name s)

get_or-append : (s : List ℕ) (c : ℕ) (t : List ℕ) → get_or (s ++ (c ∷ t)) (length s) 0 ≡ c
get_or-append [] c t = refl
get_or-append (d ∷ s) c t = get_or-append s c t

module _ (sep : ℕ) (name : List ℕ) (other : is_one_of name sep ≡ false) where
  entry_value-some :
      (v : List ℕ)
      → entry_value sep name (name ++ (sep ∷ v)) ≡ some (drop (length name + 1) (name ++ (sep ∷ v)))
  unfolding entry_value find_first_not_of
  entry_value-some v =
      rw (find_sub_zero name (name ++ (sep ∷ v)) (starts_with-append name (sep ∷ v)), entry_value)
        (rw
          (
            find_index-append (λ c. not (is_one_of name c)) name sep v
                (members name name (λ c m. m)) (rw other refl),
            entry_value,
          )
          (rw (zero-add (length name), get_or-append name sep v) (ground arith)))

  entry_value-none :
      (entry : List ℕ)
      → starts_with (name ++ (sep ∷ [])) entry ≡ false
      → (b : ℕ) → find_sub name entry ≡ some b
      → (i : ℕ) → find_index (λ c. not (is_one_of name c)) (drop b entry) ≡ some i
      → (length name == b + i && get_or entry (b + i) 0 == sep) ≡ false
  entry_value-none entry h b found i at =
      let (l, m) =
        find_index_behind (λ c. not (is_one_of name c)) name (drop b entry) i
          (members name name (λ c m. m)) (find_sub_starts name entry b found) at in
      elim (Bool-cases (length name == b + i && get_or entry (b + i) 0 == sep)) [
        | inl t ↦
            let z : b ≡ 0 = ground arith in
            let e : i ≡ length name = ground arith in
            let w : starts_with name entry ≡ true = rw z at (find_sub_starts name entry b found) in
            let n : length name < length entry = rw (z, e) at m in
            let g : (get_or entry (length name) 0 == sep) ≡ true = ground arith in
            absurd (cc (starts_with_sep sep name entry w n g))
        | inr f ↦ f
      ]

  at_name :
      (entry v : List ℕ)
      → entry ≡ name ++ (sep ∷ v)
      → entry_value sep name entry ≡ some (drop (length name + 1) entry)
  at_name entry v e = rw e (entry_value-some v)

  entry_value_lem : (entry : List ℕ) → entry_value sep name entry ≡ value_behind sep name entry
  unfolding entry_value find_first_not_of
  entry_value_lem entry = elim (Bool-cases (starts_with (name ++ (sep ∷ [])) entry)) [
    | inl h ↦ rw h (
        at_name entry _
          (starts_with_eq (name ++ (sep ∷ [])) entry h ∙ append_assoc name (sep ∷ []) _))
    | inr h ↦ elim (Option-cases (find_sub name entry)) [
      | inl e ↦ rw (h, e, entry_value) refl
      | inr (b, e) ↦ elim (Option-cases (find_index (λ c. not (is_one_of name c)) (drop b entry))) [
        | inl f ↦ rw (h, e, entry_value) (rw (f, entry_value) refl)
        | inr (i, f) ↦
            rw (h, e, entry_value)
              (rw (f, entry_value) (rw (entry_value-none entry h b e i f) refl))
      ]
    ]
  ]

  pub entry_value_here :
      (entry : List ℕ)
      → starts_with (name ++ (sep ∷ [])) entry ≡ true
      → entry_value sep name entry ≡ some (drop (length name + 1) entry)
  entry_value_here entry h = rw (entry_value_lem entry, h) refl

  pub entry_value_missing :
      (entry : List ℕ)
      → starts_with (name ++ (sep ∷ [])) entry ≡ false
      → entry_value sep name entry ≡ none
  entry_value_missing entry h = rw (entry_value_lem entry, h) refl

drop-append : (s : List ℕ) (c : ℕ) (t : List ℕ) → drop (length s + 1) (s ++ (c ∷ t)) ≡ t
drop-append [] c t = refl
drop-append (d ∷ s) c t = ground (arith, drop-append s c t)

same_name :
    (sep : ℕ) (name key v : List ℕ)
    → is_one_of name sep ≡ false
    → is_one_of key sep ≡ false
    → starts_with (name ++ (sep ∷ [])) (key ++ (sep ∷ v)) ≡ true
    → name ≡ key
same_name sep [] [] v n k h = refl
same_name sep [] (d ∷ key) v n k h = ground arith
same_name sep (c ∷ name) [] v n k h = ground arith
same_name sep (c ∷ name) (d ∷ key) v n k h = ground (arith, same_name sep name key v)

-- An entry has a value under its own name alone.
pub entry_value-entry :
    (sep : ℕ) (name key v : List ℕ)
    → is_one_of name sep ≡ false
    → is_one_of key sep ≡ false
    → entry_value sep name (key ++ (sep ∷ v)) ≡ (if text_eq name key then some v else none)
entry_value-entry sep name key v n k = elim (Bool-cases (text_eq name key)) [
  | inl t ↦
      let e = (text_eq_iff name key).0 t in
      rw (t, e) (rw (entry_value-some sep key k v, drop-append key sep v) refl)
  | inr f ↦
      rw (f, entry_value_lem sep name n (key ++ (sep ∷ v)))
        (elim (Bool-cases (starts_with (name ++ (sep ∷ [])) (key ++ (sep ∷ v)))) [
          | inl h ↦ absurd (cc ((text_eq_iff name key).1 (same_name sep name key v n k h)))
          | inr h ↦ rw h refl
        ])
]
