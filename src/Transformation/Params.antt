-- ===== src/Transformation/Params.antt =====
-- What a request is turned into by `transformStreamString` of src/input/Transformation.cpp.
use satpi.Base.{
  ℕ, ◌≡◌, refl, sym, ap, arith, inl, inr, Bool, true, false, ◌&&◌, if◌then◌else◌, Option, some,
  List, [], Bool-cases, Option-cases, some_injective, none_ne_some,
}
use satpi.Text.{codes, split}
use satpi.Text.Search.{text_eq, not_empty, trim_whitespace}
use satpi.Params.{get_parameter, get_msys_parameter, get_int_parameter, msys_of}
use satpi.Params.Dictionary.{HasNo, get_parameter-replace}
use satpi.FrontendData.{Doubles, Pids, get_double_parameter}
use satpi.Transformation.{
  Transformation, take_over, transformed_params, transform_stream_possible,
  get_transformation_system_for, is_psi, is_enabled, element_for, fits,
}
use satpi.Stream.Request.{int}

-- A URI that is empty is not the one that is found.
filled_not_empty :
    {A : Type 0} (none_ : List ℕ) (freq : ℕ) (uri : List ℕ) (khz : ℕ)
    → not_empty uri ≡ true
    → not_empty none_ ≡ false
    → ◌≡◌ {A = Option (List ℕ × ℕ)} (some (none_, freq)) (some (uri, khz))
    → A
filled_not_empty none_ freq uri khz full empty e =
    let same : none_ ≡ uri = ap (λ (r : List ℕ × ℕ). r.0) (some_injective _ _ e) in absurd (cc)

module _ {R F : Type 0} (dbl : Doubles R) (positive : R → Bool) (pids : Pids F)
    (update : F → F) where
  -- The value of a name, where the request may take over one of another name.
  take_over_lem :
      (asked name : List ℕ) (params uri_params : List (List ℕ))
      → HasNo 61 asked
      → HasNo 61 name
      → get_parameter asked (take_over dbl positive pids update name params uri_params) ≡ (
          if text_eq asked name && not_empty (get_parameter name params)
          then trim_whitespace (get_parameter name params)
          else get_parameter asked uri_params)
  unfolding take_over
  take_over_lem asked name params uri_params a n =
      elim (Bool-cases (not_empty (get_parameter name params))) [
        | inl e ↦
            rw (e, get_parameter-replace asked name (get_parameter name params) uri_params a n)
              (ground arith)
        | inr e ↦ rw e (ground arith)
      ]

  -- What the request says of a name itself, before what the URI says.
  abbrev pub or_uri : Bool → List ℕ → List ℕ → List ℕ
  or_uri mine value other = if mine && not_empty value then trim_whitespace value else other

  -- In a request that was transformed a name has the value that the request gave it, if it is one of
  -- the three lists of PIDs and the request has such a list, without the white space round it. All
  -- other names have the value of the URI. The name has no '=' in it.
  pub get_parameter-transformed_params :
      (asked uri : List ℕ) (params : List (List ℕ))
      → HasNo 61 asked
      → get_parameter asked (transformed_params dbl positive pids update uri params)
        ≡ or_uri (text_eq asked (codes "delpids")) (get_parameter (codes "delpids") params) (
            or_uri (text_eq asked (codes "addpids")) (get_parameter (codes "addpids") params) (
              or_uri
                (text_eq asked (codes "pids"))
                (get_parameter (codes "pids") params)
                (get_parameter asked (split uri (codes " /?&")))))
  unfolding transformed_params
  get_parameter-transformed_params asked uri params a =
      rw
        (
          take_over_lem asked (codes "delpids") params _ a refl,
          take_over_lem asked (codes "addpids") params _ a refl,
          take_over_lem asked (codes "pids") params _ a refl,
        )
        refl

  transformed_msys :
      (uri : List ℕ) (params : List (List ℕ))
      → get_msys_parameter (transformed_params dbl positive pids update uri params)
        ≡ get_msys_parameter (split uri (codes " /?&"))
  unfolding text_eq get_msys_parameter get_parameter
  transformed_msys uri params =
      ap msys_of (get_parameter-transformed_params (codes "msys") uri params refl)

  -- A request that is turned into a URI asks then for the delivery system that was told for it before,
  -- by `getTransformationSystemFor`; the frequency is not that of the generated tables.
  pub get_transformation_system_for-transformed :
      (params : List (List ℕ)) (t : Transformation R F) (freq : R) (uri : List ℕ) (khz : ℕ)
      → get_double_parameter dbl (codes "freq") params ≡ some freq
      → is_psi dbl positive pids update freq t ≡ false
      → transform_stream_possible dbl positive pids update params t ≡ some (uri, khz)
      → not_empty uri ≡ true
      → get_transformation_system_for dbl positive pids update params t
        ≡ some (get_msys_parameter (transformed_params dbl positive pids update uri params))
  unfolding transform_stream_possible get_transformation_system_for
  get_transformation_system_for-transformed params t freq uri khz f psi run full =
      elim (Bool-cases (is_enabled dbl positive pids update t)) [
        | inr off ↦ absurd (cc)
        | inl on ↦ elim (Bool-cases (positive freq)) [
          | inr low ↦
              filled_not_empty [] t.transform_freq uri khz full refl (rw (on, f, low) at run)
          | inl high ↦ elim (Option-cases (int (get_int_parameter (codes "src") params))) [
            | inl e ↦ absurd (none_ne_some (uri, khz) (rw (on, f, high, psi, e) at run))
            | inr (src, e) ↦
                let el = element_for dbl positive pids update freq t in
                elim (Bool-cases (not_empty el.uri && fits el.src src)) [
                  | inr misfit ↦
                      filled_not_empty [] t.transform_freq uri khz full refl
                        (rw (on, f, high, psi, e, misfit) at run)
                  | inl fit ↦
                      let same : el.uri ≡ uri =
                        ap (λ (r : List ℕ × ℕ). r.0)
                          (some_injective _ _ (rw (on, f, high, psi, e, fit) at run)) in
                      let fits_ : fits el.src src ≡ true = ground arith in
                      rw (on, f, high, psi, e, fits_, transformed_msys uri params, sym same) refl
                ]
          ]
        ]
      ]
