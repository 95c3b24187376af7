-- ===== src/Transformation.antt =====
-- src/input/Transformation.{h,cpp}: requests that are turned into others by a mapping file. What is
-- used of floating point is a parameter, here also whether a number is above 0; so is the update of
-- the PID filters of the copy that describes the request. `none` is an exception.
pub mod Params
mod Tests
use satpi.Base.{
  ℕ, zero, suc, ◌+◌, ◌*◌, Bool, true, false, not, ◌&&◌, ◌||◌, if◌then◌else◌, ◌==◌, Option, none,
  some, List, [], ◌∷◌, length, take, drop, ◌>>=◌, ℤ, pos, negsuc,
}
use satpi.Text.{codes, is_one_of, contains, find_index, split, starts_with}
use satpi.Text.Search.{not_empty}
use satpi.Params.{
  InputSystem, get_parameter, replace_parameter, get_int_parameter, get_msys_parameter,
}
use satpi.FrontendData
use satpi.M3u.{Element, find_element, element_or_none}
use satpi.FrontendData.{
  FrontendData, Doubles, Pids, get_double_parameter, do_parse_stream_string, no_signal, initialize,
  Monitor,
}
use satpi.Stream.Request.{int}

pub data AdvertiseAs : Type 0 where
  advertise_none advertise_dvb_s2 advertise_dvb_c advertise_dvb_t : AdvertiseAs

abbrev pub is_s2 : AdvertiseAs → Bool
is_s2 advertise_dvb_s2 = true
is_s2 _ = false

abbrev pub is_c : AdvertiseAs → Bool
is_c advertise_dvb_c = true
is_c _ = false

pub record Transformation (R F : Type 0) : Type 0 where
  pub enabled : Bool
  pub transform : Bool
  pub file_parsed : Bool
  pub advertise_as : AdvertiseAs
  pub own_input_system : InputSystem
  pub m3u : List (R × Element)
  pub transformed : FrontendData F
  pub transform_freq : ℕ
  pub generate_psi_freq : ℕ

-- `-1` fits each source.
abbrev pub fits : ℤ → ℤ → Bool
fits (negsuc zero) src = true
fits (pos n) (pos m) = n == m
fits _ _ = false

module _ {R F : Type 0} (dbl : Doubles R) (positive : R → Bool) (pids : Pids F)
    (update : F → F) where
  abbrev pub is_enabled : Transformation R F → Bool
  is_enabled t = t.enabled && t.file_parsed

  abbrev pub advertise_as_dvbs2 : Transformation R F → Bool
  advertise_as_dvbs2 t = t.enabled && is_s2 t.advertise_as

  abbrev pub advertise_as_dvbc : Transformation R F → Bool
  advertise_as_dvbc t = t.enabled && is_c t.advertise_as

  unfoldable pub reset_transform_flag : Transformation R F → Transformation R F
  unfolding initialize
  reset_transform_flag t = record t {
    transformed = initialize pids t.transformed;
    transform = false;
    transform_freq = 0;
  }

  abbrev pub is_psi : R → Transformation R F → Bool
  is_psi freq t = dbl.same freq (dbl.of_khz (t.generate_psi_freq * 1000))

  abbrev pub element_for : R → Transformation R F → Element
  element_for freq t = element_or_none (find_element dbl freq t.m3u)

  unfoldable pub get_transformation_system_for :
      List (List ℕ) → Transformation R F → Option InputSystem
  unfolding get_double_parameter get_int_parameter find_element split
  get_transformation_system_for params t =
      if is_enabled t
      then (do
        freq ← get_double_parameter dbl (codes "freq") params
        src ←
            if positive freq && not (is_psi freq t)
            then int (get_int_parameter (codes "src") params)
            else some (pos 0)
        let e = element_for freq t
        some (
            if not (positive freq)
            then InputSystem.undefined
            else if is_psi freq t
            then t.own_input_system
            else if fits e.src src
            then get_msys_parameter (split e.uri (codes " /?&"))
            else InputSystem.undefined))
      else some InputSystem.undefined

  -- The URI, which is empty where there is none, and the frequency in kHz that it is for.
  unfoldable pub transform_stream_possible :
      List (List ℕ) → Transformation R F → Option (List ℕ × ℕ)
  unfolding get_double_parameter get_int_parameter find_element
  transform_stream_possible params t =
      if is_enabled t
      then (do
        freq ← get_double_parameter dbl (codes "freq") params
        src ←
            if positive freq && not (is_psi freq t)
            then int (get_int_parameter (codes "src") params)
            else some (pos 0)
        let e = element_for freq t
        some (
            if not (positive freq)
            then ([], t.transform_freq)
            else if is_psi freq t
            then (codes "genPSI=yes", t.transform_freq)
            else if not_empty e.uri && fits e.src src
            then (e.uri, dbl.to_khz freq)
            else ([], t.transform_freq)))
      else some ([], t.transform_freq)

  -- A parameter of the request takes the place of that of the URI.
  unfoldable pub take_over : List ℕ → List (List ℕ) → List (List ℕ) → List (List ℕ)
  unfolding get_parameter replace_parameter
  take_over name params uri_params =
      let list = get_parameter name params in
      if not_empty list then replace_parameter name list uri_params else uri_params

  unfoldable pub transformed_params : List ℕ → List (List ℕ) → List (List ℕ)
  unfolding take_over split
  transformed_params uri params = take_over (codes "delpids") params (
      take_over (codes "addpids") params
        (take_over (codes "pids") params (split uri (codes " /?&"))))

  unfoldable pub transform_with :
      List ℕ → ℕ → List (List ℕ) → Transformation R F → Option (List (List ℕ) × Transformation R F)
  unfolding transformed_params do_parse_stream_string
  transform_with uri freq params t =
      if not_empty uri
      then (do
        d ← do_parse_stream_string dbl pids params t.transformed
        some (
          transformed_params uri params,
          record t {
            transform_freq = freq;
            transform = true;
            transformed = record d { filter = update d.filter };
          },
        ))
      else some (params, t)

  unfoldable pub transform_stream_string :
      List (List ℕ) → Transformation R F → Option (List (List ℕ) × Transformation R F)
  unfolding transform_stream_possible transform_with
  transform_stream_string params t = do
    found ← transform_stream_possible params t
    transform_with found.0 found.1 params t

  -- Some signal is simulated where there is none.
  abbrev pub with_monitor : Monitor → Transformation R F → Transformation R F
  with_monitor m t =
      let simulated = t.transform && (m.strength == 0 && m.snr == 0) in
      record t {
        transformed = record t.transformed {
          monitor = record m {
            strength = if simulated then 240 else m.strength;
            snr = if simulated then 15 else m.snr;
          };
        };
      }

  unfoldable pub transform_device_data :
      FrontendData F → Transformation R F → FrontendData F × Transformation R F
  transform_device_data device t =
      let t' = if is_enabled t then with_monitor device.monitor t else t in
      (if t.transform && is_enabled t then t'.transformed else device, t')
