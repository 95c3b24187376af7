-- ===== src/Transformation/Tests.antt =====
-- A mapping file with one channel, and a request for it.
use satpi.Base.{
  ℕ, ◌*◌, ◌≡◌, refl, Bool, true, false, ◌==◌, ltb, none, some, List, [], ◌∷◌, ℤ, pos, negsuc,
}
use satpi.Text.{codes, contains, stoi, value}
use satpi.Lnb.{vertical}
use satpi.Params.{InputSystem, get_parameter, get_msys_parameter}
use satpi.FrontendData.{Doubles, Pids, no_signal, get_double_parameter}
use satpi.FrontendData.Words.{qpsk, fec_3_4, rolloff_35, pilot_on, mode_8k, guard_1_4}
use satpi.Text.Search.{text_eq}
use satpi.M3u.{parse_m3u}
use satpi.Transformation.{
  Transformation, advertise_none, transform_stream_possible, get_transformation_system_for,
  transformed_params,
}
use satpi.Transformation.Params.{
  get_parameter-transformed_params, get_transformation_system_for-transformed,
}

abbrev doubles : Doubles ℕ
doubles = record {
  stof = λ s. elim (stoi s) [ value n ↦ some (n * 1000) | _ ↦ none ];
  minus_one = 1;
  same = λ a b. a == b;
  of_khz = λ n. n;
  to_khz = λ r. r;
  to_hz = λ r. r * 1000;
}

abbrev whole : List ℕ → ℤ
whole s = elim (stoi s) [ value n ↦ pos n | _ ↦ negsuc 0 ]

abbrev positive : ℕ → Bool
positive r = ltb 1 r

abbrev pid_list : Pids (List ℕ)
pid_list = record { clear = λ f. []; parse_pid_string = λ s add f. some s }

abbrev update : List ℕ → List ℕ
update f = f

abbrev uri : List ℕ
uri = codes "http://tv/?msys=dvbt&freq=500&pids=1"

abbrev mapping : List (List ℕ)
mapping = codes "#EXTM3U" ∷ codes "#EXTINF:-1 satip-freq=\"100\",One" ∷ uri ∷ []

parsed :
    parse_m3u doubles whole mapping
    ≡ some ((100000, record { uri = uri; src = negsuc 0 }) ∷ [], true)
unfolding parse_m3u contains stoi
parsed = refl

abbrev transformation : Transformation ℕ (List ℕ)
transformation = record {
  enabled = true;
  transform = false;
  file_parsed = true;
  advertise_as = advertise_none;
  own_input_system = InputSystem.dvbt;
  m3u = (100000, record { uri = uri; src = negsuc 0 }) ∷ [];
  transformed = record {
    changed = false;
    delsys = InputSystem.undefined;
    filter = [];
    monitor = no_signal;
    freq = 0;
    modtype = qpsk;
    srate = 0;
    fec = fec_3_4;
    rolloff = rolloff_35;
    inversion = none;
    pilot = pilot_on;
    src = 1;
    pol = vertical;
    pls_mode = 1;
    is_id = none;
    pls_code = 0;
    transmission = mode_8k;
    guard = guard_1_4;
    bandwidth_hz = 8000000;
    plp_id = none;
    t2_system_id = 0;
    siso_miso = 0;
  };
  transform_freq = 0;
  generate_psi_freq = 10111;
}

abbrev asked : List (List ℕ)
asked = codes "SETUP" ∷ codes "freq=100" ∷ codes "msys=dvbc" ∷ codes "pids=0,17" ∷ []

possible :
    transform_stream_possible doubles positive pid_list update asked transformation
    ≡ some (uri, 100000)
unfolding transform_stream_possible
possible = refl

asked_freq : get_double_parameter doubles (codes "freq") asked ≡ some 100000
unfolding get_double_parameter stoi
asked_freq = refl

get_parameter-transformed_params_example :
    get_parameter (codes "pids") (transformed_params doubles positive pid_list update uri asked)
    ≡ codes "0,17"
unfolding text_eq get_parameter
get_parameter-transformed_params_example =
    get_parameter-transformed_params doubles positive pid_list update (codes "pids") uri asked refl

get_transformation_system_for-transformed_example :
    get_transformation_system_for doubles positive pid_list update asked transformation
    ≡ some (get_msys_parameter (transformed_params doubles positive pid_list update uri asked))
get_transformation_system_for-transformed_example =
    get_transformation_system_for-transformed doubles positive pid_list update asked transformation
      100000 uri 100000 asked_freq refl possible refl

found_system :
    get_transformation_system_for doubles positive pid_list update asked transformation
    ≡ some InputSystem.dvbt
unfolding get_transformation_system_for get_msys_parameter
found_system = refl
