-- ===== src/Params/Tests.antt =====
-- Runs of the lookups on parameters and headers.
use satpi.Base.{◌≡◌, refl, [], ◌∷◌}
use satpi.Text.{codes}
use satpi.Params.{get_parameter, replace_parameter, get_string_field_parameter}
use satpi.Text.Search.{text_eq}
use satpi.Params.Dictionary.{get_parameter-replace}

two : get_parameter (codes "pids") (codes "src=1" ∷ codes "pids= 0,17 " ∷ []) ≡ codes "0,17"
unfolding get_parameter
two = refl

port :
    get_string_field_parameter
      (codes "Transport")
      (codes "client_port")
      (codes "CSeq: 2" ∷ codes "Transport: RTP/AVP;unicast;client_port=52000-52001" ∷ [])
    ≡ codes "52000-52001"
unfolding get_string_field_parameter
port = refl

get_parameter-replace_example :
    get_parameter
      (codes "pids")
      (replace_parameter (codes "freq") (codes "170") (codes "pids=0,17" ∷ codes "freq=1" ∷ []))
    ≡ codes "0,17"
unfolding text_eq get_parameter
get_parameter-replace_example =
    get_parameter-replace (codes "pids") (codes "freq") (codes "170")
      (codes "pids=0,17" ∷ codes "freq=1" ∷ []) refl refl
