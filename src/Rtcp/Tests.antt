-- ===== src/Rtcp/Tests.antt =====
-- Instances of the theorems on the RTCP report.
use satpi.Base.{ℕ, ◌≡◌, arith, some, List, [], ◌∷◌, ◌++◌}
use satpi.Rtcp.{get_sr, get_sdes, get_app}
use satpi.Rtcp.Walk.{walk, walk-report}

-- "ver=1".
abbrev text : List ℕ
text = 118 ∷ 101 ∷ 114 ∷ 61 ∷ 49 ∷ []

walk-report_example :
    walk 4 (get_sr 90000 7 100 18800 1700000000 ++ (get_sdes 7 ++ (get_app (λ _. 0) 7 text ++ [])))
    ≡ some (get_sr 90000 7 100 18800 1700000000 ∷ get_sdes 7 ∷ get_app (λ _. 0) 7 text ∷ [])
walk-report_example = walk-report (λ _. 0) 90000 7 100 18800 1700000000 text (omega arith)
