-- ===== src/Pcr/Tests.antt =====
-- Instances of the theorems on the pace.
use satpi.Base.{ℕ, ◌≡◌, refl, arith, Ptr, [], ◌∷◌, c_str}
use satpi.Pcr.{new_pcr, collect_data, get_pcr_delta, pcr_word, is_pcr_table_data}
use satpi.Pcr.Delta.{delta_between}

-- A packet with an adaptation field whose clock begins with these four bytes.
abbrev clock : ℕ → ℕ → ℕ → ℕ → Ptr
clock a b c d = c_str (0x47 ∷ 0 ∷ 100 ∷ 0x20 ∷ 7 ∷ 0x10 ∷ a ∷ b ∷ c ∷ d ∷ [])

delta_between_example :
    get_pcr_delta (collect_data (clock 0 0 3 0) (collect_data (clock 0 0 1 0) new_pcr)) ≡ 11264
unfolding pcr_word is_pcr_table_data
delta_between_example =
    delta_between (clock 0 0 1 0) (clock 0 0 3 0) new_pcr refl refl (omega arith) (omega arith)
