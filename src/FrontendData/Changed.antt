-- ===== src/FrontendData/Changed.antt =====
-- Which requests make a frontend of src/input/dvb/FrontendData.cpp tune again.
use satpi.Base.{
  ℕ, ◌≡◌, refl, sym, ap, ◌∙◌, arith, inl, inr, Bool, true, false, not, ◌&&◌, ◌||◌, if◌then◌else◌,
  ◌==◌, Option, none, some, List, Option-cases, Results, stops, gives, Results-bind, Results-read,
  Results-some,
}
use satpi.Text.{codes, Stoi, value, negative, invalid_argument, out_of_range}
use satpi.Params.{get_int_parameter}
use satpi.FrontendData.{
  FrontendData, Doubles, Pids, get_double_parameter, given, is_given, or_keep, parse_freq,
  parse_streams, parse_settings, parse_and_update_pids_table, do_parse_stream_string, symbol_rate,
  parse_pids, int, word,
}

-- A frequency is asked for, and it is another one.
abbrev pub is_other : {R : Type 0} → Doubles R → ℕ → R → Bool
is_other dbl freq req = not (dbl.same req dbl.minus_one) && not (dbl.same req (dbl.of_khz freq))

abbrev pub asked : {R : Type 0} → Doubles R → ℕ → Option R → Bool
asked dbl freq none = false
asked dbl freq (some req) = is_other dbl freq req

abbrev pub khz_of : {R : Type 0} → Doubles R → ℕ → Option R → ℕ
khz_of dbl freq none = freq
khz_of dbl freq (some req) = if is_other dbl freq req then dbl.to_khz req else freq

abbrev pub Marks : {F : Type 0} → Bool → ℕ → FrontendData F → Type 0
Marks changed freq d = (d.changed ≡ changed) × (d.freq ≡ freq)

abbrev pub is_number : Stoi → Bool
is_number (value n) = true
is_number _ = false

abbrev pub is_nonzero : Stoi → Bool
is_nonzero (value n) = not (n == 0)
is_nonzero _ = false

given_number : (s : Stoi) → Results (λ (o : Option ℕ). is_given o ≡ is_number s) (given s)
given_number (value n) = gives refl
given_number (negative n) = gives refl
given_number invalid_argument = stops
given_number out_of_range = stops

given_nonzero :
    (s : Stoi) → Results (λ (o : Option ℕ). not (or_keep o 0 == 0) ≡ is_nonzero s) (given s)
given_nonzero (value n) = gives refl
given_nonzero (negative n) = gives refl
given_nonzero invalid_argument = stops
given_nonzero out_of_range = stops

module _ {F R : Type 0} (dbl : Doubles R) (pids : Pids F) (params : List (List ℕ)) where
  abbrev pub is_new_freq : FrontendData F → Bool
  is_new_freq d = asked dbl d.freq (get_double_parameter dbl (codes "freq") params)

  abbrev pub freq_after : FrontendData F → ℕ
  freq_after d = khz_of dbl d.freq (get_double_parameter dbl (codes "freq") params)

  abbrev pub names_stream : Bool
  names_stream =
      is_number (get_int_parameter (codes "isi") params)
      || is_nonzero (get_int_parameter (codes "plsc") params)
      || is_number (get_int_parameter (codes "plp") params)

  parse_freq-Marks :
      (d : FrontendData F)
      → Results (Marks (is_new_freq d || d.changed) (freq_after d)) (parse_freq dbl pids params d)
  unfolding parse_freq
  parse_freq-Marks d = elim (Option-cases (get_double_parameter dbl (codes "freq") params)) [
    | inl e ↦ rw e stops
    | inr (req, e) ↦ rw e (gives (ground arith, ground arith))
  ]

  parse_streams-Marks :
      (d : FrontendData F)
      → Results (Marks (d.changed || names_stream) d.freq) (parse_streams dbl pids params d)
  unfolding parse_streams
  parse_streams-Marks d =
      Results-bind (given_number (get_int_parameter (codes "isi") params)) (λ is_id a.
        Results-bind (given_nonzero (get_int_parameter (codes "plsc") params)) (λ code b.
          Results-bind (given_number (get_int_parameter (codes "plp") params)) (λ plp c.
            Results-read (int dbl pids params (codes "plsm"))
              (λ mode. gives (rw (a, b, c) (ground arith), refl)))))

  parse_settings-Marks :
      (d : FrontendData F) → Results (Marks d.changed d.freq) (parse_settings dbl pids params d)
  unfolding parse_settings
  parse_settings-Marks d = Results-read (int dbl pids params (codes "sr")) (λ sr.
      Results-read (symbol_rate dbl pids params sr d.srate) (λ srate.
        Results-read (int dbl pids params (codes "src")) (λ src.
          Results-read (int dbl pids params (codes "specinv")) (λ specinv.
            Results-read (get_double_parameter dbl (codes "bw") params) (λ bw.
              Results-read (int dbl pids params (codes "t2id")) (λ t2id.
                Results-read (int dbl pids params (codes "sm")) (λ sm. gives (refl, refl))))))))

  parse_pids-Marks :
      (d : FrontendData F)
      → Results (Marks d.changed d.freq) (parse_and_update_pids_table dbl pids params d)
  unfolding parse_and_update_pids_table
  parse_pids-Marks d =
      Results-read (parse_pids dbl pids params (word dbl pids params (codes "pids")) true d.filter)
        (λ set.
          Results-read
            (parse_pids dbl pids params (word dbl pids params (codes "addpids")) true set)
            (λ added.
              Results-read
                (parse_pids dbl pids params (word dbl pids params (codes "delpids")) false added)
                (λ dropped. gives (refl, refl))))

  parse-Marks :
      (d : FrontendData F)
      → Results
          (Marks ((is_new_freq d || d.changed) || names_stream) (freq_after d))
          (do_parse_stream_string dbl pids params d)
  unfolding do_parse_stream_string
  parse-Marks d = Results-bind (parse_freq-Marks d) (λ d1 (c1, f1).
      Results-bind (parse_streams-Marks d1) (λ d2 (c2, f2).
        Results-bind (parse_settings-Marks d2) (λ d3 (c3, f3).
          let now : d3.changed ≡ ((is_new_freq d || d.changed) || names_stream) =
            c3 ∙ c2 ∙ ap (λ b. b || names_stream) c1 in
          let freq : d3.freq ≡ freq_after d = f3 ∙ f2 ∙ f1 in
          rw (sym now, sym freq) (parse_pids-Marks d3))))

  -- A request that is read to its end leaves the frontend to be tuned again exactly if it was so
  -- before, if it asks for another frequency than the one that is set, or if it names an input stream,
  -- a PLP or a scrambling code that is not 0, be these the same as before or not. The frequency is then
  -- the one it asks for, if any. So another polarization, source, symbol rate, modulation or delivery
  -- system at the same frequency does not tune again.
  pub do_parse_stream_string-changed :
      (d d' : FrontendData F)
      → do_parse_stream_string dbl pids params d ≡ some d'
      → (d'.changed ≡ ((is_new_freq d || d.changed) || names_stream)) × (d'.freq ≡ freq_after d)
  do_parse_stream_string-changed d d' run = Results-some (parse-Marks d) run
