-- ===== src/Tuning/Bounds.antt =====
-- The properties that tune a frontend, and the array of 15 that the code has for them.
use satpi.Base.{
  ℕ, ◌≤◌, ◌≡◌, refl, ap, arith, Option, none, some, List, [], ◌∷◌, ◌++◌, length, length-append,
  Results, stops, gives, Results-if,
}
use satpi.FrontendData.{FrontendData}
use satpi.Tuning.{
  Property, clear, tune, stream_property, scrambling_property, plp_property, terrestrial, is_dvbt2,
  is_dvbt, is_dvbc, properties_dvbs, properties_dvbt, properties_dvbc,
}

-- The properties fit into the array, the first clears what was set, and the last tunes.
abbrev pub Fits : List Property → Type 0
Fits p = (length p ≤ 15) × ((between : List Property) × (p ≡ clear ∷ (between ++ (tune ∷ []))))

abbrev Ends : List Property → Type 0
Ends p = (before : List Property) × (p ≡ before ++ (tune ∷ []))

last-Ends : Ends (tune ∷ [])
last-Ends = ([], refl)

cons-Ends : (x : Property) {p : List Property} → Ends p → Ends (x ∷ p)
cons-Ends x (before, e) = (x ∷ before, ap (◌∷◌ x) e)

append-Ends : (xs : List Property) {p : List Property} → Ends p → Ends (xs ++ p)
append-Ends [] e = e
append-Ends (x ∷ xs) e = cons-Ends x (append-Ends xs e)

first_last :
    {p : List Property}
    → Ends p
    → (between : List Property) × (clear ∷ p ≡ clear ∷ (between ++ (tune ∷ [])))
first_last (before, e) = (before, ap (◌∷◌ clear) e)

module _ {F : Type 0} (version : ℕ) (d : FrontendData F) where
  stream-short : (o : Option ℕ) → length (stream_property version d o) ≤ 1
  stream-short none = omega arith
  stream-short (some id) = omega arith

  plp-short : (o : Option ℕ) → length (plp_property version d o) ≤ 1
  plp-short none = omega arith
  plp-short (some plp) = ground arith

  scrambling-short : length (scrambling_property version d) ≤ 1
  scrambling-short = ground arith

  terrestrial-Ends : {lna : ℕ} → Ends (terrestrial version d lna)
  terrestrial-Ends = cons-Ends _ (
      cons-Ends _ (
        cons-Ends _ (
          cons-Ends _ (
            cons-Ends _ (
              cons-Ends _
                (cons-Ends _ (cons-Ends _ (cons-Ends _ (cons-Ends _ (cons-Ends _ last-Ends))))))))))

  -- For each delivery system the properties fit into the array of 15, whatever the settings and the
  -- version of the driver; the first of them clears what was set before, and the last tunes.
  pub properties-Fits :
      (freq lna : ℕ)
      → Fits (properties_dvbs version d freq)
        × Results Fits (properties_dvbt version d lna)
        × Results Fits (properties_dvbc version d)
  unfolding properties_dvbs properties_dvbt properties_dvbc
  properties-Fits freq lna =
      let stream = stream_property version d d.is_id in
      let scrambling = scrambling_property version d in
      let plp = plp_property version d d.plp_id in
      (
        (
          rw
              (
                length-append stream (scrambling ++ (tune ∷ [])),
                length-append scrambling (tune ∷ []),
              )
              (omega (arith, stream-short d.is_id, scrambling-short)),
          first_last (
              cons-Ends _ (
                cons-Ends _ (
                  cons-Ends _ (
                    cons-Ends _ (
                      cons-Ends _ (
                        cons-Ends _ (
                          cons-Ends _ (
                            cons-Ends _
                              (append-Ends stream (append-Ends scrambling last-Ends)))))))))),
        ),
        Results-if (is_dvbt2 d.delsys)
            (gives (
              rw (length-append plp (terrestrial version d lna))
                  (omega (arith, plp-short d.plp_id)),
              first_last (append-Ends plp terrestrial-Ends),
            ))
            (Results-if (is_dvbt d.delsys) (gives (omega arith, first_last terrestrial-Ends))
              stops),
        Results-if (is_dvbc d.delsys)
            (gives (
              omega arith,
              first_last (
                  cons-Ends _ (
                    cons-Ends _ (
                      cons-Ends _
                        (cons-Ends _ (cons-Ends _ (cons-Ends _ (cons-Ends _ last-Ends))))))),
            ))
            stops,
      )
