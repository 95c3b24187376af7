-- ===== src/Sdt/Rounds.antt =====
-- The loops of `SDT::parse` (src/mpegts/SDT.cpp) end: more rounds than the model allows change
-- nothing.
use satpi.Base.{
  ℕ, zero, suc, ◌+◌, ◌≤◌, ◌<◌, ◌≡◌, refl, ap, sym, ◌∙◌, arith, false, if◌then◌else◌, ltb, leb,
  Option, none, some, List, length, Bool-cases, Option-cases, inl, inr, le→ltb, ltb→lt,
}
use native.Mathlib.Nat.{add-zero, add-suc}
use satpi.Sdt.{SdtData, sdt_descriptor, sdt_descriptors, sdt_service, sdt_services}

-- The names, or the rest of the descriptors, take a byte at least.
sdt_descriptor_step :
    (bytes : List ℕ) (at desc_length service_id n : ℕ) (table table' : ℕ → Option SdtData)
    → 1 ≤ desc_length
    → sdt_descriptor bytes at desc_length service_id table ≡ some (n, table')
    → 1 ≤ n
unfolding sdt_descriptor
sdt_descriptor_step bytes at desc_length service_id n table table' some_length e = ground arith

sdt_descriptors_more :
    (fuel : ℕ) (bytes : List ℕ) (base desc_length service_id j : ℕ) (table : ℕ → Option SdtData)
    → desc_length ≤ j + fuel
    → sdt_descriptors fuel bytes base desc_length service_id j table
      ≡ sdt_descriptors (suc fuel) bytes base desc_length service_id j table
unfolding sdt_descriptors
sdt_descriptors_more zero bytes base desc_length service_id j table enough =
    rw (le→ltb j desc_length (omega arith)) refl
sdt_descriptors_more (suc fuel) bytes base desc_length service_id j table enough =
    elim (Bool-cases (ltb j desc_length)) [
      | inr over ↦ rw over refl
      | inl more ↦
          rw more
            (elim (Option-cases (sdt_descriptor bytes (base + j) desc_length service_id table)) [
              | inl e ↦ rw (e, sdt_descriptors) refl
              | inr ((n, table'), e) ↦
                  let below : j < desc_length = ltb→lt j desc_length more in
                  let on : 1 ≤ n =
                    sdt_descriptor_step bytes (base + j) desc_length service_id n table table'
                      (omega arith) e in
                  rw (e, sdt_descriptors)
                    (sdt_descriptors_more fuel bytes base desc_length service_id (j + n) table'
                      (omega arith))
            ])
    ]

sdt_service_behind :
    (bytes : List ℕ) (i : ℕ) (table : ℕ → Option SdtData)
    → length bytes < i
    → sdt_service bytes i table ≡ none
unfolding sdt_service
sdt_service_behind bytes i table behind = rw (gt→leb i (length bytes) behind) refl
  where
    gt→leb : (a b : ℕ) → b < a → leb a b ≡ false
    gt→leb a b h = ground arith

sdt_service_step :
    (bytes : List ℕ) (i n : ℕ) (table table' : ℕ → Option SdtData)
    → sdt_service bytes i table ≡ some (n, table')
    → 5 ≤ n
unfolding sdt_service
sdt_service_step bytes i n table table' e = ground arith

sdt_services_more :
    (fuel : ℕ) (bytes : List ℕ) (len i : ℕ) (table : ℕ → Option SdtData)
    → length bytes < 16 + i + fuel
    → sdt_services fuel bytes len i table ≡ sdt_services (suc fuel) bytes len i table
unfolding sdt_services
sdt_services_more zero bytes len i table enough =
    rw (sdt_service_behind bytes (16 + i) table (omega arith), sdt_services) refl
sdt_services_more (suc fuel) bytes len i table enough =
    elim (Option-cases (sdt_service bytes (16 + i) table)) [
      | inl e ↦ rw (e, sdt_services) refl
      | inr ((n, table'), e) ↦
          let on : 5 ≤ n = sdt_service_step bytes (16 + i) n table table' e in
          rw (e, sdt_services)
            (ap (λ o. if ltb i len then o else some table)
              (sdt_services_more fuel bytes len (i + n) table' (omega arith)))
    ]

-- The loops over the descriptors of a service and over the services have enough rounds: any number
-- of rounds beyond those that the model allows gives the same.
pub sdt_services-rounds :
    (extra : ℕ) (bytes : List ℕ) (base desc_length service_id len : ℕ) (table : ℕ → Option SdtData)
    → (sdt_descriptors (desc_length + extra) bytes base desc_length service_id 5 table
        ≡ sdt_descriptors desc_length bytes base desc_length service_id 5 table)
      × (sdt_services (length bytes + extra) bytes len 0 table
          ≡ sdt_services (length bytes) bytes len 0 table)
sdt_services-rounds zero bytes base desc_length service_id len table =
    rw (add-zero desc_length, add-zero (length bytes)) (refl, refl)
sdt_services-rounds (suc extra) bytes base desc_length service_id len table =
    let (d, s) = sdt_services-rounds extra bytes base desc_length service_id len table in
    rw (add-suc desc_length extra, add-suc (length bytes) extra)
      (
        sym (
              sdt_descriptors_more (desc_length + extra) bytes base desc_length service_id 5 table
                (omega arith))
            ∙ d,
        sym (sdt_services_more (length bytes + extra) bytes len 0 table (omega arith)) ∙ s,
      )
