-- ===== src/Validation/Report.antt =====
-- What a validation result means.
use log_morph.Common.{
  String, ◌≡◌, ◌↔◌, refl, true, Option, none, some, [], ◌∷◌, Result, ok, err, arith,
}
use log_morph.Validation.{
  ValidationResult, SchemaError, violated, other, report, checked, validate_bytes,
}

-- A result is valid exactly when it lists no error.
abbrev pub IsConsistent : ValidationResult → Type 0
IsConsistent r = (r.valid ≡ true) ↔ (r.errors ≡ [])

report-IsConsistent : (o : Option SchemaError) → IsConsistent (report o)
unfolding report
report-IsConsistent none = ground arith
report-IsConsistent (some (violated top [])) = ground arith
report-IsConsistent (some (violated top (c ∷ cs))) = ground arith
report-IsConsistent (some (other e)) = ground arith

report_valid : (o : Option SchemaError) → ((report o).valid ≡ true) ↔ (o ≡ none)
unfolding report
report_valid none = ground arith
report_valid (some (violated top [])) = ground arith
report_valid (some (violated top (c ∷ cs))) = ground arith
report_valid (some (other e)) = ground arith

module _ {J : Type 0} (unmarshal : String → Result J) (schema : J → Option SchemaError) where
  checked_exact :
      (r : Result J)
      → (((checked unmarshal schema r).valid ≡ true) ↔ ((v : J) × (r ≡ ok v) × (schema v ≡ none)))
        × IsConsistent (checked unmarshal schema r)
  unfolding checked
  checked_exact (ok v) = (
    (
      λ valid. (v, refl, (report_valid (schema v)).0 valid),
      λ (x, same, clean). (report_valid (schema v)).1 (ground arith),
    ),
    report-IsConsistent (schema v),
  )
  checked_exact (err e) = ((λ valid. cc, λ (x, same, clean). cc), ground arith)

  -- Bytes are valid exactly when they decode and the schema has nothing against the document; and
  -- a result is valid exactly when it lists no error.
  pub validate_bytes_exact :
      (bytes : String)
      → (((validate_bytes unmarshal schema bytes).valid ≡ true)
          ↔ ((v : J) × (unmarshal bytes ≡ ok v) × (schema v ≡ none)))
        × IsConsistent (validate_bytes unmarshal schema bytes)
  unfolding validate_bytes
  validate_bytes_exact bytes = checked_exact (unmarshal bytes)
