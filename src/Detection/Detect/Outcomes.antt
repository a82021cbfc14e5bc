-- ===== src/Detection/Detect/Outcomes.antt =====
-- What a detection says: to the drift detector, and about the CSV parser.
use log_morph.Common.{
  ℕ, ◌≤◌, String, ◌≡◌, ◌≢◌, ◌↔◌, refl, sym, ◌∙◌, Bool, true, false, Bool-cases, ◌⊎◌, inl, inr, none,
  some, List, [], ◌∷◌, Result, ok, err, arith, ◌==◌, eq_iff, eqb, length,
}
use log_morph.Common.Csv.{read_all}
use log_morph.Common.Text.{Unicode, trim_space, to_lower}
use log_morph.Context.{Context, poll}
use log_morph.Models.{RawEvent, ParsedEvent, DetectionResult, Readings, stable}
use log_morph.Detection.{format_syslog, format_json, format_csv, format_unknown}
use log_morph.Detection.Drift.{IsKnownFormat, analyze, analyze_exact, drift_format}
use log_morph.Detection.Detect.{
  detect, detect_content, looks_like_json, looks_like_csv, looks_like_syslog, are_csv_records,
}
use log_morph.Parsing.Syslog.{severity_of, syslog_parse, syslog_event, header_of}
use log_morph.Parsing.Syslog.KeyValues.{Header}
use log_morph.Parsing.Csv.{csv_parse, csv_event, add_columns, event_of_records}
use log_morph.Common.GoMap.{empty}

module _ (u : Unicode) (json_valid : String → Bool) where
  -- a format with a parser, and a confidence of at least 0.5; or no format, and none
  abbrev IsRecognized : DetectionResult → Type 0
  IsRecognized d = IsKnownFormat u d.format × (50 ≤ d.confidence)

  abbrev IsUnrecognized : DetectionResult → Type 0
  IsUnrecognized d = (d.format ≡ format_unknown) × (d.confidence ≡ 0)

  detect_content-outcome :
      (t : String)
      → IsRecognized (detect_content u json_valid t)
        ⊎ IsUnrecognized (detect_content u json_valid t)
  unfolding detect_content
  detect_content-outcome t = elim (Bool-cases (t == "")) [
    | inl h ↦ rw h (inr (refl, refl))
    | inr h ↦ elim (Bool-cases (looks_like_json u json_valid t)) [
      | inl j ↦ rw (h, j) (inl (inr (inl refl), omega arith))
      | inr j ↦ elim (Bool-cases (looks_like_csv u json_valid t)) [
        | inl c ↦ rw (h, j, c) (inl (inr (inr refl), omega arith))
        | inr c ↦ elim (Bool-cases (looks_like_syslog u json_valid t)) [
          | inl s ↦ rw (h, j, c, s) (inl (inl refl, omega arith))
          | inr s ↦ rw (h, j, c, s) (inr (refl, refl))
        ]
      ]
    ]
  ]

  pub detect-outcome :
      (payload hint : String)
      → IsRecognized (detect u json_valid payload hint)
        ⊎ IsUnrecognized (detect u json_valid payload hint)
  unfolding detect
  detect-outcome payload hint = elim (Bool-cases (to_lower u (trim_space hint) == format_syslog)) [
    | inl s ↦ rw s (inl (inl refl, omega arith))
    | inr s ↦ elim (Bool-cases (to_lower u (trim_space hint) == format_json)) [
      | inl j ↦ rw (s, j) (inl (inr (inl refl), omega arith))
      | inr j ↦ elim (Bool-cases (to_lower u (trim_space hint) == format_csv)) [
        | inl c ↦ rw (s, j, c) (inl (inr (inr refl), omega arith))
        | inr c ↦ rw (s, j, c) (detect_content-outcome (trim_space payload))
      ]
    ]
  ]

  -- a known format is its own trimmed lower case
  drift_format-known :
      (d : DetectionResult) → IsKnownFormat u d.format → IsKnownFormat u (drift_format u d)
  unfolding to_lower trim_space
  drift_format-known d (inl h) = rw h (inl refl)
  drift_format-known d (inr (inl h)) = rw h (inr (inl refl))
  drift_format-known d (inr (inr h)) = rw h (inr (inr refl))

  clash : false ≡ true → ⊥
  clash same = cc

  pub known_is_not_unknown : (f : String) → IsKnownFormat u f → f ≢ format_unknown
  known_is_not_unknown f (inl h) g = clash ((eq_iff format_syslog format_unknown).1 (sym h ∙ g))
  known_is_not_unknown f (inr (inl h)) g = clash ((eq_iff format_json format_unknown).1 (sym h ∙ g))
  known_is_not_unknown f (inr (inr h)) g = clash ((eq_iff format_csv format_unknown).1 (sym h ∙ g))

  too_low : (n : ℕ) → n ≡ 0 → 50 ≤ n → ⊥
  too_low n p q = omega arith

  -- On a live context, drift analysis finds an event stable exactly when `Detect` has given it a
  -- format other than unknown, whatever the payload and the hint.
  pub stable_iff_detected :
      (payload hint : String) (event : RawEvent) (ctx : Context)
      → (poll ctx).0 ≡ none
      → ((analyze u event (detect u json_valid payload hint) ctx).0.status ≡ stable)
        ↔ ((detect u json_valid payload hint).format ≢ format_unknown)
  stable_iff_detected payload hint event ctx live =
      let d = detect u json_valid payload hint in
      let exact = (analyze_exact u event d ctx live).0 in
      elim (detect-outcome payload hint) [
        | inl (known, enough) ↦ (
          λ _. known_is_not_unknown d.format known,
          λ _. exact.1 (drift_format-known d known, enough),
        )
        | inr (format, confidence) ↦
            (λ s. absurd (too_low d.confidence confidence (exact.0 s).1), λ h. absurd (h format))
      ]

  parsed_records :
      (now : Readings) (raw : RawEvent) (r : Result (List (List String)))
      → are_csv_records u json_valid r ≡ true
      → (e : ParsedEvent) × (event_of_records u now raw r ≡ ok (some e))
  unfolding event_of_records
  parsed_records now raw (err _) h = cc
  parsed_records now raw (ok []) h = cc
  parsed_records now raw (ok (header ∷ [])) h = cc
  parsed_records now raw (ok (header ∷ (row ∷ rest))) h =
      let same : eqb (length header) (length row) ≡ true = ground arith in
      (csv_event u now raw (add_columns u header row empty), rw same refl)

  content_is_csv :
      (t : String)
      → (detect_content u json_valid t).confidence ≡ 90
      → ((t == "") ≡ false) × (looks_like_csv u json_valid t ≡ true)
  unfolding detect_content
  content_is_csv t h = ground arith

  by_content :
      (payload hint : String)
      → (detect u json_valid payload hint).confidence ≡ 90
      → (detect_content u json_valid (trim_space payload)).confidence ≡ 90
  unfolding detect
  by_content payload hint h = ground arith

  -- A payload that is detected as CSV by its content, which is the one case with confidence 0.9, is
  -- one that the CSV parser accepts.
  pub detected_csv_parses :
      (now : Readings) (raw : RawEvent)
      → (detect u json_valid raw.payload raw.format).confidence ≡ 90
      → (e : ParsedEvent) × (csv_parse u now raw ≡ ok (some e))
  unfolding csv_parse looks_like_csv
  detected_csv_parses now raw h =
      let (not_blank, csv) =
        content_is_csv (trim_space raw.payload) (by_content raw.payload raw.format h) in
      let records : are_csv_records u json_valid (read_all (trim_space raw.payload)) ≡ true =
        ground arith in
      let (e, parsed) = parsed_records now raw (read_all (trim_space raw.payload)) records in
      (e, rw not_blank parsed)

  content_is_syslog :
      (t : String) → (detect_content u json_valid t).confidence ≡ 85 → (t == "") ≡ false
  unfolding detect_content
  content_is_syslog t h = ground arith

  by_syslog_content :
      (payload hint : String)
      → (detect u json_valid payload hint).confidence ≡ 85
      → (detect_content u json_valid (trim_space payload)).confidence ≡ 85
  unfolding detect
  by_syslog_content payload hint h = ground arith

  high-deny : (a : String) → (severity_of a ≡ "high") ↔ (a ≡ "deny")
  high-deny a = (
    λ high. elim (Bool-cases (a == "deny")) [
      | inl same ↦ (eq_iff a "deny").0 same
      | inr differ ↦ absurd (clash ((eq_iff "info" "high").1 (rw differ at high)))
    ],
    λ same. rw ((eq_iff a "deny").1 same) refl,
  )

  high_iff_denied :
      (now : Readings) (raw : RawEvent) (h : Header)
      → ((syslog_event u now raw h).event.severity ≡ "high")
        ↔ ((syslog_event u now raw h).event.action ≡ "deny")
  unfolding syslog_event
  high_iff_denied now raw h = high-deny (syslog_event u now raw h).event.action

  -- A payload that is detected as syslog by its content, which is the one case with confidence 0.85,
  -- is one that the syslog parser accepts; its event is of high severity exactly when it is denied.
  pub detected_syslog_parses :
      (now : Readings) (raw : RawEvent)
      → (detect u json_valid raw.payload raw.format).confidence ≡ 85
      → (e : ParsedEvent) × (syslog_parse u now raw ≡ ok (some e))
        × ((e.event.severity ≡ "high") ↔ (e.event.action ≡ "deny"))
  unfolding syslog_parse
  detected_syslog_parses now raw h =
      let not_blank =
        content_is_syslog (trim_space raw.payload) (by_syslog_content raw.payload raw.format h) in
      (
        syslog_event u now raw (header_of u raw (trim_space raw.payload)),
        rw not_blank refl,
        high_iff_denied now raw (header_of u raw (trim_space raw.payload)),
      )
