-- ===== src/Validation/Conformity.antt =====
-- Which universal events the schema accepts.
use log_morph.Common.{
  String, ◌≡◌, ◌≢◌, refl, sym, ap, ◌∙◌, Bool, true, false, ◌&&◌, some, ◌==◌, if◌then◌else◌,
  Bool-cases, Option-cases, inl, inr, arith, Result, ok, err, eq_iff,
}
use log_morph.Models.{UniversalEvent, RawEvent, ParsedEvent, DetectionResult, Readings}
use log_morph.Normalization.{normalize}
use log_morph.Normalization.Fields.{normalize_exact}
use log_morph.Validation.Schema.{lookup, accepts, universal_event_schema}
use log_morph.Validation.Document.{event_document}
use log_morph.Validation.Objects.{
  ports_in_range, source_accepted, event_accepted, user_accepted, network_accepted,
}

-- what the schema asks of an event that its types do not give
abbrev demands : UniversalEvent → Bool
demands e =
    (if e.event_id == "" then false else true)
    && ((e.schema_version == "1.0") && ports_in_range e.network)

document_accepted :
    (e : UniversalEvent) → accepts universal_event_schema (event_document e) ≡ demands e
unfolding accepts event_document lookup
document_accepted e = elim (Option-cases e.network) [
  | inl no_network ↦ elim (Option-cases e.user) [
    | inl no_user ↦
        rw (no_network, no_user, source_accepted e.source, event_accepted e.event) (ground arith)
    | inr (u, given) ↦
        rw (no_network, given, source_accepted e.source, event_accepted e.event, user_accepted u)
          (ground arith)
  ]
  | inr (n, network) ↦ elim (Option-cases e.user) [
    | inl no_user ↦
        rw (network, no_user, source_accepted e.source, event_accepted e.event, network_accepted n)
          (ground arith)
    | inr (u, given) ↦
        rw
          (
            network,
            given,
            source_accepted e.source,
            event_accepted e.event,
            network_accepted n,
            user_accepted u,
          )
          (ground arith)
  ]
]

demands_met :
    (e : UniversalEvent)
    → e.event_id ≢ ""
    → e.schema_version ≡ "1.0"
    → demands e ≡ ports_in_range e.network
demands_met e has_id version = elim (Bool-cases (e.event_id == "")) [
  | inl empty ↦ absurd (has_id ((eq_iff e.event_id "").0 empty))
  | inr given ↦ rw (given, version) refl
]

-- The schema accepts what `Normalize` returns exactly if the ports that the parser has found are from
-- 0 to 65535: nothing else that a parser or the raw event can hold makes an event invalid.
pub normalized_conforms :
    (now : Readings) (uuid : String) (raw : RawEvent) (parsed : ParsedEvent)
    (detection : DetectionResult) (e : UniversalEvent)
    → normalize now uuid raw (some parsed) detection ≡ ok e
    → accepts universal_event_schema (event_document e) ≡ ports_in_range parsed.network
normalized_conforms now uuid raw parsed detection e normalized =
    let (e', made, is) = (normalize_exact now uuid raw parsed detection).1 in
    let same : e' ≡ e = ap (unwrap e) (sym made ∙ normalized) in
    ap (λ x. accepts universal_event_schema (event_document x)) (sym same)
    ∙ (document_accepted e'
        ∙ (demands_met e' is.id_given is.version ∙ ap ports_in_range is.network))
  where
    unwrap : UniversalEvent → Result UniversalEvent → UniversalEvent
    unwrap x (ok y) = y
    unwrap x (err _) = x
