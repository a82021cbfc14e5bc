-- ===== src/Normalization/Fields.antt =====
-- What a normalized event carries over.
use text.Mathlib.TextLemmas.{append-eq-nil_iff, cons-ne-nil}
use log_morph.Common.{String, ◌≡◌, ◌≢◌, refl, none, some, ok, err, Error, arith, eq_iff, ◌⊎◌}
use log_morph.Common.Text.{◌+++◌}
use log_morph.Models.{RawEvent, ParsedEvent, UniversalEvent, DetectionResult, Readings}
use log_morph.Normalization.{or_else, normalize}

-- `chosen` is `first` if that is not empty, and `second` if it is.
abbrev pub IsFirstGiven : (chosen first second : String) → Type 0
IsFirstGiven chosen first second =
    ((first ≢ "") × (chosen ≡ first)) ⊎ ((first ≡ "") × (chosen ≡ second))

first_given : (first second : String) → IsFirstGiven (or_else first second) first second
first_given first second = ground (arith, eq_iff first "")

evt-ne-empty : (s : String) → ("evt_" +++ s) ≢ ""
evt-ne-empty s h = cons-ne-nil _ _ (append-eq-nil_iff.0 h).0

unknown-ne-empty : ◌≢◌ {A = String} "unknown" ""
unknown-ne-empty = cons-ne-nil _ _

-- The event that `Normalize` makes of a parsed event.
pub record IsNormalized (now : Readings) (uuid : String) (raw : RawEvent) (parsed : ParsedEvent)
    (detection : DetectionResult) (e : UniversalEvent) : Type 0 where
  pub id : IsFirstGiven e.event_id raw.event_id ("evt_" +++ uuid)
  pub id_given : e.event_id ≢ ""
  pub version : e.schema_version ≡ "1.0"
  pub time :
      (IsFirstGiven e.timestamp parsed.timestamp raw.received_at × (e.timestamp ≢ ""))
      ⊎ ((parsed.timestamp ≡ "") × (raw.received_at ≡ "") × (e.timestamp ≡ (now 0).stamp))
  pub format_given : e.raw.format ≢ ""
  pub format : (detection.format ≡ "") ⊎ (e.raw.format ≡ detection.format)
  pub payload : e.raw.message ≡ raw.payload
  pub source : e.source ≡ parsed.source
  pub event : e.event ≡ parsed.event
  pub network : e.network ≡ parsed.network
  pub user : e.user ≡ parsed.user

-- `Normalize` fails on a missing parsed event, whatever the other arguments are, and on no other. The
-- event that it returns for a parsed one has an id (the raw event's, or a new one), version 1.0, a format, the parsed time or else the time of
-- receipt or else the clock's, the payload unchanged, and the parsed source, event, network and
-- user.
pub normalize_exact :
    (now : Readings) (uuid : String) (raw : RawEvent) (parsed : ParsedEvent)
    (detection : DetectionResult)
    → ((e : Error) × (normalize now uuid raw none detection ≡ err e))
      × ((e : UniversalEvent) × (normalize now uuid raw (some parsed) detection ≡ ok e)
          × IsNormalized now uuid raw parsed detection e)
unfolding normalize
normalize_exact now uuid raw parsed detection = (
  (_, refl),
  (
    _,
    refl,
    record {
      id = first_given raw.event_id ("evt_" +++ uuid);
      id_given = ground (arith, eq_iff raw.event_id "", evt-ne-empty uuid);
      version = refl;
      time = ground (arith, eq_iff parsed.timestamp "", eq_iff raw.received_at "");
      format_given =
          ground (arith, eq_iff detection.format "", eq_iff raw.format "", unknown-ne-empty);
      format = ground (arith, eq_iff detection.format "");
      payload = refl;
      source = refl;
      event = refl;
      network = refl;
      user = refl;
    },
  ),
)
