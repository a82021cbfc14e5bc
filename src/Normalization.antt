-- ===== src/Normalization.antt =====
-- internal/normalization/normalizer.go
pub mod Fields
use log_morph.Common.{String, Option, none, some, Result, ok, err, message, ◌==◌, if◌then◌else◌}
use log_morph.Common.Text.{◌+++◌, or_else}
use log_morph.Models.{RawEvent, ParsedEvent, UniversalEvent, DetectionResult, Readings}

-- `Normalize`. `uuid` is what `uuid.New().String()` returns if it is called. The clock is read
-- for `ingested_at` after the reading for a missing timestamp, if there is one.
unfoldable pub normalize :
    Readings → String → RawEvent → Option ParsedEvent → DetectionResult → Result UniversalEvent
normalize now uuid raw none detection = err (message "cannot normalize nil parsed event")
normalize now uuid raw (some parsed) detection =
    let event_id = or_else raw.event_id ("evt_" +++ uuid) in
    let given = or_else parsed.timestamp raw.received_at in
    let timestamp = or_else given (now 0).stamp in
    let ingested_at = (if given == "" then now 1 else now 0).stamp in
    let format = or_else (or_else detection.format raw.format) "unknown" in
    ok (record {
      event_id = event_id;
      schema_version = "1.0";
      timestamp = timestamp;
      source = parsed.source;
      event = parsed.event;
      network = parsed.network;
      user = parsed.user;
      raw = record { format = format; message = raw.payload };
      metadata = record { parser_version = "1.0"; ingested_at = ingested_at };
    })
