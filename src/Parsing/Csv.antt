-- ===== src/Parsing/Csv.antt =====
-- internal/parsing/parsers/csv.go
pub mod Columns
pub mod Documents
use log_morph.Common.{
  ℕ, String, Bool, ◌&&◌, not, Option, none, some, List, [], ◌∷◌, Result, ok, err, Error, message,
  wrap, ◌==◌, eqb, length, if◌then◌else◌,
}
use log_morph.Common.Csv.{read_all}
use log_morph.Common.GoMap.{Map, empty, get, put, get_or}
use log_morph.Common.Integer.{ℤ}
use log_morph.Common.Integer.Atoi.{atoi}
use log_morph.Common.Text.{Unicode, ◌+++◌, trim_space, to_lower, to_upper, or_else, decimal}
use log_morph.Models.{RawEvent, ParsedEvent, NetworkInfo, Readings}
use log_morph.Parsing.{Parser}

module _ (u : Unicode) where
  -- the loop that fills `colMap`; the two rows are equally long
  unfoldable pub add_columns : List String → List String → Map String → Map String
  add_columns [] row m = m
  add_columns (col ∷ header) [] m = m
  add_columns (col ∷ header) (v ∷ row) m =
      add_columns header row (put m (to_lower u (trim_space col)) (trim_space v))

  -- `colMap[name]`
  abbrev pub column : Map String → String → String
  column m name = get_or "" (get m name)

  abbrev port : String → Option ℤ
  port s = if s == "" then none else atoi s

  abbrev username : String → Option String
  username s = if s == "" then none else some s

  abbrev default_severity : String → String
  default_severity action = if action == "deny" then "high" else "info"

  abbrev pub csv_network : Map String → NetworkInfo
  csv_network m = record {
    src_ip = column m "src_ip";
    src_port = port (column m "src_port");
    dst_ip = column m "dst_ip";
    dst_port = port (column m "dst_port");
    protocol = or_else (to_upper u (column m "protocol")) "unknown";
  }

  -- what the parser makes of the columns
  unfoldable pub csv_event : Readings → RawEvent → Map String → ParsedEvent
  csv_event now raw m =
      let action = or_else (to_lower u (column m "action")) "unknown" in
      record {
        timestamp = or_else (column m "timestamp") (now 0).stamp;
        source = record {
          type = "firewall";
          vendor = "generic";
          product = "csv-firewall";
          identifier = or_else (or_else (column m "source") raw.source) "csv-source";
        };
        event = record {
          category = or_else (column m "category") "network";
          action = action;
          severity = or_else (column m "severity") (default_severity action);
        };
        network = some (csv_network m);
        user = some (record { username = username (column m "username") });
      }

  abbrev mismatch : ℕ → ℕ → Error
  mismatch n k = message (
      "header column count ("
      +++ decimal n
      +++ ") does not match data row column count ("
      +++ decimal k
      +++ ")")

  -- Of the records the first two are read.
  unfoldable pub event_of_records :
      Readings → RawEvent → Result (List (List String)) → Result (Option ParsedEvent)
  unfolding csv_event add_columns
  event_of_records now raw (err e) = err (wrap "invalid CSV format" e)
  event_of_records now raw (ok []) =
      err (message "CSV must contain at least a header row and one data row")
  event_of_records now raw (ok (header ∷ [])) =
      err (message "CSV must contain at least a header row and one data row")
  event_of_records now raw (ok (header ∷ (row ∷ rest))) =
      if eqb (length header) (length row)
      then ok (some (csv_event now raw (add_columns header row empty)))
      else err (mismatch (length header) (length row))

  -- `Parse`
  unfoldable pub csv_parse : Readings → RawEvent → Result (Option ParsedEvent)
  unfolding event_of_records
  csv_parse now raw =
      let trimmed = trim_space raw.payload in
      if trimmed == ""
      then err (message "empty CSV payload")
      else event_of_records now raw (read_all trimmed)

  abbrev pub csv_parser : Parser
  csv_parser = record { format = "csv"; parse = csv_parse }
