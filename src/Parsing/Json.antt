-- ===== src/Parsing/Json.antt =====
-- internal/parsing/parsers/json.go. `json.Unmarshal` is a parameter, which answers with the struct
-- `jsonLogSchema` that it fills in (an absent text is `""`, an absent object `none`); it is modelled
-- in Parsing/Json/Unmarshal.
pub mod Schema
pub mod Unmarshal
pub mod Documents
pub mod Precedence
pub mod Fields
use log_morph.Common.{
  String, Bool, ◌&&◌, ◌||◌, true, Option, none, some, Result, ok, err, Error, message, wrap, ◌==◌,
  if◌then◌else◌,
}
use log_morph.Common.Integer.{ℤ}
use log_morph.Common.Integer.Atoi.{atoi}
use log_morph.Common.Text.{Unicode, trim_space, to_lower, to_upper, or_else}
use log_morph.Models.{RawEvent, ParsedEvent, Readings, NetworkInfo, UserInfo, SourceInfo, EventInfo}
use log_morph.Parsing.{Parser}
use log_morph.Parsing.Json.Schema.{
  Any, null, number, text, other, JsonSource, JsonFirewall, JsonEndpoint, JsonNetwork,
  JsonLogSchema,
}

-- `parsePort`; no value is an `int` or a `json.Number`
unfoldable pub parse_port : Any → Option ℤ
parse_port null = none
parse_port (number n) = some n
parse_port (text s) = atoi (trim_space s)
parse_port other = none

-- `if p := next; p != nil { port = p }`
abbrev pub port_or : Option ℤ → Option ℤ → Option ℤ
port_or (some p) old = some p
port_or none old = old

-- a side of the connection, as far as it is known
pub record Endpoint : Type 0 where
  pub ip : String
  pub port : Option ℤ

abbrev pub override : String → Any → Endpoint → Endpoint
override ip port old = record { ip = or_else ip old.ip; port = port_or (parse_port port) old.port }

abbrev override_by : Option JsonEndpoint → Endpoint → Endpoint
override_by none old = old
override_by (some e) old = override e.ip e.port old

-- the fields of `network` itself, then those of the object in it
abbrev overridden :
    Option JsonNetwork
    → (JsonNetwork → Option JsonEndpoint)
    → (JsonNetwork → String)
    → (JsonNetwork → Any)
    → Endpoint
    → Endpoint
overridden none side ip port old = old
overridden (some n) side ip port old = override_by (side n) (override (ip n) (port n) old)

unfoldable pub source_endpoint : JsonLogSchema → Endpoint
source_endpoint d =
    overridden d.network (λ n. n.source) (λ n. n.src_ip) (λ n. n.src_port)
      (record {
        ip = or_else d.src_ip d.source_ip;
        port = port_or (parse_port d.src_port) (parse_port d.source_port);
      })

unfoldable pub destination_endpoint : JsonLogSchema → Endpoint
destination_endpoint d =
    overridden d.network (λ n. n.destination) (λ n. n.dst_ip) (λ n. n.dst_port)
      (record {
        ip = or_else d.dst_ip d.destination_ip;
        port = port_or (parse_port d.dst_port) (parse_port d.destination_port);
      })

module _ (u : Unicode) where
  -- `if s != "" { v = strings.ToLower(s) }`
  abbrev pub lower_or : String → String → String
  lower_or s v = if s == "" then v else to_lower u s

  abbrev pub upper_or : String → String → String
  upper_or s v = if s == "" then v else to_upper u s

  abbrev firewall_action : Option JsonFirewall → String
  firewall_action none = "unknown"
  firewall_action (some f) = lower_or f.action "unknown"

  abbrev firewall_protocol : Option JsonFirewall → String
  firewall_protocol none = "unknown"
  firewall_protocol (some f) = upper_or f.protocol "unknown"

  abbrev network_protocol : Option JsonNetwork → String → String
  network_protocol none old = old
  network_protocol (some n) old = upper_or n.protocol old

  unfoldable pub json_action : JsonLogSchema → String
  json_action d = lower_or d.action (firewall_action d.firewall)

  unfoldable pub json_protocol : JsonLogSchema → String
  json_protocol d = network_protocol d.network (upper_or d.protocol (firewall_protocol d.firewall))

  abbrev firewall_category : Option JsonFirewall → String
  firewall_category none = "network"
  firewall_category (some f) = or_else f.category "network"

  abbrev firewall_severity : Option JsonFirewall → String
  firewall_severity none = "info"
  firewall_severity (some f) = or_else f.severity "info"

  -- `data.Firewall == nil || data.Firewall.Severity == ""`
  abbrev gives_no_severity : Option JsonFirewall → Bool
  gives_no_severity none = true
  gives_no_severity (some f) = f.severity == ""

  abbrev pub is_blocked : String → Bool
  is_blocked action = action == "deny" || action == "block" || action == "drop"

  unfoldable pub json_severity : JsonLogSchema → String
  unfolding json_action
  json_severity d =
      if is_blocked (json_action d) && gives_no_severity d.firewall && d.severity == ""
      then "high"
      else or_else d.severity (firewall_severity d.firewall)

  abbrev default_source : RawEvent → SourceInfo
  default_source raw = record {
    type = "firewall";
    vendor = "generic";
    product = "json-firewall";
    identifier = or_else raw.source "json-source";
  }

  abbrev override_source : Option JsonSource → SourceInfo → SourceInfo
  override_source none old = old
  override_source (some s) old = record {
    type = or_else s.type old.type;
    vendor = or_else s.vendor old.vendor;
    product = or_else s.product old.product;
    identifier = or_else s.identifier old.identifier;
  }

  abbrev json_user : Option (Option String) → UserInfo
  json_user none = record { username = none }
  json_user (some name) = record { username = name }

  -- what the parser makes of a document
  unfoldable pub json_event : Readings → RawEvent → JsonLogSchema → ParsedEvent
  unfolding json_action json_protocol json_severity source_endpoint destination_endpoint
  json_event now raw d =
      let src = source_endpoint d in
      let dst = destination_endpoint d in
      record {
        timestamp = or_else d.timestamp (now 0).stamp;
        source = override_source d.source (default_source raw);
        event = record {
          category = or_else d.category (firewall_category d.firewall);
          action = json_action d;
          severity = json_severity d;
        };
        network = some (record {
          src_ip = src.ip;
          src_port = src.port;
          dst_ip = dst.ip;
          dst_port = dst.port;
          protocol = json_protocol d;
        });
        user = some (json_user d.user);
      }

  module _ (unmarshal : String → Result JsonLogSchema) where
    abbrev parsed : Readings → RawEvent → Result JsonLogSchema → Result (Option ParsedEvent)
    parsed now raw (err e) = err (wrap "failed to unmarshal JSON" e)
    parsed now raw (ok d) = ok (some (json_event now raw d))

    -- `Parse`
    unfoldable pub json_parse : Readings → RawEvent → Result (Option ParsedEvent)
    unfolding json_event
    json_parse now raw =
        let trimmed = trim_space raw.payload in
        if trimmed == ""
        then err (message "empty JSON payload")
        else parsed now raw (unmarshal trimmed)

    abbrev pub json_parser : Parser
    json_parser = record { format = "json"; parse = json_parse }
