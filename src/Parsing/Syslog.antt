-- ===== src/Parsing/Syslog.antt =====
-- internal/parsing/parsers/syslog.go
pub mod Timestamp
pub mod KeyValues
use log_morph.Common.{
  ℕ, String, Bool, ◌||◌, Option, none, some, List, [], ◌∷◌, Result, ok, err, message, ◌==◌,
  if◌then◌else◌,
}
use log_morph.Common.GoMap.{Map, empty, get, put}
use log_morph.Common.Integer.{ℤ}
use log_morph.Common.Integer.Atoi.{atoi}
use log_morph.Common.Text.{Unicode, trim_space, to_lower, to_upper, or_else, fields}
use log_morph.Models.{RawEvent, ParsedEvent, Readings}
use log_morph.Parsing.{Parser}
use log_morph.Parsing.Syslog.Timestamp.{syslog_timestamp}
use log_morph.Parsing.Syslog.KeyValues.{Header, match_header, find_pairs, split_ip_and_port}

-- what the tokens and the pairs say
pub record Verdict : Type 0 where
  pub action : String
  pub protocol : String

abbrev given : Option String → String → String
given none old = old
given (some v) old = v

-- `if p, err := strconv.Atoi(s); err == nil { port = &p }`
abbrev port_or : Option ℤ → Option ℤ → Option ℤ
port_or none old = old
port_or (some p) old = some p

abbrev number_in : Option String → Option ℤ
number_in none = none
number_in (some s) = atoi s

abbrev address : Option String → String × Option ℤ
address none = ("", none)
address (some s) = split_ip_and_port s

abbrev pub severity_of : String → String
severity_of action = if action == "deny" then "high" else "info"

module _ (u : Unicode) where
  -- the loop over the pairs
  unfoldable pub add_pairs : List (String × String) → Map String → Map String
  add_pairs [] m = m
  add_pairs ((key, value) ∷ pairs) m = add_pairs pairs (put m (to_upper u key) value)

  read_token : String → Verdict → Verdict
  read_token upper v =
      if upper == "DENY" || upper == "DROP" || upper == "BLOCK"
      then record v { action = "deny" }
      else (if upper == "ALLOW" || upper == "ACCEPT" || upper == "PERMIT"
          then record v { action = "allow" }
          else (if upper == "TCP" || upper == "UDP" || upper == "ICMP"
              then record v { protocol = upper }
              else v))

  -- the loop over the tokens
  unfoldable pub read_tokens : List String → Verdict → Verdict
  unfolding read_token
  read_tokens [] v = v
  read_tokens (tok ∷ toks) v = read_tokens toks (read_token (to_upper u tok) v)

  abbrev lowered : Option String → Option String
  lowered none = none
  lowered (some s) = some (to_lower u s)

  abbrev uppered : Option String → Option String
  uppered none = none
  uppered (some s) = some (to_upper u s)

  -- The header, or what stands for it where there is none.
  unfoldable pub header_of : RawEvent → String → Header
  header_of raw trimmed = elim (match_header trimmed) [
    | some h ↦ h
    | none ↦ record { timestamp = ""; host = or_else raw.source "unknown-host"; body = trimmed }
  ]

  -- what the parser makes of a payload that is not blank
  unfoldable pub syslog_event : Readings → RawEvent → Header → ParsedEvent
  unfolding add_pairs read_tokens
  syslog_event now raw h =
      let kv = add_pairs (find_pairs h.body) empty in
      let said =
        read_tokens (fields h.body) (record { action = "unknown"; protocol = "unknown" }) in
      let action = given (lowered (get kv "ACTION")) said.action in
      let (src_ip, src_port) = address (get kv "SRC") in
      let (dst_ip, dst_port) = address (get kv "DST") in
      record {
        timestamp = syslog_timestamp now h.timestamp;
        source = record {
          type = "firewall";
          vendor = "generic";
          product = "syslog-firewall";
          identifier = or_else raw.source h.host;
        };
        event = record { category = "network"; action = action; severity = severity_of action };
        network = some (record {
          src_ip = src_ip;
          src_port = port_or (number_in (get kv "SPT")) src_port;
          dst_ip = dst_ip;
          dst_port = port_or (number_in (get kv "DPT")) dst_port;
          protocol = given (uppered (get kv "PROTO")) said.protocol;
        });
        user = some (record { username = none });
      }

  -- `Parse`
  unfoldable pub syslog_parse : Readings → RawEvent → Result (Option ParsedEvent)
  unfolding syslog_event header_of
  syslog_parse now raw =
      let trimmed = trim_space raw.payload in
      if trimmed == ""
      then err (message "empty syslog payload")
      else ok (some (syslog_event now raw (header_of raw trimmed)))

  abbrev pub syslog_parser : Parser
  syslog_parser = record { format = "syslog"; parse = syslog_parse }
