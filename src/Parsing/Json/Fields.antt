-- ===== src/Parsing/Json/Fields.antt =====
-- What the JSON parser reads, field by field.
use log_morph.Common.{
  String, ◌≡◌, ◌≢◌, refl, ap, ◌∙◌, Bool, true, false, ◌&&◌, Option, none, some, [], ◌∷◌, ◌++◌,
  Result, ok, arith, ◌==◌, eq_iff, if◌then◌else◌,
}
use log_morph.Common.Text.{Unicode, trim_space, to_lower, to_upper, or_else}
use log_morph.Models.{RawEvent, ParsedEvent, Readings, NetworkInfo}
use log_morph.Parsing.Json.Schema.{JsonFirewall, JsonNetwork, JsonLogSchema}
use log_morph.Parsing.Json.{
  source_endpoint, destination_endpoint, json_action, json_protocol, json_severity, json_event,
  json_parse, is_blocked, lower_or, upper_or, firewall_action, firewall_protocol, firewall_severity,
  firewall_category, network_protocol, gives_no_severity,
}
use log_morph.Parsing.Json.Precedence.{
  first_given, first_port, of, to_lower-nonempty, to_upper-nonempty, side_exact, actions, protocols,
  severities, categories, source_ips, source_ports, destination_ips, destination_ports,
}

module _ (u : Unicode) where
  action_exact :
      (a : String) (f : Option JsonFirewall)
      → lower_or u a (firewall_action u f)
        ≡ first_given (to_lower u a ∷ of f (λ x. to_lower u x.action) ++ "unknown" ∷ [])
  action_exact a none = rw (to_lower-nonempty u a)
  action_exact a (some f) = rw (to_lower-nonempty u a, to_lower-nonempty u f.action)

  protocol_exact :
      (a : String) (f : Option JsonFirewall)
      → upper_or u a (firewall_protocol u f)
        ≡ first_given (to_upper u a ∷ of f (λ x. to_upper u x.protocol) ++ "unknown" ∷ [])
  protocol_exact a none = rw (to_upper-nonempty u a)
  protocol_exact a (some f) = rw (to_upper-nonempty u a, to_upper-nonempty u f.protocol)

  network_protocol_exact :
      (n : Option JsonNetwork) (a : String) (f : Option JsonFirewall)
      → network_protocol u n (upper_or u a (firewall_protocol u f))
        ≡ first_given (
            of n (λ x. to_upper u x.protocol)
            ++ to_upper u a ∷ of f (λ x. to_upper u x.protocol)
            ++ "unknown" ∷ [])
  network_protocol_exact none a f = protocol_exact a f
  network_protocol_exact (some n) a f = rw (to_upper-nonempty u n.protocol, protocol_exact a f)

  category_exact :
      (c : String) (f : Option JsonFirewall)
      → or_else c (firewall_category u f)
        ≡ first_given (c ∷ of f (λ x. x.category) ++ "network" ∷ [])
  category_exact c none = refl
  category_exact c (some f) = refl

  severity_exact :
      (blocked : Bool) (s : String) (f : Option JsonFirewall)
      → (if blocked && gives_no_severity u f && s == ""
          then "high"
          else or_else s (firewall_severity u f))
        ≡ first_given (s ∷ of f (λ x. x.severity) ++ (if blocked then "high" else "info") ∷ [])
  severity_exact true s none = ground arith
  severity_exact true s (some f) = ground (arith, eq_iff f.severity "", eq_iff s "")
  severity_exact false s none = refl
  severity_exact false s (some f) = refl

  -- The event takes each field from the first place that gives it.
  pub record IsReadOf (d : JsonLogSchema) (e : ParsedEvent) : Type 0 where
    pub network : NetworkInfo
    pub has_network : e.network ≡ some network
    pub src_ip : network.src_ip ≡ first_given (source_ips d)
    pub src_port : network.src_port ≡ first_port (source_ports d)
    pub dst_ip : network.dst_ip ≡ first_given (destination_ips d)
    pub dst_port : network.dst_port ≡ first_port (destination_ports d)
    pub protocol : network.protocol ≡ first_given (protocols u d)
    pub action : e.event.action ≡ first_given (actions u d)
    pub severity : e.event.severity ≡ first_given (severities u d)
    pub category : e.event.category ≡ first_given (categories u d)

  json_event-IsReadOf :
      (now : Readings) (raw : RawEvent) (d : JsonLogSchema) → IsReadOf d (json_event u now raw d)
  unfolding json_event json_action json_protocol json_severity source_endpoint destination_endpoint
  json_event-IsReadOf now raw d =
      let src =
        side_exact d.network (λ n. n.source) (λ n. n.src_ip) (λ n. n.src_port) d.src_ip d.source_ip
          d.src_port d.source_port in
      let dst =
        side_exact d.network (λ n. n.destination) (λ n. n.dst_ip) (λ n. n.dst_port) d.dst_ip
          d.destination_ip d.dst_port d.destination_port in
      record {
        network = record {
          src_ip = (source_endpoint d).ip;
          src_port = (source_endpoint d).port;
          dst_ip = (destination_endpoint d).ip;
          dst_port = (destination_endpoint d).port;
          protocol = json_protocol u d;
        };
        has_network = refl;
        src_ip = src.0;
        src_port = src.1;
        dst_ip = dst.0;
        dst_port = dst.1;
        protocol = network_protocol_exact d.network d.protocol d.firewall;
        action = action_exact d.action d.firewall;
        severity =
            severity_exact (is_blocked u (json_action u d)) d.severity d.firewall
            ∙ ap
                (λ a. first_given (
                  d.severity ∷ of d.firewall (λ x. x.severity)
                  ++ (if is_blocked u a then "high" else "info") ∷ []))
                (action_exact d.action d.firewall);
        category = category_exact d.category d.firewall;
      }

  -- A payload that is not blank and unmarshals is always parsed. Of each field the first value that
  -- is given wins: of an address and a port, the object inside `network`, then `network`, then the
  -- short and then the long name at the top; of the protocol, `network` before the top; of action,
  -- protocol, category and severity, the top before `firewall`. A blocking action without a severity
  -- is high.
  pub json_parse_exact :
      (unmarshal : String → Result JsonLogSchema) (now : Readings) (raw : RawEvent)
      (d : JsonLogSchema)
      → trim_space raw.payload ≢ ""
      → unmarshal (trim_space raw.payload) ≡ ok d
      → (e : ParsedEvent) × (json_parse u unmarshal now raw ≡ ok (some e)) × IsReadOf d e
  unfolding json_parse
  json_parse_exact unmarshal now raw d not_blank read =
      let not_empty : (trim_space raw.payload == "") ≡ false =
        ground (arith, eq_iff (trim_space raw.payload) "") in
      (_, rw (not_empty, read) refl, json_event-IsReadOf now raw d)
