-- ===== src/Parsing/Json/Unmarshal.antt =====
-- `json.Unmarshal` into `jsonLogSchema` of internal/parsing/parsers/json.go. What `int(v)` is of the
-- `float64` of a number is a parameter; it is `none` where the number is out of range.
use log_morph.Common.{
  String, Bool, true, false, ◌&&◌, Option, none, some, [], ◌∷◌, Result, ok, err, ◌>>=◌, is_none,
  not,
}
use log_morph.Common.Integer.{ℤ}
use log_morph.Common.Json as Values
use log_morph.Common.Json.{
  Json, boolean, array, object, Items, no_items, item, Members, no_members, member,
}
use log_morph.Common.Json.Decode.{Fields, text_field, json_error, into_pointer, unmarshal}
use log_morph.Parsing.Json.Schema.{
  Any, null, number, text, other, JsonSource, JsonFirewall, JsonEndpoint, JsonNetwork,
  JsonLogSchema,
}

-- the zero value of the schema
abbrev pub empty_log : JsonLogSchema
empty_log = record {
  timestamp = "";
  source = none;
  firewall = none;
  network = none;
  user = none;
  action = "";
  protocol = "";
  category = "";
  severity = "";
  src_ip = "";
  src_port = null;
  dst_ip = "";
  dst_port = null;
  source_ip = "";
  destination_ip = "";
  source_port = null;
  destination_port = null;
}

module _ (to_int : String → Option ℤ) where
  mutual
    -- every number of a value has a `float64`
    in_range : Json → Bool
    in_range Values.null = true
    in_range (boolean _) = true
    in_range (Values.number t) = not (is_none (to_int t))
    in_range (Values.text _) = true
    in_range (array vs) = items_in_range vs
    in_range (object ms) = members_in_range ms

    items_in_range : Items → Bool
    items_in_range no_items = true
    items_in_range (item v vs) = in_range v && items_in_range vs

    members_in_range : Members → Bool
    members_in_range no_members = true
    members_in_range (member _ v ms) = in_range v && members_in_range ms

  abbrev as_number : Option ℤ → Result Any
  as_number none = err json_error
  as_number (some n) = ok (number n)

  abbrev if_in_range : Bool → Result Any
  if_in_range true = ok other
  if_in_range false = err json_error

  -- an `interface{}`
  unfoldable pub into_any : Json → Result Any
  unfolding in_range items_in_range members_in_range
  into_any Values.null = ok null
  into_any (boolean _) = ok other
  into_any (Values.number t) = as_number (to_int t)
  into_any (Values.text s) = ok (text s)
  into_any (array vs) = if_in_range (items_in_range vs)
  into_any (object ms) = if_in_range (members_in_range ms)

  module _ {A : Type 0} where
    abbrev any_field : (A → Any → A) → A → Json → Result A
    any_field put a v = do x ← into_any v; ok (put a x)

  module _ {A C : Type 0} where
    -- a pointer to a struct of its own
    abbrev struct_field : Fields C → C → (A → Option C) → (A → Option C → A) → A → Json → Result A
    struct_field fields zero_value get put a v = do
      c ← into_pointer fields zero_value (get a) v
      ok (put a c)

  source_fields : Fields JsonSource
  source_fields =
      ("identifier", text_field (λ a. a.identifier) (λ a s. record a { identifier = s }))
      ∷ ("vendor", text_field (λ a. a.vendor) (λ a s. record a { vendor = s }))
      ∷ ("product", text_field (λ a. a.product) (λ a s. record a { product = s }))
      ∷ ("type", text_field (λ a. a.type) (λ a s. record a { type = s }))
      ∷ []

  firewall_fields : Fields JsonFirewall
  firewall_fields =
      ("action", text_field (λ a. a.action) (λ a s. record a { action = s }))
      ∷ ("protocol", text_field (λ a. a.protocol) (λ a s. record a { protocol = s }))
      ∷ ("category", text_field (λ a. a.category) (λ a s. record a { category = s }))
      ∷ ("severity", text_field (λ a. a.severity) (λ a s. record a { severity = s }))
      ∷ []

  endpoint_fields : Fields JsonEndpoint
  unfolding into_any
  endpoint_fields =
      ("ip", text_field (λ a. a.ip) (λ a s. record a { ip = s }))
      ∷ ("port", any_field (λ a x. record a { port = x }))
      ∷ []

  abbrev no_endpoint : JsonEndpoint
  no_endpoint = record { ip = ""; port = null }

  network_fields : Fields JsonNetwork
  unfolding endpoint_fields
  network_fields =
      ("protocol", text_field (λ a. a.protocol) (λ a s. record a { protocol = s }))
      ∷ ("src_ip", text_field (λ a. a.src_ip) (λ a s. record a { src_ip = s }))
      ∷ ("src_port", any_field (λ a x. record a { src_port = x }))
      ∷ ("dst_ip", text_field (λ a. a.dst_ip) (λ a s. record a { dst_ip = s }))
      ∷ ("dst_port", any_field (λ a x. record a { dst_port = x }))
      ∷ (
        "source",
        struct_field endpoint_fields no_endpoint (λ a. a.source) (λ a c. record a { source = c }),
      )
      ∷ (
        "destination",
        struct_field endpoint_fields no_endpoint (λ a. a.destination)
            (λ a c. record a { destination = c }),
      )
      ∷ []

  -- a `*string`
  abbrev into_string_pointer : Json → Result (Option String)
  into_string_pointer Values.null = ok none
  into_string_pointer (Values.text s) = ok (some s)
  into_string_pointer (boolean _) = err json_error
  into_string_pointer (Values.number _) = err json_error
  into_string_pointer (array _) = err json_error
  into_string_pointer (object _) = err json_error

  user_fields : Fields (Option String)
  user_fields = ("username", λ a v. into_string_pointer v) ∷ []

  unfoldable pub log_fields : Fields JsonLogSchema
  unfolding source_fields firewall_fields network_fields user_fields into_any into_pointer
  log_fields =
      ("timestamp", text_field (λ a. a.timestamp) (λ a s. record a { timestamp = s }))
      ∷ (
        "source",
        struct_field source_fields
            (record { identifier = ""; vendor = ""; product = ""; type = "" }) (λ a. a.source)
            (λ a c. record a { source = c }),
      )
      ∷ (
        "firewall",
        struct_field firewall_fields
            (record { action = ""; protocol = ""; category = ""; severity = "" }) (λ a. a.firewall)
            (λ a c. record a { firewall = c }),
      )
      ∷ (
        "network",
        struct_field network_fields
            (record {
              protocol = "";
              src_ip = "";
              src_port = null;
              dst_ip = "";
              dst_port = null;
              source = none;
              destination = none;
            })
            (λ a. a.network) (λ a c. record a { network = c }),
      )
      ∷ ("user", struct_field user_fields none (λ a. a.user) (λ a c. record a { user = c }))
      ∷ ("action", text_field (λ a. a.action) (λ a s. record a { action = s }))
      ∷ ("protocol", text_field (λ a. a.protocol) (λ a s. record a { protocol = s }))
      ∷ ("category", text_field (λ a. a.category) (λ a s. record a { category = s }))
      ∷ ("severity", text_field (λ a. a.severity) (λ a s. record a { severity = s }))
      ∷ ("src_ip", text_field (λ a. a.src_ip) (λ a s. record a { src_ip = s }))
      ∷ ("src_port", any_field (λ a x. record a { src_port = x }))
      ∷ ("dst_ip", text_field (λ a. a.dst_ip) (λ a s. record a { dst_ip = s }))
      ∷ ("dst_port", any_field (λ a x. record a { dst_port = x }))
      ∷ ("source_ip", text_field (λ a. a.source_ip) (λ a s. record a { source_ip = s }))
      ∷ (
        "destination_ip",
        text_field (λ a. a.destination_ip) (λ a s. record a { destination_ip = s }),
      )
      ∷ ("source_port", any_field (λ a x. record a { source_port = x }))
      ∷ ("destination_port", any_field (λ a x. record a { destination_port = x }))
      ∷ []

  unfoldable pub unmarshal_log : String → Result JsonLogSchema
  unfolding unmarshal log_fields
  unmarshal_log s = unmarshal log_fields empty_log s
