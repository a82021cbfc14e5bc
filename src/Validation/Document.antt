-- ===== src/Validation/Document.antt =====
-- The JSON value that `json.Marshal` makes of a universal event, by the tags of internal/models/event.go.
use log_morph.Common.{String, Option, none, some, ◌==◌, if◌then◌else◌}
use log_morph.Common.Integer.{ℤ}
use log_morph.Models.{SourceInfo, EventInfo, NetworkInfo, UserInfo, UniversalEvent}
use log_morph.Validation.Schema.{Value, Fields, null, text, integer, object, end, field}

-- a text with `omitempty`
unfoldable pub text_unless_empty : String → String → Fields → Fields
text_unless_empty k s rest = if s == "" then rest else field k (text s) rest

-- a pointer to an int with `omitempty`
unfoldable pub integer_unless_nil : String → Option ℤ → Fields → Fields
integer_unless_nil k none rest = rest
integer_unless_nil k (some n) rest = field k (integer n) rest

unfoldable pub source_value : SourceInfo → Value
source_value s = object (
    text_unless_empty "type" s.type (
      text_unless_empty "vendor" s.vendor
        (text_unless_empty "product" s.product (text_unless_empty "identifier" s.identifier end))))

unfoldable pub event_value : EventInfo → Value
event_value e = object (
    text_unless_empty "category" e.category
      (text_unless_empty "action" e.action (text_unless_empty "severity" e.severity end)))

unfoldable pub network_value : NetworkInfo → Value
network_value n = object (
    text_unless_empty "src_ip" n.src_ip (
      integer_unless_nil "src_port" n.src_port (
        text_unless_empty "dst_ip" n.dst_ip (
          integer_unless_nil "dst_port" n.dst_port (text_unless_empty "protocol" n.protocol end)))))

abbrev text_or_null : Option String → Value
text_or_null none = null
text_or_null (some s) = text s

unfoldable pub user_value : UserInfo → Value
user_value u = object (field "username" (text_or_null u.username) end)

abbrev network_field : Option NetworkInfo → Fields → Fields
network_field none rest = rest
network_field (some n) rest = field "network" (network_value n) rest

abbrev user_field : Option UserInfo → Fields → Fields
user_field none rest = rest
user_field (some u) rest = field "user" (user_value u) rest

-- `json.Marshal` of a universal event, as a value
unfoldable pub event_document : UniversalEvent → Value
unfolding source_value event_value
event_document e = object (
    field "event_id" (text e.event_id) (
      field "schema_version" (text e.schema_version) (
        field "timestamp" (text e.timestamp) (
          field "source" (source_value e.source) (
            field "event" (event_value e.event) (
              network_field e.network (
                user_field e.user (
                  field "raw"
                    (object (
                      field "format" (text e.raw.format)
                        (field "message" (text e.raw.message) end)))
                    (field "metadata"
                      (object (
                        field "parser_version" (text e.metadata.parser_version)
                          (field "ingested_at" (text e.metadata.ingested_at) end)))
                      end)))))))))
