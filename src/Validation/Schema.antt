-- ===== src/Validation/Schema.antt =====
-- internal/validation/universal_event.schema.json, with what its keywords mean in JSON Schema.
use log_morph.Common.{
  ℕ, String, Bool, true, false, ◌&&◌, ◌||◌, Option, none, some, List, [], ◌∷◌, leb, ◌==◌,
  if◌then◌else◌,
}
use log_morph.Common.Integer.{ℤ, pos, negsuc}

mutual
  pub data Value : Type 0 where
    null : Value
    text : String → Value
    integer : ℤ → Value
    object : Fields → Value

  pub data Fields : Type 0 where
    end : Fields
    field : String → Value → Fields → Fields

pub data Kind : Type 0 where
  a_null a_text an_integer an_object : Kind

-- The keywords: `type`, `minLength: 1`, `enum` with one text, `minimum` 0 with a `maximum`, `required`
-- and `properties`.
mutual
  pub data Schema : Type 0 where
    schema : List Kind → Bool → Option String → Option ℕ → List String → Properties → Schema

  pub data Properties : Type 0 where
    done : Properties
    property : String → Schema → Properties → Properties

abbrev kind_of : Value → Kind → Bool
kind_of null a_null = true
kind_of (text _) a_text = true
kind_of (integer _) an_integer = true
kind_of (object _) an_object = true
kind_of _ _ = false

abbrev of_kinds : List Kind → Value → Bool
of_kinds [] v = false
of_kinds (k ∷ ks) v = kind_of v k || of_kinds ks v

abbrev long_enough : Bool → Value → Bool
long_enough true (text s) = if s == "" then false else true
long_enough _ _ = true

abbrev is_member : Option String → Value → Bool
is_member none v = true
is_member (some s) (text t) = t == s
is_member (some s) _ = false

abbrev within : Option ℕ → Value → Bool
within (some m) (integer (pos n)) = leb n m
within (some m) (integer (negsuc _)) = false
within _ _ = true

unfoldable pub lookup : Fields → String → Option Value
lookup end k = none
lookup (field j v fs) k = let rest = lookup fs k in if j == k then some v else rest

abbrev is_present : Option Value → Bool
is_present none = false
is_present (some _) = true

abbrev has_all : List String → Fields → Bool
has_all [] fs = true
has_all (k ∷ ks) fs = is_present (lookup fs k) && has_all ks fs

abbrev has_required : List String → Value → Bool
has_required ks (object fs) = has_all ks fs
has_required ks _ = true

abbrev fields_of : Value → Fields
fields_of (object fs) = fs
fields_of _ = end

abbrev pub if_present : (Value → Bool) → Option Value → Bool
if_present p none = true
if_present p (some v) = p v

unfoldable mutual
  pub accepts : Schema → Value → Bool
  accepts (schema kinds non_empty enum max required properties) v =
      of_kinds kinds v
      && long_enough non_empty v
      && is_member enum v
      && within max v
      && has_required required v
      && accepts_fields properties (fields_of v)

  pub accepts_fields : Properties → Fields → Bool
  accepts_fields done fs = true
  accepts_fields (property k s ps) fs =
      if_present (λ v. accepts s v) (lookup fs k) && accepts_fields ps fs

-- `{"type": kinds}`
abbrev pub of_type : List Kind → Schema
of_type kinds = schema kinds false none none [] done

abbrev pub nullable_text : Schema
nullable_text = of_type (a_text ∷ a_null ∷ [])

abbrev pub port : Schema
port = schema (an_integer ∷ a_null ∷ []) false none (some 65_535) [] done

abbrev pub source_schema : Schema
source_schema = schema (an_object ∷ []) false none none [] (
    property "type" nullable_text (
      property "vendor" nullable_text
        (property "product" nullable_text (property "identifier" nullable_text done))))

abbrev pub event_schema : Schema
event_schema = schema (an_object ∷ []) false none none [] (
    property "category" nullable_text
      (property "action" nullable_text (property "severity" nullable_text done)))

abbrev pub network_schema : Schema
network_schema = schema (an_object ∷ a_null ∷ []) false none none [] (
    property "src_ip" nullable_text (
      property "src_port" port (
        property "dst_ip" nullable_text
          (property "dst_port" port (property "protocol" nullable_text done)))))

abbrev pub user_schema : Schema
user_schema =
    schema (an_object ∷ a_null ∷ []) false none none [] (property "username" nullable_text done)

abbrev pub raw_schema : Schema
raw_schema =
    schema (an_object ∷ []) false none none ("format" ∷ "message" ∷ [])
      (property "format" (of_type (a_text ∷ [])) (property "message" (of_type (a_text ∷ [])) done))

abbrev pub metadata_schema : Schema
metadata_schema = schema (an_object ∷ []) false none none ("parser_version" ∷ "ingested_at" ∷ []) (
    property "parser_version" (of_type (a_text ∷ []))
      (property "ingested_at" (of_type (a_text ∷ [])) done))

-- the schema of the file
abbrev pub universal_event_schema : Schema
universal_event_schema =
    schema (an_object ∷ []) false none none
      ("event_id" ∷ "schema_version" ∷ "timestamp" ∷ "source" ∷ "event" ∷ "raw" ∷ "metadata" ∷ [])
      (property "event_id" (schema (a_text ∷ []) true none none [] done) (
        property "schema_version" (schema (a_text ∷ []) false (some "1.0") none [] done) (
          property "timestamp" (of_type (a_text ∷ [])) (
            property "source" source_schema (
              property "event" event_schema (
                property "network" network_schema (
                  property "user" user_schema
                    (property "raw" raw_schema (property "metadata" metadata_schema done)))))))))
