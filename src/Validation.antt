-- ===== src/Validation.antt =====
-- internal/validation/validator.go. The JSON Schema library, `os.ReadFile` and the two directions of
-- `encoding/json` are parameters: a document type J, its decoder and encoder, and the compiler.
pub mod Report
pub mod Schema
pub mod Document
pub mod Objects
pub mod Conformity
use log_morph.Common.{
  String, ◌≡◌, ◌↔◌, ◌≢◌, Bool, true, false, Option, none, some, List, [], ◌∷◌, map, arith, refl,
  Error, Result, ok, err, message, error_text, in_context, ◌>>=◌, ◌==◌, if◌then◌else◌,
}
use log_morph.Common.Text.{◌+++◌}
use log_morph.Models.{UniversalEvent}

pub record ValidationError : Type 0 where
  pub field : String
  pub message : String

pub record ValidationResult : Type 0 where
  pub valid : Bool
  pub errors : List ValidationError

-- `Validator`
pub record Validator : Type 0 where
  pub validate : UniversalEvent → ValidationResult
  pub validate_bytes : String → ValidationResult

-- The error of `schema.Validate`: a `*jsonschema.ValidationError` with its causes, or any other.
pub record Violation : Type 0 where
  pub instance_location : String
  pub message : String

pub data SchemaError : Type 0 where
  violated : Violation → List Violation → SchemaError
  other : Error → SchemaError

abbrev field_error : Violation → ValidationError
field_error v = record { field = v.instance_location; message = v.message }

abbrev invalid : List ValidationError → ValidationResult
invalid errors = record { valid = false; errors = errors }

abbrev root_error : String → Error → ValidationResult
root_error what e = invalid (record { field = "root"; message = what +++ error_text e } ∷ [])

-- the body of `ValidateBytes` after `schema.Validate`
unfoldable pub report : Option SchemaError → ValidationResult
report none = record { valid = true; errors = [] }
report (some (violated top [])) = invalid (field_error top ∷ [])
report (some (violated top (c ∷ cs))) = invalid (map field_error (c ∷ cs))
report (some (other e)) = invalid (record { field = "schema"; message = error_text e } ∷ [])

module _ {J : Type 0} (unmarshal : String → Result J) where
  module _ (schema : J → Option SchemaError) where
    pub checked : Result J → ValidationResult
    unfolding report
    checked (ok v) = report (schema v)
    checked (err e) = root_error "invalid JSON: " e

    unfoldable pub validate_bytes : String → ValidationResult
    unfolding checked
    validate_bytes bytes = checked (unmarshal bytes)

    module _ (marshal : UniversalEvent → Result String) where
      pub serialized : Result String → ValidationResult
      unfolding validate_bytes
      serialized (ok bytes) = validate_bytes bytes
      serialized (err e) = root_error "failed to serialize event: " e

      unfoldable pub validate : UniversalEvent → ValidationResult
      unfolding serialized
      validate event = serialized (marshal event)

      abbrev pub schema_validator : Validator
      schema_validator = record { validate = validate; validate_bytes = validate_bytes }

abbrev schema_url : String
schema_url = "universal_event.schema.json"

-- a file that cannot be read counts as empty
abbrev or_empty : Result String → String
or_empty (ok content) = content
or_empty (err _) = ""

-- `NewValidator` up to the compiler: the file's content if there is a path and it can be read, and
-- the embedded schema if that leaves nothing.
unfoldable pub schema_content :
    (read_file : String → Result String) (embedded path : String) → Result String
schema_content read_file embedded path =
    let given = if path == "" then "" else or_empty (read_file path) in
    let content = if given == "" then embedded else given in
    if content == "" then err (message "no schema content available") else ok content

-- `NewValidator`, over the compiler's two steps
unfoldable pub new_validator :
    {K C : Type 0}
    → (read_file : String → Result String) (embedded : String)
    → (add_resource : String → String → Result K) → (compile : K → String → Result C)
    → (path : String) → Result C
unfolding schema_content
new_validator read_file embedded add_resource compile path = do
  content ← schema_content read_file embedded path
  compiler ← in_context "failed to add schema resource" (add_resource schema_url content)
  in_context "failed to compile schema" (compile compiler schema_url)
