-- ===== src/Common/Json/Decode.antt =====
-- What `json.Unmarshal` does with the members of an object and the fields of a struct. One error
-- stands for all of its errors.
use Prim.Native.Char.{code}
use log_morph.Common.{
  ℕ, ◌+◌, String, Bool, true, false, ◌&&◌, Option, none, some, List, [], ◌∷◌, Error, message,
  Result, ok, err, ◌>>=◌, leb, eqb, if◌then◌else◌,
}
use log_morph.Common.Json.{
  Json, null, boolean, number, text, array, object, Members, no_members, member,
}
use log_morph.Common.Json.Parser.{parse}

abbrev pub json_error : Error
json_error = message "cannot unmarshal JSON"

-- `foldName`, where it can meet the ASCII name of a field: the long s and the sign of kelvin fold to
-- letters of ASCII
abbrev fold : ℕ → ℕ
fold n =
    if leb b'A' n && leb n b'Z'
    then n + 32
    else (if eqb n 0x17F then b's' else (if eqb n 0x212A then b'k' else n))

-- the name of a field, in lower case, under the name of a member
abbrev pub names : String → String → Bool
names String.[] String.[] = true
names String.[] (String.◌∷◌ _ _) = false
names (String.◌∷◌ _ _) String.[] = false
names (String.◌∷◌ f fs) (String.◌∷◌ c cs) =
    let rest = names fs cs in eqb (code f) (fold (code c)) && rest

-- a field of type `string`
abbrev pub into_text : Json → String → Result String
into_text null old = ok old
into_text (text s) old = ok s
into_text (boolean _) old = err json_error
into_text (number _) old = err json_error
into_text (array _) old = err json_error
into_text (object _) old = err json_error

abbrev pub or_zero : {A : Type 0} → A → Option A → A
or_zero a none = a
or_zero a (some b) = b

-- the fields of a struct, by their tags, with what each does with a value
abbrev pub Fields : Type 0 → Type 0
Fields A = List (String × (A → Json → Result A))

module _ {A : Type 0} where
  -- A member whose name no field has is skipped.
  unfoldable pub set_field : Fields A → A → String → Json → Result A
  set_field [] a k v = ok a
  set_field ((name, set) ∷ fields) a k v =
      let rest = set_field fields a k v in if names name k then set a v else rest

  -- a field of type `string`, by how it is read and written
  abbrev pub text_field : (A → String) → (A → String → A) → A → Json → Result A
  text_field get put a v = do s ← into_text v (get a); ok (put a s)

module _ {A : Type 0} (fields : Fields A) where
  -- the members one after the other
  unfoldable pub into_struct : A → Members → Result A
  unfolding set_field
  into_struct a no_members = ok a
  into_struct a (member k v ms) = do a' ← set_field fields a k v; into_struct a' ms

  -- a pointer to a struct
  unfoldable pub into_pointer : A → Option A → Json → Result (Option A)
  unfolding into_struct
  into_pointer zero_value old null = ok none
  into_pointer zero_value old (object ms) = do
    a ← into_struct (or_zero zero_value old) ms
    ok (some a)
  into_pointer zero_value old (boolean _) = err json_error
  into_pointer zero_value old (number _) = err json_error
  into_pointer zero_value old (text _) = err json_error
  into_pointer zero_value old (array _) = err json_error

  -- a struct that is not behind a pointer
  unfoldable pub from_json : A → Option Json → Result A
  unfolding into_struct
  from_json zero_value none = err json_error
  from_json zero_value (some null) = ok zero_value
  from_json zero_value (some (object ms)) = into_struct zero_value ms
  from_json zero_value (some (boolean _)) = err json_error
  from_json zero_value (some (number _)) = err json_error
  from_json zero_value (some (text _)) = err json_error
  from_json zero_value (some (array _)) = err json_error

  -- `json.Unmarshal` into a struct
  unfoldable pub unmarshal : A → String → Result A
  unfolding parse from_json
  unmarshal zero_value s = from_json zero_value (parse s)
