-- ===== src/Parsing/Csv/Columns.antt =====
-- Columns by name, whatever their order.
use log_morph.Common.{
  String, ◌≡◌, refl, ◌∙◌, ap, Bool, true, false, Option, none, some, List, [], ◌∷◌, ◌==◌,
  if◌then◌else◌,
}
use log_morph.Common.GoMap.{Map, empty, get, get-put}
use log_morph.Common.Text.{Unicode, trim_space, to_lower}
use log_morph.Parsing.Csv.{add_columns}

abbrev pub some_or : Option String → Option String → Option String
some_or (some v) old = some v
some_or none old = old

module _ (u : Unicode) where
  -- the value under the last column of that name, trimmed
  abbrev pub last_value : List String → List String → String → Option String
  last_value [] row k = none
  last_value (col ∷ header) [] k = none
  last_value (col ∷ header) (v ∷ row) k =
      some_or (last_value header row k)
        (if to_lower u (trim_space col) == k then some (trim_space v) else none)

  some_or-if :
      (o : Option String) (b : Bool) (v : String) (old : Option String)
      → some_or o (if b then some v else old) ≡ some_or (some_or o (if b then some v else none)) old
  some_or-if (some x) b v old = refl
  some_or-if none true v old = refl
  some_or-if none false v old = refl

  get-add_columns :
      (header row : List String) (m : Map String) (k : String)
      → get (add_columns u header row m) k ≡ some_or (last_value header row k) (get m k)
  unfolding add_columns
  get-add_columns [] row m k = refl
  get-add_columns (col ∷ header) [] m k = refl
  get-add_columns (col ∷ header) (v ∷ row) m k =
      get-add_columns header row _ k
      ∙ (ap (some_or (last_value header row k))
            (get-put m (to_lower u (trim_space col)) (trim_space v) k)
          ∙ some_or-if (last_value header row k) _ _ _)

  some_or-none : (o : Option String) → some_or o none ≡ o
  some_or-none (some v) = refl
  some_or-none none = refl

  -- What the parser finds under a name is the value under the last column of that name.
  pub column_exact :
      (header row : List String) (k : String)
      → get (add_columns u header row empty) k ≡ last_value header row k
  unfolding get
  column_exact header row k = get-add_columns header row empty k ∙ some_or-none _
