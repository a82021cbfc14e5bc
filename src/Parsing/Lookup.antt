-- ===== src/Parsing/Lookup.antt =====
-- Which parser an event meets.
use log_morph.Common.{String, ◌≡◌, not, ◌&&◌, some, ok, arith, ◌==◌, eq_iff, if◌then◌else◌}
use log_morph.Common.Text.{Unicode}
use log_morph.Common.GoMap.{get-put}
use log_morph.Parsing.{Parser, Registry, normalize_format, register, get_parser}

module _ (u : Unicode) where
  -- After `Register`, `Get` finds the new parser under every spelling of its format, up to case
  -- and outer white space, and finds what it found before under every other; a parser whose
  -- format is blank is not registered.
  pub get_parser-register :
      (r : Registry) (p : Parser) (format : String)
      → let key = normalize_format u p.format in
        let sought = normalize_format u format in
        get_parser u (register u r (some p)) format
        ≡ (if key == sought && not (sought == "") then ok p else get_parser u r format)
  unfolding get_parser register
  get_parser-register r p format =
      let key = normalize_format u p.format in
      let sought = normalize_format u format in
      ground
        (arith, get-put r.parsers key p sought, eq_iff key sought, eq_iff key "", eq_iff sought "")
