-- ===== src/Parsing/Csv/Documents.antt =====
-- A document of a header and one row, from the text to the event.
use log_morph.Common.{
  String, ◌≡◌, refl, sym, ◌∙◌, ap, true, false, Bool-cases, inl, inr, some, List, [], ◌∷◌, ok, ◌==◌,
  eq_iff, eqb_refl, length, suc, if◌then◌else◌,
}
use log_morph.Common.Csv.{read_all}
use log_morph.Common.Csv.Plain.{are_plain}
use log_morph.Common.Csv.Printed.{print_rows, read_all-print_rows}
use log_morph.Common.GoMap.{empty, get, get_or}
use log_morph.Common.Text.{Unicode, trim_space, to_lower, to_upper, or_else}
use log_morph.Models.{RawEvent, ParsedEvent, NetworkInfo, Readings}
use log_morph.Parsing.Csv.{csv_parse, csv_event, csv_network, add_columns, event_of_records}
use log_morph.Parsing.Csv.Columns.{last_value, column_exact}

module _ (u : Unicode) where
  -- The event has the values of the row under their names.
  pub record IsRead (value : String → String) (e : ParsedEvent) : Type 0 where
    pub network : NetworkInfo
    pub has_network : e.network ≡ some network
    pub src_ip : network.src_ip ≡ value "src_ip"
    pub dst_ip : network.dst_ip ≡ value "dst_ip"
    pub protocol : network.protocol ≡ or_else (to_upper u (value "protocol")) "unknown"
    pub action : e.event.action ≡ or_else (to_lower u (value "action")) "unknown"
    pub category : e.event.category ≡ or_else (value "category") "network"
    pub severity :
        e.event.severity
        ≡ or_else (value "severity") (if e.event.action == "deny" then "high" else "info")

  -- the value under a name, or nothing
  abbrev pub value_of : List String → List String → String → String
  value_of header row k = get_or "" (last_value u header row k)

  csv_event-IsRead :
      (now : Readings) (raw : RawEvent) (header row : List String)
      → IsRead (value_of header row) (csv_event u now raw (add_columns u header row empty))
  unfolding csv_event
  csv_event-IsRead now raw header row =
      let look : (k : String)
          → get_or "" (get (add_columns u header row empty) k) ≡ value_of header row k =
        λ k. ap (get_or "") (column_exact u header row k) in
      record {
        network = csv_network u (add_columns u header row empty);
        has_network = refl;
        src_ip = look "src_ip";
        dst_ip = look "dst_ip";
        protocol = ap (λ v. or_else (to_upper u v) "unknown") (look "protocol");
        action = ap (λ v. or_else (to_lower u v) "unknown") (look "action");
        category = ap (λ v. or_else v "network") (look "category");
        severity =
            ap
              (λ v. or_else v (
                if (csv_event u now raw (add_columns u header row empty)).event.action == "deny"
                then "high"
                else "info"))
              (look "severity");
      }

  two_rows :
      (now : Readings) (raw : RawEvent) (header row : List String)
      → length header ≡ length row
      → event_of_records u now raw (ok (header ∷ row ∷ []))
        ≡ ok (some (csv_event u now raw (add_columns u header row empty)))
  unfolding event_of_records
  two_rows now raw header row same = rw (same, eqb_refl (length row)) refl

  not_blank :
      (t h v : String) (hs vs : List String)
      → read_all t ≡ ok ((h ∷ hs) ∷ (v ∷ vs) ∷ [])
      → (t == "") ≡ false
  unfolding read_all
  not_blank t h v hs vs read = elim (Bool-cases (t == "")) [
    | inr other ↦ other
    | inl blank ↦ absurd (clash (sym (ap read_all ((eq_iff t "").0 blank)) ∙ read))
  ]
    where
      clash : ok [] ≡ ok ((h ∷ hs) ∷ (v ∷ vs) ∷ []) → ⊥
      clash same = cc

  -- A payload that is, up to the space around it, a line of column names and a line of as many
  -- values, all plain, is parsed, whatever the order of the columns: addresses, protocol, action,
  -- category and severity are the values under the last column of their name, trimmed, and their
  -- defaults where there is no such value.
  pub csv_document_parses :
      (now : Readings) (raw : RawEvent) (h : String) (hs : List String) (v : String)
      (vs : List String)
      → are_plain (h ∷ hs) ≡ true
      → are_plain (v ∷ vs) ≡ true
      → length hs ≡ length vs
      → trim_space raw.payload ≡ print_rows h hs v vs
      → (e : ParsedEvent) × (csv_parse u now raw ≡ ok (some e))
        × IsRead (value_of (h ∷ hs) (v ∷ vs)) e
  unfolding csv_parse
  csv_document_parses now raw h hs v vs p q same text =
      let read = ap read_all text ∙ read_all-print_rows h hs v vs p q same in
      let filled = not_blank (trim_space raw.payload) h v hs vs read in
      (
        _,
        rw (filled, read) (two_rows now raw (h ∷ hs) (v ∷ vs) (ap suc same)),
        csv_event-IsRead now raw (h ∷ hs) (v ∷ vs),
      )
