-- ===== src/Common/Csv/Printed.antt =====
-- Two printed rows, read back by `ReadAll`.
use Prim.Native.Char.{code}
use text.Mathlib.TextLemmas.{append-nil, nil-append, cons-append}
use log_morph.Common.{
  suc, String, ◌≡◌, refl, sym, ◌∙◌, ap, Bool, true, false, ◌&&◌, not, List, [], ◌∷◌, ok, arith, eqb,
  eqb_refl, length,
}
use log_morph.Common.Text.{◌+++◌}
use log_morph.Common.Csv.{
  at_record, in_field, step, scan, normalize_newlines, first_scanner, read_all, starts_line, finish,
  finish_in, in_mode, in_plain,
}
use log_morph.Common.Csv.Plain.{
  at, scan_row, of_char-append, before-last, last, before, starts_visible, both_true, all_plain,
  is_plain, print_row, are_plain,
}

abbrev has_no_return : String → Bool
has_no_return String.[] = true
has_no_return (String.◌∷◌ c s) = not (eqb (code c) 13) && has_no_return s

normalize_newlines-id : (t : String) → has_no_return t ≡ true → normalize_newlines t ≡ t
unfolding normalize_newlines
normalize_newlines-id String.[] h = refl
normalize_newlines-id (String.◌∷◌ c t) h =
    let keep : (eqb (code c) 13 && starts_line t) ≡ false = ground arith in
    let others : has_no_return t ≡ true = ground arith in
    rw (keep, normalize_newlines-id t others) refl

has_no_return-append :
    (s t : String)
    → has_no_return s ≡ true
    → has_no_return t ≡ true
    → has_no_return (s +++ t) ≡ true
has_no_return-append String.[] t p q = rw (nil-append t) q
has_no_return-append (String.◌∷◌ c s) t p q =
    let first : eqb (code c) 13 ≡ false = ground arith in
    let others : has_no_return s ≡ true = ground arith in
    rw (cons-append c s t, first, has_no_return-append s t others q) refl

all_plain-has_no_return : (f : String) → all_plain f ≡ true → has_no_return f ≡ true
all_plain-has_no_return String.[] h = refl
all_plain-has_no_return (String.◌∷◌ c f) h =
    let others : all_plain f ≡ true = ground arith in
    ground (arith, all_plain-has_no_return f others)

is_plain-has_no_return : (f : String) → is_plain f ≡ true → has_no_return f ≡ true
is_plain-has_no_return f h =
    all_plain-has_no_return f (both_true (starts_visible f) (all_plain f) h).1

print_row-has_no_return :
    (f : String) (fs : List String)
    → are_plain (f ∷ fs) ≡ true
    → has_no_return (print_row f fs) ≡ true
print_row-has_no_return f [] h =
    let plain = (both_true (is_plain f) true h).0 in is_plain-has_no_return f plain
print_row-has_no_return f (g ∷ fs) h =
    let (plain, others) = both_true (is_plain f) (are_plain (g ∷ fs)) h in
    has_no_return-append f ("," +++ print_row g fs) (is_plain-has_no_return f plain)
      (has_no_return-append "," (print_row g fs) refl (print_row-has_no_return g fs others))

-- two rows, a line each
abbrev pub print_rows : String → List String → String → List String → String
print_rows h hs v vs = print_row h hs +++ ("\n" +++ print_row v vs)

first_line :
    (h : String) (hs : List String) (t : String)
    → scan (ok (at in_field (last h hs) (before h hs) [])) (String.◌∷◌ "\n" t)
      ≡ scan (ok (at at_record "" [] ((h ∷ hs) ∷ []))) t
unfolding scan step in_mode in_plain
first_line h hs t = ap (λ row. scan (ok (at at_record "" [] (row ∷ []))) t) (before-last h hs)

last_line :
    (first : List String) (v : String) (vs : List String)
    → eqb (length (v ∷ vs)) (length first) ≡ true
    → scan (ok (at in_field (last v vs) (before v vs) (first ∷ []))) "" ≡ ok (first ∷ (v ∷ vs) ∷ [])
unfolding scan finish finish_in
last_line first v vs same = rw (before-last v vs, same) refl

-- Two rows of equally many plain fields are read back as they were printed.
pub read_all-print_rows :
    (h : String) (hs : List String) (v : String) (vs : List String)
    → are_plain (h ∷ hs) ≡ true
    → are_plain (v ∷ vs) ≡ true
    → length hs ≡ length vs
    → read_all (print_rows h hs v vs) ≡ ok ((h ∷ hs) ∷ (v ∷ vs) ∷ [])
unfolding read_all
read_all-print_rows h hs v vs p q same =
    ap (scan (ok first_scanner)) (normalize_newlines-id (print_rows h hs v vs) clean)
    ∙ (scan_row at_record h hs ("\n" +++ print_row v vs) [] [] refl p
        ∙ (ap (scan (ok (at in_field (last h hs) (before h hs) [])))
              (of_char-append "\n" (print_row v vs))
            ∙ (first_line h hs (print_row v vs)
                ∙ (ap (scan (ok (at at_record "" [] ((h ∷ hs) ∷ []))))
                      (sym (append-nil (print_row v vs)))
                    ∙ (scan_row at_record v vs "" [] ((h ∷ hs) ∷ []) refl q
                        ∙ last_line (h ∷ hs) v vs (as_wide))))))
  where
    as_wide : eqb (length (v ∷ vs)) (length (h ∷ hs)) ≡ true
    as_wide = rw same (eqb_refl (suc (length vs)))

    clean : has_no_return (print_rows h hs v vs) ≡ true
    clean =
        has_no_return-append (print_row h hs) ("\n" +++ print_row v vs)
          (print_row-has_no_return h hs p)
          (has_no_return-append "\n" (print_row v vs) refl (print_row-has_no_return v vs q))
