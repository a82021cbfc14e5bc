-- ===== src/Common/Csv/Plain.antt =====
-- Rows of plain fields, printed and read back.
use Prim.Native.Char.{Char, code}
use text.Mathlib.TextLemmas.{append_assoc, append-nil, nil-append, cons-append}
use log_morph.Common.{
  String, ◌≡◌, refl, ◌∙◌, ap, Bool, true, false, ◌&&◌, not, List, [], ◌∷◌, ◌++◌, ok, arith, eqb,
}
use log_morph.Common.Text.{◌+++◌, is_space}
use log_morph.Common.Csv.{
  of_char, Mode, at_record, at_field, in_field, in_quotes, after_quote, Scanner, step, scan,
  in_mode, in_plain, field_start,
}

-- neither a comma, a quote, nor the end of a line
abbrev pub is_plain_char : Char → Bool
is_plain_char c =
    not (eqb (code c) b',')
    && not (eqb (code c) b'"')
    && not (eqb (code c) 10)
    && not (eqb (code c) 13)

abbrev pub all_plain : String → Bool
all_plain String.[] = true
all_plain (String.◌∷◌ c s) = is_plain_char c && all_plain s

abbrev pub starts_visible : String → Bool
starts_visible String.[] = false
starts_visible (String.◌∷◌ c s) = not (is_space c)

-- not empty, and no space in front
abbrev pub is_plain : String → Bool
is_plain f = starts_visible f && all_plain f

pub both_true : (a b : Bool) → (a && b) ≡ true → (a ≡ true) × (b ≡ true)
both_true true b h = (refl, h)
both_true false b h = cc

not-true : (a : Bool) → not a ≡ true → a ≡ false
not-true false h = refl
not-true true h = cc

abbrev pub at : Mode → String → List String → List (List String) → Scanner
at mode word row rows = record { mode = mode; word = word; row = row; rows = rows }

step_plain :
    (c : Char) (w : String) (r : List String) (rs : List (List String))
    → is_plain_char c ≡ true
    → step c (at in_field w r rs) ≡ ok (at in_field (w +++ of_char c) r rs)
unfolding step in_mode in_plain
step_plain c w r rs h = ground arith

abbrev pub starts_field : Mode → Bool
starts_field at_record = true
starts_field at_field = true
starts_field _ = false

step_first :
    (m : Mode) (c : Char) (r : List String) (rs : List (List String))
    → starts_field m ≡ true
    → is_space c ≡ false
    → is_plain_char c ≡ true
    → step c (at m "" r rs) ≡ ok (at in_field ("" +++ of_char c) r rs)
unfolding step in_mode field_start
step_first at_field c r rs a h p = ground arith
step_first at_record c r rs a h p = ground arith
step_first in_field c r rs a h p = cc
step_first in_quotes c r rs a h p = cc
step_first after_quote c r rs a h p = cc

pub of_char-append : (c : Char) (s : String) → of_char c +++ s ≡ String.◌∷◌ c s
of_char-append c s = cons-append c "" s ∙ ap (String.◌∷◌ c) (nil-append s)

scan_plain :
    (f t w : String) (r : List String) (rs : List (List String))
    → all_plain f ≡ true
    → scan (ok (at in_field w r rs)) (f +++ t) ≡ scan (ok (at in_field (w +++ f) r rs)) t
unfolding scan
scan_plain String.[] t w r rs h = rw (nil-append t, append-nil w) refl
scan_plain (String.◌∷◌ c f) t w r rs h =
    let (plain, others) = both_true (is_plain_char c) (all_plain f) h in
    ap (scan (ok (at in_field w r rs))) (cons-append c f t)
    ∙ (ap (λ x. scan x (f +++ t)) (step_plain c w r rs plain)
        ∙ (scan_plain f t (w +++ of_char c) r rs others
            ∙ ap (λ x. scan (ok (at in_field x r rs)) t)
                (append_assoc w (of_char c) f ∙ ap (λ x. w +++ x) (of_char-append c f))))

scan_field :
    (m : Mode) (f t : String) (r : List String) (rs : List (List String))
    → starts_field m ≡ true
    → is_plain f ≡ true
    → scan (ok (at m "" r rs)) (f +++ t) ≡ scan (ok (at in_field f r rs)) t
unfolding scan
scan_field m String.[] t r rs at_m h = cc
scan_field m (String.◌∷◌ c f) t r rs at_m h =
    let (shown, rest) = both_true (not (is_space c)) (all_plain (String.◌∷◌ c f)) h in
    let visible = not-true (is_space c) shown in
    let (plain, others) = both_true (is_plain_char c) (all_plain f) rest in
    ap (scan (ok (at m "" r rs))) (cons-append c f t)
    ∙ (ap (λ x. scan x (f +++ t)) (step_first m c r rs at_m visible plain)
        ∙ (scan_plain f t ("" +++ of_char c) r rs others
            ∙ ap (λ x. scan (ok (at in_field x r rs)) t)
                (append_assoc "" (of_char c) f ∙ (nil-append _ ∙ of_char-append c f))))

-- a row, printed
abbrev pub print_row : String → List String → String
print_row f [] = f
print_row f (g ∷ fs) = f +++ ("," +++ print_row g fs)

abbrev pub are_plain : List String → Bool
are_plain [] = true
are_plain (f ∷ fs) = is_plain f && are_plain fs

abbrev pub last : String → List String → String
last f [] = f
last f (g ∷ fs) = last g fs

abbrev pub before : String → List String → List String
before f [] = []
before f (g ∷ fs) = f ∷ before g fs

append_one : (r : List String) (f : String) (fs : List String) → (r ++ f ∷ []) ++ fs ≡ r ++ f ∷ fs
append_one [] f fs = refl
append_one (x ∷ r) f fs = ap (◌∷◌ x) (append_one r f fs)

append_none : (r : List String) → r ≡ r ++ []
append_none [] = refl
append_none (x ∷ r) = ap (◌∷◌ x) (append_none r)

pub before-last : (f : String) (fs : List String) → before f fs ++ last f fs ∷ [] ≡ f ∷ fs
before-last f [] = refl
before-last f (g ∷ fs) = ap (◌∷◌ f) (before-last g fs)

comma : (s t : String) → ("," +++ s) +++ t ≡ String.◌∷◌ "," (s +++ t)
comma s t = append_assoc "," s t ∙ of_char-append "," (s +++ t)

pub scan_row :
    (m : Mode) (f : String) (fs : List String) (t : String) (r : List String)
    (rs : List (List String))
    → starts_field m ≡ true
    → are_plain (f ∷ fs) ≡ true
    → scan (ok (at m "" r rs)) (print_row f fs +++ t)
      ≡ scan (ok (at in_field (last f fs) (r ++ before f fs) rs)) t
unfolding scan step in_mode in_plain
scan_row m f [] t r rs at_m h =
    let plain = (both_true (is_plain f) true h).0 in
    scan_field m f t r rs at_m plain ∙ ap (λ x. scan (ok (at in_field f x rs)) t) (append_none r)
scan_row m f (g ∷ fs) t r rs at_m h =
    let (plain, others) = both_true (is_plain f) (are_plain (g ∷ fs)) h in
    ap (scan (ok (at m "" r rs))) (append_assoc f ("," +++ print_row g fs) t)
    ∙ (scan_field m f (("," +++ print_row g fs) +++ t) r rs at_m plain
        ∙ (ap (scan (ok (at in_field f r rs))) (comma (print_row g fs) t)
            ∙ (scan_row at_field g fs t (r ++ f ∷ []) rs refl others
                ∙ ap (λ x. scan (ok (at in_field (last g fs) x rs)) t)
                    (append_one r f (before g fs)))))
