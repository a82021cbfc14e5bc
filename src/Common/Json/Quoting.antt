-- ===== src/Common/Json/Quoting.antt =====
-- A string literal that has been written is read as the string.
use Prim.Native.Char.{Char, char, code}
use Prim.Native.Nat.{Ordering}
use package.text.Mathlib.TextLemmas.{append-nil, append_assoc, cons-append, nil-append}
use log_morph.Common.{
  ℕ, zero, suc, ◌+◌, ◌*◌, ◌/◌, ◌%◌, ◌<◌, String, ◌≡◌, refl, sym, ap, ◌∙◌, Bool, true, false, ◌||◌,
  none, some, [], ◌∷◌, ltb, eqb, eqb→eq, if◌then◌else◌, arith, Bool-cases, inl, inr,
}
use log_morph.Common.Text.{◌+++◌}
use log_morph.Common.Json.{text}
use log_morph.Common.Json.Strings.{
  rune, rune_by, IsRune, hex_digit, hex_value, unicode_escape, is_hidden, backslash, escape,
  escape_all, quote, plain, go, unit, at_escaped, single, is_surrogate,
}
use log_morph.Common.Json.Lexer.{Place, between, in_text, scalar, push, lex, prepend}

rune_by-make :
    (a b c : Ordering) (make : IsRune a b c → Char) (p : IsRune a b c) → rune_by a b c make ≡ make p
rune_by-make Ordering.lt b c make p = refl
rune_by-make Ordering.eq Ordering.lt Ordering.lt make p = refl
rune_by-make Ordering.gt Ordering.lt Ordering.lt make p = refl
rune_by-make Ordering.eq Ordering.lt Ordering.eq make p = absurd p
rune_by-make Ordering.eq Ordering.lt Ordering.gt make p = absurd p
rune_by-make Ordering.eq Ordering.eq c make p = absurd p
rune_by-make Ordering.eq Ordering.gt c make p = absurd p
rune_by-make Ordering.gt Ordering.lt Ordering.eq make p = absurd p
rune_by-make Ordering.gt Ordering.lt Ordering.gt make p = absurd p
rune_by-make Ordering.gt Ordering.eq c make p = absurd p
rune_by-make Ordering.gt Ordering.gt c make p = absurd p

pub rune-code : (c : Char) → rune (code c) ≡ c
rune-code (char n p) = rune_by-make _ _ _ (char n) p

rune_of : (c : Char) (n : ℕ) → eqb (code c) n ≡ true → rune n ≡ c
rune_of c n h = ap rune (sym (eqb→eq (code c) n h)) ∙ rune-code c

hex_value-digit : (k : ℕ) → k < 16 → hex_value (code (hex_digit k)) ≡ some k
hex_value-digit zero h = refl
hex_value-digit (suc zero) h = refl
hex_value-digit (suc (suc zero)) h = refl
hex_value-digit (suc (suc (suc zero))) h = refl
hex_value-digit (suc (suc (suc (suc zero)))) h = refl
hex_value-digit (suc (suc (suc (suc (suc zero))))) h = refl
hex_value-digit (suc (suc (suc (suc (suc (suc zero)))))) h = refl
hex_value-digit (suc (suc (suc (suc (suc (suc (suc zero))))))) h = refl
hex_value-digit (suc (suc (suc (suc (suc (suc (suc (suc zero)))))))) h = refl
hex_value-digit (suc (suc (suc (suc (suc (suc (suc (suc (suc zero))))))))) h = refl
hex_value-digit (suc (suc (suc (suc (suc (suc (suc (suc (suc (suc zero)))))))))) h = refl
hex_value-digit (suc (suc (suc (suc (suc (suc (suc (suc (suc (suc (suc zero))))))))))) h = refl
hex_value-digit (suc (suc (suc (suc (suc (suc (suc (suc (suc (suc (suc (suc zero)))))))))))) h =
    refl
hex_value-digit (suc (suc (suc (suc (suc (suc (suc (suc (suc (suc (suc (suc (suc zero)))))))))))))
      h =
    refl
hex_value-digit
      (suc (suc (suc (suc (suc (suc (suc (suc (suc (suc (suc (suc (suc (suc zero)))))))))))))) h =
    refl
hex_value-digit
      (suc (suc (suc (suc (suc (suc (suc (suc (suc (suc (suc (suc (suc (suc (suc zero)))))))))))))))
      h =
    refl
hex_value-digit
      (suc
        (suc (suc (suc (suc (suc (suc (suc (suc (suc (suc (suc (suc (suc (suc (suc k))))))))))))))))
      h =
    absurd (omega arith)

four_digits :
    (n : ℕ)
    → n < 65536
    → 16 * (16 * (16 * (16 * 0 + n / 4096 % 16) + n / 256 % 16) + n / 16 % 16) + n % 16 ≡ n
four_digits n h = omega arith

abbrev in_plain : String → Place
in_plain acc = in_text (plain none) acc

-- an escape of two characters
named :
    (c d : Char) (acc t : String)
    → at_escaped none (code d) ≡ go (single c) (plain none)
    → lex (in_plain acc) (backslash d t) ≡ lex (in_plain (push acc c)) t
unfolding lex
named c d acc t h = rw (h, append-nil acc) refl

below_surrogates : (n : ℕ) → is_hidden n ≡ true → (n < 0xD800) × (n < 65536)
below_surrogates n h = ground arith

surrogate_above : (n : ℕ) → n < 0xD800 → is_surrogate n ≡ false
surrogate_above n h = ground arith

nothing_added : (acc : String) → ((((acc +++ "") +++ "") +++ "") +++ "") +++ "" ≡ acc
nothing_added acc =
    rw (append-nil acc, append-nil acc, append-nil acc, append-nil acc, append-nil acc) refl

by_unicode :
    (c : Char) (acc t : String)
    → is_hidden (code c) ≡ true
    → lex (in_plain acc) (unicode_escape (code c) t) ≡ lex (in_plain (push acc c)) t
unfolding lex unicode_escape
by_unicode c acc t h =
    let n = code c in
    let (low, small) = below_surrogates n h in
    let plain_unit : unit none n ≡ go (single c) (plain none) =
      rw (surrogate_above n low) (ap (λ r. go (single r) (plain none)) (rune-code c)) in
    rw
      (
        hex_value-digit (n / 4096 % 16) (omega arith),
        hex_value-digit (n / 256 % 16) (omega arith),
        hex_value-digit (n / 16 % 16) (omega arith),
        hex_value-digit (n % 16) (omega arith),
        four_digits n small,
        plain_unit,
      )
      (ap (λ a. lex (in_plain (push a c)) t) (nothing_added acc))

-- a character that is written as it is
as_it_is :
    (c : Char) (acc t : String)
    → eqb (code c) 0x22 ≡ false
    → eqb (code c) 0x5C ≡ false
    → ltb (code c) 0x20 ≡ false
    → lex (in_plain acc) (String.◌∷◌ c t) ≡ lex (in_plain (push acc c)) t
unfolding lex
as_it_is c acc t quoted slash control = rw (quoted, slash, control) refl

-- a quote or a backslash
by_itself :
    (c : Char) (acc t : String)
    → (eqb (code c) 0x22 || eqb (code c) 0x5C) ≡ true
    → lex (in_plain acc) (backslash c t) ≡ lex (in_plain (push acc c)) t
by_itself c acc t h =
    named c c acc t (at_itself (code c) h ∙ ap (λ r. go (single r) (plain none)) (rune-code c))
  where
    at_itself :
        (n : ℕ)
        → (eqb n 0x22 || eqb n 0x5C) ≡ true
        → at_escaped none n ≡ go (single (rune n)) (plain none)
    at_itself n h = elim (Bool-cases (eqb n 0x22)) [
      | inl quoted ↦ rw (eqb→eq n 0x22 quoted) refl
      | inr other ↦ rw (eqb→eq n 0x5C (rw other at h)) refl
    ]

module _ {A : Type 0} (P : A → Type 0) where
  either_way : {x y : A} (b : Bool) → (b ≡ true → P x) → (b ≡ false → P y) → P (if b then x else y)
  either_way true if_true if_false = if_true refl
  either_way false if_true if_false = if_false refl

-- one character, however it is written
lex-escape :
    (c : Char) (acc t : String) → lex (in_plain acc) (escape c t) ≡ lex (in_plain (push acc c)) t
unfolding escape
lex-escape c acc t =
    let n = code c in
    let P : String → Type 0 = λ s. lex (in_plain acc) s ≡ lex (in_plain (push acc c)) t in
    let name : (d : Char) (k : ℕ)
        → at_escaped none (code d) ≡ go (single (rune k)) (plain none)
        → eqb n k ≡ true
        → P (backslash d t) =
      λ d k h same. named c d acc t (h ∙ ap (λ r. go (single r) (plain none)) (rune_of c k same)) in
    either_way P _ (by_itself c acc t) (λ not_itself. either_way P _ (name "b" 8 refl) (λ _.
      either_way P _ (name "f" 12 refl) (λ _. either_way P _ (name "n" 10 refl) (λ _.
        either_way P _ (name "r" 13 refl) (λ _. either_way P _ (name "t" 9 refl) (λ _.
          either_way P (is_hidden n) (by_unicode c acc t) (λ shown.
            as_it_is c acc t (ground (arith, not_itself)) (ground (arith, not_itself))
              (ground (arith, shown)))))))))

append_push : (acc : String) (c : Char) (s : String) → push acc c +++ s ≡ acc +++ String.◌∷◌ c s
append_push acc c s = rw (append_assoc, cons-append, nil-append) refl

lex-escape_all :
    (s acc t : String)
    → lex (in_plain acc) (escape_all s t) ≡ prepend (scalar (text (acc +++ s)) ∷ []) (lex between t)
unfolding escape_all lex
lex-escape_all String.[] acc t = refl
lex-escape_all (String.◌∷◌ c s) acc t =
    lex-escape c acc (escape_all s t)
    ∙ (lex-escape_all s (push acc c) t
        ∙ ap (λ a. prepend (scalar (text a) ∷ []) (lex between t)) (append_push acc c s))

-- Whatever the string and what follows it, its literal is read as one token, the string.
pub lex-quote :
    (s t : String) → lex between (quote s t) ≡ prepend (scalar (text s) ∷ []) (lex between t)
unfolding quote lex
lex-quote s t =
    lex-escape_all s "" t ∙ ap (λ a. prepend (scalar (text a) ∷ []) (lex between t)) (nil-append s)
