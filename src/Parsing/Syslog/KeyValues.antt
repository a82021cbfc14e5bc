-- ===== src/Parsing/Syslog/KeyValues.antt =====
-- The regular expressions of internal/parsing/parsers/syslog.go, and `splitIPAndPort` with
-- `net.SplitHostPort`.
use Prim.Native.Char.{Char, code}
use Prim.Native.String.{len}
use log_morph.Common.{
  ℕ, zero, suc, ◌-◌, String, ◌≡◌, refl, Bool, true, false, not, ◌&&◌, ◌||◌, Option, none, some,
  List, [], ◌∷◌, eqb, ◌==◌, if◌then◌else◌,
}
use log_morph.Common.Integer.{ℤ, pos}
use log_morph.Common.Integer.Atoi.{atoi}
use log_morph.Common.Pattern.{
  is_upper, is_lower, is_blank, is_word, some_of, many, bsd_date, priority, optional, taken,
}
use log_morph.Common.Text.{contains}

-- timestamp, host and body
pub record Header : Type 0 where
  pub timestamp : String
  pub host : String
  pub body : String

abbrev not_blank : Char → Bool
not_blank c = not (is_blank c)

infixl 5 ◌>>=◌
abbrev ◌>>=◌ {ℓ κ} : {A : Type ℓ} {B : Type κ} → Option A → (A → Option B) → Option B
none >>= f = none
some a >>= f = f a

-- `syslogHeaderRegex`; its `.` is no line feed
unfoldable pub match_header : String → Option Header
unfolding some_of many bsd_date priority
match_header s = do
  s1 ← optional priority s
  s2 ← bsd_date s1
  s3 ← some_of is_blank s2
  s4 ← some_of not_blank s3
  s5 ← some_of is_blank s4
  if contains s5 "\n"
      then none
      else some (record { timestamp = taken s1 s2; host = taken s3 s4; body = s5 })

-- `[A-Z_]` under `(?i)`; the long s and the Kelvin sign fold to S and K
abbrev is_key : Char → Bool
is_key c =
    is_upper c || is_lower c || eqb (code c) b'_' || eqb (code c) 0x17F || eqb (code c) 0x212A

equals : String → Option String
equals String.[] = none
equals (String.◌∷◌ c s) = if eqb (code c) b'=' then some s else none

-- a key and its value at the start, and how many characters they take
pair_at : String → Option ((String × String) × ℕ)
unfolding some_of many equals
pair_at s = do
  s1 ← some_of is_key s
  s2 ← equals s1
  s3 ← some_of not_blank s2
  some ((taken s s1, taken s2 s3), len s - len s3)

abbrev is_boundary : Bool → Bool → Bool
is_boundary true b = not b
is_boundary false b = b

abbrev pair_if : Bool → String → Option ((String × String) × ℕ)
pair_if true s = pair_at s
pair_if false s = none

-- `skip` characters belong to the last match; `after_word`: whether the last one is of a word
pairs_from : ℕ → Bool → String → List (String × String)
unfolding pair_at
pairs_from skip after_word String.[] = []
pairs_from (suc skip) after_word (String.◌∷◌ c s) = pairs_from skip (is_word c) s
pairs_from zero after_word (String.◌∷◌ c s) =
    elim (pair_if (is_boundary after_word (is_word c)) (String.◌∷◌ c s)) [
      | none ↦ pairs_from 0 (is_word c) s
      | some (pair, n) ↦ pair ∷ pairs_from (n - 1) (is_word c) s
    ]

-- `kvRegex.FindAllStringSubmatch`
unfoldable pub find_pairs : String → List (String × String)
unfolding pairs_from
find_pairs s = pairs_from 0 false s

-- the text before the first such character, and the one behind it
cut : ℕ → String → Option (String × String)
cut n String.[] = none
cut n (String.◌∷◌ c s) =
    let rest = cut n s in
    if eqb (code c) n
    then some ("", s)
    else elim rest [ none ↦ none | some (before, after) ↦ some (String.◌∷◌ c before, after) ]

abbrev has : String → String → Bool
has s c = contains s c

-- `[host]:port`, behind the bracket
bracketed : String → Option (String × String)
unfolding cut
bracketed r = do
  (host, rest) ← cut b']' r
  (between, port) ← cut b':' rest
  if between == "" && not (has port ":") && not (has r "[") && not (has rest "]")
      then some (host, port)
      else none

-- `host:port`
unbracketed : String → Option (String × String)
unfolding cut
unbracketed s = do
  (host, port) ← cut b':' s
  if not (has port ":") && not (has s "[") && not (has s "]") then some (host, port) else none

-- `net.SplitHostPort`
unfoldable pub split_host_port : String → Option (String × String)
unfolding bracketed unbracketed
split_host_port String.[] = none
split_host_port (String.◌∷◌ c s) =
    if eqb (code c) b'[' then bracketed s else unbracketed (String.◌∷◌ c s)

abbrev with_port : String → Option (String × String) → String × Option ℤ
with_port val none = (val, none)
with_port val (some (host, port)) = elim (atoi port) [
  | none ↦ (val, none)
  | some n ↦ (host, some n)
]

-- `splitIPAndPort`
unfoldable pub split_ip_and_port : String → String × Option ℤ
unfolding split_host_port
split_ip_and_port val =
    if contains val ":" then with_port val (split_host_port val) else (val, none)

key_value_tests :
    (find_pairs "DENY src=10.0.0.1:80 x DST=[::1]:53 1a=2 B="
      ≡ ("src", "10.0.0.1:80") ∷ ("DST", "[::1]:53") ∷ [])
    × (split_ip_and_port "10.0.0.1:80" ≡ ("10.0.0.1", some (pos 80)))
    × (split_ip_and_port "[::1]:53" ≡ ("::1", some (pos 53)))
    × (split_ip_and_port "::1" ≡ ("::1", none))
    × (match_header "<134>Aug 28 18:30:12 fw-1 DENY TCP"
        ≡ some (record { timestamp = "Aug 28 18:30:12"; host = "fw-1"; body = "DENY TCP" }))
unfolding find_pairs split_ip_and_port atoi match_header
key_value_tests = (refl, refl, refl, refl, refl)
