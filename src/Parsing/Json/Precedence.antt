-- ===== src/Parsing/Json/Precedence.antt =====
-- Which field of a document wins.
use Prim.Native.Char.{Char}
use text.Mathlib.TextLemmas.{cons≢nil}
use log_morph.Common.{
  String, ◌≡◌, refl, ap, false, Bool-cases, inl, inr, Option, none, some, List, [], ◌∷◌, ◌++◌,
  arith, ◌==◌, eq_iff, if◌then◌else◌,
}
use log_morph.Common.Integer.{ℤ}
use log_morph.Common.Text.{Unicode, to_lower, to_upper, or_else}
use log_morph.Parsing.Json.Schema.{Any, JsonEndpoint, JsonNetwork, JsonLogSchema}
use log_morph.Parsing.Json.{overridden, override, override_by, parse_port, port_or, is_blocked}

-- the first text that is not empty
abbrev pub first_given : List String → String
first_given [] = ""
first_given (s ∷ ss) = if s == "" then first_given ss else s

-- the first port that can be read
abbrev pub first_port : List Any → Option ℤ
first_port [] = none
first_port (v ∷ vs) = port_or (parse_port v) (first_port vs)

-- the values of a field of an object that may be absent
abbrev pub of {ℓ} : {A : Type 0} {C : Type ℓ} → Option A → (A → C) → List C
of none f = []
of (some a) f = f a ∷ []

abbrev pub of_endpoint {ℓ} :
    {C : Type ℓ}
    → Option JsonNetwork
    → (JsonNetwork → Option JsonEndpoint)
    → (JsonEndpoint → C)
    → List C
of_endpoint none side f = []
of_endpoint (some n) side f = of (side n) f

nonempty : (c : Char) (s : String) → (String.◌∷◌ c s == "") ≡ false
nonempty c s = elim (Bool-cases (String.◌∷◌ c s == "")) [
  | inl h ↦ absurd (cons≢nil ((eq_iff _ _).0 h))
  | inr h ↦ h
]

pub to_lower-nonempty : (u : Unicode) (s : String) → (to_lower u s == "") ≡ (s == "")
unfolding to_lower
to_lower-nonempty u String.[] = refl
to_lower-nonempty u (String.◌∷◌ c s) = rw (nonempty _ (to_lower u s), nonempty c s) refl

pub to_upper-nonempty : (u : Unicode) (s : String) → (to_upper u s == "") ≡ (s == "")
unfolding to_upper
to_upper-nonempty u String.[] = refl
to_upper-nonempty u (String.◌∷◌ c s) = rw (nonempty _ (to_upper u s), nonempty c s) refl

-- The last of the texts is the one that is left.
or_else-first : (a b : String) → or_else a b ≡ first_given (a ∷ b ∷ [])
or_else-first a b = ground (arith, eq_iff b "")

port_or-first : (p q : Any) → port_or (parse_port p) (parse_port q) ≡ first_port (p ∷ q ∷ [])
port_or-first p q = go (parse_port p) (parse_port q)
  where
    go : (x y : Option ℤ) → port_or x y ≡ port_or x (port_or y none)
    go (some a) y = refl
    go none (some b) = refl
    go none none = refl

-- where a side of the connection is looked for, what wins first
abbrev pub source_ips : JsonLogSchema → List String
source_ips d =
    of_endpoint d.network (λ n. n.source) (λ e. e.ip)
    ++ (of d.network (λ n. n.src_ip) ++ d.src_ip ∷ d.source_ip ∷ [])

abbrev pub source_ports : JsonLogSchema → List Any
source_ports d =
    of_endpoint d.network (λ n. n.source) (λ e. e.port)
    ++ (of d.network (λ n. n.src_port) ++ d.src_port ∷ d.source_port ∷ [])

abbrev pub destination_ips : JsonLogSchema → List String
destination_ips d =
    of_endpoint d.network (λ n. n.destination) (λ e. e.ip)
    ++ (of d.network (λ n. n.dst_ip) ++ d.dst_ip ∷ d.destination_ip ∷ [])

abbrev pub destination_ports : JsonLogSchema → List Any
destination_ports d =
    of_endpoint d.network (λ n. n.destination) (λ e. e.port)
    ++ (of d.network (λ n. n.dst_port) ++ d.dst_port ∷ d.destination_port ∷ [])

pub side_exact :
    (n : Option JsonNetwork) (side : JsonNetwork → Option JsonEndpoint) (ip : JsonNetwork → String)
    (port : JsonNetwork → Any) (a b : String) (p q : Any)
    → ((overridden n side ip port
          (record { ip = or_else a b; port = port_or (parse_port p) (parse_port q) })).ip
        ≡ first_given (of_endpoint n side (λ e. e.ip) ++ (of n ip ++ a ∷ b ∷ [])))
      × ((overridden n side ip port
            (record { ip = or_else a b; port = port_or (parse_port p) (parse_port q) })).port
          ≡ first_port (of_endpoint n side (λ e. e.port) ++ (of n port ++ p ∷ q ∷ [])))
side_exact none side ip port a b p q = (or_else-first a b, port_or-first p q)
side_exact (some n) side ip port a b p q = with_endpoint (side n)
  where
    with_endpoint :
        (e : Option JsonEndpoint)
        → ((override_by e (
              override
                (ip n)
                (port n)
                (record { ip = or_else a b; port = port_or (parse_port p) (parse_port q) }))).ip
            ≡ first_given (of e (λ x. x.ip) ++ (ip n ∷ a ∷ b ∷ [])))
          × ((override_by e (
                override
                  (ip n)
                  (port n)
                  (record { ip = or_else a b; port = port_or (parse_port p) (parse_port q) }))).port
              ≡ first_port (of e (λ x. x.port) ++ (port n ∷ p ∷ q ∷ [])))
    with_endpoint none = (
      ap (or_else (ip n)) (or_else-first a b),
      ap (port_or (parse_port (port n))) (port_or-first p q),
    )
    with_endpoint (some e) = (
      ap (λ x. or_else e.ip (or_else (ip n) x)) (or_else-first a b),
      ap (λ x. port_or (parse_port e.port) (port_or (parse_port (port n)) x)) (port_or-first p q),
    )

module _ (u : Unicode) where
  -- where the other fields are looked for
  abbrev pub actions : JsonLogSchema → List String
  actions d = to_lower u d.action ∷ of d.firewall (λ f. to_lower u f.action) ++ "unknown" ∷ []

  abbrev pub protocols : JsonLogSchema → List String
  protocols d =
      of d.network (λ n. to_upper u n.protocol)
      ++ to_upper u d.protocol ∷ of d.firewall (λ f. to_upper u f.protocol)
      ++ "unknown" ∷ []

  abbrev pub severities : JsonLogSchema → List String
  severities d =
      d.severity ∷ of d.firewall (λ f. f.severity)
      ++ (if is_blocked u (first_given (actions d)) then "high" else "info") ∷ []

  abbrev pub categories : JsonLogSchema → List String
  categories d = d.category ∷ of d.firewall (λ f. f.category) ++ "network" ∷ []
