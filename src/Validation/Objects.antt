-- ===== src/Validation/Objects.antt =====
-- Which values the schema accepts in the fields of a universal event.
use log_morph.Common.{
  String, ◌≡◌, refl, ◌∙◌, Bool, true, false, ◌&&◌, Option, none, some, leb, ◌==◌, Bool-cases,
  Option-cases, inl, inr,
}
use log_morph.Common.Integer.{ℤ, pos, negsuc}
use log_morph.Models.{SourceInfo, EventInfo, NetworkInfo, UserInfo}
use log_morph.Validation.Schema.{
  Fields, end, lookup, accepts, if_present, nullable_text, port, source_schema, event_schema,
  network_schema, user_schema,
}
use log_morph.Validation.Document.{
  text_unless_empty, integer_unless_nil, source_value, event_value, network_value, user_value,
}

-- a port that is unset, or from 0 to 65535
abbrev pub in_range : Option ℤ → Bool
in_range none = true
in_range (some (pos n)) = leb n 65_535
in_range (some (negsuc _)) = false

abbrev pub ports_in_range : Option NetworkInfo → Bool
ports_in_range none = true
ports_in_range (some n) = in_range n.src_port && in_range n.dst_port

abbrev is_text_or_null : Fields → String → Bool
is_text_or_null fs k = if_present (λ v. accepts nullable_text v) (lookup fs k)

-- fields in front
text_at :
    (j k s : String) (rest : Fields)
    → is_text_or_null rest k ≡ true
    → is_text_or_null (text_unless_empty j s rest) k ≡ true
unfolding text_unless_empty lookup accepts
text_at j k s rest h = elim (Bool-cases (s == "")) [
  | inl empty ↦ rw empty h
  | inr given ↦ elim (Bool-cases (j == k)) [
    | inl same ↦ rw (given, same) refl
    | inr other ↦ rw (given, other) h
  ]
]

text_skipped :
    (j k s : String) (rest : Fields)
    → (j == k) ≡ false
    → lookup (text_unless_empty j s rest) k ≡ lookup rest k
unfolding text_unless_empty lookup
text_skipped j k s rest other = elim (Bool-cases (s == "")) [
  | inl empty ↦ rw empty refl
  | inr given ↦ rw (given, other) refl
]

integer_skipped :
    (j k : String) (n : Option ℤ) (rest : Fields)
    → (j == k) ≡ false
    → lookup (integer_unless_nil j n rest) k ≡ lookup rest k
unfolding integer_unless_nil lookup
integer_skipped j k none rest other = refl
integer_skipped j k (some n) rest other = rw other refl

and_true : (b : Bool) → (b && true && true) ≡ b
and_true true = refl
and_true false = refl

end_at : (k : String) → is_text_or_null end k ≡ true
unfolding lookup accepts
end_at k = refl

port_at :
    (k : String) (n : Option ℤ) (rest : Fields)
    → (k == k) ≡ true
    → lookup rest k ≡ none
    → if_present (λ v. accepts port v) (lookup (integer_unless_nil k n rest) k) ≡ in_range n
unfolding integer_unless_nil lookup accepts
port_at k none rest same nothing = rw nothing refl
port_at k (some (pos n)) rest same nothing = rw same (and_true (leb n 65_535))
port_at k (some (negsuc n)) rest same nothing = rw same refl

pub source_accepted : (s : SourceInfo) → accepts source_schema (source_value s) ≡ true
unfolding accepts source_value
source_accepted s =
    let at : (k : String) → _ = λ k. text_at "type" k s.type _ (
      text_at "vendor" k s.vendor _
        (text_at "product" k s.product _ (text_at "identifier" k s.identifier _ (end_at k)))) in
    rw (at "type", at "vendor", at "product", at "identifier") refl

pub event_accepted : (e : EventInfo) → accepts event_schema (event_value e) ≡ true
unfolding accepts event_value
event_accepted e =
    let at : (k : String) → _ = λ k.
      text_at "category" k e.category _
        (text_at "action" k e.action _ (text_at "severity" k e.severity _ (end_at k))) in
    rw (at "category", at "action", at "severity") refl

pub user_accepted : (u : UserInfo) → accepts user_schema (user_value u) ≡ true
unfolding accepts user_value lookup
user_accepted u = elim (Option-cases u.username) [
  | inl unnamed ↦ rw unnamed refl
  | inr (s, name) ↦ rw name refl
]

ports_only : (a b : Bool) → (a && (b && true)) ≡ (a && b)
ports_only true true = refl
ports_only true false = refl
ports_only false b = refl

module _ (n : NetworkInfo) where
  abbrev network_fields : Fields
  network_fields = text_unless_empty "src_ip" n.src_ip (
      integer_unless_nil "src_port" n.src_port (
        text_unless_empty "dst_ip" n.dst_ip
          (integer_unless_nil "dst_port" n.dst_port (text_unless_empty "protocol" n.protocol end))))

  texts_accepted :
      (k : String)
      → ("src_port" == k) ≡ false
      → ("dst_port" == k) ≡ false
      → is_text_or_null network_fields k ≡ true
  texts_accepted k not_src not_dst = text_at "src_ip" k n.src_ip _ (
      rw
        (integer_skipped "src_port" k n.src_port
          (text_unless_empty "dst_ip" n.dst_ip (
            integer_unless_nil "dst_port" n.dst_port (text_unless_empty "protocol" n.protocol end)))
          not_src)
        (text_at "dst_ip" k n.dst_ip _ (
          rw
            (integer_skipped "dst_port" k n.dst_port (text_unless_empty "protocol" n.protocol end)
              not_dst)
            (text_at "protocol" k n.protocol _ (end_at k)))))

  src_port_accepted :
      if_present (λ v. accepts port v) (lookup network_fields "src_port") ≡ in_range n.src_port
  unfolding lookup
  src_port_accepted = rw (text_skipped "src_ip" "src_port" n.src_ip _ refl) (
      port_at "src_port" n.src_port _ refl (
        text_skipped "dst_ip" "src_port" n.dst_ip _ refl
        ∙ (integer_skipped "dst_port" "src_port" n.dst_port _ refl
            ∙ text_skipped "protocol" "src_port" n.protocol end refl)))

  dst_port_accepted :
      if_present (λ v. accepts port v) (lookup network_fields "dst_port") ≡ in_range n.dst_port
  unfolding lookup
  dst_port_accepted =
      rw
        (
          text_skipped "src_ip" "dst_port" n.src_ip _ refl,
          integer_skipped "src_port" "dst_port" n.src_port _ refl,
          text_skipped "dst_ip" "dst_port" n.dst_ip _ refl,
        )
        (port_at "dst_port" n.dst_port _ refl
          (text_skipped "protocol" "dst_port" n.protocol end refl))

  pub network_accepted :
      accepts network_schema (network_value n) ≡ (in_range n.src_port && in_range n.dst_port)
  unfolding accepts network_value
  network_accepted =
      rw
        (
          texts_accepted "src_ip" refl refl,
          src_port_accepted,
          texts_accepted "dst_ip" refl refl,
          dst_port_accepted,
          texts_accepted "protocol" refl refl,
        )
        (ports_only (in_range n.src_port) (in_range n.dst_port))
