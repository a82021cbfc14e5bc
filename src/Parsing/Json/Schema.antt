-- ===== src/Parsing/Json/Schema.antt =====
-- internal/parsing/parsers/json.go: `jsonLogSchema`, as `json.Unmarshal` fills it in
use log_morph.Common.{String, Option}
use log_morph.Common.Integer.{ℤ}

-- an `interface{}` that `json.Unmarshal` has filled in; of a `float64` v the code reads `int(v)`
pub data Any : Type 0 where
  null : Any
  number : ℤ → Any
  text : String → Any
  other : Any

pub record JsonSource : Type 0 where
  pub identifier : String
  pub vendor : String
  pub product : String
  pub type : String

pub record JsonFirewall : Type 0 where
  pub action : String
  pub protocol : String
  pub category : String
  pub severity : String

pub record JsonEndpoint : Type 0 where
  pub ip : String
  pub port : Any

pub record JsonNetwork : Type 0 where
  pub protocol : String
  pub src_ip : String
  pub src_port : Any
  pub dst_ip : String
  pub dst_port : Any
  pub source : Option JsonEndpoint
  pub destination : Option JsonEndpoint

-- `jsonLogSchema`; of a user the name alone
pub record JsonLogSchema : Type 0 where
  pub timestamp : String
  pub source : Option JsonSource
  pub firewall : Option JsonFirewall
  pub network : Option JsonNetwork
  pub user : Option (Option String)
  pub action : String
  pub protocol : String
  pub category : String
  pub severity : String
  pub src_ip : String
  pub src_port : Any
  pub dst_ip : String
  pub dst_port : Any
  pub source_ip : String
  pub destination_ip : String
  pub source_port : Any
  pub destination_port : Any
