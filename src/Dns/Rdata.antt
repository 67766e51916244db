-- ===== src/Dns/Rdata.antt =====
-- The data types of src/dns/wire.rs.
use snak_machine_rs.Base.{ℕ, Bool, true, false, List, [], Byte, Bytes}
use snak_machine_rs.Dns.Name.{Name}

pub data Context : Type 0 where
  unicast mdns : Context

abbrev pub is_mdns : Context → Bool
is_mdns unicast = false
is_mdns mdns = true

pub record Question : Type 0 where
  pub name : Name
  pub kind : ℕ
  pub class : ℕ

-- A parameter or an option: its code and its bytes.
abbrev pub Params : Type 0
Params = List (ℕ × Bytes)

-- The fields of a variant stand in the order of the source.
pub data Rdata : Type 0 where
  empty_data : Rdata
  a_data aaaa_data : Bytes → Rdata
  name_data : Name → Rdata
  srv : (priority weight port : ℕ) (target : Name) → Rdata
  txt : List Bytes → Rdata
  preference : (value : ℕ) (name : Name) → Rdata
  two_names : (first second : Name) → Rdata
  px : (value : ℕ) (map822 mapx400 : Name) → Rdata
  soa : (mname rname : Name) (serial refresh retry expire minimum : ℕ) → Rdata
  key : (flags : ℕ) (protocol algorithm : Byte) (key : Bytes) → Rdata
  sig :
      (covered : ℕ) (algorithm labels : Byte) (original_ttl expiration inception key_tag : ℕ)
      → (signer : Name) (signature : Bytes) → Rdata
  opt : Params → Rdata
  nsec : (next : Name) (bitmap : Bytes) → Rdata
  svcb : (priority : ℕ) (target : Name) (params : Params) → Rdata
  bytes_data opaque : Bytes → Rdata

pub record Record : Type 0 where
  pub name : Name
  pub kind : ℕ
  pub class : ℕ
  pub ttl : ℕ
  pub data_of : Rdata

-- A range is its start and its end.
pub record RecordSpan : Type 0 where
  pub wire : ℕ × ℕ
  pub ttl : ℕ
  pub rdata : ℕ × ℕ

pub record Message : Type 0 where
  pub id : ℕ
  pub flags : ℕ
  pub questions : List Question
  pub answers : List Record
  pub authority : List Record
  pub additional : List Record
  pub original : Bytes
  pub spans : List RecordSpan

unfoldable pub new : ℕ → ℕ → Message
new id flags = record {
  id = id;
  flags = flags;
  questions = [];
  answers = [];
  authority = [];
  additional = [];
  original = [];
  spans = [];
}
