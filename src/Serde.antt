-- ===== src/Serde.antt =====
-- What the `Deserialize` implementations use of the crate serde: a visitor, as the methods that they
-- implement, and a deserializer, which is handed a visitor.
use snip721_migratable.Base.{String}
use snip721_migratable.Exec.{Outcome}

-- `expecting` is the text that the method of that name writes to the formatter.
pub record Visitor (Binary A : Type 0) : Type 0 where
  pub expecting : String
  pub visit_bytes : Binary → Outcome A

-- `Deserializer`: its methods that ask for text or bytes, or leave the choice to the format.
pub record Deserializer (Binary : Type 0) : Type 1 where
  pub deserialize_any : {A : Type 0} → Visitor Binary A → Outcome A
  pub deserialize_str : {A : Type 0} → Visitor Binary A → Outcome A
  pub deserialize_string : {A : Type 0} → Visitor Binary A → Outcome A
  pub deserialize_bytes : {A : Type 0} → Visitor Binary A → Outcome A
  pub deserialize_byte_buf : {A : Type 0} → Visitor Binary A → Outcome A
