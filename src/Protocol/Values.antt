-- ===== src/Protocol/Values.antt =====
-- What the protocol types are made of: identifiers, times and opaque JSON
-- (crates/mews-protocol/src/domain/ids.rs).
--
-- An identifier is a prefix and the text behind it. The prefix is told by the type; the text is only
-- compared and carried from one prefix to another, so it is a number here, by any numbering of texts.
-- A time is its instant in nanoseconds. A JSON value is null, a string, or any other value by its text.
use mews.Prelude.{ℕ, String}

abbrev pub Uid : Type 0
Uid = ℕ

abbrev pub Time : Type 0
Time = ℕ

pub data Value : Type 0 where
  null : Value
  string : String → Value
  other : String → Value

-- The ID types that `id!` declares, by their prefixes.
pub data IdKind : Type 0 where
  ins hst agt ses msg turn inv req con evt op : IdKind

-- A text in the place of an ID: a well-formed ID of one kind, or none.
pub data IdText : Type 0 where
  id_text : IdKind → Uid → IdText
  malformed : String → IdText
