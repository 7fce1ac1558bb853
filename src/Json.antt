-- ===== src/Json.antt =====
-- encoding/json, as the code uses it: a parameter of the components that store documents.
use clawmast.Prelude.{Bool, false, Option, some, ◌≡◌}

-- `marshal` encodes and adds the closing newline; `is_empty` says that a document has no bytes.
pub record Codec (A B : Type 0) : Type 0 where
  pub marshal : A → Option B
  pub unmarshal : B → Option A
  pub is_empty : B → Bool

-- What is documented of the codec: an encoded value is decoded to itself, and its text is not empty.
pub record RoundTrips (A B : Type 0) (c : Codec A B) : Type 0 where
  pub decoded : (a : A) (b : B) → c.marshal a ≡ some b → c.unmarshal b ≡ some a
  pub filled : (a : A) (b : B) → c.marshal a ≡ some b → c.is_empty b ≡ false
