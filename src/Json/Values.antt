-- ===== src/Json/Values.antt =====
-- `dptree_value` and `dptree` of include/dptree.hpp, and how a value is turned into a string.
use eiptnd.Prelude.{ℕ, ℤ, Bool, true, false, Bytes, codes}

-- boost::lexical_cast<std::string> from the types of a value. The types of eight bits are those of
-- a character, and a character is cast to the text of that one byte.
pub record Cast : Type 1 where
  pub Float : Type 0
  pub Double : Type 0
  pub of_byte : ℕ → Bytes
  pub of_signed : ℤ → Bytes
  pub of_unsigned : ℕ → Bytes
  pub of_float : Float → Bytes
  pub of_double : Double → Bytes

-- The variant; an 8-bit value is given by its byte.
pub data DptreeValue (C : Cast) : Type 0 where
  string : Bytes → DptreeValue C
  int8 uint8 : ℕ → DptreeValue C
  int16 int32 int64 : ℤ → DptreeValue C
  uint16 uint32 uint64 : ℕ → DptreeValue C
  float : C.Float → DptreeValue C
  double : C.Double → DptreeValue C
  bool : Bool → DptreeValue C

-- A tree holds a value and, in their order, its children with their keys.
mutual
  pub data Dptree (C : Cast) : Type 0 where
    node : DptreeValue C → Children C → Dptree C

  pub data Children (C : Cast) : Type 0 where
    nil : Children C
    child : Bytes → Dptree C → Children C → Children C

module _ {C : Cast} where
  -- dptree_translator<std::string>::get_value
  unfoldable pub get_value : DptreeValue C → Bytes
  get_value (string s) = s
  get_value (int8 b) = C.of_byte b
  get_value (uint8 b) = C.of_byte b
  get_value (int16 z) = C.of_signed z
  get_value (int32 z) = C.of_signed z
  get_value (int64 z) = C.of_signed z
  get_value (uint16 n) = C.of_unsigned n
  get_value (uint32 n) = C.of_unsigned n
  get_value (uint64 n) = C.of_unsigned n
  get_value (float x) = C.of_float x
  get_value (double x) = C.of_double x
  get_value (bool true) = codes "true"
  get_value (bool false) = codes "false"
