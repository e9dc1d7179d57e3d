-- ===== src/Redis/Partial.antt =====
-- A reply that comes in two parts.
use eiptnd.Prelude.{◌+◌, Bytes, length}
use eiptnd.Redis.Connection.{Library, Connection}
use eiptnd.Redis.Handlers.{sub64}

module _ {L : Library} where
  -- The buffer when the first part of a reply was read from it.
  abbrev emptied : Bytes → Connection L → L.buffer.Buf
  emptied text s =
      let b = L.buffer.consume (length text + 1) s.in_buf in
      L.buffer.consume (sub64 (length (L.buffer.input b)) (length text)) b
