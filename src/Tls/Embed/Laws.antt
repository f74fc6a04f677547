-- ===== src/Tls/Embed/Laws.antt =====
-- The arrays of the header that `tls_embed_c_header` of src/tls.c writes, and the objects that it
-- leaves behind.
use adb_termux_bridge.Base.{◌≡◌, none, some, [], All, Bytes, Without}
use adb_termux_bridge.Tls.Hex.{IsByte}
use adb_termux_bridge.Tls.Embed.{Loaded}

abbrev pub der_of : Loaded → Bytes
der_of x = elim x.der [ none ↦ [] | some der ↦ der ]

-- An object that could be encoded.
abbrev pub IsEncoded : Loaded → Type 0
IsEncoded x = (x.der ≡ some (der_of x)) × Without b'{' x.entry.name × All IsByte (der_of x)
