-- ===== src/Rot13/Encode.antt =====
-- `rot13_encode` (examples/rot13server/src/rot13_server.cpp).
use telnetpp.Prelude.{
  ℕ, ◌+◌, ◌-◌, ◌%◌, ◌≡◌, refl, ◌&&◌, [], ◌∷◌, ◌==◌, leb, if◌then◌else◌, Bytes, arith,
}

-- `encode_byte`.
unfoldable pub encode_byte : ℕ → ℕ
encode_byte datum =
    if leb b'A' datum && leb datum b'Z'
    then b'A' + (datum - b'A' + 13) % 26
    else if leb b'a' datum && leb datum b'z'
    then b'a' + (datum - b'a' + 13) % 26
    else if datum == 0
    then 10
    else datum

unfoldable pub rot13_encode : Bytes → Bytes
unfolding encode_byte
rot13_encode [] = []
rot13_encode (by ∷ bs) = encode_byte by ∷ rot13_encode bs

-- A line feed for each NUL.
abbrev pub lines : Bytes → Bytes
lines [] = []
lines (by ∷ bs) = (if by == 0 then 10 else by) ∷ lines bs

encode_byte-encode_byte : (by : ℕ) → encode_byte (encode_byte by) ≡ (if by == 0 then 10 else by)
unfolding encode_byte
encode_byte-encode_byte by = ground arith

-- Encoded twice, a text is what it was, but that a NUL has become a line feed.
rot13_encode-rot13_encode : (bs : Bytes) → rot13_encode (rot13_encode bs) ≡ lines bs
unfolding rot13_encode
rot13_encode-rot13_encode [] = refl
rot13_encode-rot13_encode (by ∷ bs) = rw (encode_byte-encode_byte by, rot13_encode-rot13_encode bs)
