-- ===== src/Ratchet/Header.antt =====
-- packages/client/src/double-ratchet.ts: the header of a message, forty bytes, and its reader.
use nexnet.Common.{
  ℕ, ◌<◌, ◌^◌, ◌≡◌, arith, ◌++◌, ltb, if◌then◌else◌, Result, ok, err, Bytes, length, take, drop,
  repeat, length-append, take_of_length, drop_of_length,
}
use mathlib.Core.List.{append_assoc}
use nexnet.Common.Words.{uint32, word, word-uint32, word-uint32_end, length-uint32}
use nexnet.Ratchet.State.{RatchetError, header_too_short}

pub record RatchetHeader : Type 0 where
  pub dh : Bytes
  pub pn : ℕ
  pub n : ℕ

-- A key of another length is padded or cut here; the source throws on one of more than forty bytes.
-- Every key that the program puts here has thirty-two.
unfoldable pub encode_header : RatchetHeader → Bytes
encode_header header = take 32 (header.dh ++ repeat 32 0) ++ (uint32 header.pn ++ uint32 header.n)

unfoldable pub decode_header : Bytes → Result RatchetError RatchetHeader
decode_header buf =
    if ltb (length buf) 40
    then err header_too_short
    else ok (record { dh = take 32 buf; pn = word (drop 32 buf); n = word (drop 36 buf) })

-- What `encodeHeader` writes of a 32-byte key.
encode_header-split :
    (h : RatchetHeader) → length h.dh ≡ 32 → encode_header h ≡ h.dh ++ (uint32 h.pn ++ uint32 h.n)
unfolding encode_header
encode_header-split h size = ground (arith, take_of_length 32 h.dh (repeat 32 0))

pub length-encode_header : (h : RatchetHeader) → length h.dh ≡ 32 → length (encode_header h) ≡ 40
length-encode_header h size = ground (
  arith,
  encode_header-split h size,
  length-append h.dh (uint32 h.pn ++ uint32 h.n),
  length-append (uint32 h.pn) (uint32 h.n),
  length-uint32 h.pn,
  length-uint32 h.n,
)

-- A header of a 32-byte key and of 32-bit numbers is read back as it was written.
pub decode_header-encode_header :
    (h : RatchetHeader)
    → length h.dh ≡ 32
    → h.pn < 2 ^ 32
    → h.n < 2 ^ 32
    → decode_header (encode_header h) ≡ ok h
unfolding decode_header
decode_header-encode_header h size pn n = ground (
  arith,
  encode_header-split h size,
  length-encode_header h size,
  take_of_length 32 h.dh (uint32 h.pn ++ uint32 h.n),
  drop_of_length 32 h.dh (uint32 h.pn ++ uint32 h.n),
  drop_of_length 36 (h.dh ++ uint32 h.pn) (uint32 h.n),
  append_assoc h.dh (uint32 h.pn) (uint32 h.n),
  length-append h.dh (uint32 h.pn),
  length-uint32 h.pn,
  word-uint32 h.pn (uint32 h.n),
  word-uint32_end h.n,
)
