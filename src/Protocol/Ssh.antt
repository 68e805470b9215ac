-- ===== src/Protocol/Ssh.antt =====
-- packages/protocol/src/ssh.ts: the blob of an ssh-ed25519 key, its parser and its fingerprint.
use nexnet.Common.{
  ℕ, not, ◌||◌, [], ◌∷◌, ◌++◌, map, ltb, ◌==◌, if◌then◌else◌, Result, ok, err, ◌>>=◌, ◌>>◌,
  throw_if, Bytes, Text, codes, same, length, take, drop,
}
use nexnet.Common.Words.{uint32, word}
use nexnet.Crypto.{Crypto}
use nexnet.Protocol.Base64.{to_base64_url, standard_char}

abbrev ssh_ed25519 : Text
ssh_ed25519 = codes "ssh-ed25519"

data SshError : Type 0 where
  truncated_ssh_data unsupported_key invalid_key : SshError

ssh_string : Bytes → Bytes
unfolding uint32
ssh_string bytes = uint32 (length bytes) ++ bytes

unfoldable pub ssh_public_key_blob : Bytes → Bytes
unfolding ssh_string
ssh_public_key_blob public_key = ssh_string ssh_ed25519 ++ ssh_string public_key

-- The class `Reader`: an action on the bytes that are left.
abbrev Reader : Type 0 → Type 0
Reader A = Bytes → Result SshError (A × Bytes)

raw : ℕ → Reader Bytes
raw n bytes =
    if ltb (length bytes) n then err truncated_ssh_data else ok (take n bytes, drop n bytes)

read_uint32 : Reader ℕ
unfolding raw word
read_uint32 bytes = raw 4 bytes >>= λ (b, rest). ok (word b, rest)

read_string : Reader Bytes
unfolding read_uint32 raw
read_string bytes = read_uint32 bytes >>= λ (n, rest). raw n rest

-- `text()`, where it is compared with an ASCII text: `TextDecoder` drops a byte order mark.
strip_bom : Bytes → Bytes
strip_bom bytes = if same (take 3 bytes) (239 ∷ 187 ∷ 191 ∷ []) then drop 3 bytes else bytes

-- A text that is no UTF-8 throws an error of its own in the source; here it is an unsupported key.
unfoldable parse_public_key_blob : Bytes → Result SshError Bytes
unfolding read_string strip_bom
parse_public_key_blob blob = do
  (algorithm, rest) ← read_string blob
  throw_if (not (same (strip_bom algorithm) ssh_ed25519)) unsupported_key
  (key, left) ← read_string rest
  throw_if (not (length key == 32) || not (length left == 0)) invalid_key
  ok key

-- `standardBase64(bytes, false)`
standard_base64 : Bytes → Text
unfolding standard_char
standard_base64 bytes = map standard_char (to_base64_url bytes)

unfoldable pub ssh_fingerprint : Crypto → Bytes → Text
unfolding standard_base64
ssh_fingerprint crypto public_key =
    codes "SHA256:" ++ standard_base64 (crypto.sha256 (ssh_public_key_blob public_key))
