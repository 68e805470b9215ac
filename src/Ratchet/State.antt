-- ===== src/Ratchet/State.antt =====
-- packages/client/src/double-ratchet.ts: the cryptography it is given, the state of a session, the
-- key derivations and the two ways to begin.
use nexnet.Common.{ℕ, Option, none, some, [], ◌∷◌, ◌++◌, Bytes, Text, codes, to_hex, take, drop}
use nexnet.Common.Map.{Map}
use nexnet.Common.Decimal.{decimal}

-- The interface `RatchetCrypto`. `decrypt` throws on a forgery, which is `none`; fresh key pairs and
-- nonces are arguments of the operations that draw them.
pub record RatchetCrypto : Type 0 where
  pub hkdf : Bytes → Bytes → Bytes → ℕ → Bytes
  pub encrypt : Bytes → Bytes → Bytes → Bytes → Bytes
  pub decrypt : Bytes → Bytes → Bytes → Bytes → Option Bytes
  pub dh : Bytes → Bytes → Bytes

pub record KeyPair : Type 0 where
  pub secret_key : Bytes
  pub public_key : Bytes

pub record RatchetState : Type 0 where
  pub dh_s : KeyPair
  pub dh_r : Option Bytes
  pub rk : Bytes
  pub ck_s : Option Bytes
  pub ck_r : Option Bytes
  pub n_s : ℕ
  pub n_r : ℕ
  pub p_n : ℕ
  pub skipped : Map Text Bytes

pub data RatchetError : Type 0 where
  too_many_skipped no_remote_dh header_too_short blob_too_short version_mismatch : RatchetError
  no_receiving_chain decryption_failed : RatchetError

abbrev pub max_skip : ℕ
max_skip = 100

module _ (crypto : RatchetCrypto) where
  -- The root key and the chain key.
  unfoldable pub kdf_rk : Bytes → Bytes → Bytes × Bytes
  kdf_rk rk dh_out =
      let out = crypto.hkdf dh_out rk (codes "nexnet dr root v1") 64 in
      (take 32 out, take 32 (drop 32 out))

  -- The next chain key and the message key.
  unfoldable pub kdf_ck : Bytes → Bytes × Bytes
  kdf_ck ck =
      let out = crypto.hkdf ck [] (codes "nexnet dr chain v1") 64 in
      (take 32 out, take 32 (drop 32 out))

  unfoldable pub init_initiator : KeyPair → Bytes → RatchetState
  unfolding kdf_rk
  init_initiator fresh sk =
      let (rk, ck) = kdf_rk sk fresh.public_key in
      record {
        dh_s = fresh;
        dh_r = none;
        rk = rk;
        ck_s = some ck;
        ck_r = none;
        n_s = 0;
        n_r = 0;
        p_n = 0;
        skipped = [];
      }

unfoldable pub init_responder : KeyPair → Bytes → RatchetState
init_responder fresh sk = record {
  dh_s = fresh;
  dh_r = none;
  rk = sk;
  ck_s = none;
  ck_r = none;
  n_s = 0;
  n_r = 0;
  p_n = 0;
  skipped = [];
}

unfoldable pub skip_key_id : Bytes → ℕ → Text
skip_key_id dh_pub n = to_hex dh_pub ++ (b':' ∷ decimal n)
