-- ===== src/Ratchet/Session.antt =====
-- packages/client/src/double-ratchet.ts: `seal` and `open`, and the ratchet steps they take. An
-- operation that throws gives no state: `receiveDm` works on a copy that it drops.
pub mod Keys
pub mod Delivery
pub mod Bootstrap
use nexnet.Common.{
  ℕ, zero, suc, ◌+◌, ◌-◌, Bool, true, false, not, ◌&&◌, Option, none, some, List, [], ◌∷◌, ◌++◌,
  ltb, ◌==◌, if◌then◌else◌, Result, ok, err, ◌>>=◌, ◌>>◌, throw_if, or_throw, Bytes, length, take,
  drop, same,
}
use nexnet.Common.Map
use nexnet.Common.Map.{Map, text_key}
use nexnet.Ratchet.State.{
  RatchetCrypto, KeyPair, RatchetState, RatchetError, max_skip, kdf_rk, kdf_ck, skip_key_id,
  too_many_skipped, no_remote_dh, blob_too_short, version_mismatch, no_receiving_chain,
  decryption_failed,
}
use nexnet.Ratchet.Header.{RatchetHeader, encode_header, decode_header}

abbrev ratchet_wire_version : ℕ
ratchet_wire_version = 1

abbrev is_none : {A : Type 0} → Option A → Bool
is_none none = true
is_none (some a) = false

module _ (crypto : RatchetCrypto) where
  -- The loop of `skipMessageKeys`, `steps` times, with the chain key.
  unfoldable pub skip_while : ℕ → Bytes → Bytes → RatchetState → RatchetState
  unfolding kdf_ck skip_key_id
  skip_while zero dh_pub ck state = state
  skip_while (suc steps) dh_pub ck state =
      let (next, mk) = kdf_ck crypto ck in
      skip_while steps dh_pub next (record state {
        ck_r = some next;
        skipped = Map.set state.skipped (skip_key_id dh_pub state.n_r) mk;
        n_r = suc state.n_r;
      })

  -- It runs while `Nr < until`.
  unfoldable pub skip_message_keys : ℕ → Bytes → RatchetState → Result RatchetError RatchetState
  skip_message_keys until dh_pub state = elim state.ck_r [
    | none ↦ ok state
    | some ck ↦
        if ltb max_skip (until - state.n_r)
        then err too_many_skipped
        else ok (skip_while (until - state.n_r) dh_pub ck state)
  ]

  unfoldable dh_ratchet : KeyPair → Bytes → RatchetState → RatchetState
  unfolding kdf_rk
  dh_ratchet fresh header_dh state =
      let (rk1, ck_r) = kdf_rk crypto state.rk (crypto.dh state.dh_s.secret_key header_dh) in
      let (rk2, ck_s) = kdf_rk crypto rk1 (crypto.dh fresh.secret_key header_dh) in
      record state {
        p_n = state.n_s;
        n_s = 0;
        n_r = 0;
        dh_r = some header_dh;
        ck_r = some ck_r;
        dh_s = fresh;
        rk = rk2;
        ck_s = some ck_s;
      }

  unfoldable pub bootstrap_receive : Bytes → RatchetState → RatchetState
  unfolding kdf_rk
  bootstrap_receive header_dh state =
      let (rk, ck) = kdf_rk crypto state.rk header_dh in
      record state { rk = rk; ck_r = some ck; dh_r = some header_dh }

  unfoldable pub ensure_sending_chain : RatchetState → Result RatchetError RatchetState
  unfolding kdf_rk
  ensure_sending_chain state = elim state.ck_s [
    | some ck ↦ ok state
    | none ↦ do
      remote ← or_throw state.dh_r no_remote_dh
      let (rk, ck) = kdf_rk crypto state.rk (crypto.dh state.dh_s.secret_key remote) in
          ok (record state { rk = rk; ck_s = some ck })
  ]

  -- The message with the key `mk`: version, header, nonce and ciphertext.
  unfoldable pub frame : Bytes → RatchetHeader → Bytes → Bytes → Bytes → Bytes
  unfolding encode_header
  frame mk header nonce plaintext aad =
      let header_bytes = encode_header header in
      ratchet_wire_version
      ∷ (header_bytes ++ (nonce ++ crypto.encrypt mk nonce (aad ++ header_bytes) plaintext))

  unfoldable pub header_of : RatchetState → RatchetHeader
  header_of state = record { dh = state.dh_s.public_key; pn = state.p_n; n = state.n_s }

  -- `nonce` is `randomBytes(24)`. After `ensureSendingChain` there is a sending chain.
  unfoldable pub seal :
      Bytes → Bytes → Bytes → RatchetState → Result RatchetError (RatchetState × Bytes)
  unfolding ensure_sending_chain kdf_ck frame header_of
  seal nonce plaintext aad state = do
    ready ← ensure_sending_chain state
    chain ← or_throw ready.ck_s no_remote_dh
    let (ck, mk) = kdf_ck crypto chain in
        ok (
          record ready { ck_s = some ck; n_s = suc ready.n_s },
          frame mk (header_of ready) nonce plaintext aad,
        )

  same_dh : Option Bytes → Bytes → Bool
  same_dh none header_dh = false
  same_dh (some remote) header_dh = same remote header_dh

  -- A responder that has neither sent nor received.
  is_new : RatchetState → Bool
  is_new state = is_none state.dh_r && is_none state.ck_r && is_none state.ck_s

  -- Nothing to do without a receiving chain, as in `skipMessageKeys`.
  catch_up : ℕ → Option Bytes → RatchetState → Result RatchetError RatchetState
  unfolding skip_message_keys
  catch_up pn none state = ok state
  catch_up pn (some remote) state = skip_message_keys pn remote state

  -- `if (!sameDh) …`: what a header with a new ratchet key does.
  unfoldable pub receive_dh :
      KeyPair → RatchetHeader → RatchetState → Result RatchetError RatchetState
  unfolding bootstrap_receive dh_ratchet same_dh is_new catch_up
  receive_dh fresh header state =
      if same_dh state.dh_r header.dh
      then ok state
      else if is_new state
      then ok (bootstrap_receive header.dh state)
      else catch_up header.pn state.dh_r state >>= λ caught_up.
          ok (dh_ratchet fresh header.dh caught_up)

  -- The next message of the receiving chain.
  unfoldable pub take_key : RatchetState → Result RatchetError (RatchetState × Bytes)
  unfolding kdf_ck
  take_key state = do
    chain ← or_throw state.ck_r no_receiving_chain
    let (ck, mk) = kdf_ck crypto chain in
        ok (record state { ck_r = some ck; n_r = suc state.n_r }, mk)

  -- The message key of a header: a skipped one, or the one that the chain comes to.
  unfoldable pub message_key :
      KeyPair → RatchetHeader → RatchetState → Result RatchetError (RatchetState × Bytes)
  unfolding receive_dh skip_message_keys take_key skip_key_id
  message_key fresh header state = elim (Map.get state.skipped (skip_key_id header.dh header.n)) [
    | some mk ↦
        ok
          (record state { skipped = Map.delete state.skipped (skip_key_id header.dh header.n) }, mk)
    | none ↦ do
      turned ← receive_dh fresh header state
      _ ← or_throw turned.ck_r no_receiving_chain
      caught_up ← skip_message_keys header.n header.dh turned
      take_key caught_up
  ]

  -- `open` after its two checks, from the three parts of the message.
  unfoldable pub open_parts :
      KeyPair
      → Bytes
      → Bytes
      → Bytes
      → Bytes
      → RatchetState
      → Result RatchetError (RatchetState × Bytes)
  open_parts fresh head nonce ct aad state = do
    header ← decode_header head
    (next, mk) ← message_key fresh header state
    plaintext ←
        or_throw (crypto.decrypt mk nonce (aad ++ encode_header header) ct) decryption_failed
    ok (next, plaintext)

  -- `fresh` is the key pair that a ratchet step draws.
  unfoldable pub open_blob :
      KeyPair → Bytes → Bytes → RatchetState → Result RatchetError (RatchetState × Bytes)
  open_blob fresh blob aad state = do
    throw_if (ltb (length blob) 66) blob_too_short
    throw_if (not (same (take 1 blob) (ratchet_wire_version ∷ []))) version_mismatch
    open_parts fresh (take 40 (drop 1 blob)) (take 24 (drop 41 blob)) (drop 65 blob) aad state
