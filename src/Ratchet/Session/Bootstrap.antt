-- ===== src/Ratchet/Session/Bootstrap.antt =====
-- packages/client/src/double-ratchet.ts: a session from its start, where both sides hold the secret
-- of the key exchange and nothing else.
use mathlib.Core.List.{Memᴰ}
use nexnet.Common.{
  ◌++◌, ℕ, suc, ◌≤◌, ◌^◌, ◌<◌, ◌≡◌, refl, ◌∙◌, sym, subst, arith, List, ◌∷◌, map, ok, Bytes, All,
  All-among, length,
}
use nexnet.Common.Map
use nexnet.Common.Map.{text_key}
use nexnet.Ratchet.State.{
  RatchetCrypto, KeyPair, RatchetState, kdf_rk, max_skip, init_initiator, init_responder,
}
use nexnet.Ratchet.Header.{decode_header-encode_header, encode_header, length-encode_header}
use nexnet.Ratchet.Session.{
  open_blob, open_parts, message_key, receive_dh, same_dh, is_new, bootstrap_receive, frame,
}
use nexnet.Ratchet.Session.Keys.{Receives, header_at, mk_of}
use nexnet.Ratchet.Session.Delivery.{
  IsAead, Letter, Distinct, IsGenuine, Sends, seal_all, open_all, seal_all-Sent, open_blob-parts,
  any_order_delivery,
}

module _ (crypto : RatchetCrypto) (aad : Bytes) (aead : IsAead crypto) (new_pair : KeyPair)
    (ours theirs : KeyPair) (sk : Bytes) where
  abbrev chain : Bytes
  unfolding kdf_rk
  chain = (kdf_rk crypto sk ours.public_key).1

  -- The receiver after it has read the first header.
  started : RatchetState
  started = bootstrap_receive crypto ours.public_key (init_responder theirs sk)

  initiator-Sends : Sends crypto aad ours.public_key chain 0 (init_initiator crypto ours sk)
  unfolding init_initiator
  initiator-Sends = record { key = refl; previous = refl; chain = refl }

  started-Receives : Receives crypto ours.public_key chain started
  unfolding started bootstrap_receive init_responder Map.get
  started-Receives = record { from = refl; chain = refl; fresh = λ i h. refl }

  started_at : started.n_r ≡ 0
  unfolding started bootstrap_receive init_responder
  started_at = refl

  -- The first header makes the responder what the later ones find.
  message_key-started :
      (i : ℕ)
      → message_key crypto new_pair
          (header_at crypto ours.public_key chain 0 i)
          (init_responder theirs sk)
        ≡ message_key crypto new_pair (header_at crypto ours.public_key chain 0 i) started
  unfolding message_key receive_dh same_dh is_new started bootstrap_receive init_responder Map.get
  message_key-started i = ground arith

  module _ (is_key : length ours.public_key ≡ 32) where
    open_parts-started :
        (i : ℕ) (nonce ct : Bytes)
        → i < 2 ^ 32
        → open_parts crypto new_pair
            (encode_header (header_at crypto ours.public_key chain 0 i))
            nonce
            ct
            aad
            (init_responder theirs sk)
          ≡ open_parts crypto new_pair
              (encode_header (header_at crypto ours.public_key chain 0 i))
              nonce
              ct
              aad
              started
    unfolding open_parts
    open_parts-started i nonce ct small = rw (
      decode_header-encode_header (header_at crypto ours.public_key chain 0 i) is_key (omega arith)
          small,
      message_key-started i,
    )

    open_blob-started :
        (l : Letter)
        → IsGenuine crypto aad ours.public_key chain 0 l
        → open_blob crypto new_pair l.blob aad (init_responder theirs sk)
          ≡ open_blob crypto new_pair l.blob aad started
    unfolding frame
    open_blob-started l g =
        let header = header_at crypto ours.public_key chain 0 l.index in
        let mk = mk_of crypto chain l.index in
        let ct = crypto.encrypt mk g.nonce (aad ++ encode_header header) l.plaintext in
        let size = length-encode_header header is_key in
        let tagged : 1 ≤ length ct =
          omega (arith, aead.tagged mk g.nonce (aad ++ encode_header header) l.plaintext) in
        let parts = open_blob-parts crypto new_pair (encode_header header) g.nonce ct aad in
        rw g.framed (
          parts (init_responder theirs sk) size g.is_nonce tagged
          ∙ open_parts-started l.index g.nonce ct g.bounded
          ∙ sym (parts started size g.is_nonce tagged))

    -- In a new session, from the secret of the key exchange alone, messages that the initiator seals are
    -- opened by the responder to the texts that were sealed: any of them, in any order, none twice, at
    -- most a hundred and one of them. The cipher is an AEAD, and the key and the nonces have the sizes of
    -- the wire format.
    pub new_session_delivers :
        (last : RatchetState) (ms : List (Bytes × Bytes)) (letters : List Letter) (first : Letter)
        (delivered : List Letter)
        → All (λ m. length m.0 ≡ 24) ms
        → length ms ≤ suc max_skip
        → seal_all crypto aad ms (init_initiator crypto ours sk) ≡ ok (last, letters)
        → All (λ l. Memᴰ l letters) (first ∷ delivered)
        → Distinct (first ∷ delivered)
        → (t : RatchetState) × (open_all crypto aad new_pair
              (map (λ l. l.blob) (first ∷ delivered))
              (init_responder theirs sk)
            ≡ ok (t, map (λ l. l.plaintext) (first ∷ delivered)))
    unfolding open_all init_initiator
    new_session_delivers last ms letters first delivered n24 small e among distinct =
        let (last', letters', e', sent) =
          seal_all-Sent crypto aad ours.public_key chain 0 ms (init_initiator crypto ours sk)
            initiator-Sends n24 (omega arith) in
        let same_letters : letters' ≡ letters = cc in
        let genuine =
          All-among _ (first ∷ delivered) letters among (subst (All _) same_letters sent) in
        let (t, opened) =
          any_order_delivery crypto aad ours.public_key chain 0 aead is_key (omega arith) new_pair
            (init_initiator crypto ours sk) started last ms letters (first ∷ delivered)
            initiator-Sends started-Receives n24 (omega arith) (omega (arith, started_at))
            (omega arith) e among distinct in
        (t, rw (open_blob-started first genuine.0.0) opened)
