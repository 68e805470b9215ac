-- ===== src/Ratchet/Session/Delivery.antt =====
-- packages/client/src/double-ratchet.ts: `seal` against `open`, for any number of messages of one
-- ratchet key in any order.
use mathlib.Core.List.{Memᴰ, append_assoc}
use nexnet.Common.{
  ℕ, suc, ◌+◌, ◌≤◌, ◌<◌, ◌^◌, ◌≡◌, refl, ◌≢◌, ◌∙◌, subst, ltb, false, inr, arith, All-among, some,
  List, [], ◌∷◌, ◌++◌, map, Result, ok, ◌>>=◌, Bytes, All, length, text_discrete, length-append,
  take_of_length, drop_of_length,
}
use nexnet.Ratchet.State.{RatchetCrypto, KeyPair, RatchetState, RatchetError, max_skip}
use nexnet.Ratchet.Header.{
  RatchetHeader, encode_header, decode_header, decode_header-encode_header, length-encode_header,
}
use nexnet.Ratchet.Session.{
  seal, message_key, open_blob, open_parts, frame, ensure_sending_chain, header_of,
}
use nexnet.Ratchet.Session.Keys.{
  mk_of, chain_key, Receives, Undelivered, Took, take_key_lem, header_at,
}

-- `decrypt` undoes `encrypt`, and the ciphertext carries a tag of sixteen bytes.
pub record IsAead (crypto : RatchetCrypto) : Type 0 where
  pub opens :
      (key nonce aad plaintext : Bytes)
      → crypto.decrypt key nonce aad (crypto.encrypt key nonce aad plaintext) ≡ some plaintext
  pub tagged :
      (key nonce aad plaintext : Bytes)
      → length (crypto.encrypt key nonce aad plaintext) ≡ length plaintext + 16

-- A message on its way: its number, what was sent and what it says.
pub record Letter : Type 0 where
  pub index : ℕ
  pub blob : Bytes
  pub plaintext : Bytes

-- A message comes apart into its header, its nonce and its ciphertext.
pub open_blob-parts :
    (crypto : RatchetCrypto) (new_pair : KeyPair) (head nonce ct aad : Bytes) (r : RatchetState)
    → length head ≡ 40
    → length nonce ≡ 24
    → 1 ≤ length ct
    → open_blob crypto new_pair (1 ∷ (head ++ (nonce ++ ct))) aad r
      ≡ open_parts crypto new_pair head nonce ct aad r
unfolding open_blob text_discrete
open_blob-parts crypto new_pair head nonce ct aad r h40 n24 c =
    let ahead = drop_of_length 64 (head ++ nonce) ct (omega (arith, length-append head nonce)) in
    let long : ltb (length (1 ∷ (head ++ (nonce ++ ct)))) 66 ≡ false =
      ground (arith, length-append head (nonce ++ ct), length-append nonce ct) in
    rw (
      long,
      take_of_length 40 head (nonce ++ ct) h40,
      drop_of_length 40 head (nonce ++ ct) h40,
      take_of_length 24 nonce ct n24,
      ← append_assoc head nonce ct,
      ahead,
    )

-- Each step after the checks gives what it should.
open_parts_lem :
    (crypto : RatchetCrypto) (new_pair : KeyPair) (header : RatchetHeader)
    (nonce ct aad mk plaintext : Bytes) (r t : RatchetState)
    → decode_header (encode_header header) ≡ ok header
    → message_key crypto new_pair header r ≡ ok (t, mk)
    → crypto.decrypt mk nonce (aad ++ encode_header header) ct ≡ some plaintext
    → open_parts crypto new_pair (encode_header header) nonce ct aad r ≡ ok (t, plaintext)
unfolding open_parts
open_parts_lem crypto new_pair header nonce ct aad mk plaintext r t decoded key opened =
    rw (decoded, key, opened)

-- No two letters have the same number.
abbrev pub Distinct : List Letter → Type 0
Distinct [] = Unit
Distinct (l ∷ ls) = All (λ m. l.index ≢ m.index) ls × Distinct ls

module _ (crypto : RatchetCrypto) (aad : Bytes) where
  unfoldable pub open_all :
      KeyPair → List Bytes → RatchetState → Result RatchetError (RatchetState × List Bytes)
  open_all new_pair [] r = ok (r, [])
  open_all new_pair (blob ∷ blobs) r = do
    (next, plaintext) ← open_blob crypto new_pair blob aad r
    (last, plaintexts) ← open_all new_pair blobs next
    ok (last, plaintext ∷ plaintexts)

  -- `seal` of each message in turn, as letters.
  unfoldable pub seal_all :
      List (Bytes × Bytes) → RatchetState → Result RatchetError (RatchetState × List Letter)
  seal_all [] s = ok (s, [])
  seal_all ((nonce, plaintext) ∷ ms) s = do
    (next, blob) ← seal crypto nonce plaintext aad s
    (last, letters) ← seal_all ms next
    ok (last, record { index = s.n_s; blob = blob; plaintext = plaintext } ∷ letters)

  module _ (remote ck : Bytes) (pn : ℕ) where
    -- The letter is a frame of the chain `ck`, from the key `remote`.
    pub record IsGenuine (l : Letter) : Type 0 where
      pub nonce : Bytes
      pub is_nonce : length nonce ≡ 24
      pub bounded : l.index < 2 ^ 32
      pub framed :
          l.blob
          ≡ frame crypto
              (mk_of crypto ck l.index)
              (header_at crypto remote ck pn l.index)
              nonce
              l.plaintext
              aad

    -- The sender is on the chain `ck` with the key `remote`.
    pub record Sends (s : RatchetState) : Type 0 where
      pub key : s.dh_s.public_key ≡ remote
      pub previous : s.p_n ≡ pn
      pub chain : s.ck_s ≡ some (chain_key crypto ck s.n_s)

    sealed : RatchetState → RatchetState
    sealed s = record s { ck_s = some (chain_key crypto ck (suc s.n_s)); n_s = suc s.n_s }

    seal_lem :
        (nonce plaintext : Bytes) (s : RatchetState)
        → Sends s
        → seal crypto nonce plaintext aad s
          ≡ ok (
            sealed s,
            frame crypto
                (mk_of crypto ck s.n_s)
                (header_at crypto remote ck pn s.n_s)
                nonce
                plaintext
                aad,
          )
    unfolding seal ensure_sending_chain header_of sealed
    seal_lem nonce plaintext s v = rw (v.chain, v.key, v.previous) refl

    sealed-Sends : (s : RatchetState) → Sends s → Sends (sealed s)
    unfolding sealed
    sealed-Sends s v = record { key = v.key; previous = v.previous; chain = refl }

    -- Genuine, with a number from `low` on and below `high`.
    abbrev Sent : ℕ → ℕ → Letter → Type 0
    Sent low high l = IsGenuine l × (low ≤ l.index) × (l.index < high)

    Sent-widen :
        (low high low' high' : ℕ) (ls : List Letter)
        → low' ≤ low
        → high ≤ high'
        → All (Sent low high) ls
        → All (Sent low' high') ls
    Sent-widen low high low' high' [] lo hi h = tt
    Sent-widen low high low' high' (l ∷ ls) lo hi ((g, a, b), rest) =
        ((g, omega arith, omega arith), Sent-widen low high low' high' ls lo hi rest)

    pub seal_all-Sent :
        (ms : List (Bytes × Bytes)) (s : RatchetState)
        → Sends s
        → All (λ m. length m.0 ≡ 24) ms
        → s.n_s + length ms ≤ 2 ^ 32
        → (last : RatchetState) × (letters : List Letter) × (seal_all ms s ≡ ok (last, letters))
          × All (Sent s.n_s (s.n_s + length ms)) letters
    unfolding seal_all sealed
    seal_all-Sent [] s v n24 small = (s, [], refl, tt)
    seal_all-Sent ((nonce, plaintext) ∷ ms) s v n24 small =
        let (last, letters, e, sent) =
          seal_all-Sent ms (sealed s) (sealed-Sends s v) n24.1 (omega arith) in
        let blob =
          frame crypto (mk_of crypto ck s.n_s) (header_at crypto remote ck pn s.n_s) nonce plaintext
            aad in
        (
          last,
          record { index = s.n_s; blob = blob; plaintext = plaintext } ∷ letters,
          rw (seal_lem nonce plaintext s v, e) refl,
          (
            (
              record { nonce = nonce; is_nonce = n24.0; bounded = omega arith; framed = refl },
              omega arith,
              omega arith,
            ),
            Sent-widen _ _ _ _ letters (omega arith) (omega arith) sent,
          ),
        )

    module _ (aead : IsAead crypto) (is_key : length remote ≡ 32) (pn_bounded : pn < 2 ^ 32)
        (new_pair : KeyPair) where
      open_letter :
          (l : Letter) (r : RatchetState)
          → IsGenuine l
          → Receives crypto remote ck r
          → Undelivered crypto remote ck r l.index
          → l.index ≤ r.n_r + max_skip
          → (t : RatchetState) × (open_blob crypto new_pair l.blob aad r ≡ ok (t, l.plaintext))
            × Took crypto remote ck l.index r t
      unfolding frame
      open_letter l r g v u high =
          let (t, given, took) = take_key_lem crypto remote ck new_pair pn l.index r v u high in
          let header = header_at crypto remote ck pn l.index in
          let head = encode_header header in
          let mk = mk_of crypto ck l.index in
          let ct = crypto.encrypt mk g.nonce (aad ++ head) l.plaintext in
          (
            t,
            rw g.framed (
                open_blob-parts crypto new_pair head g.nonce ct aad r
                  (length-encode_header header is_key) g.is_nonce
                  (omega (arith, aead.tagged mk g.nonce (aad ++ head) l.plaintext))
                ∙ open_parts_lem crypto new_pair header g.nonce ct aad mk l.plaintext r t
                    (decode_header-encode_header header is_key pn_bounded g.bounded) given
                    (aead.opens mk g.nonce (aad ++ head) l.plaintext)),
            took,
          )

      abbrev Expected : RatchetState → Letter → Type 0
      Expected r l =
          IsGenuine l × Undelivered crypto remote ck r l.index × (l.index ≤ r.n_r + max_skip)

      still_Expected :
          (i : ℕ) (r t : RatchetState) (ls : List Letter)
          → Took crypto remote ck i r t
          → All (λ m. i ≢ m.index) ls
          → All (Expected r) ls
          → All (Expected t) ls
      still_Expected i r t [] took ne e = tt
      still_Expected i r t (l ∷ ls) took ne ((g, u, high), rest) = (
        (g, took.others l.index ne.0 u, omega (arith, took.onward)),
        still_Expected i r t ls took ne.1 rest,
      )

      open_all-letters :
          (ls : List Letter) (r : RatchetState)
          → Receives crypto remote ck r
          → All (Expected r) ls
          → Distinct ls
          → (t : RatchetState) × (open_all new_pair (map (λ l. l.blob) ls) r
              ≡ ok (t, map (λ l. l.plaintext) ls))
      unfolding open_all
      open_all-letters [] r v e d = (r, refl)
      open_all-letters (l ∷ ls) r v ((g, u, high), rest) d =
          let (next, opened, took) = open_letter l r g v u high in
          let (t, others) =
            open_all-letters ls next took.follows (still_Expected l.index r next ls took d.0 rest)
              d.1 in
          (t, rw (opened, others))

      Sent-Expected :
          (s r : RatchetState) (count : ℕ) (ls : List Letter)
          → r.n_r ≤ s.n_s
          → s.n_s + count ≤ r.n_r + suc max_skip
          → All (Sent s.n_s (s.n_s + count)) ls
          → All (Expected r) ls
      Sent-Expected s r count [] low high h = tt
      Sent-Expected s r count (l ∷ ls) low high ((g, a, b), rest) =
          ((g, inr (omega arith), omega arith), Sent-Expected s r count ls low high rest)

      -- Messages that one side seals, any of them and in any order but none twice, are opened by the
      -- other side to the texts that were sealed. The two sides are on the same chain, the receiver is
      -- not ahead and the messages are within the hundred that it may skip; the cipher is an AEAD, and
      -- the keys, nonces and counters have the sizes of the wire format.
      pub any_order_delivery :
          (s r last : RatchetState) (ms : List (Bytes × Bytes)) (letters delivered : List Letter)
          → Sends s
          → Receives crypto remote ck r
          → All (λ m. length m.0 ≡ 24) ms
          → s.n_s + length ms ≤ 2 ^ 32
          → r.n_r ≤ s.n_s
          → s.n_s + length ms ≤ r.n_r + suc max_skip
          → seal_all ms s ≡ ok (last, letters)
          → All (λ l. Memᴰ l letters) delivered
          → Distinct delivered
          → (t : RatchetState) × (open_all new_pair (map (λ l. l.blob) delivered) r
              ≡ ok (t, map (λ l. l.plaintext) delivered))
      any_order_delivery s r last ms letters delivered v w n24 small low high e among distinct =
          let (last', letters', e', sent) = seal_all-Sent ms s v n24 small in
          let same_letters : letters' ≡ letters = cc in
          let all_sent : All (Sent s.n_s (s.n_s + length ms)) letters =
            subst (All (Sent s.n_s (s.n_s + length ms))) same_letters sent in
          open_all-letters delivered r w
            (Sent-Expected s r (length ms) delivered low high
              (All-among _ delivered letters among all_sent))
            distinct
