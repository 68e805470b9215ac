-- ===== src/Ratchet/Tests.antt =====
-- A session of packages/client/src/double-ratchet.ts with a cipher that tags with a sum of the key.
use mathlib.Core.List.{Memᴰ}
use nexnet.Common.{
  ℕ, zero, suc, ◌+◌, ◌%◌, ◌≡◌, refl, arith, Option, none, some, List, [], ◌∷◌, ◌++◌, map, ◌==◌,
  if◌then◌else◌, Result, ok, err, Bytes, take, drop, repeat, codes,
}
use nexnet.Common.Map.{get, text_key}
use nexnet.Ratchet.State.{
  RatchetCrypto, KeyPair, RatchetState, RatchetError, kdf_ck, kdf_rk, skip_key_id, init_initiator,
  init_responder,
}
use nexnet.Ratchet.Header.{encode_header, decode_header, decode_header-encode_header}
use nexnet.Ratchet.Session.{bootstrap_receive, seal, ensure_sending_chain, frame, header_of}
use nexnet.Ratchet.Session.Delivery.{IsAead, Letter, seal_all, open_all, any_order_delivery}
use nexnet.Ratchet.Session.Bootstrap.{new_session_delivers}

sum : Bytes → ℕ
sum [] = 0
sum (b ∷ bs) = (b + sum bs) % 256

unlock : ℕ → Bytes → Option Bytes
unlock key [] = none
unlock key (tag ∷ rest) = if tag == key then some (drop 15 rest) else none

abbrev crypto : RatchetCrypto
unfolding sum unlock
crypto = record {
  hkdf = λ ikm salt info n. take n (map (λ b. (b + 1) % 256) (ikm ++ (salt ++ repeat 64 0)));
  encrypt = λ key nonce aad plaintext. sum key ∷ (repeat 15 0 ++ plaintext);
  decrypt = λ key nonce aad ciphertext. unlock (sum key) ciphertext;
  dh = λ ours theirs. ours ++ theirs;
}

crypto-IsAead : IsAead crypto
unfolding crypto unlock
crypto-IsAead = record {
  opens = λ key nonce aad plaintext. ground arith;
  tagged = λ key nonce aad plaintext. omega arith;
}

abbrev alice_pair : KeyPair
alice_pair = record { secret_key = repeat 32 5; public_key = repeat 32 6 }

abbrev bob_pair : KeyPair
bob_pair = record { secret_key = repeat 32 8; public_key = repeat 32 9 }

abbrev root : Bytes
root = repeat 32 1

abbrev aad : Bytes
aad = 77 ∷ []

abbrev alice : RatchetState
unfolding init_initiator
alice = init_initiator crypto alice_pair root

abbrev chain : Bytes
unfolding kdf_rk
chain = (kdf_rk crypto root alice_pair.public_key).1

abbrev bob : RatchetState
unfolding init_responder bootstrap_receive
bob = bootstrap_receive crypto alice_pair.public_key (init_responder bob_pair root)

abbrev messages : List (Bytes × Bytes)
messages =
    (repeat 24 1, codes "one") ∷ (repeat 24 2, codes "two") ∷ (repeat 24 3, codes "three") ∷ []

abbrev outcome_state : Result RatchetError (RatchetState × List Letter) → RatchetState
outcome_state (ok t) = t.0
outcome_state (err e) = alice

abbrev letters_of : Result RatchetError (RatchetState × List Letter) → List Letter
letters_of (ok t) = t.1
letters_of (err e) = []

abbrev pick : ℕ → List Letter → Letter
pick n [] = record { index = 0; blob = []; plaintext = [] }
pick zero (l ∷ ls) = l
pick (suc n) (l ∷ ls) = pick n ls

abbrev sent : List Letter
unfolding seal_all seal kdf_ck ensure_sending_chain frame header_of encode_header
sent = letters_of (seal_all crypto aad messages alice)

bob_fresh : (i : ℕ) → get bob.skipped (skip_key_id alice_pair.public_key i) ≡ none
unfolding bob get
bob_fresh i = refl

any_order_delivery_example :
    (t : RatchetState) × (open_all crypto aad bob_pair
        (map (λ l. l.blob) (pick 2 sent ∷ pick 0 sent ∷ []))
        bob
      ≡ ok (t, codes "three" ∷ codes "one" ∷ []))
unfolding sent alice bob chain seal_all seal kdf_ck ensure_sending_chain frame header_of
    encode_header
any_order_delivery_example =
    any_order_delivery crypto aad alice_pair.public_key chain 0 crypto-IsAead refl (omega arith)
      bob_pair alice bob (outcome_state (seal_all crypto aad messages alice)) messages sent
      (pick 2 sent ∷ pick 0 sent ∷ []) (record { key = refl; previous = refl; chain = refl })
      (record { from = refl; chain = refl; fresh = λ i h. bob_fresh i }) (refl, (refl, (refl, tt)))
      (omega arith) (omega arith) (omega arith) refl
      (Memᴰ.tail (Memᴰ.tail (Memᴰ.head refl)), (Memᴰ.head refl, tt))
      (((λ e. omega (arith, e)), tt), (tt, tt))

decode_header-encode_header_example :
    decode_header (encode_header (record { dh = repeat 32 4; pn = 7; n = 300 }))
    ≡ ok (record { dh = repeat 32 4; pn = 7; n = 300 })
decode_header-encode_header_example =
    decode_header-encode_header (record { dh = repeat 32 4; pn = 7; n = 300 }) refl (omega arith)
      (omega arith)

new_session_delivers_example :
    (t : RatchetState) × (open_all crypto aad bob_pair
        (map (λ l. l.blob) (pick 2 sent ∷ pick 0 sent ∷ []))
        (init_responder bob_pair root)
      ≡ ok (t, codes "three" ∷ codes "one" ∷ []))
unfolding sent alice seal_all seal kdf_ck ensure_sending_chain frame header_of encode_header
new_session_delivers_example =
    new_session_delivers crypto aad crypto-IsAead bob_pair alice_pair bob_pair root refl
      (outcome_state (seal_all crypto aad messages alice)) messages sent (pick 2 sent)
      (pick 0 sent ∷ []) (refl, (refl, (refl, tt))) (omega arith) refl
      (Memᴰ.tail (Memᴰ.tail (Memᴰ.head refl)), (Memᴰ.head refl, tt))
      (((λ e. omega (arith, e)), tt), (tt, tt))
