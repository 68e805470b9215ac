-- ===== src/Ratchet/Session/Keys.antt =====
-- packages/client/src/double-ratchet.ts: which message keys a receiver holds while one remote
-- ratchet key is in use.
use nexnet.Common.{
  ltb, Bool-cases, ℕ, zero, suc, ◌+◌, ◌-◌, ◌≤◌, ◌<◌, ◌≡◌, refl, ◌≢◌, ◌⊎◌, inl, inr, ap, arith, none,
  some, [], ◌∷◌, ◌++◌, ok, Bytes, Text, to_hex, ℕ_discrete,
}
use nexnet.Common.Map
use nexnet.Common.Map.{Map, text_key, get-set, get-delete}
use nexnet.Common.Decimal.{decimal, decimal-injective}
use nexnet.Ratchet.State.{RatchetCrypto, KeyPair, RatchetState, kdf_ck, skip_key_id, max_skip}
use nexnet.Ratchet.Header.{RatchetHeader}
use nexnet.Ratchet.Session.{
  skip_while, skip_message_keys, receive_dh, same_dh, take_key, message_key,
}

same_end : (xs ys zs : Text) → xs ++ ys ≡ xs ++ zs → ys ≡ zs
same_end [] ys zs e = e
same_end (x ∷ xs) ys zs e = same_end xs ys zs (cc)

skip_key_id-injective : (p : Bytes) (i j : ℕ) → skip_key_id p i ≡ skip_key_id p j → i ≡ j
unfolding skip_key_id
skip_key_id-injective p i j e =
    let same_tail = same_end (to_hex p) (b':' ∷ decimal i) (b':' ∷ decimal j) e in
    decimal-injective i j (cc)

module _ (crypto : RatchetCrypto) where
  -- The chain key after `i` messages, and the key of message `i`.
  abbrev pub chain_key : Bytes → ℕ → Bytes
  chain_key ck zero = ck
  chain_key ck (suc i) = (kdf_ck crypto (chain_key ck i)).0

  abbrev pub mk_of : Bytes → ℕ → Bytes
  mk_of ck i = (kdf_ck crypto (chain_key ck i)).1

  module _ (remote ck : Bytes) where
    -- The receiver follows the chain `ck` of the key `remote`, and holds no key from `Nr` on.
    pub record Receives (r : RatchetState) : Type 0 where
      pub from : r.dh_r ≡ some remote
      pub chain : r.ck_r ≡ some (chain_key ck r.n_r)
      pub fresh : (i : ℕ) → r.n_r ≤ i → Map.get r.skipped (skip_key_id remote i) ≡ none

    abbrev Waiting : RatchetState → ℕ → Type 0
    Waiting r i = Map.get r.skipped (skip_key_id remote i) ≡ some (mk_of ck i)

    -- The key of message `i` is kept or still to come.
    abbrev pub Undelivered : RatchetState → ℕ → Type 0
    Undelivered r i = Waiting r i ⊎ (r.n_r ≤ i)

    -- `t` is `r` after `steps` keys were put aside.
    record Skipped (steps : ℕ) (r t : RatchetState) : Type 0 where
      count : t.n_r ≡ r.n_r + steps
      follows : Receives t
      kept :
          (j : ℕ)
          → j < r.n_r
          → Map.get t.skipped (skip_key_id remote j) ≡ Map.get r.skipped (skip_key_id remote j)
      waits : (j : ℕ) → r.n_r ≤ j → j < r.n_r + steps → Waiting t j

    put_aside : RatchetState → RatchetState
    put_aside r = record r {
      ck_r = some (chain_key ck (suc r.n_r));
      skipped = Map.set r.skipped (skip_key_id remote r.n_r) (mk_of ck r.n_r);
      n_r = suc r.n_r;
    }

    put_aside-Receives : (r : RatchetState) → Receives r → Receives (put_aside r)
    unfolding put_aside
    put_aside-Receives r v = record {
      from = v.from;
      chain = refl;
      fresh = λ i h. ground (
        arith,
        get-set r.skipped (skip_key_id remote r.n_r) (skip_key_id remote i) (mk_of ck r.n_r),
        skip_key_id-injective remote r.n_r i,
        v.fresh i,
      );
    }

    skip_while-Skipped :
        (steps : ℕ) (r : RatchetState)
        → Receives r
        → Skipped steps r (skip_while crypto steps remote (chain_key ck r.n_r) r)
    unfolding skip_while put_aside
    skip_while-Skipped zero r v = record {
      count = omega arith;
      follows = v;
      kept = λ j h. refl;
      waits = λ j h k. absurd (omega arith);
    }
    skip_while-Skipped (suc steps) r v =
        let rest = skip_while-Skipped steps (put_aside r) (put_aside-Receives r v) in
        let law = get-set r.skipped (skip_key_id remote r.n_r) in
        record {
          count = omega (arith, rest.count);
          follows = rest.follows;
          kept = λ j h. ground (
            arith,
            rest.kept j,
            law (skip_key_id remote j) (mk_of ck r.n_r),
            skip_key_id-injective remote r.n_r j,
          );
          waits = λ j h k. elim (ℕ_discrete r.n_r j) [
            | yes e ↦ ground (
              arith,
              e,
              rest.kept j,
              law (skip_key_id remote j) (mk_of ck r.n_r),
              ap (skip_key_id remote) e,
            )
            | no n ↦ rest.waits j (omega (arith, n)) (omega arith)
          ];
        }

    -- `t` is `r` after message `i` was taken.
    pub record Took (i : ℕ) (r t : RatchetState) : Type 0 where
      pub follows : Receives t
      pub onward : r.n_r ≤ t.n_r
      pub others : (j : ℕ) → i ≢ j → Undelivered r j → Undelivered t j

    abbrev pub header_at : ℕ → ℕ → RatchetHeader
    header_at pn i = record { dh = remote; pn = pn; n = i }

    module _ (new_pair : KeyPair) (pn i : ℕ) (r : RatchetState) (v : Receives r) where
      -- The header `header_at pn i` gives the key of message `i`.
      abbrev Gives : Type 0
      Gives =
          (t : RatchetState) × (message_key crypto new_pair (header_at pn i) r ≡ ok (t, mk_of ck i))
          × Took i r t

      take_waiting : Waiting r i → Gives
      unfolding message_key
      take_waiting w = (
        record r { skipped = Map.delete r.skipped (skip_key_id remote i) },
        ground (arith, w),
        record {
          follows = record {
            from = v.from;
            chain = v.chain;
            fresh = λ k h. ground (
              arith,
              get-delete r.skipped (skip_key_id remote i) (skip_key_id remote k),
              v.fresh k h,
            );
          };
          onward = omega arith;
          others = λ j ne u. elim u [
            | inl a ↦ inl (
                ground (
                  arith,
                  get-delete r.skipped (skip_key_id remote i) (skip_key_id remote j),
                  skip_key_id-injective remote i j,
                  a,
                  ne,
                ))
            | inr b ↦ inr b
          ];
        },
      )

      -- The state after the keys before `i` were put aside and that of `i` was taken.
      caught_up : RatchetState
      caught_up = skip_while crypto (i - r.n_r) remote (chain_key ck r.n_r) r

      take_next : r.n_r ≤ i → i ≤ r.n_r + max_skip → Gives
      unfolding message_key receive_dh same_dh skip_message_keys take_key caught_up
      take_next low high =
          let rest = skip_while-Skipped (i - r.n_r) r v in
          let at : caught_up.n_r ≡ i = omega (arith, rest.count) in
          (
            record caught_up { ck_r = some (chain_key ck (suc i)); n_r = suc i },
            ground (
              arith,
              v.from,
              v.chain,
              v.fresh i low,
              rest.follows.chain,
              ap (chain_key ck) at,
              at,
            ),
            record {
              follows = record {
                from = rest.follows.from;
                chain = refl;
                fresh = λ k h. rest.follows.fresh k (omega (arith, at));
              };
              onward = omega arith;
              others = λ j ne u. elim u [
                | inl a ↦ inl (ground (arith, a, v.fresh j, rest.kept j))
                | inr b ↦ elim (Bool-cases (ltb j i)) [
                  | inl before ↦ inl (rest.waits j b (ground arith))
                  | inr after ↦ inr (ground arith)
                ]
              ];
            },
          )

      pub take_key_lem : Undelivered r i → i ≤ r.n_r + max_skip → Gives
      take_key_lem u high = elim u [ inl w ↦ take_waiting w | inr low ↦ take_next low high ]
