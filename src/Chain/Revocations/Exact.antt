-- ===== src/Chain/Revocations/Exact.antt =====
-- A revocation marks one credential, once.
use nexnet.Common.{
  ℕ, ◌≤◌, ◌≡◌, ◌⊎◌, ◌↔◌, true, some, ok, err, ◌++◌, ◌∷◌, Bytes, Text, to_hex, arith, ite,
  text_discrete,
}
use nexnet.Common.Map
use nexnet.Common.Map.{text_key, get-set}
use nexnet.Common.Hex.{IsBytes, IsPlain, to_hex-injective, to_hex-IsPlain, split_at_colon}
use nexnet.Crypto.{Crypto}
use nexnet.Protocol.Types.{CredentialKind, device, ssh, passkey, kind_text, Revocation}
use nexnet.Chain.State.{Chain, stale_revocation, revocation_key, is_revoked_key}
use nexnet.Chain.Revocations.{revoke_credential, is_revoked}

kind_text-IsPlain : (kind : CredentialKind) → IsPlain (kind_text kind)
kind_text-IsPlain device = omega arith
kind_text-IsPlain ssh = omega arith
kind_text-IsPlain passkey = omega arith

kind_text-injective : (a b : CredentialKind) → kind_text a ≡ kind_text b → a ≡ b
kind_text-injective a b e = ground arith

-- The key names its identity, kind and credential.
revocation_key-injective :
    (a b : Bytes) (j k : CredentialKind) (c d : Text)
    → IsBytes a
    → IsBytes b
    → revocation_key (to_hex a) j c ≡ revocation_key (to_hex b) k d
    → (a ≡ b) × (j ≡ k) × (c ≡ d)
unfolding revocation_key
revocation_key-injective a b j k c d ha hb e =
    let (same_hex, rest) =
      split_at_colon (to_hex a) (to_hex b) (kind_text j ++ (b':' ∷ c)) (kind_text k ++ (b':' ∷ d))
        (to_hex-IsPlain a ha) (to_hex-IsPlain b hb) e in
    let (same_kind, same_id) =
      split_at_colon (kind_text j) (kind_text k) c d (kind_text-IsPlain j) (kind_text-IsPlain k)
        rest in
    (to_hex-injective a b ha hb same_hex, kind_text-injective j k same_kind, same_id)

module _ (crypto : Crypto) (now : ℕ) (wallet : Bytes) (r : Revocation) (s t : Chain)
    (done : revoke_credential crypto now wallet r s ≡ ok t) where
  -- After a revocation a credential is revoked exactly if it is the one that the revocation names or was
  -- revoked before. Identities are byte arrays.
  pub revokes_exactly :
      (identity_id : Bytes) (kind : CredentialKind) (credential_id : Text)
      → IsBytes identity_id
      → IsBytes r.account_id
      → (is_revoked identity_id kind credential_id t ≡ true) ↔ (
          ((identity_id ≡ r.account_id) × (kind ≡ r.kind) × (credential_id ≡ r.credential_id))
          ⊎ (is_revoked identity_id kind credential_id s ≡ true))
  unfolding revoke_credential is_revoked is_revoked_key Map.has
  revokes_exactly identity_id kind credential_id hi hr = (
    λ h. ground (
      arith,
      law,
      revocation_key-injective r.account_id identity_id r.kind kind r.credential_id credential_id hr
          hi,
    ),
    λ h. ground (arith, law),
  )
    where
      law :
          Map.get
            (Map.set s.revocations
              (revocation_key (to_hex r.account_id) r.kind r.credential_id)
              r.sequence)
            (revocation_key (to_hex identity_id) kind credential_id)
          ≡ ite
              (text_discrete
                (revocation_key (to_hex r.account_id) r.kind r.credential_id)
                (revocation_key (to_hex identity_id) kind credential_id))
              (some r.sequence)
              (Map.get s.revocations (revocation_key (to_hex identity_id) kind credential_id))
      law = get-set s.revocations _ _ r.sequence

  -- The same revocation, sent again at that time or later, is refused as stale.
  pub replay_is_stale :
      (later : ℕ) → now ≤ later → revoke_credential crypto later wallet r t ≡ err stale_revocation
  unfolding revoke_credential
  replay_is_stale later h =
      ground (
        arith,
        get-set s.revocation_sequences (to_hex r.account_id) (to_hex r.account_id) r.sequence,
      )
