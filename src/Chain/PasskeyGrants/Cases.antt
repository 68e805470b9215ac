-- ===== src/Chain/PasskeyGrants/Cases.antt =====
-- `authorizeDeviceCertificateWithPasskey` either changes nothing or runs to the write of the counter.
use nexnet.Common.{ℕ, Option, some, none, Result, ok, err, Bytes, Text}
use nexnet.Common.Map.{text_key}
use nexnet.Protocol.Types.{DeviceCertificate, PasskeyAssertion, PasskeyCredential}
use nexnet.Chain.State.{Chain, ChainError}
use nexnet.Chain.PasskeyGrants.{
  authorize_device_certificate_with_passkey, finish_authorization, conclude, check_assertion,
}

conclude_cases {ℓ} :
    (P : Chain → Type ℓ) (now : ℕ) (identity_id : Bytes) (cert : DeviceCertificate)
    (r : Result ChainError (PasskeyCredential × Option ℕ)) (s : Chain)
    → P s
    → ((c : PasskeyCredential) (n : ℕ) → P (finish_authorization now identity_id cert c n s).0)
    → P (conclude now identity_id cert r s).0
unfolding conclude
conclude_cases P now identity_id cert (err e) s p f = p
conclude_cases P now identity_id cert (ok (c, none)) s p f = p
conclude_cases P now identity_id cert (ok (c, some n)) s p f = f c n

module _ (verify_assertion : PasskeyAssertion → Text → PasskeyCredential → Option ℕ) where
  pub authorize_cases {ℓ} :
      (P : Chain → Type ℓ) (now : ℕ) (identity_id : Bytes) (cert : DeviceCertificate)
      (assertion : PasskeyAssertion) (expected : Option Text) (s : Chain)
      → P s
      → ((c : PasskeyCredential) (n : ℕ) → P (finish_authorization now identity_id cert c n s).0)
      → P
          (authorize_device_certificate_with_passkey verify_assertion now identity_id cert assertion
            expected s).0
  unfolding authorize_device_certificate_with_passkey
  authorize_cases P now identity_id cert assertion expected s p f =
      conclude_cases P now identity_id cert
        (check_assertion verify_assertion now identity_id cert assertion expected s) s p f
