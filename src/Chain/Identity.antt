-- ===== src/Chain/Identity.antt =====
-- `registerIdentity`, `getIdentity` and `getIdentityRoot`.
use nexnet.Common.{
  ℕ, not, ◌||◌, Option, none, some, ◌==◌, Result, ok, ◌>>=◌, ◌>>◌, throw_if, Bytes, same, to_hex,
  length,
}
use nexnet.Common.Map
use nexnet.Common.Map.{Map, text_key}
use nexnet.Crypto.{Crypto}
use nexnet.Protocol.Types.{IdentityRecord}
use nexnet.Protocol.Credentials.{identity_id_from_wallet, verify_identity_proof}
use nexnet.Chain.State.{
  Chain, AccountMeta, ChainError, identity_root_bound, invalid_identity_registration,
  identity_id_mismatch, invalid_identity_proof,
}
use nexnet.Chain.Usernames.{register_account}

-- `this.accounts.get(walletHex)?.createdAt ?? 0`
abbrev created_at : Option AccountMeta → ℕ
created_at none = 0
created_at (some meta) = meta.created_at

identity_of : Bytes → Chain → Bytes → IdentityRecord
identity_of identity_id s wallet = record {
  identity_id = identity_id;
  wallet = wallet;
  created_at = created_at (Map.get s.accounts (to_hex wallet));
  username = Map.get s.wallet_to_username (to_hex wallet);
}

unfoldable pub get_identity : Bytes → Chain → Option IdentityRecord
unfolding identity_of
get_identity identity_id s = elim (Map.get s.identity_roots (to_hex identity_id)) [
  | none ↦ none
  | some wallet ↦ some (identity_of identity_id s wallet)
]

unfoldable pub get_identity_root : Bytes → Chain → Option Bytes
get_identity_root identity_id s = Map.get s.identity_roots (to_hex identity_id)

-- A root that is bound must be this wallet; a free one is bound and the account registered.
bind_root : ℕ → Bytes → Bytes → Option Bytes → Chain → Result ChainError Chain
bind_root now wallet identity_id none s =
    let s' = register_account now wallet s in
    ok (record s' { identity_roots = Map.set s'.identity_roots (to_hex identity_id) wallet })
bind_root now wallet identity_id (some root) s = do
  throw_if (not (same root wallet)) identity_root_bound
  ok s

-- `(await this.getIdentity(identityId))!`: the assertion says that the identity is found.
unfoldable pub register_identity :
    Crypto → ℕ → Bytes → Bytes → Bytes → Chain → Result ChainError (Chain × Option IdentityRecord)
unfolding bind_root
register_identity crypto now wallet identity_id proof s = do
  throw_if (not (length wallet == 32) || not (length identity_id == 32) || not (length proof == 64))
      invalid_identity_registration
  throw_if (not (same identity_id (identity_id_from_wallet crypto wallet))) identity_id_mismatch
  throw_if (not (verify_identity_proof crypto wallet proof)) invalid_identity_proof
  s' ← bind_root now wallet identity_id (Map.get s.identity_roots (to_hex identity_id)) s
  ok (s', get_identity identity_id s')
