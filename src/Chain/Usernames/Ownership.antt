-- ===== src/Chain/Usernames/Ownership.antt =====
-- `usernames` and `walletToUsername` through the username operations.
use nexnet.Common.{
  ℕ, some, none, ◌≡◌, ok, Bytes, Text, arith, to_hex, inl, inr, Option-cases, text_discrete, subst,
  ite, Result-cases,
}
use nexnet.Common.Map
use nexnet.Common.Map.{Map, text_key, get-set, get-delete}
use nexnet.Chain.State.{Chain, UsernameRecord, empty}
use nexnet.Chain.Usernames.{release, claim, register_username, normalize}

-- The two maps are inverse to one another.
pub record IsConsistent (s : Chain) : Type 0 where
  pub owned :
      (name : Text) (r : UsernameRecord)
      → Map.get s.usernames name ≡ some r
      → (r.username ≡ name) × (Map.get s.wallet_to_username (to_hex r.owner_wallet) ≡ some name)
  pub named :
      (hex name : Text)
      → Map.get s.wallet_to_username hex ≡ some name
      → (r : UsernameRecord) × (Map.get s.usernames name ≡ some r) × (to_hex r.owner_wallet ≡ hex)

pub empty-IsConsistent : IsConsistent empty
unfolding Map.get
empty-IsConsistent = record { owned = λ name r e. cc; named = λ hex name e. cc }

pub IsConsistent-same :
    (s t : Chain)
    → t.usernames ≡ s.usernames
    → t.wallet_to_username ≡ s.wallet_to_username
    → IsConsistent s
    → IsConsistent t
IsConsistent-same s t p q v = record {
  owned = λ name r e. rw q (v.owned name r (rw (← p) e));
  named = λ hex name e. rw p (v.named hex name (rw (← q) e));
}

-- A released name is free, with the rest as it was.
record Freed (name : Text) (s t : Chain) : Type 0 where
  consistent : IsConsistent t
  free : Map.get t.usernames name ≡ none
  unnamed :
      (hex : Text)
      → Map.get s.wallet_to_username hex ≡ none
      → Map.get t.wallet_to_username hex ≡ none

module _ (name : Text) (r : UsernameRecord) (s : Chain) (v : IsConsistent s)
    (e : Map.get s.usernames name ≡ some r) where
  dropped : Chain
  dropped = record s {
    usernames = Map.delete s.usernames name;
    wallet_to_username = Map.delete s.wallet_to_username (to_hex r.owner_wallet);
  }

  dropped-IsConsistent : IsConsistent dropped
  unfolding dropped
  dropped-IsConsistent = record {
    owned = λ n q f. ground (
      arith,
      get-delete s.usernames name n,
      get-delete s.wallet_to_username (to_hex r.owner_wallet) (to_hex q.owner_wallet),
      v.owned n q,
      v.owned name r e,
    );
    named = λ hex n f.
        let (q, g, h) =
          v.named hex n
            (ground (arith, get-delete s.wallet_to_username (to_hex r.owner_wallet) hex)) in
        (
          q,
          ground (
            arith,
            get-delete s.usernames name n,
            get-delete s.wallet_to_username (to_hex r.owner_wallet) hex,
          ),
          h,
        );
  }

  dropped-Freed : Freed name s dropped
  unfolding dropped
  dropped-Freed = record {
    consistent = dropped-IsConsistent;
    free = ground (arith, get-delete s.usernames name name);
    unnamed = λ hex f. ground (arith, get-delete s.wallet_to_username (to_hex r.owner_wallet) hex);
  }

release-Freed :
    (now : ℕ) (name : Text) (s t : Chain)
    → IsConsistent s
    → release now name (Map.get s.usernames name) s ≡ ok t
    → Freed name s t
unfolding release dropped
release-Freed now name s t v e = elim (Option-cases (Map.get s.usernames name)) [
  | inl free ↦
      subst (Freed name s) (ground arith)
        (record { consistent = v; free = free; unnamed = λ hex f. f })
  | inr (r, taken) ↦ subst (Freed name s) (ground arith) (dropped-Freed name r s v taken)
]

claim-IsConsistent :
    (r : UsernameRecord) (s : Chain)
    → IsConsistent s
    → Map.get s.usernames r.username ≡ none
    → Map.get s.wallet_to_username (to_hex r.owner_wallet) ≡ none
    → IsConsistent (claim r s)
unfolding claim
claim-IsConsistent r s v free unnamed = record {
  owned = λ n q f. ground (
    arith,
    get-set s.usernames r.username n r,
    get-set s.wallet_to_username (to_hex r.owner_wallet) (to_hex q.owner_wallet) r.username,
    v.owned n q,
  );
  named = λ hex n f. elim (text_discrete (to_hex r.owner_wallet) hex) [
    | yes mine ↦ (r, ground (arith, by_wallet hex, by_name n), mine)
    | no other ↦
        let (q, g, h) = v.named hex n (ground (arith, by_wallet hex)) in
        (q, ground (arith, by_name n), h)
  ];
}
  where
    by_wallet :
        (hex : Text)
        → Map.get (Map.set s.wallet_to_username (to_hex r.owner_wallet) r.username) hex
          ≡ ite
              (text_discrete (to_hex r.owner_wallet) hex)
              (some r.username)
              (Map.get s.wallet_to_username hex)
    by_wallet hex = get-set s.wallet_to_username (to_hex r.owner_wallet) hex r.username

    by_name :
        (n : Text)
        → Map.get (Map.set s.usernames r.username r) n
          ≡ ite (text_discrete r.username n) (some r) (Map.get s.usernames n)
    by_name n = get-set s.usernames r.username n r

-- The call that succeeds makes the claim on the chain that its release left.
pub register_username-IsConsistent :
    (lower : Text → Text) (now : ℕ) (name : Text) (wallet identity_id : Bytes) (s t : Chain)
    (r : UsernameRecord)
    → IsConsistent s
    → register_username lower now name wallet identity_id s ≡ ok (t, r)
    → IsConsistent t
unfolding register_username Map.has
register_username-IsConsistent lower now name wallet identity_id s t r v e =
    elim (Result-cases
      (release now (normalize lower name) (Map.get s.usernames (normalize lower name)) s)) [
        | inl (u, q) ↦
            let f = release-Freed now (normalize lower name) s u v q in
            subst IsConsistent (ground arith) (
              claim-IsConsistent r u f.consistent (ground (arith, f.free))
                (ground (arith, f.unnamed (to_hex wallet))))
        | inr (x, q) ↦ absurd (ground arith)
      ]

-- A wallet owns one name at most.
pub one_name_per_wallet :
    (s : Chain) (a b : Text) (q r : UsernameRecord)
    → IsConsistent s
    → Map.get s.usernames a ≡ some q
    → Map.get s.usernames b ≡ some r
    → q.owner_wallet ≡ r.owner_wallet
    → a ≡ b
one_name_per_wallet s a b q r v ea eb same = ground (arith, v.owned a q ea, v.owned b r eb)
