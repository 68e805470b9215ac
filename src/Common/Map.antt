-- ===== src/Common/Map.antt =====
-- `Map` and `Set` of JavaScript: entries in the order of insertion, and a write to a present key
-- keeps its place.
use nexnet.Common.{
  ℕ, suc, ◌+◌, ◌≡◌, refl, ite, Bool, true, false, Option, none, some, List, [], ◌∷◌, arith, map,
  length, Text, text_discrete, ℕ_discrete, ◌≢◌, if_pos, if_neg,
}

-- A type of keys, with the equality by which the runtime finds them.
pub record Key {ℓ} (K : Type ℓ) : Type ℓ where
  pub is_key : Discrete K

instance abbrev pub text_key : Key Text
text_key = record { is_key = text_discrete }

-- Sockets and other objects are compared by identity, which is a number.
instance abbrev pub object_key : Key ℕ
object_key = record { is_key = ℕ_discrete }

abbrev pub Map {ℓ} : Type ℓ → Type ℓ → Type ℓ
Map K V = List (K × V)

module _ {ℓ} {K V : Type ℓ} ⦃key : Key K⦄ where
  unfoldable pub get : Map K V → K → Option V
  get [] k = none
  get ((j, v) ∷ m) k = ite (key.is_key j k) (some v) (get m k)

  unfoldable pub set : Map K V → K → V → Map K V
  set [] k v = (k, v) ∷ []
  set ((j, w) ∷ m) k v = ite (key.is_key j k) ((k, v) ∷ m) ((j, w) ∷ set m k v)

  unfoldable pub delete : Map K V → K → Map K V
  delete [] k = []
  delete ((j, w) ∷ m) k = let rest = delete m k in ite (key.is_key j k) rest ((j, w) ∷ rest)

  unfoldable pub has : Map K V → K → Bool
  has m k = elim (get m k) [ none ↦ false | some v ↦ true ]

  abbrev pub values : Map K V → List V
  values = map (λ e. e.1)

  pub get-set :
      (m : Map K V) (k j : K) (v : V) → get (set m k v) j ≡ ite (key.is_key k j) (some v) (get m j)
  unfolding get set
  get-set [] k j v = refl
  get-set ((i, w) ∷ m) k j v = ground (arith, get-set m k j v)

  pub get-delete :
      (m : Map K V) (k j : K) → get (delete m k) j ≡ ite (key.is_key k j) none (get m j)
  unfolding get delete
  get-delete [] k j = ground arith
  get-delete ((i, w) ∷ m) k j = ground (arith, get-delete m k j)

  -- A new key takes one more entry, a present one takes none.
  pub length-set :
      (m : Map K V) (k : K) (v : V)
      → length (set m k v) ≡ elim (get m k) [ none ↦ suc (length m) | some w ↦ length m ]
  unfolding get set
  length-set [] k v = refl
  length-set ((j, w) ∷ m) k v = ground (arith, length-set m k v)

  -- No entry has the key `k`.
  abbrev pub Absent : K → Map K V → Type ℓ
  Absent k [] = Unit
  Absent k ((j, w) ∷ m) = (j ≢ k) × Absent k m

  -- Every key once: what the runtime keeps of a `Map`.
  abbrev pub IsMap : Map K V → Type ℓ
  IsMap [] = Unit
  IsMap ((j, w) ∷ m) = Absent j m × IsMap m

  -- What a storage may give as the list of its entries: every key once, with its value.
  abbrev pub Lists : List (K × V) → Map K V → Type ℓ
  Lists listing storage = IsMap listing × ((k : K) → get listing k ≡ get storage k)

  pub get_of_Absent : (k : K) (m : Map K V) → Absent k m → get m k ≡ none
  unfolding get
  get_of_Absent k [] a = refl
  get_of_Absent k ((j, w) ∷ m) a = ground (arith, get_of_Absent k m a.1)

  set-Absent : (i k : K) (v : V) (m : Map K V) → k ≢ i → Absent i m → Absent i (set m k v)
  unfolding set
  set-Absent i k v [] h a = (h, tt)
  set-Absent i k v ((j, w) ∷ m) h a = ground (arith, set-Absent i k v m h a.1)

  delete-Absent : (i k : K) (m : Map K V) → Absent i m → Absent i (delete m k)
  unfolding delete
  delete-Absent i k [] a = tt
  delete-Absent i k ((j, w) ∷ m) a = ground (arith, delete-Absent i k m a.1)

  delete_of_Absent : (k : K) (m : Map K V) → Absent k m → delete m k ≡ m
  unfolding delete
  delete_of_Absent k [] a = refl
  delete_of_Absent k ((j, w) ∷ m) a = ground (arith, delete_of_Absent k m a.1)

  pub set-IsMap : (m : Map K V) (k : K) (v : V) → IsMap m → IsMap (set m k v)
  unfolding set
  set-IsMap [] k v h = (tt, tt)
  set-IsMap ((j, w) ∷ m) k v h = elim (key.is_key j k) [
    | yes e ↦ rw (if_pos _ e, ← e) h
    | no ne ↦ rw (if_neg _ ne) (set-Absent j k v m (λ e. ne (cc)) h.0, set-IsMap m k v h.1)
  ]

  pub delete-IsMap : (m : Map K V) (k : K) → IsMap m → IsMap (delete m k)
  unfolding delete
  delete-IsMap [] k h = tt
  delete-IsMap ((j, w) ∷ m) k h = ground (arith, delete-IsMap m k h.1, delete-Absent j k m h.0)

  -- A present key gives up one entry.
  pub length-delete :
      (m : Map K V) (k : K)
      → IsMap m
      → length (delete m k) + (elim (get m k) [ none ↦ 0 | some w ↦ 1 ]) ≡ length m
  unfolding get delete
  length-delete [] k h = omega arith
  length-delete ((j, w) ∷ m) k h =
      ground (arith, length-delete m k h.1, delete_of_Absent k m, get_of_Absent k m)

pub ruleset map_laws = (get-set, get-delete)
