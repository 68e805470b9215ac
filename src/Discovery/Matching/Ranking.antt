-- ===== src/Discovery/Matching/Ranking.antt =====
-- workers/discovery/src/index.ts: the candidate that a random match chooses is of the better half.
use nexnet.Common.{
  ℕ, suc, zero, ◌+◌, ◌-◌, ◌≤◌, ◌<◌, ◌≡◌, refl, ◌⊎◌, inl, inr, arith, Bool, true, false, not, some,
  List, [], ◌∷◌, length, filter_by, get_elem?, All, Bool-cases, Option-cases, All-get_elem?,
  filter_by-All, length-filter_by-eq_zero, length-filter_by_mono, length-filter_by_pos,
  get_elem?_below, subst, ap,
}
use nexnet.Discovery.Matching.{Doubles, Candidate, insert_scored, by_score, top_count, choose}

-- How doubles that are not NaN compare.
pub record IsOrder (d : Doubles) : Type 0 where
  pub asymmetric : (a b : d.F) → d.lt a b ≡ true → d.lt b a ≡ false
  pub splits : (a b c : d.F) → d.lt a c ≡ true → (d.lt a b ≡ true) ⊎ (d.lt b c ≡ true)

suc_pred : (n : ℕ) → 1 ≤ n → n ≡ suc (n - 1)
suc_pred n h = omega arith

module _ (d : Doubles) where
  open d use {F, lt}

  abbrev pub above : F → Candidate d → Bool
  above score c = lt score c.score

  -- Nobody stands behind one with a lower score.
  abbrev Descending : List (Candidate d) → Type 0
  Descending [] = Unit
  Descending (x ∷ xs) = All (λ y. lt x.score y.score ≡ false) xs × Descending xs

  module _ {κ} (P : Candidate d → Type κ) where
    All-insert_scored :
        (c : Candidate d) (xs : List (Candidate d)) → P c → All P xs → All P (insert_scored d c xs)
    unfolding insert_scored
    All-insert_scored c [] h hs = (h, tt)
    All-insert_scored c (x ∷ xs) h hs = elim (Bool-cases (lt c.score x.score)) [
      | inl e ↦ rw e (hs.0, All-insert_scored c xs h hs.1)
      | inr e ↦ rw e (h, (hs.0, hs.1))
    ]

    pub All-by_score : (xs : List (Candidate d)) → All P xs → All P (by_score d xs)
    unfolding by_score
    All-by_score [] h = tt
    All-by_score (x ∷ xs) h = All-insert_scored x (by_score d xs) h.0 (All-by_score xs h.1)

  count-insert_scored :
      (p : Candidate d → Bool) (c : Candidate d) (xs : List (Candidate d))
      → length (filter_by p (insert_scored d c xs)) ≡ length (filter_by p (c ∷ xs))
  unfolding insert_scored
  count-insert_scored p c [] = refl
  count-insert_scored p c (x ∷ xs) = ground (arith, count-insert_scored p c xs)

  count-by_score :
      (p : Candidate d → Bool) (xs : List (Candidate d))
      → length (filter_by p (by_score d xs)) ≡ length (filter_by p xs)
  unfolding by_score
  count-by_score p [] = refl
  count-by_score p (x ∷ xs) =
      ground (arith, count-insert_scored p x (by_score d xs), count-by_score p xs)

  length-insert_scored :
      (c : Candidate d) (xs : List (Candidate d)) → length (insert_scored d c xs) ≡ suc (length xs)
  unfolding insert_scored
  length-insert_scored c [] = refl
  length-insert_scored c (x ∷ xs) = ground (arith, length-insert_scored c xs)

  length-by_score : (xs : List (Candidate d)) → length (by_score d xs) ≡ length xs
  unfolding by_score
  length-by_score [] = refl
  length-by_score (x ∷ xs) =
      ground (arith, length-insert_scored x (by_score d xs), length-by_score xs)

  module _ (order : IsOrder d) where
    below_too :
        (c x : Candidate d) (xs : List (Candidate d))
        → lt c.score x.score ≡ false
        → All (λ y. lt x.score y.score ≡ false) xs
        → All (λ y. lt c.score y.score ≡ false) xs
    below_too c x [] e h = tt
    below_too c x (y ∷ ys) e h =
        (ground (arith, e, h.0, order.splits c.score x.score y.score), below_too c x ys e h.1)

    insert_scored-Descending :
        (c : Candidate d) (xs : List (Candidate d))
        → Descending xs
        → Descending (insert_scored d c xs)
    unfolding insert_scored
    insert_scored-Descending c [] h = (tt, tt)
    insert_scored-Descending c (x ∷ xs) h = elim (Bool-cases (lt c.score x.score)) [
      | inl e ↦ rw e (
        All-insert_scored (λ y. lt x.score y.score ≡ false) c xs
            (order.asymmetric c.score x.score e) h.0,
        insert_scored-Descending c xs h.1,
      )
      | inr e ↦ rw e ((e, below_too c x xs e h.0), (h.0, h.1))
    ]

    by_score-Descending : (xs : List (Candidate d)) → Descending (by_score d xs)
    unfolding by_score
    by_score-Descending [] = tt
    by_score-Descending (x ∷ xs) =
        insert_scored-Descending x (by_score d xs) (by_score-Descending xs)

    irreflexive : (a : F) → lt a a ≡ false
    irreflexive a = ground (arith, order.asymmetric a a)

    -- Fewer stand above the one at a place than stand before it.
    above-place :
        (xs : List (Candidate d)) (i : ℕ) (c : Candidate d)
        → Descending xs
        → get_elem? xs i ≡ some c
        → length (filter_by (above c.score) xs) ≤ i
    above-place [] i c h e = cc
    above-place (x ∷ xs) zero c h e =
        let same : x ≡ c = cc in
        subst (λ k. length (filter_by (above k.score) (x ∷ xs)) ≤ 0) same
          (ground (arith, irreflexive x.score, length-filter_by-eq_zero (above x.score) xs h.0))
    above-place (x ∷ xs) (suc i) c h e = ground (arith, above-place xs i c h.1 e)

    above_last :
        (c last x : Candidate d)
        → lt c.score last.score ≡ false
        → lt c.score x.score ≡ true
        → lt last.score x.score ≡ true
    above_last c last x e h = ground (arith, e, h, order.splits c.score last.score x.score h)

    -- There are candidates, if one of them stands somewhere.
    place_below :
        (xs : List (Candidate d)) (last : Candidate d)
        → get_elem? (by_score d xs) (top_count d (length xs) - 1) ≡ some last
        → 0 < length xs
    unfolding by_score
    place_below [] last e = cc
    place_below (x ∷ xs) last e = omega arith

    above-chosen :
        (xs : List (Candidate d)) (c last : Candidate d)
        → lt c.score last.score ≡ false
        → get_elem? (by_score d xs) (top_count d (length xs) - 1) ≡ some last
        → length (filter_by (above c.score) xs) + length (filter_by (above c.score) xs) < length xs
    unfolding top_count
    above-chosen xs c last e found =
        let sorted = by_score d xs in
        let few =
          above-place sorted (top_count d (length xs) - 1) last (by_score-Descending xs) found in
        let fewer =
          length-filter_by_mono (above last.score) (above c.score) sorted
            (λ x h. above_last c last x e h) in
        let some_there = place_below xs last found in
        ground (arith, few, fewer, count-by_score (above c.score) xs, some_there)

    -- Fewer than half of the candidates have a better score than the chosen one.
    pub choose-better_half :
        (draw : ℕ → ℕ) (xs : List (Candidate d)) (c : Candidate d)
        → choose d draw xs ≡ some c
        → length (filter_by (above c.score) xs) + length (filter_by (above c.score) xs) < length xs
    unfolding choose
    choose-better_half draw xs c e =
        let place = top_count d (length xs) - 1 in
        elim (Option-cases (get_elem? (by_score d xs) place)) [
          | inl n ↦ absurd (ground (arith, e, n))
          | inr (last, found) ↦
              let good = λ (x : Candidate d). not (lt x.score last.score) in
              let sorted = by_score d xs in
              let chosen : get_elem? (filter_by good sorted) (draw (length (filter_by good sorted)))
                  ≡ some c =
                ground (arith, e, found) in
              let passed : good c ≡ true =
                All-get_elem? (λ x. good x ≡ true) (filter_by good sorted)
                  (draw (length (filter_by good sorted))) (filter_by-All good sorted) chosen in
              above-chosen xs c last (ground (arith, passed)) found
        ]

    -- Where there is a candidate, one is chosen.
    pub choose-some :
        (draw : ℕ → ℕ) (xs : List (Candidate d))
        → ((n : ℕ) → draw (suc n) ≤ n)
        → 0 < length xs
        → (c : Candidate d) × (choose d draw xs ≡ some c)
    unfolding choose top_count
    choose-some draw xs fair h =
        let sorted = by_score d xs in
        let place : ℕ = top_count d (length xs) - 1 in
        let (last, found) = get_elem?_below sorted place (ground (arith, h, length-by_score xs)) in
        let good = λ (x : Candidate d). not (lt x.score last.score) in
        let top = filter_by good sorted in
        let there =
          length-filter_by_pos good sorted place found (ground (arith, irreflexive last.score)) in
        let (c, drawn) =
          get_elem?_below top (draw (length top))
            (omega (arith, there, fair (length top - 1), ap draw (suc_pred (length top) there))) in
        (c, ground (arith, found, drawn))
