-- ===== src/Discovery/Matching/Fair.antt =====
-- workers/discovery/src/index.ts: a random match is fair.
use nexnet.Common.{
  ℕ, suc, ◌+◌, ◌≤◌, ◌<◌, ◌≡◌, arith, Bool, false, Option, none, some, List, length, ok, Text, codes,
  filter_by, All, Option-cases, inl, inr, subst, dec_lt,
}
use nexnet.Common.Map
use nexnet.Common.Map.{text_key}
use nexnet.Crypto.{Crypto}
use nexnet.Protocol.Requests.{Body}
use nexnet.Discovery.State.{StoredProfile, Index}
use nexnet.Discovery.Handlers.{AuthorizedBody, check_request}
use nexnet.Discovery.Matching.{
  Doubles, Candidate, Wish, wish_of, passes, score_of, choose, match_for, handle_random_match,
}
use nexnet.Discovery.Matching.Ranking.{IsOrder, above, choose-better_half, choose-some}
use nexnet.Discovery.Matching.Gates.{
  MayMatch, candidates, no_candidates, choose-MayMatch, handle_random_match-Answered,
}

module _ (d : Doubles) (order : IsOrder d) (lower : Text → Text) (relay_online : Text → Option Bool)
    (draw : ℕ → ℕ) (fair : (n : ℕ) → draw (suc n) ≤ n) (now : ℕ) where
  abbrev eligible : Text → Wish → Index → List (Candidate d)
  eligible = candidates d lower relay_online draw now

  -- A match passes every gate, and fewer than half of the candidates have a better score. There is
  -- none only if no profile passes.
  abbrev pub FairOutcome : Text → Wish → Index → Option StoredProfile → Type 0
  FairOutcome identity wish s none =
      All (λ p. passes lower relay_online s identity wish p ≡ false) (Map.values s.profiles)
  FairOutcome identity wish s (some p) =
      MayMatch lower relay_online s identity wish p
      × (length (filter_by (above d (score_of d now s p)) (eligible identity wish s))
            + length (filter_by (above d (score_of d now s p)) (eligible identity wish s))
          < length (eligible identity wish s))

  none_there :
      (identity : Text) (wish : Wish) (s : Index)
      → choose d draw (eligible identity wish s) ≡ none
      → length (eligible identity wish s) ≡ 0
  none_there identity wish s n = elim (dec_lt 0 (length (eligible identity wish s))) [
    | yes h ↦
        let c = choose-some d order draw (eligible identity wish s) fair h in
        absurd (ground (arith, n, c.1))
    | no h ↦ omega arith
  ]

  match_for-FairOutcome :
      (identity : Text) (wish : Wish) (s : Index)
      → FairOutcome identity wish s (match_for d lower relay_online draw now identity wish s)
  unfolding match_for
  match_for-FairOutcome identity wish s =
      elim (Option-cases (choose d draw (eligible identity wish s))) [
        | inl n ↦
            rw (match_for, n)
              (no_candidates d (passes lower relay_online s identity wish) (score_of d now s)
                (Map.values s.profiles) (none_there identity wish s n))
        | inr (c, e) ↦
            let good = choose-MayMatch d lower relay_online draw now identity wish s c e in
            rw (match_for, e)
              (
                good.0,
                subst
                    (λ x.
                      length (filter_by (above d x) (eligible identity wish s))
                        + length (filter_by (above d x) (eligible identity wish s))
                      < length (eligible identity wish s))
                    good.1 (choose-better_half d order draw (eligible identity wish s) c e),
              )
      ]

  -- With doubles that are not NaN, and a draw that is below the number of what there is to draw from:
  -- a random match that is answered is one for the identity of a checked request, with the lists of
  -- its body. A match is a profile of the index; the relay knows its identity to be online; it is
  -- not the requester, not among the excluded, and neither has blocked the other; it shares an
  -- interest or a language; and fewer than half of the candidates have a better score. The answer
  -- is without a match only if no profile passes these gates.
  pub random_match_is_fair :
      (crypto : Crypto) (request : Body) (s : Index) (m : Option StoredProfile)
      → (handle_random_match d lower relay_online draw crypto now request s).1 ≡ ok m
      → (body : AuthorizedBody) × (wish : Wish) × (t : Index) × (check_request crypto now
            (codes "discovery.random-match")
            request
          ≡ ok body)
        × (wish_of body.fields ≡ some wish)
        × (t.profiles ≡ s.profiles)
        × (t.blocks ≡ s.blocks)
        × FairOutcome body.identity wish t m
  random_match_is_fair crypto request s m e =
      let a = handle_random_match-Answered d lower relay_online draw now crypto request s m e in
      (
        a.body,
        a.wish,
        a.counted,
        a.checked,
        a.wished,
        a.profiles,
        a.blocks,
        subst (λ x. FairOutcome a.body.identity a.wish a.counted x) a.chosen
            (match_for-FairOutcome a.body.identity a.wish a.counted),
      )
