-- ===== src/Discovery/Matching/Gates.antt =====
-- workers/discovery/src/index.ts: whom a random match can choose.
use mathlib.Core.List.{Memᴰ}
use nexnet.Common.{
  ℕ, ◌-◌, subst, ◌∙◌, All-Memᴰ, ◌≡◌, ◌≢◌, refl, arith, Bool, true, false, not, ◌||◌, Option, some,
  List, [], ◌∷◌, length, ok, Text, codes, filter_by, All, Bool-cases, Option-cases, Result-cases,
  inl, inr, All-get_elem?, All-filter_by, get_elem?,
}
use nexnet.Common.Map
use nexnet.Common.Map.{Map, text_key, get-set}
use nexnet.Crypto.{Crypto}
use nexnet.Protocol.Requests.{Body}
use nexnet.Discovery.State.{StoredProfile, Index, set_of}
use nexnet.Discovery.Handlers.{AuthorizedBody, check_request, authorize, has_blocked}
use nexnet.Discovery.Matching.{
  Doubles, Candidate, Wish, wish_of, count_request, overlaps, passes, score_of, candidates_among,
  choose, by_score, match_for, handle_random_match, top_count,
}
use nexnet.Discovery.Matching.Ranking.{All-by_score}

-- A profile of the index that may be matched with an identity.
pub record MayMatch (lower : Text → Text) (relay_online : Text → Option Bool) (s : Index)
    (identity : Text) (wish : Wish) (p : StoredProfile) : Type 0 where
  pub listed : Memᴰ p (Map.values s.profiles)
  pub online : relay_online p.identity ≡ some true
  pub not_self : p.identity ≢ identity
  pub not_excluded : Map.has (set_of wish.exclude) p.identity ≡ false
  pub not_blocked : has_blocked s identity p.identity ≡ false
  pub not_blocking : has_blocked s p.identity identity ≡ false
  pub shares :
      (overlaps lower p.interests wish.interests || overlaps lower p.languages wish.languages)
      ≡ true

has-set :
    (m : Map Text (Unit {0})) (k j : Text)
    → Map.has (Map.set m k tt) j ≡ false
    → (j ≢ k) × (Map.has m j ≡ false)
unfolding Map.has
has-set m k j e = (λ p. ground (arith, e, p, get-set m k j tt), ground (arith, e, get-set m k j tt))

module _ (lower : Text → Text) (relay_online : Text → Option Bool) (s : Index) (identity : Text)
    (wish : Wish) where
  passes-MayMatch :
      (p : StoredProfile)
      → Memᴰ p (Map.values s.profiles)
      → passes lower relay_online s identity wish p ≡ true
      → MayMatch lower relay_online s identity wish p
  unfolding passes
  passes-MayMatch p m e =
      let out = has-set (set_of wish.exclude) identity p.identity (ground (arith, e)) in
      record {
        listed = m;
        online = ground (arith, e);
        not_self = out.0;
        not_excluded = out.1;
        not_blocked = ground (arith, e);
        not_blocking = ground (arith, e);
        shares = ground (arith, e);
      }

pub authorize-checked :
    (crypto : Crypto) (now : ℕ) (operation : Text) (request : Body) (s t : Index)
    (body : AuthorizedBody)
    → authorize crypto now operation request s ≡ ok (t, body)
    → check_request crypto now operation request ≡ ok body
unfolding authorize
authorize-checked crypto now operation request s t body e =
    elim (Result-cases (check_request crypto now operation request)) [
      | inr (r, refused) ↦ absurd (ground (arith, e, refused))
      | inl (b, checked) ↦ ground (arith, e, checked)
    ]

pub authorize-tables :
    (crypto : Crypto) (now : ℕ) (operation : Text) (request : Body) (s t : Index)
    (body : AuthorizedBody)
    → authorize crypto now operation request s ≡ ok (t, body)
    → (t.profiles ≡ s.profiles) × (t.blocks ≡ s.blocks)
unfolding authorize
authorize-tables crypto now operation request s t body e =
    elim (Result-cases (check_request crypto now operation request)) [
      | inr (r, refused) ↦ absurd (ground (arith, e, refused))
      | inl (b, checked) ↦ ground (arith, e, checked)
    ]

pub count-tables :
    (identity : Text) (now : ℕ) (s t : Index)
    → count_request identity now s ≡ ok t
    → (t.profiles ≡ s.profiles) × (t.blocks ≡ s.blocks)
unfolding count_request
count-tables identity now s t e = ground (arith, e)

module _ (d : Doubles) where
  candidates-All {κ} :
      (P : StoredProfile → Type κ) (gate : StoredProfile → Bool) (score : StoredProfile → d.F)
      (ps : List StoredProfile)
      → All P ps
      → All
          (λ c. P c.profile × (gate c.profile ≡ true) × (c.score ≡ score c.profile))
          (candidates_among d gate score ps)
  unfolding candidates_among
  candidates-All P gate score [] h = tt
  candidates-All P gate score (p ∷ ps) h = elim (Bool-cases (gate p)) [
    | inl e ↦ rw e ((h.0, e, refl), candidates-All P gate score ps h.1)
    | inr e ↦ rw e (candidates-All P gate score ps h.1)
  ]

  -- Without candidates, every profile was stopped at a gate.
  pub no_candidates :
      (gate : StoredProfile → Bool) (score : StoredProfile → d.F) (ps : List StoredProfile)
      → length (candidates_among d gate score ps) ≡ 0
      → All (λ p. gate p ≡ false) ps
  unfolding candidates_among
  no_candidates gate score [] e = tt
  no_candidates gate score (p ∷ ps) e =
      (ground (arith, e), no_candidates gate score ps (ground (arith, e)))

  choose-All {κ} :
      (P : Candidate d → Type κ) (draw : ℕ → ℕ) (xs : List (Candidate d)) (c : Candidate d)
      → All P xs
      → choose d draw xs ≡ some c
      → P c
  unfolding choose
  choose-All P draw xs c h e =
      elim (Option-cases (get_elem? (by_score d xs) (top_count d (length xs) - 1))) [
        | inl n ↦ absurd (ground (arith, e, n))
        | inr (last, found) ↦
            let good = λ (x : Candidate d). not (d.lt x.score last.score) in
            let top = filter_by good (by_score d xs) in
            let chosen : get_elem? top (draw (length top)) ≡ some c = ground (arith, e, found) in
            All-get_elem? P top (draw (length top))
              (All-filter_by P good (by_score d xs) (All-by_score d P xs h)) chosen
      ]

  module _ (lower : Text → Text) (relay_online : Text → Option Bool) (draw : ℕ → ℕ) (now : ℕ) where
    abbrev pub candidates : Text → Wish → Index → List (Candidate d)
    candidates identity wish s =
        candidates_among d (passes lower relay_online s identity wish) (score_of d now s)
          (Map.values s.profiles)

    pub choose-MayMatch :
        (identity : Text) (wish : Wish) (s : Index) (c : Candidate d)
        → choose d draw (candidates identity wish s) ≡ some c
        → MayMatch lower relay_online s identity wish c.profile
          × (c.score ≡ score_of d now s c.profile)
    choose-MayMatch identity wish s c e =
        let good =
          choose-All
            (λ x.
              Memᴰ x.profile (Map.values s.profiles)
              × (passes lower relay_online s identity wish x.profile ≡ true)
              × (x.score ≡ score_of d now s x.profile))
            draw (candidates identity wish s) c
            (candidates-All (λ p. Memᴰ p (Map.values s.profiles))
              (passes lower relay_online s identity wish) (score_of d now s) (Map.values s.profiles)
              (All-Memᴰ (Map.values s.profiles)))
            e in
        (passes-MayMatch lower relay_online s identity wish c.profile good.0 good.1, good.2)

    -- The match passes the gates.
    pub match_for-MayMatch :
        (identity : Text) (wish : Wish) (s : Index) (p : StoredProfile)
        → match_for d lower relay_online draw now identity wish s ≡ some p
        → MayMatch lower relay_online s identity wish p
    unfolding match_for
    match_for-MayMatch identity wish s p e =
        elim (Option-cases (choose d draw (candidates identity wish s))) [
          | inl n ↦ absurd (ground (arith, e, n))
          | inr (c, chosen) ↦
              subst (λ q. MayMatch lower relay_online s identity wish q) (ground (arith, e, chosen))
                (choose-MayMatch identity wish s c chosen).0
        ]

    -- What an answered request has passed before its match is chosen.
    pub record Answered (crypto : Crypto) (request : Body) (s : Index) (m : Option StoredProfile)
        : Type 0 where
      pub body : AuthorizedBody
      pub wish : Wish
      pub counted : Index
      pub checked : check_request crypto now (codes "discovery.random-match") request ≡ ok body
      pub wished : wish_of body.fields ≡ some wish
      pub profiles : counted.profiles ≡ s.profiles
      pub blocks : counted.blocks ≡ s.blocks
      pub chosen : match_for d lower relay_online draw now body.identity wish counted ≡ m

    pub handle_random_match-Answered :
        (crypto : Crypto) (request : Body) (s : Index) (m : Option StoredProfile)
        → (handle_random_match d lower relay_online draw crypto now request s).1 ≡ ok m
        → Answered crypto request s m
    unfolding handle_random_match
    handle_random_match-Answered crypto request s m e =
        elim (Result-cases (authorize crypto now (codes "discovery.random-match") request s)) [
          | inr (r, refused) ↦ absurd (ground (arith, e, refused))
          | inl ((t, body), authorized) ↦ elim (Option-cases (wish_of body.fields)) [
            | inl n ↦ absurd (ground (arith, e, authorized, n))
            | inr (wish, wished) ↦ elim (Result-cases (count_request body.identity now t)) [
              | inr (r, refused) ↦ absurd (ground (arith, e, authorized, wished, refused))
              | inl (counted, within) ↦
                  let first = authorize-tables crypto now _ request s t body authorized in
                  let second = count-tables body.identity now t counted within in
                  record {
                    body = body;
                    wish = wish;
                    counted = counted;
                    checked = authorize-checked crypto now _ request s t body authorized;
                    wished = wished;
                    profiles = second.0 ∙ first.0;
                    blocks = second.1 ∙ first.1;
                    chosen = ground (arith, e, authorized, wished, within);
                  }
            ]
          ]
        ]
