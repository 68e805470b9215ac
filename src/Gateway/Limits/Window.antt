-- ===== src/Gateway/Limits/Window.antt =====
-- packages/gateway/src/policy.ts: what a `SlidingWindow` lets through in any window of time.
use nexnet.Common.{
  ℕ, ◌≤◌, ◌<◌, ◌≡◌, refl, arith, true, not, List, [], ◌∷◌, ◌++◌, ltb, leb, if◌then◌else◌, Text,
  same, length, filter_by, all_by, or_empty, filter_by-append, filter_by-filter_by,
  length-filter_by-le, length-append, Bool-cases, inl, inr,
}
use nexnet.Common.Map
use nexnet.Common.Map.{Map, text_key, IsMap, Absent, get-set, set-IsMap, get_of_Absent}
use nexnet.Gateway.Limits.{Hits, recent, sweep, sweep_if_large, allow}

-- The times at which a key was let through, of a log of all keys.
unfoldable pub times : Text → List (Text × ℕ) → List ℕ
times key [] = []
times key ((k, at) ∷ log) = let rest = times key log in if same k key then at ∷ rest else rest

times-append :
    (key k : Text) (at : ℕ) (log : List (Text × ℕ))
    → times key (log ++ ((k, at) ∷ []))
      ≡ (if same k key then times key log ++ (at ∷ []) else times key log)
unfolding times
times-append key k at [] = ground arith
times-append key k at ((j, t) ∷ log) = ground (arith, times-append key k at log)

module _ (limit window : ℕ) where
  -- The calls in order, with the log of those that were let through.
  unfoldable pub run : List (Text × ℕ) → Hits → List (Text × ℕ) → Hits × List (Text × ℕ)
  unfolding allow
  run [] hits log = (hits, log)
  run ((key, now) ∷ calls) hits log =
      let (next, allowed) = allow limit window key now hits in
      run calls next (if allowed then log ++ ((key, now) ∷ []) else log)

  -- No call is earlier than the one before it.
  abbrev IsOrdered : ℕ → List (Text × ℕ) → Type 0
  IsOrdered last [] = Unit
  IsOrdered last ((key, now) ∷ calls) = (last ≤ now) × IsOrdered now calls

  abbrev kept : ℕ → Hits → Text → List ℕ
  kept now hits key = filter_by (recent window now) (or_empty (Map.get hits key))

  recent-earlier :
      (now later at : ℕ) → now ≤ later → recent window later at ≡ true → recent window now at ≡ true
  unfolding recent
  recent-earlier now later at h e = ground arith

  none_recent :
      (now later : ℕ) (ts : List ℕ)
      → now ≤ later
      → all_by (λ at. not (recent window now at)) ts ≡ true
      → filter_by (recent window later) ts ≡ []
  none_recent now later [] h e = refl
  none_recent now later (t ∷ ts) h e =
      ground (arith, recent-earlier now later t h, none_recent now later ts h)

  sweep-Absent :
      (now : ℕ) (key : Text) (hits : Hits) → Absent key hits → Absent key (sweep window now hits)
  unfolding sweep
  sweep-Absent now key [] a = tt
  sweep-Absent now key ((k, ts) ∷ hits) a = ground (arith, sweep-Absent now key hits a.1)

  sweep-IsMap : (now : ℕ) (hits : Hits) → IsMap hits → IsMap (sweep window now hits)
  unfolding sweep
  sweep-IsMap now [] h = tt
  sweep-IsMap now ((k, ts) ∷ hits) h =
      ground (arith, sweep-IsMap now hits h.1, sweep-Absent now k hits h.0)

  -- The sweep takes nothing that is still recent.
  kept-sweep :
      (now later : ℕ) (hits : Hits) (key : Text)
      → now ≤ later
      → IsMap hits
      → kept later (sweep window now hits) key ≡ kept later hits key
  unfolding sweep Map.get
  kept-sweep now later [] key h m = refl
  kept-sweep now later ((k, ts) ∷ hits) key h m = ground (
    arith,
    kept-sweep now later hits key h m.1,
    none_recent now later ts h,
    sweep-Absent now key hits,
    get_of_Absent key (sweep window now hits),
  )

  kept-set :
      (later : ℕ) (hits : Hits) (k key : Text) (ts : List ℕ)
      → kept later (Map.set hits k ts) key
        ≡ (if same k key then filter_by (recent window later) ts else kept later hits key)
  kept-set later hits k key ts = ground (arith, get-set hits k key ts)

  -- What is kept is what the log says, as far as it is still recent, and it is within the limit.
  record Keeps (last : ℕ) (hits : Hits) (log : List (Text × ℕ)) : Type 0 where
    distinct : IsMap hits
    logged :
        (later : ℕ) (key : Text)
        → last ≤ later
        → kept later hits key ≡ filter_by (recent window later) (times key log)
    bounded : (later : ℕ) (key : Text) → last ≤ later → length (kept later hits key) ≤ limit

  module _ (last now : ℕ) (key : Text) (hits : Hits) (log : List (Text × ℕ))
      (v : Keeps last hits log) (order : last ≤ now) where
    abbrev recents : List ℕ
    recents = kept now hits key

    -- To forget what is old at `now` changes nothing later.
    kept_twice :
        (later : ℕ) → now ≤ later → filter_by (recent window later) recents ≡ kept later hits key
    kept_twice later h =
        filter_by-filter_by (recent window now) (recent window later) (or_empty (Map.get hits key))
          (λ at. recent-earlier now later at h)

    refused-Keeps : Keeps now (Map.set hits key recents) log
    refused-Keeps = record {
      distinct = set-IsMap hits key recents v.distinct;
      logged = λ later k h. ground (
        arith,
        h,
        kept-set later hits key k recents,
        kept_twice later h,
        v.logged later k,
        v.logged later key,
      );
      bounded = λ later k h. ground (
        arith,
        h,
        kept-set later hits key k recents,
        kept_twice later h,
        v.bounded later k,
        v.bounded later key,
      );
    }

    allowed-Keeps :
        length recents < limit
        → Keeps now (Map.set hits key (recents ++ (now ∷ []))) (log ++ ((key, now) ∷ []))
    allowed-Keeps room = record {
      distinct = set-IsMap hits key (recents ++ (now ∷ [])) v.distinct;
      logged = λ later k h. ground (
        arith,
        h,
        kept-set later hits key k (recents ++ (now ∷ [])),
        filter_by-append (recent window later) recents (now ∷ []),
        kept_twice later h,
        v.logged later k,
        v.logged later key,
        times-append k key now log,
        filter_by-append (recent window later) (times key log) (now ∷ []),
      );
      bounded = λ later k h. ground (
        arith,
        h,
        room,
        kept-set later hits key k (recents ++ (now ∷ [])),
        length-filter_by-le (recent window later) (recents ++ (now ∷ [])),
        length-append recents (now ∷ []),
        v.bounded later k,
      );
    }

  sweep-Keeps :
      (now : ℕ) (hits : Hits) (log : List (Text × ℕ))
      → Keeps now hits log
      → Keeps now (sweep_if_large window now hits) log
  unfolding sweep_if_large
  sweep-Keeps now hits log v = elim (Bool-cases (ltb 50000 (length hits))) [
    | inr small ↦ rw (sweep_if_large, small) v
    | inl large ↦
        rw (sweep_if_large, large)
          (record {
            distinct = sweep-IsMap now hits v.distinct;
            logged = λ later k h.
                ground (arith, h, kept-sweep now later hits k h v.distinct, v.logged later k);
            bounded = λ later k h.
                ground (arith, h, kept-sweep now later hits k h v.distinct, v.bounded later k);
          })
  ]

  -- The time of the last call.
  abbrev end_of : ℕ → List (Text × ℕ) → ℕ
  end_of last [] = last
  end_of last ((key, now) ∷ calls) = end_of now calls

  run-Keeps :
      (calls : List (Text × ℕ)) (last : ℕ) (hits : Hits) (log : List (Text × ℕ))
      → Keeps last hits log
      → IsOrdered last calls
      → Keeps (end_of last calls) (run calls hits log).0 (run calls hits log).1
  unfolding run
  run-Keeps [] last hits log v o = v
  run-Keeps ((key, now) ∷ calls) last hits log v (order, rest) =
      elim (Bool-cases (leb limit (length (kept now hits key)))) [
        | inl full ↦
            rw (run, allow, full)
              (run-Keeps calls now _ log (refused-Keeps last now key hits log v order) rest)
        | inr room ↦
            rw (run, allow, room)
              (run-Keeps calls now _ _
                (sweep-Keeps now _ _
                  (allowed-Keeps last now key hits log v order (ground (arith, room))))
                rest)
      ]

  start-Keeps : Keeps 0 [] []
  unfolding Map.get times
  start-Keeps = record {
    distinct = tt;
    logged = λ later key h. refl;
    bounded = λ later key h. omega arith;
  }

  -- Of any calls whose times do not go back, at any time from the last of them on, no key was let
  -- through more than `limit` times within the window that ends then.
  pub window_is_bounded :
      (calls : List (Text × ℕ)) (later : ℕ) (key : Text)
      → IsOrdered 0 calls
      → end_of 0 calls ≤ later
      → length (filter_by (recent window later) (times key (run calls [] []).1)) ≤ limit
  window_is_bounded calls later key order h =
      let v = run-Keeps calls 0 [] [] start-Keeps order in
      ground (arith, v.logged later key h, v.bounded later key h)

  -- The limiter refuses only a key that was let through `limit` times within the window: of calls whose
  -- times do not go back, one more call is let through exactly if the window that ends with it holds
  -- fewer of the key than the limit.
  pub lets_through_iff :
      (calls : List (Text × ℕ)) (now : ℕ) (key : Text)
      → IsOrdered 0 calls
      → end_of 0 calls ≤ now
      → (allow limit window key now (run calls [] []).0).1
        ≡ ltb (length (filter_by (recent window now) (times key (run calls [] []).1))) limit
  unfolding allow
  lets_through_iff calls now key order h =
      let v = run-Keeps calls 0 [] [] start-Keeps order in ground (arith, v.logged now key h)
