-- ===== src/Gateway/Limits/Duplicates.antt =====
-- packages/gateway/src/policy.ts: how often a `DuplicateGuard` lets the same text through.
use nexnet.Common.{
  ℕ, ◌+◌, ◌≤◌, ◌<◌, ◌≡◌, refl, arith, Bool, true, false, List, [], ◌∷◌, ◌++◌, ltb, leb,
  if◌then◌else◌, Text, same, text_discrete, length, filter_by, or_empty, filter_by-append,
  length-filter_by-append, filter_by-filter_by, Bool-cases, inl, inr,
}
use nexnet.Common.Map
use nexnet.Common.Map.{Map, text_key, get-set}
use nexnet.Gateway.Limits.{Said, recent, allow_text}

-- A call: who says what, and when.
abbrev pub Call : Type 0
Call = Text × Said

-- What a key was let through to say, of a log of all keys.
unfoldable pub said_by : Text → List Call → List Said
said_by key [] = []
said_by key ((k, said) ∷ log) =
    let rest = said_by key log in if same k key then said ∷ rest else rest

said_by-append :
    (key k : Text) (said : Said) (log : List Call)
    → said_by key (log ++ ((k, said) ∷ []))
      ≡ (if same k key then said_by key log ++ (said ∷ []) else said_by key log)
unfolding said_by
said_by-append key k said [] = ground arith
said_by-append key k said ((j, t) ∷ log) = ground (arith, said_by-append key k said log)

unfoldable pub fresh : ℕ → ℕ → Said → Bool
fresh window now said = recent window now said.at

unfoldable pub says : Text → Said → Bool
says body said = same said.body body

abbrev pub copies : Text → List Said → ℕ
copies body saids = length (filter_by (says body) saids)

copies-filter_by :
    (p : Said → Bool) (body : Text) (saids : List Said)
    → copies body (filter_by p saids) ≤ copies body saids
copies-filter_by p body [] = omega arith
copies-filter_by p body (s ∷ saids) = ground (arith, copies-filter_by p body saids)

module _ (threshold window : ℕ) where
  -- The calls in order, with the log of those that were let through.
  unfoldable pub run_texts :
      List Call → Map Text (List Said) → List Call → Map Text (List Said) × List Call
  unfolding allow_text
  run_texts [] texts log = (texts, log)
  run_texts ((key, said) ∷ calls) texts log =
      let (next, allowed) = allow_text threshold window key said.body said.at texts in
      run_texts calls next (if allowed then log ++ ((key, said) ∷ []) else log)

  -- No call is earlier than the one before it.
  abbrev IsOrdered : ℕ → List Call → Type 0
  IsOrdered last [] = Unit
  IsOrdered last ((key, said) ∷ calls) = (last ≤ said.at) × IsOrdered said.at calls

  abbrev kept : ℕ → Map Text (List Said) → Text → List Said
  kept now texts key = filter_by (fresh window now) (or_empty (Map.get texts key))

  -- The method with its two filters named.
  allow_text-kept :
      (key : Text) (said : Said) (texts : Map Text (List Said))
      → allow_text threshold window key said.body said.at texts ≡ (
          if leb threshold (copies said.body (kept said.at texts key) + 1)
          then (Map.set texts key (kept said.at texts key), false)
          else (Map.set texts key (kept said.at texts key ++ (said ∷ [])), true))
  unfolding allow_text fresh says
  allow_text-kept key said texts = refl

  fresh-earlier :
      (now later : ℕ) (said : Said)
      → now ≤ later
      → fresh window later said ≡ true
      → fresh window now said ≡ true
  unfolding fresh recent
  fresh-earlier now later said h e = ground arith

  kept-set :
      (later : ℕ) (texts : Map Text (List Said)) (k key : Text) (saids : List Said)
      → kept later (Map.set texts k saids) key
        ≡ (if same k key then filter_by (fresh window later) saids else kept later texts key)
  kept-set later texts k key saids = ground (arith, get-set texts k key saids)

  -- What is kept is what the log says, as far as it is still recent, and no text is in it too often.
  record Keeps (last : ℕ) (texts : Map Text (List Said)) (log : List Call) : Type 0 where
    logged :
        (later : ℕ) (key : Text)
        → last ≤ later
        → kept later texts key ≡ filter_by (fresh window later) (said_by key log)
    bounded :
        (later : ℕ) (key body : Text)
        → last ≤ later
        → copies body (kept later texts key) < threshold

  module _ (last : ℕ) (key : Text) (said : Said) (texts : Map Text (List Said)) (log : List Call)
      (v : Keeps last texts log) (order : last ≤ said.at) where
    abbrev recents : List Said
    recents = kept said.at texts key

    -- To forget what is old at a call changes nothing later.
    kept_twice :
        (later : ℕ)
        → said.at ≤ later
        → filter_by (fresh window later) recents ≡ kept later texts key
    kept_twice later h =
        filter_by-filter_by (fresh window said.at) (fresh window later)
          (or_empty (Map.get texts key)) (λ s. fresh-earlier said.at later s h)

    refused-Keeps : Keeps said.at (Map.set texts key recents) log
    refused-Keeps = record {
      logged = λ later k h. ground (
        arith,
        h,
        kept-set later texts key k recents,
        kept_twice later h,
        v.logged later k,
        v.logged later key,
      );
      bounded = λ later k body h. ground (
        arith,
        h,
        kept-set later texts key k recents,
        kept_twice later h,
        v.bounded later k body,
        v.bounded later key body,
      );
    }

    -- One more text: of its own copies there was room for one, of the others there is none more.
    copies-added :
        (later : ℕ) (body : Text)
        → said.at ≤ later
        → copies said.body recents + 1 < threshold
        → copies body (filter_by (fresh window later) (recents ++ (said ∷ []))) < threshold
    unfolding says
    copies-added later body h room = elim (text_discrete said.body body) [
      | yes e ↦ ground (
        arith,
        e,
        room,
        copies-filter_by (fresh window later) body (recents ++ (said ∷ [])),
        length-filter_by-append (says body) recents (said ∷ []),
      )
      | no n ↦ ground (
        arith,
        n,
        h,
        filter_by-append (fresh window later) recents (said ∷ []),
        length-filter_by-append (says body) (filter_by (fresh window later) recents)
            (filter_by (fresh window later) (said ∷ [])),
        kept_twice later h,
        v.bounded later key body,
      )
    ]

    allowed-Keeps :
        copies said.body recents + 1 < threshold
        → Keeps said.at (Map.set texts key (recents ++ (said ∷ []))) (log ++ ((key, said) ∷ []))
    allowed-Keeps room = record {
      logged = λ later k h. ground (
        arith,
        h,
        kept-set later texts key k (recents ++ (said ∷ [])),
        filter_by-append (fresh window later) recents (said ∷ []),
        kept_twice later h,
        v.logged later k,
        v.logged later key,
        said_by-append k key said log,
        filter_by-append (fresh window later) (said_by key log) (said ∷ []),
      );
      bounded = λ later k body h. ground (
        arith,
        h,
        kept-set later texts key k (recents ++ (said ∷ [])),
        copies-added later body h room,
        v.bounded later k body,
      );
    }

  -- The time of the last call.
  abbrev end_of : ℕ → List Call → ℕ
  end_of last [] = last
  end_of last ((key, said) ∷ calls) = end_of said.at calls

  run-Keeps :
      (calls : List Call) (last : ℕ) (texts : Map Text (List Said)) (log : List Call)
      → Keeps last texts log
      → IsOrdered last calls
      → Keeps (end_of last calls) (run_texts calls texts log).0 (run_texts calls texts log).1
  unfolding run_texts
  run-Keeps [] last texts log v o = v
  run-Keeps ((key, said) ∷ calls) last texts log v (order, rest) =
      elim (Bool-cases (leb threshold (copies said.body (kept said.at texts key) + 1))) [
        | inl full ↦
            rw (run_texts, allow_text-kept key said texts, full)
              (run-Keeps calls said.at _ log (refused-Keeps last key said texts log v order) rest)
        | inr room ↦
            rw (run_texts, allow_text-kept key said texts, room)
              (run-Keeps calls said.at _ _
                (allowed-Keeps last key said texts log v order (ground (arith, room))) rest)
      ]

  start-Keeps : 1 ≤ threshold → Keeps 0 [] []
  unfolding Map.get said_by
  start-Keeps h = record { logged = λ later key l. refl; bounded = λ later key body l. omega arith }

  -- Of any calls whose times do not go back, with a threshold that is not zero: at any time from the
  -- last of them on, fewer copies of a text than the threshold were let through from one key within the
  -- window that ends then, and one more message is let through exactly if with it there are still
  -- fewer than the threshold.
  pub copies_stay_below :
      (calls : List Call) (key : Text) (said : Said)
      → 1 ≤ threshold
      → IsOrdered 0 calls
      → end_of 0 calls ≤ said.at
      → (copies said.body (filter_by (fresh window said.at) (said_by key (run_texts calls [] []).1))
          < threshold)
        × ((allow_text threshold window key said.body said.at (run_texts calls [] []).0).1
            ≡ ltb
                (copies said.body
                    (filter_by (fresh window said.at) (said_by key (run_texts calls [] []).1))
                  + 1)
                threshold)
  copies_stay_below calls key said positive order h =
      let v = run-Keeps calls 0 [] [] (start-Keeps positive) order in
      (
        ground (arith, h, v.logged said.at key h, v.bounded said.at key said.body h),
        ground
            (arith, h, allow_text-kept key said (run_texts calls [] []).0, v.logged said.at key h),
      )
