-- ===== src/Gateway/Limits.antt =====
-- packages/gateway/src/policy.ts: `SlidingWindow` and `DuplicateGuard`.
pub mod Duplicates
pub mod Window
use nexnet.Common.{
  ℕ, suc, ◌+◌, ◌-◌, Bool, true, false, not, Option, none, some, List, [], ◌∷◌, ◌++◌, ltb, leb,
  if◌then◌else◌, Text, same, length, filter_by, all_by, or_empty,
}
use nexnet.Common.Map
use nexnet.Common.Map.{Map, text_key}

-- `now - at < windowMs`, which holds for a time that is still to come.
unfoldable pub recent : ℕ → ℕ → ℕ → Bool
recent window now at = ltb now (at + window)

abbrev pub Hits : Type 0
Hits = Map Text (List ℕ)

-- The entries with a recent time; the loop deletes the others.
unfoldable pub sweep : ℕ → ℕ → Hits → Hits
unfolding recent
sweep window now [] = []
sweep window now ((key, times) ∷ hits) =
    let rest = sweep window now hits in
    if all_by (λ at. not (recent window now at)) times then rest else (key, times) ∷ rest

unfoldable pub sweep_if_large : ℕ → ℕ → Hits → Hits
unfolding sweep
sweep_if_large window now hits =
    let swept = sweep window now hits in if ltb 50000 (length hits) then swept else hits

-- The method `allow` of a `SlidingWindow`.
unfoldable pub allow : ℕ → ℕ → Text → ℕ → Hits → Hits × Bool
unfolding sweep_if_large recent
allow limit window key now hits =
    let times = filter_by (recent window now) (or_empty (Map.get hits key)) in
    if leb limit (length times)
    then (Map.set hits key times, false)
    else (sweep_if_large window now (Map.set hits key (times ++ (now ∷ []))), true)

pub record Said : Type 0 where
  pub at : ℕ
  pub body : Text

-- The method `allow` of a `DuplicateGuard`.
unfoldable pub allow_text :
    ℕ → ℕ → Text → Text → ℕ → Map Text (List Said) → Map Text (List Said) × Bool
unfolding recent
allow_text threshold window key body now texts =
    let said = filter_by (λ e. recent window now e.at) (or_empty (Map.get texts key)) in
    let duplicates = length (filter_by (λ e. same e.body body) said) in
    if leb threshold (duplicates + 1)
    then (Map.set texts key said, false)
    else (Map.set texts key (said ++ (record { at = now; body = body } ∷ [])), true)
