-- ===== src/Discovery/Calls.antt =====
-- workers/discovery/src/index.ts: every call that changes a `DiscoveryIndex`, and its restarts.
pub mod Blocks
pub mod NeverMatched
use nexnet.Common.{ℕ, Bool, Option, List, [], Text, Result, ok, err}
use nexnet.Crypto.{Crypto}
use nexnet.Protocol.Requests.{Body}
use nexnet.Common.Map.{Lists, text_key}
use nexnet.Discovery.State.{Stored, Index, Refusal, fresh_index}
use nexnet.Discovery.Handlers.{
  ensure_loaded, handle_profile_upsert, handle_profile_delete, handle_block,
}
use nexnet.Discovery.Matching.{Doubles, handle_random_match}

-- What the worker calls and does not implement. `draw n` is `Math.floor(Math.random() * n)`.
pub record Platform : Type 1 where
  pub crypto : Crypto
  pub doubles : Doubles
  pub lower : Text → Text

-- A random match comes with what the relay answers and what is drawn.
pub data Call : Type 0 where
  upserts deletes blocks : Body → Call
  matches : (Text → Option Bool) → (ℕ → ℕ) → Body → Call

unfoldable pub run_call : Platform → ℕ → Call → Index → Index
run_call platform now (upserts body) s = (handle_profile_upsert platform.crypto now body s).0
run_call platform now (deletes body) s = (handle_profile_delete platform.crypto now body s).0
run_call platform now (blocks body) s = (handle_block platform.crypto now body s).0
run_call platform now (matches relay_online draw body) s =
    (handle_random_match platform.doubles platform.lower relay_online draw platform.crypto now body
      s).0

-- What calls and restarts make of an index. A restart makes a new object, which loads what the
-- storage lists.
pub data Becomes (platform : Platform) (s : Index) : Index → Type 1 where
  unchanged : Becomes platform s s
  called :
      {t : Index} (now : ℕ) (c : Call)
      → Becomes platform s t
      → Becomes platform s (run_call platform now c t)
  restarted :
      {t : Index} (now : ℕ) (listing : List (Text × Stored))
      → Lists listing t.storage
      → Becomes platform s t
      → Becomes platform s (ensure_loaded now listing (fresh_index t.storage))
