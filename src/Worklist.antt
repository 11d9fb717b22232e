-- ===== src/Worklist.antt =====
-- The search loops of `reachable_lanes` and `_validate_circuits`: a set of seen keys and a stack,
-- from which the loop pops one key and pushes its neighbours that are new.
pub mod Correct
pub mod Fuel
use autonomous_rc_taxi.Prelude.{ℕ, zero, suc, String, List, [], ◌∷◌, if◌then◌else◌}
use autonomous_rc_taxi.Keys.{member}
use autonomous_rc_taxi.Result.{Result, ok, err, out_of_fuel, ◌>>=◌}

-- `if nxt not in seen: seen.add(nxt); stack.append(nxt)`, for each neighbour
unfoldable pub offer : List String → List String → List String → List String × List String
offer [] seen stack = (seen, stack)
offer (y ∷ ys) seen stack =
    let old = offer ys seen stack in
    let new = offer ys (y ∷ seen) (y ∷ stack) in if member y seen then old else new

-- one round for each unit of fuel; the neighbours of a key may raise
unfoldable pub explore :
    (String → Result (List String)) → ℕ → List String → List String → Result (List String)
explore next fuel seen [] = ok seen
explore next zero seen (x ∷ stack) = err out_of_fuel
explore next (suc fuel) seen (x ∷ stack) =
    next x >>= λ ys. let (seen', stack') = offer ys seen stack in explore next fuel seen' stack'
