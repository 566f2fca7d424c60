-- ===== src/Base/Loops.antt =====
-- `for (i = from; i < from + rounds; i++) s = body(i, s)`, and its invariant rule.
use Prim.Native.Nat.{ℕ, zero, suc, ◌+◌, ◌≤◌, ◌<◌}
use mathlib.Core.Path.{◌≡◌}
use native.Mathlib.Omega.{arith}

unfoldable pub for_range {ℓ} : {S : Type ℓ} → ℕ → ℕ → (ℕ → S → S) → S → S
for_range zero i body s = s
for_range (suc rounds) i body s = for_range rounds (i + 1) body (body i s)

-- An invariant that each round carries from `i` to `i + 1` holds at the end of the loop.
pub for_range_inv {ℓ κ} :
    {S : Type ℓ} (P : ℕ → S → Type κ) (body : ℕ → S → S) (rounds i stop : ℕ) (s : S)
    → i + rounds ≡ stop
    → ((j : ℕ) (t : S) → i ≤ j → j < stop → P j t → P (j + 1) (body j t))
    → P i s
    → P stop (for_range rounds i body s)
unfolding for_range
for_range_inv P body zero i stop s e keep h = let e' : i ≡ stop = omega arith in rw (← e') h
for_range_inv P body (suc rounds) i stop s e keep h =
    for_range_inv P body rounds (i + 1) stop (body i s) (omega arith)
      (λ j t p q. keep j t (omega arith) q) (keep i s (omega arith) (omega arith) h)
