-- ===== src/Ring/Backpressure/Hysteresis.antt =====
-- The back-pressure of one ring of engine/src/ring.rs over a sequence of updates.
use rtmap.Base.{ℕ, ◌≤◌, ◌<◌, ◌≡◌, ◌≢◌, refl, ap, ◌∙◌, List, [], ◌∷◌, arith, All}
use rtmap.Ring.Backpressure.{next_tier}

-- The tier after updates at the given fills, one after the other.
pub tier_after : ℕ → List ℕ → ℕ
unfolding next_tier
tier_after bp [] = bp
tier_after bp (fill ∷ fills) = tier_after (next_tier fill bp) fills

-- A ring that sheds nothing keeps shedding nothing over any sequence of updates at each of which
-- it is filled to less than 6/8.
pub tier_after_clear : (fills : List ℕ) → All (λ f. f < 6) fills → tier_after 0 fills ≡ 0
unfolding tier_after next_tier
tier_after_clear [] h = refl
tier_after_clear (fill ∷ fills) h =
    let same : next_tier fill 0 ≡ 0 = ground arith in
    ap (λ bp. tier_after bp fills) same ∙ tier_after_clear fills h.1

-- A ring that sheds goes on shedding, in one of the two tiers, over any sequence of updates at each
-- of which it is filled to at least 3/8.
pub tier_after_shedding :
    (bp : ℕ) (fills : List ℕ)
    → bp ≢ 0
    → bp ≤ 2
    → All (λ f. 3 ≤ f) fills
    → (tier_after bp fills ≢ 0) × (tier_after bp fills ≤ 2)
unfolding tier_after next_tier
tier_after_shedding bp [] ne le h = (ne, le)
tier_after_shedding bp (fill ∷ fills) ne le h =
    let shed : next_tier fill bp ≢ 0 = ground arith in
    tier_after_shedding (next_tier fill bp) fills shed (ground arith) h.1
