-- ===== src/Enums/Match.antt =====
-- A `match` on a literal code, as the table of its arms.
use market_data_v.Common.{ℕ, ◌≡◌, List, [], ◌∷◌, All, ◌==◌, if◌then◌else◌, arith}

-- The arms `k => v` in order, with the value of the last arm.
unfoldable pub match_code {ℓ} : {A : Type ℓ} → ℕ → List (ℕ × A) → A → A
match_code c [] d = d
match_code c ((k, v) ∷ arms) d = if c == k then v else match_code c arms d

-- Where `f` gives back the literal of each arm, and the scrutinee on the last arm, it inverts the
-- match.
pub match_code-inverse {ℓ} :
    {A : Type ℓ} (f : A → ℕ) (c : ℕ) (arms : List (ℕ × A)) (d : A)
    → All (λ a. f a.1 ≡ a.0) arms
    → f d ≡ c
    → f (match_code c arms d) ≡ c
unfolding match_code
match_code-inverse f c [] d h e = e
match_code-inverse f c ((k, v) ∷ arms) d h e = ground (arith, match_code-inverse f c arms d h.1 e)
