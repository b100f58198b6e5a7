-- ===== src/LoadProfile/Sums.antt =====
-- The totals of a valid profile.
use honryu.Base.{ℕ, ◌+◌, ◌^◌, ◌≤◌, ◌<◌, ◌≡◌, ap, ◌∙◌, List, [], ◌∷◌, arith, All, none, length}
use honryu.Base.Ints.{ℤ, pos, pos_part, ◌+ℤ◌, ◌≤ℤ◌, wrap64, wrap64-fits, pos-+ℤ-pos}
use honryu.LoadProfile.{Entry, Profile, validate, total_engines_from, total_engines}
use honryu.LoadProfile.Valid.{IsValidEntry, validate-All}

-- The engines of a list of entries, summed without the wrap-around.
abbrev pub engine_sum : List Entry → ℕ
engine_sum [] = 0
engine_sum (ep ∷ eps) = pos_part ep.engines + engine_sum eps

-- A positive `int` is the number that it stands for.
pub pos-of_valid : (x : ℤ) → pos 1 ≤ℤ x → x ≡ pos (pos_part x)
pos-of_valid x h = ground arith

total_engines_from-engine_sum :
    (n : ℕ) (eps : List Entry)
    → All IsValidEntry eps
    → n + engine_sum eps < 2 ^ 63
    → total_engines_from (pos n) eps ≡ pos (n + engine_sum eps)
unfolding total_engines_from
total_engines_from-engine_sum n [] v h = let same : n + 0 ≡ n = omega arith in rw same
total_engines_from-engine_sum n (ep ∷ eps) v h =
    let here = pos_part ep.engines in
    let fits : n + here < 2 ^ 63 = omega arith in
    rw
      (
        ap (λ x. wrap64 (pos n +ℤ x)) (pos-of_valid ep.engines v.0.engines),
        pos-+ℤ-pos,
        wrap64-fits _ fits,
      )
      (total_engines_from-engine_sum (n + here) eps v.1 (omega arith) ∙ ap pos (omega arith))

length-le-engine_sum : (eps : List Entry) → All IsValidEntry eps → length eps ≤ engine_sum eps
length-le-engine_sum [] v = omega arith
length-le-engine_sum (ep ∷ eps) v = omega (arith, length-le-engine_sum eps v.1, v.0.engines)

-- Of a profile that `Validate` accepts and whose engines sum to less than 2^63, `TotalEngines` is that
-- sum, and there is an engine for every entry.
pub total_engines-engine_sum :
    (ec : Profile)
    → validate ec ≡ none
    → engine_sum ec.tests < 2 ^ 63
    → (total_engines ec ≡ pos (engine_sum ec.tests)) × (length ec.tests ≤ engine_sum ec.tests)
unfolding total_engines
total_engines-engine_sum ec valid h =
    let all = ((validate-All ec).0 valid).1 in
    let sum : 0 + engine_sum ec.tests ≡ engine_sum ec.tests = omega arith in
    (
      total_engines_from-engine_sum 0 ec.tests all (omega arith) ∙ ap pos sum,
      length-le-engine_sum ec.tests all,
    )
