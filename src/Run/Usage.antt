-- ===== src/Run/Usage.antt =====
-- `VirtualUsers` of a valid profile.
use honryu.Base.{ℕ, ◌+◌, ◌*◌, ◌^◌, ◌≤◌, ◌<◌, ◌≡◌, ap, ◌∙◌, List, [], ◌∷◌, arith, All, none}
use honryu.Base.Ints.{pos, pos_part, ◌*ℤ◌, wrap64-fits, pos-+ℤ-pos, pos-*ℤ-pos}
use honryu.LoadProfile.{Entry, Profile, validate}
use honryu.LoadProfile.Valid.{IsValidEntry, validate-All}
use honryu.LoadProfile.Sums.{engine_sum, pos-of_valid}
use honryu.Run.{virtual_users_from, virtual_users}

-- The users of every engine of every entry, without the wrap-around.
abbrev pub user_sum : List Entry → ℕ
user_sum [] = 0
user_sum (ep ∷ eps) = pos_part ep.engines * pos_part ep.concurrency + user_sum eps

entry_users :
    (ep : Entry)
    → IsValidEntry ep
    → ep.engines *ℤ ep.concurrency ≡ pos (pos_part ep.engines * pos_part ep.concurrency)
entry_users ep v =
    rw (← pos-*ℤ-pos (pos_part ep.engines) (pos_part ep.concurrency))
      (cc (pos-of_valid ep.engines v.engines, pos-of_valid ep.concurrency v.concurrency))

virtual_users_from-user_sum :
    (n : ℕ) (eps : List Entry)
    → All IsValidEntry eps
    → n + user_sum eps < 2 ^ 63
    → virtual_users_from (pos n) eps ≡ pos (n + user_sum eps)
unfolding virtual_users_from
virtual_users_from-user_sum n [] v h = let same : n + 0 ≡ n = omega arith in rw same
virtual_users_from-user_sum n (ep ∷ eps) v h =
    let here = pos_part ep.engines * pos_part ep.concurrency in
    rw
      (
        entry_users ep v.0,
        wrap64-fits here (omega arith),
        pos-+ℤ-pos n here,
        wrap64-fits (n + here) (omega arith),
      )
      (virtual_users_from-user_sum (n + here) eps v.1 (omega arith) ∙ ap pos (omega arith))

engine_sum-le-user_sum : (eps : List Entry) → All IsValidEntry eps → engine_sum eps ≤ user_sum eps
engine_sum-le-user_sum [] v = omega arith
engine_sum-le-user_sum (ep ∷ eps) v =
    let one : 1 ≤ pos_part ep.concurrency = omega (arith, v.0.concurrency) in
    grind (arith, engine_sum-le-user_sum eps v.1)

-- Of a profile that `Validate` accepts, whose users number less than 2^63, `VirtualUsers` is the sum
-- over its entries of engines times concurrency, and there is a user for every engine.
pub virtual_users-user_sum :
    (ec : Profile)
    → validate ec ≡ none
    → user_sum ec.tests < 2 ^ 63
    → (virtual_users ec ≡ pos (user_sum ec.tests)) × (engine_sum ec.tests ≤ user_sum ec.tests)
unfolding virtual_users
virtual_users-user_sum ec valid h =
    let all = ((validate-All ec).0 valid).1 in
    let sum : 0 + user_sum ec.tests ≡ user_sum ec.tests = omega arith in
    (
      virtual_users_from-user_sum 0 ec.tests all (omega arith) ∙ ap pos sum,
      engine_sum-le-user_sum ec.tests all,
    )
