-- ===== src/Metrics/Percentiles.antt =====
-- The one-pass `Percentiles` beside `Percentile`.
use honryu.Base.{
  ℕ, zero, suc, ◌^◌, ◌≤◌, ◌≡◌, refl, sym, inl, inr, true, false, List, [], ◌∷◌, ◌++◌, map, arith,
  All, Bool-cases, if◌then◌else◌, ◌==◌,
}
use honryu.Base.Ints.{ℤ, pos, ◌+ℤ◌, wrap64, leb_ℤ, ltb_ℤ, eqb_ℤ}
use honryu.Base.Floats.{Float64}
use honryu.Base.Sorting.{IsSorted, sort_by, sort_by-IsSorted}
use honryu.Metrics.{
  Histogram, count, rank_of, earlier_bucket, percentile_from, percentile, assign_at,
  percentiles_from, percentiles,
}
use honryu.Metrics.Ranks.{rank_mono}

module _ (fl : Float64) where
  open fl use {F, of_int, le, lt}

  -- `sort.Float64s`
  lt-sorts : (ps : List F) → IsSorted lt (sort_by lt ps)
  lt-sorts ps =
      sort_by-IsSorted lt
        (λ x y z a b.
          ground (arith, fl.lt_not_le y x, fl.lt_not_le z y, fl.lt_not_le z x, fl.le_trans x y z))
        (λ x y a. ground (arith, fl.lt_not_le y x, fl.lt_not_le x y, fl.le_total x y)) ps

  module _ (total : ℕ) (room : total ≤ 2 ^ 53) where
    abbrev rank : F → ℤ
    rank p = rank_of fl (pos total) p

    -- Ranks above a bound stay above it along a sorted list.
    later_ranks :
        (seen : ℤ) (p : F) (ps : List F)
        → ltb_ℤ seen (rank p) ≡ true
        → All (λ q. lt q p ≡ false) ps
        → All (λ q. ltb_ℤ seen (rank q) ≡ true) ps
    later_ranks seen p [] h all = tt
    later_ranks seen p (q ∷ ps) h all = (
      ground (arith, rank_mono fl total p q room, fl.lt_not_le q p, all.0),
      later_ranks seen p ps h all.1,
    )

    -- What one bucket leaves to the later ones.
    abbrev here_or : ℤ → F → (F → F) → F → F × F
    here_or seen rt later p = (p, if leb_ℤ (rank p) seen then rt else later p)

    All-later :
        (seen : ℤ) (rt : F) (later : F → F) (ps : List F)
        → All (λ q. ltb_ℤ seen (rank q) ≡ true) ps
        → map (here_or seen rt later) ps ≡ map (λ p. (p, later p)) ps
    All-later seen rt later [] all = refl
    All-later seen rt later (p ∷ ps) all = ground (arith, All-later seen rt later ps all.1, all.0)

    assign_at-map :
        (seen : ℤ) (rt : F) (later : F → F) (ps : List F)
        → IsSorted lt ps
        → let a = assign_at fl (pos total) rt seen ps in
          (map (here_or seen rt later) ps ≡ a.0 ++ map (λ p. (p, later p)) a.1) × IsSorted lt a.1
    unfolding assign_at
    assign_at-map seen rt later [] s = (refl, tt)
    assign_at-map seen rt later (p ∷ ps) s = elim (Bool-cases (ltb_ℤ seen (rank p))) [
      | inl above ↦
          rw (above, assign_at)
            (All-later seen rt later (p ∷ ps) (above, later_ranks seen p ps above s.0), s)
      | inr reached ↦
          let (ih, sorted) = assign_at-map seen rt later ps s.1 in
          rw (reached, assign_at) (ground (arith, ih), sorted)
    ]

    percentiles_from-map :
        (seen : ℤ) (last : F) (buckets : Histogram F) (ps : List F)
        → IsSorted lt ps
        → percentiles_from fl (pos total) seen last buckets ps
          ≡ map (λ p. (p, percentile_from fl (rank p) seen last buckets)) ps
    unfolding percentiles_from percentile_from
    percentiles_from-map seen last [] ps s = refl
    percentiles_from-map seen last ((rt, n) ∷ buckets) ps s =
        let seen' = wrap64 (seen +ℤ n) in
        let later = λ (p : F). percentile_from fl (rank p) seen' rt buckets in
        let (split, sorted) = assign_at-map seen' rt later ps s in
        rw (percentiles_from-map seen' rt buckets (assign_at fl (pos total) rt seen' ps).1 sorted)
          (sym split)

  -- Over at most 2^53 samples, the one pass of `Percentiles` assigns to every percentile asked for what
  -- `Percentile` returns for it: in ascending order, or in the order asked for where nothing was
  -- measured.
  pub percentiles-percentile :
      (h : Histogram F) (ps : List F) (total : ℕ)
      → count fl h ≡ pos total
      → total ≤ 2 ^ 53
      → percentiles fl h ps
        ≡ map (λ p. (p, percentile fl h p)) (if total == 0 then ps else sort_by lt ps)
  unfolding percentiles percentile
  percentiles-percentile h ps zero e room = rw e refl
  percentiles-percentile h ps (suc total) e room =
      let nonzero : eqb_ℤ (pos (suc total)) (pos 0) ≡ false = ground arith in
      let some_samples : (suc total == 0) ≡ false = ground arith in
      simp (e, nonzero, some_samples)
        (percentiles_from-map (suc total) room (pos 0) (of_int (pos 0))
          (sort_by (earlier_bucket fl) h) (sort_by lt ps) (lt-sorts ps))
