-- ===== src/Report/Series/Agree.antt =====
-- The two records of a run's concurrency: the series, which merges a batch by its seconds, and the
-- report's accumulator, which adds one interval at a time.
use honryu.Base.{
  ◌≡◌, refl, ap, sym, ◌∙◌, inl, inr, List, [], ◌∷◌, str_eq, Bool-cases, if◌then◌else◌, is_empty,
}
use honryu.Base.Ints.{ℤ, pos, ◌+ℤ◌, wrap64, eqb_ℤ, eqb_ℤ_iff}
use honryu.Base.Wrap.{+ℤ_comm, +ℤ_zero, wrap64-+ℤ-right}
use honryu.Base.Floats.{Float64}
use honryu.Base.Maps.{lookup_or-same, lookup_or, store}
use honryu.Metrics.{Interval}
use honryu.Report.{total_label}
use honryu.Report.Series.Sums.{
  sum_all, at, sum_at, sum_groups, sum_groups-group_seconds, reading-loop, read-store,
}
use honryu.Report.Accumulator.{
  SecondState, Accumulator, new_accumulator, no_second, add_second, add_interval, add_latency,
}
use honryu.Report.Series.{
  SeriesSecond, no_row, no_interval, group_seconds, merge_second, merge_second_from, merge_row,
  absorb_row, absorb_seconds, absorb_series,
}

module _ (fl : Float64) where
  open fl use {F}

  -- The two readings of concurrency.
  abbrev of_engine : Interval F → ℤ
  of_engine iv = if str_eq iv.label total_label then iv.concurrency else pos 0

  abbrev of_labels : Interval F → ℤ
  of_labels iv = if str_eq iv.label total_label then pos 0 else iv.concurrency

  add_latency-engine :
      (iv : Interval F) (sec : SecondState F) → (add_latency fl iv sec).engine ≡ sec.engine
  unfolding add_latency
  add_latency-engine iv sec = elim (Bool-cases (is_empty iv.latency)) [
    | inl e ↦ rw e refl
    | inr e ↦ rw e refl
  ]

  add_latency-labels :
      (iv : Interval F) (sec : SecondState F) → (add_latency fl iv sec).labels ≡ sec.labels
  unfolding add_latency
  add_latency-labels iv sec = elim (Bool-cases (is_empty iv.latency)) [
    | inl e ↦ rw e refl
    | inr e ↦ rw e refl
  ]

  add_second-engine :
      (iv : Interval F) (sec : SecondState F)
      → wrap64 sec.engine ≡ sec.engine
      → (add_second fl iv sec).engine ≡ wrap64 (sec.engine +ℤ of_engine iv)
  unfolding add_second
  add_second-engine iv sec h = elim (Bool-cases (str_eq iv.label total_label)) [
    | inl whole ↦ rw whole refl
    | inr request ↦ rw request (
        add_latency-engine iv (record sec { labels = wrap64 (sec.labels +ℤ iv.concurrency) })
        ∙ sym h
        ∙ ap wrap64 (sym (+ℤ_zero sec.engine)))
  ]

  add_second-labels :
      (iv : Interval F) (sec : SecondState F)
      → wrap64 sec.labels ≡ sec.labels
      → (add_second fl iv sec).labels ≡ wrap64 (sec.labels +ℤ of_labels iv)
  unfolding add_second
  add_second-labels iv sec h = elim (Bool-cases (str_eq iv.label total_label)) [
    | inl whole ↦ rw whole (sym h ∙ ap wrap64 (sym (+ℤ_zero sec.labels)))
    | inr request ↦
        rw request
          (add_latency-labels iv (record sec { labels = wrap64 (sec.labels +ℤ iv.concurrency) }))
  ]

  merge_row-engine :
      (row : Interval F) (p : Interval F × ℤ)
      → wrap64 p.1 ≡ p.1
      → (merge_row fl row p).1 ≡ wrap64 (p.1 +ℤ of_engine row)
  unfolding merge_row
  merge_row-engine row (merged, engine) h = elim (Bool-cases (str_eq row.label total_label)) [
    | inl whole ↦ rw whole refl
    | inr request ↦ rw request (sym h ∙ ap wrap64 (sym (+ℤ_zero engine)))
  ]

  merge_row-labels :
      (row : Interval F) (p : Interval F × ℤ)
      → wrap64 p.0.concurrency ≡ p.0.concurrency
      → (merge_row fl row p).0.concurrency ≡ wrap64 (p.0.concurrency +ℤ of_labels row)
  unfolding merge_row
  merge_row-labels row (merged, engine) h = elim (Bool-cases (str_eq row.label total_label)) [
    | inl whole ↦ rw whole (sym h ∙ ap wrap64 (sym (+ℤ_zero merged.concurrency)))
    | inr request ↦ rw request refl
  ]

  merge_second-engine :
      (rows : List (Interval F))
      → (merge_second fl rows).1 ≡ wrap64 (pos 0 +ℤ sum_all of_engine rows)
  unfolding merge_second merge_second_from wrap64
  merge_second-engine rows =
      reading-loop (λ p. p.1) (merge_row fl) of_engine merge_row-engine (merge_second_from fl)
        (λ p. refl) (λ p row rows. refl) rows (no_interval, pos 0) refl

  merge_second-labels :
      (rows : List (Interval F))
      → (merge_second fl rows).0.concurrency ≡ wrap64 (pos 0 +ℤ sum_all of_labels rows)
  unfolding merge_second merge_second_from wrap64
  merge_second-labels rows =
      reading-loop (λ p. p.0.concurrency) (merge_row fl) of_labels merge_row-labels
        (merge_second_from fl) (λ p. refl) (λ p row rows. refl) rows (no_interval, pos 0) refl

  added : (x y z : ℤ) → y ≡ wrap64 (pos 0 +ℤ z) → wrap64 (x +ℤ y) ≡ wrap64 (x +ℤ z)
  added x y z h =
      ap (λ y. wrap64 (x +ℤ y)) h
      ∙ wrap64-+ℤ-right x (pos 0 +ℤ z)
      ∙ ap (λ z. wrap64 (x +ℤ z)) (+ℤ_comm (pos 0) z ∙ +ℤ_zero z)

  absorb_row-engine :
      (rows : List (Interval F)) (row : SeriesSecond F)
      → (absorb_row fl rows row).engine ≡ wrap64 (row.engine +ℤ sum_all of_engine rows)
  unfolding absorb_row
  absorb_row-engine rows row =
      added row.engine (merge_second fl rows).1 (sum_all of_engine rows) (merge_second-engine rows)

  absorb_row-labels :
      (rows : List (Interval F)) (row : SeriesSecond F)
      → (absorb_row fl rows row).labels ≡ wrap64 (row.labels +ℤ sum_all of_labels rows)
  unfolding absorb_row
  absorb_row-labels rows row =
      added row.labels (merge_second fl rows).0.concurrency (sum_all of_labels rows)
        (merge_second-labels rows)

  -- The batches of a run, absorbed one after another.
  abbrev pub add_batch : Accumulator F → List (Interval F) → Accumulator F
  add_batch a [] = a
  add_batch a (iv ∷ ivs) = add_batch (add_interval fl iv a) ivs

  abbrev pub add_batches : Accumulator F → List (List (Interval F)) → Accumulator F
  add_batches a [] = a
  add_batches a (b ∷ bs) = add_batches (add_batch a b) bs

  abbrev pub absorb_batches :
      ℤ
      → List (ℤ × List (ℤ × SeriesSecond F))
      → List (List (Interval F))
      → List (ℤ × List (ℤ × SeriesSecond F))
  absorb_batches run series [] = series
  absorb_batches run series (b ∷ bs) = absorb_batches run (absorb_series fl run b series) bs

  add_interval-seconds :
      (iv : Interval F) (a : Accumulator F)
      → (add_interval fl iv a).seconds
        ≡ store eqb_ℤ iv.timestamp
            (add_second fl iv (lookup_or eqb_ℤ (no_second fl) iv.timestamp a.seconds))
            a.seconds
  unfolding add_interval
  add_interval-seconds iv a = elim (Bool-cases (str_eq iv.label total_label)) [
    | inl whole ↦ rw whole refl
    | inr request ↦ rw request refl
  ]

  module _ (f : Interval F → ℤ) (ts : ℤ) (of_second : SecondState F → ℤ)
      (second_lem : (iv : Interval F) (sec : SecondState F)
        → wrap64 (of_second sec) ≡ of_second sec
        → of_second (add_second fl iv sec) ≡ wrap64 (of_second sec +ℤ f iv))
      (of_row : SeriesSecond F → ℤ)
      (row_lem : (rows : List (Interval F)) (row : SeriesSecond F)
        → of_row (absorb_row fl rows row) ≡ wrap64 (of_row row +ℤ sum_all f rows)) where
    abbrev in_report : Accumulator F → ℤ
    in_report a = of_second (lookup_or eqb_ℤ (no_second fl) ts a.seconds)

    abbrev in_series : ℤ → List (ℤ × List (ℤ × SeriesSecond F)) → ℤ
    in_series run series = of_row (lookup_or eqb_ℤ no_row ts (lookup_or eqb_ℤ [] run series))

    in_report-add_interval :
        (iv : Interval F) (a : Accumulator F)
        → wrap64 (in_report a) ≡ in_report a
        → in_report (add_interval fl iv a) ≡ wrap64 (in_report a +ℤ at f ts iv)
    in_report-add_interval iv a h =
        ap (λ m. of_second (lookup_or eqb_ℤ (no_second fl) ts m)) (add_interval-seconds iv a)
        ∙ read-store of_second (no_second fl) (add_second fl) f second_lem ts iv.timestamp iv
            a.seconds h

    in_report-add_batch :
        (b : List (Interval F)) (a : Accumulator F)
        → wrap64 (in_report a) ≡ in_report a
        → in_report (add_batch a b) ≡ wrap64 (in_report a +ℤ sum_at f ts b)
    in_report-add_batch b a h =
        reading-loop in_report (add_interval fl) (at f ts) in_report-add_interval add_batch
          (λ a. refl) (λ a iv ivs. refl) b a h

    abbrev in_seconds : List (ℤ × SeriesSecond F) → ℤ
    in_seconds m = of_row (lookup_or eqb_ℤ no_row ts m)

    in_seconds-absorb_seconds :
        (groups : List (ℤ × List (Interval F))) (m : List (ℤ × SeriesSecond F))
        → wrap64 (in_seconds m) ≡ in_seconds m
        → in_seconds (absorb_seconds fl groups m) ≡ wrap64 (in_seconds m +ℤ sum_groups f ts groups)
    unfolding absorb_seconds
    in_seconds-absorb_seconds groups m h =
        reading-loop in_seconds
          (λ g m. store eqb_ℤ g.0 (absorb_row fl g.1 (lookup_or eqb_ℤ no_row g.0 m)) m)
          (λ g. if eqb_ℤ g.0 ts then sum_all f g.1 else pos 0)
          (λ g m h.
            read-store of_row no_row (absorb_row fl) (sum_all f) (λ rows row _. row_lem rows row) ts
              g.0 g.1 m h)
          (λ m groups. absorb_seconds fl groups m) (λ m. refl) (λ m g groups. refl) groups m h

    in_series-absorb_series :
        (run : ℤ) (b : List (Interval F)) (series : List (ℤ × List (ℤ × SeriesSecond F)))
        → wrap64 (in_series run series) ≡ in_series run series
        → in_series run (absorb_series fl run b series)
          ≡ wrap64 (in_series run series +ℤ sum_at f ts b)
    unfolding absorb_series
    in_series-absorb_series run b series h =
        let seconds : List (ℤ × SeriesSecond F) = lookup_or eqb_ℤ [] run series in
        ap in_seconds (
          lookup_or-same eqb_ℤ eqb_ℤ_iff [] run (absorb_seconds fl (group_seconds [] b) seconds)
            series)
        ∙ in_seconds-absorb_seconds (group_seconds [] b) seconds h
        ∙ ap (λ z. wrap64 (in_seconds seconds +ℤ z))
            (sum_groups-group_seconds f ts [] b
              ∙ +ℤ_comm (pos 0) (sum_at f ts b)
              ∙ +ℤ_zero (sum_at f ts b))

    -- Both records add up the same over a run's batches.
    in_series-in_report :
        (run : ℤ) (bs : List (List (Interval F)))
        → wrap64 (in_series run []) ≡ in_series run []
        → in_series run [] ≡ in_report new_accumulator
        → in_series run (absorb_batches run [] bs) ≡ in_report (add_batches new_accumulator bs)
    in_series-in_report run bs h same =
        reading-loop (in_series run) (absorb_series fl run) (sum_at f ts)
          (in_series-absorb_series run) (absorb_batches run) (λ s. refl) (λ s b bs. refl) bs [] h
        ∙ ap (λ n. wrap64 (n +ℤ sum_all (sum_at f ts) bs)) same
        ∙ sym (
            reading-loop in_report (λ b a. add_batch a b) (sum_at f ts) in_report-add_batch
              add_batches (λ a. refl) (λ a b bs. refl) bs new_accumulator
              (ap wrap64 (sym same) ∙ h ∙ same))

  -- Whatever batches a run's shards send, the series and the report's accumulator hold the same two
  -- readings of each second's concurrency: the engines' own totals and the sum over the labels.
  pub series-accumulator :
      (run ts : ℤ) (batches : List (List (Interval F)))
      → let row =
          lookup_or eqb_ℤ no_row ts (lookup_or eqb_ℤ [] run (absorb_batches run [] batches)) in
        let sec = lookup_or eqb_ℤ (no_second fl) ts (add_batches new_accumulator batches).seconds in
        (row.engine ≡ sec.engine) × (row.labels ≡ sec.labels)
  unfolding lookup_or wrap64
  series-accumulator run ts batches = (
    in_series-in_report of_engine ts (λ s. s.engine) add_second-engine (λ r. r.engine)
        absorb_row-engine run batches refl refl,
    in_series-in_report of_labels ts (λ s. s.labels) add_second-labels (λ r. r.labels)
        absorb_row-labels run batches refl refl,
  )
