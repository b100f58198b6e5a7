-- ===== src/Control/Closing.antt =====
-- When a batch ends a run.
use honryu.Base.{
  length, ◌≡◌, refl, ap, sym, ◌∙◌, subst, inl, inr, Bool, true, false, not, ◌&&◌, List, [], ◌∷◌,
  ◌++◌, Option, none, some, String, Bool-cases, arith, if◌then◌else◌,
}
use honryu.Base.Ints.{wrap64, ◌*ℤ◌, ◌+ℤ◌, ℤ, pos, ◌≤ℤ◌, eqb_ℤ, leb_ℤ}
use honryu.Base.Wrap.{wrap64-wrap64}
use honryu.LoadProfile.{Entry}
use honryu.Base.Floats.{Float64}
use honryu.Base.Maps.{lookup, lookup_or}
use honryu.Base.Times.{Time}
use honryu.Delivery.{progress_batch}
use honryu.Execution.{Execution, is_fan_out, clusters}
use honryu.Metrics.{Batch, Interval}
use honryu.Progress.{ProgressError, ShardState, shard_states}
use honryu.Progress as Progress
use honryu.Report.Summary.{Report}
use honryu.Control.{
  stale_run, Control, StepResult, and_then, show, show_all, mark, interval_key, add_to_tally,
  metric_of,
}
use honryu.Control.Ingest.{
  absorb_batch, complete_if, complete, ingest_valid, ingest_run, ingest, all_shards_finished,
  finished_shards, planned_engines, awaited, enough,
}

true_of : (x y : ℤ) → some (leb_ℤ x y) ≡ some true → x ≤ℤ y
true_of x y h = leb_ℤ-le (inside h)
  where
    inside : {b : Bool} → some b ≡ some true → b ≡ true
    inside e = cc

    leb_ℤ-le : leb_ℤ x y ≡ true → x ≤ℤ y
    leb_ℤ-le e = ground arith

not_both : some false ≡ some true → ⊥
not_both e = cc

nothing_found : {A : Type 0} {a : A} → none ≡ some a → ⊥
nothing_found e = cc

times_one : (x : ℤ) → x *ℤ pos 1 ≡ x
unfolding ◌*ℤ◌
times_one x = ground arith

-- What is awaited, by the clusters that the engines run on.
awaited-clusters :
    (n : ℤ) (exe : Execution)
    → wrap64 n ≡ n
    → awaited n exe ≡ wrap64 (n *ℤ pos (length (clusters exe)))
unfolding awaited clusters
awaited-clusters n exe h = elim (Bool-cases (is_fan_out exe)) [
  | inl fans_out ↦ simp fans_out refl
  | inr alone ↦ simp alone (sym (ap wrap64 (times_one n) ∙ h))
]

planned_engines-fits :
    (n : ℤ) (profile : List Entry)
    → wrap64 n ≡ n
    → wrap64 (planned_engines n profile) ≡ planned_engines n profile
unfolding planned_engines
planned_engines-fits n [] h = h
planned_engines-fits n (e ∷ profile) h =
    planned_engines-fits (wrap64 (n +ℤ e.engines)) profile (wrap64-wrap64 (n +ℤ e.engines))

-- A comparison that holds is that of an execution.
enough-known :
    (planned finished : ℤ) (o : Option Execution)
    → enough planned finished o ≡ some true
    → (exe : Execution) × (o ≡ some exe) × (awaited planned exe ≤ℤ finished)
unfolding enough
enough-known planned finished none h = absurd (nothing_found h)
enough-known planned finished (some exe) h = (exe, refl, true_of (awaited planned exe) finished h)

zero_fits : wrap64 (pos 0) ≡ pos 0
unfolding wrap64
zero_fits = refl

module _ (fl : Float64) (grade : Report fl.F → Option String) (execution run : ℤ) where
  open fl use {F}

  abbrev planned : Control F → ℤ
  planned s = planned_engines (pos 0) (lookup_or eqb_ℤ [] execution s.profiles)

  -- What a state holds where every shard has finished: its execution, which plans engines, and as many
  -- finished shards as there are engines on all its clusters.
  pub record AllFinished (s : Control F) : Type 0 where
    pub exe : Execution
    pub known : lookup eqb_ℤ execution s.executions ≡ some exe
    pub plans : eqb_ℤ (planned s) (pos 0) ≡ false
    pub finished :
        wrap64 (planned s *ℤ pos (length (clusters exe)))
        ≤ℤ pos (finished_shards 0 (shard_states run s.progress))

  finished_of :
      (s : Control F)
      → (exe : Execution) × (lookup eqb_ℤ execution s.executions ≡ some exe)
        × (awaited (planned s) exe ≤ℤ pos (finished_shards 0 (shard_states run s.progress)))
      → eqb_ℤ (planned s) (pos 0) ≡ false
      → AllFinished s
  finished_of s (e, found, reached) nonzero = record {
    exe = e;
    known = found;
    plans = nonzero;
    finished =
        subst (λ n. n ≤ℤ pos (finished_shards 0 (shard_states run s.progress)))
          (awaited-clusters (planned s) e
            (planned_engines-fits (pos 0) (lookup_or eqb_ℤ [] execution s.profiles) zero_fits))
          reached;
  }

  all_shards_finished-AllFinished :
      (s : Control F) → all_shards_finished execution run s ≡ some true → AllFinished s
  unfolding all_shards_finished
  all_shards_finished-AllFinished s h = elim (Bool-cases (eqb_ℤ (planned s) (pos 0))) [
    | inl nothing ↦
        absurd
          (not_both (subst (λ b. (if b then some false else comparison) ≡ some true) nothing h))
    | inr plans ↦
        finished_of s
          (enough-known (planned s) (pos (finished_shards 0 (shard_states run s.progress)))
            (lookup eqb_ℤ execution s.executions)
            (subst (λ b. (if b then some false else comparison) ≡ some true) plans h))
          plans
  ]
    where
      comparison : Option Bool
      comparison =
          enough (planned s) (pos (finished_shards 0 (shard_states run s.progress)))
            (lookup eqb_ℤ execution s.executions)

  abbrev Current : Control F → Type 0
  Current s = lookup eqb_ℤ execution s.current_runs ≡ some run

  abbrev Closed : StepResult F → Type 0
  Closed r = lookup eqb_ℤ execution r.1.current_runs ≡ none

  still : (s : Control F) → Current s → lookup eqb_ℤ execution s.current_runs ≡ none → ⊥
  still s open_run closed = nothing_found (sym closed ∙ open_run)

  complete_if-closes :
      (now : Time) (o : Option Bool) (s : Control F)
      → Current s
      → Closed (complete_if fl grade now execution run o s)
      → o ≡ some true
  unfolding complete_if
  complete_if-closes now none s h closed = absurd (still s h closed)
  complete_if-closes now (some false) s h closed = absurd (still s h closed)
  complete_if-closes now (some true) s h closed = refl

  complete-closes :
      (final : Bool) (now : Time) (s : Control F)
      → Current s
      → Closed (complete fl grade final now execution run s)
      → (final ≡ true) × AllFinished s
  unfolding complete
  complete-closes false now s h closed = absurd (still s h closed)
  complete-closes true now s h closed = (
    refl,
    all_shards_finished-AllFinished s
        (complete_if-closes now (all_shards_finished execution run s) s h closed),
  )

  show_all-current :
      (b : Batch F) (ivs : List (Interval F)) (s : Control F)
      → (show_all fl b run ivs s).current_runs ≡ s.current_runs
  unfolding show_all show
  show_all-current b [] s = refl
  show_all-current b (iv ∷ ivs) s =
      show_all-current b ivs (show fl b run iv s)
      ∙ shown (mark b.execution_id (interval_key b iv) s.seen).0
    where
      shown :
          (c : Bool)
          → (if c
              then record s {
                seen = (mark b.execution_id (interval_key b iv) s.seen).1;
                tally = add_to_tally run b.cluster iv s.tally;
                recorded = s.recorded ++ metric_of fl b iv run ∷ [];
              }
              else s).current_runs
            ≡ s.current_runs
      shown true = refl
      shown false = refl

  absorb_batch-current :
      (b : Batch F) (s : Control F)
      → (absorb_batch fl grade b run s).1.current_runs ≡ s.current_runs
  unfolding absorb_batch
  absorb_batch-current b s = refl

  and_then-closes :
      (r : StepResult F) (next : Control F → StepResult F) (P : Control F → Type 0)
      → Current r.1
      → ((t : Control F) → Current t → Closed (next t) → P t)
      → Closed (and_then r next)
      → P r.1
  and_then-closes (some e, t) next P h k closed = absurd (still t h closed)
  and_then-closes (none, t) next P h k closed = k t h closed

  -- The state that a batch leaves before the run may end.
  abbrev pub absorbed : Batch F → Control F → Control F
  absorbed b s = (absorb_batch fl grade b run (show_all fl b run b.intervals s)).1

  ingest_valid-closes :
      (e : Option ProgressError) (now : Time) (b : Batch F) (s : Control F)
      → b.execution_id ≡ execution
      → Current s
      → Closed (ingest_valid fl grade e now b run s)
      → (b.final ≡ true) × AllFinished (absorbed b s)
  unfolding ingest_valid
  ingest_valid-closes (some e) now b s same h closed = absurd (still s h closed)
  ingest_valid-closes none now b s same h closed =
      let kept =
        absorb_batch-current b (show_all fl b run b.intervals s)
        ∙ show_all-current b b.intervals s in
      and_then-closes (absorb_batch fl grade b run (show_all fl b run b.intervals s))
        (complete fl grade b.final now b.execution_id run) (λ t. (b.final ≡ true) × AllFinished t)
        (ap (lookup eqb_ℤ execution) kept ∙ h)
        (λ t open_run ends.
          complete-closes b.final now t open_run
            (subst (λ x. Closed (complete fl grade b.final now x run t)) same ends))
        closed

  -- A batch that leaves its execution without its run is the last of the run's last shard: it is final,
  -- and with it as many shards are finished as the profile plans, on every target cluster.
  pub ingest_closes :
      (now : Time) (b : Batch F) (s : Control F)
      → b.execution_id ≡ execution
      → lookup eqb_ℤ execution s.current_runs ≡ some run
      → lookup eqb_ℤ execution (ingest fl grade now b s).1.current_runs ≡ none
      → (b.final ≡ true) × AllFinished (absorbed b s)
  unfolding ingest ingest_run
  ingest_closes now b s same h closed =
      elim (Bool-cases (not (eqb_ℤ b.run_id (pos 0)) && not (eqb_ℤ b.run_id run))) [
        | inl stale ↦
            absurd (still s h (subst (λ c. Closed (if c then refused else taken)) stale at_run))
        | inr current ↦
            ingest_valid-closes (Progress.validate (progress_batch run b)) now b s same h
              (subst (λ c. Closed (if c then refused else taken)) current at_run)
      ]
    where
      refused : StepResult F
      refused = (some (stale_run b.run_id run), s)

      taken : StepResult F
      taken = ingest_valid fl grade (Progress.validate (progress_batch run b)) now b run s

      at_run :
          Closed
            (if not (eqb_ℤ b.run_id (pos 0)) && not (eqb_ℤ b.run_id run) then refused else taken)
      at_run =
          subst (λ o. Closed (ingest_run fl grade o now b s))
            (ap (λ x. lookup eqb_ℤ x s.current_runs) same ∙ h) closed
