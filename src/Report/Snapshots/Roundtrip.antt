-- ===== src/Report/Snapshots/Roundtrip.antt =====
-- What a run's report loses when the process that measures it restarts.
use honryu.Base.{
  ◌≡◌, ◌↔◌, refl, ap, sym, ◌∙◌, Bool, true, false, List, [], ◌∷◌, ◌++◌, String, str_eq, str_eq_iff,
  arith, All, All-append,
}
use mathlib.Core.List.{append_assoc, append-nil}
use honryu.Base.Ints.{ℤ, pos, wrap64, eqb_ℤ, eqb_ℤ_iff}
use honryu.Base.Wrap.{+ℤ_comm, +ℤ_zero}
use honryu.Base.Floats.{Float64}
use honryu.Base.Maps.{store, lookup, lookup_or}
use honryu.Base.Rebuilt.{Holds, rebuilt}
use honryu.Metrics.{add_at, merge_counts}
use honryu.Metrics.Merged.{add_at-there}
use honryu.Report.Failures.{Signature, same_signature, ErrorCount}
use honryu.Report.Accumulator.{LabelState, SecondState, Accumulator}
use honryu.Report.Snapshots.{
  snapshot, restore, label_row, second_row, failure_row, label_state, second_state, earlier_label,
  earlier_second, earlier_failure,
}
use honryu.Report.Snapshots.Valid.{IsValid, IsTallied, IsInt64, IsLabelState, same_signature_iff}

module _ {K : Type 0} (eq : K → K → Bool) (eq_iff : (a b : K) → (eq a b ≡ true) ↔ (a ≡ b)) where
  abbrev IsNew : K → List (K × ℤ) → Type 0
  IsNew k m = All (λ e. eq e.0 k ≡ false) m

  -- A count at a new key is appended.
  add_at-new :
      (k : K) (n : ℤ) (m : List (K × ℤ))
      → IsNew k m
      → IsInt64 n
      → add_at eq k n m ≡ m ++ (k, n) ∷ []
  unfolding add_at store lookup_or
  add_at-new k n [] new h = ap (λ c. (k, c) ∷ []) (ap wrap64 (+ℤ_comm (pos 0) n ∙ +ℤ_zero n) ∙ h)
  add_at-new k n ((j, c) ∷ m) new h =
      add_at-there eq k j n c m new.0 ∙ ap (λ m. (j, c) ∷ m) (add_at-new k n m new.1 h)

  -- A later key is new behind an earlier one.
  IsNew-append :
      (k : K) (n : ℤ) (m other : List (K × ℤ))
      → All (λ e. IsNew e.0 m) other
      → All (λ e. eq e.0 k ≡ false) other
      → All (λ e. IsNew e.0 (m ++ (k, n) ∷ [])) other
  IsNew-append k n m [] new apart = tt
  IsNew-append k n m (e ∷ other) new apart = (
    All-append (λ f. eq f.0 e.0 ≡ false) m ((k, n) ∷ []) new.0
        (ground (arith, eq_iff e.0 k, eq_iff k e.0), tt),
    IsNew-append k n m other new.1 apart.1,
  )

  -- `Merge` into a histogram with none of the keys appends every count.
  merge_counts-new :
      (m other : List (K × ℤ))
      → All (λ e. IsNew e.0 m) other
      → IsTallied eq other
      → merge_counts eq m other ≡ m ++ other
  unfolding merge_counts
  merge_counts-new m [] new h = sym (append-nil m)
  merge_counts-new m ((k, n) ∷ other) new h =
      ap (λ m. merge_counts eq m other) (add_at-new k n m new.0 h.1.0)
      ∙ merge_counts-new (m ++ (k, n) ∷ []) other (IsNew-append k n m other new.1 h.0.0)
          (h.0.1, h.1.1)
      ∙ append_assoc m ((k, n) ∷ []) other

  All-any : (other : List (K × ℤ)) → All (λ e. IsNew e.0 []) other
  All-any [] = tt
  All-any (e ∷ other) = (tt, All-any other)

  merge_counts-nil : (other : List (K × ℤ)) → IsTallied eq other → merge_counts eq [] other ≡ other
  merge_counts-nil other h = merge_counts-new [] other (All-any other) h

second_rows :
    {F : Type 0} (m : List (ℤ × SecondState F)) → All (λ e. second_state (second_row e) ≡ e.1) m
unfolding second_state second_row
second_rows [] = tt
second_rows (e ∷ m) = (refl, second_rows m)

failure_rows : (m : List (Signature × ErrorCount)) → All (λ e. (failure_row e).failures ≡ e.1) m
failure_rows [] = tt
failure_rows (e ∷ m) = (refl, failure_rows m)

module _ (fl : Float64) where
  open fl use {F, eqb, eqb_iff}

  label_rows :
      (m : List (String × LabelState F))
      → Holds str_eq (IsLabelState fl) m
      → All (λ e. label_state fl (label_row e) ≡ e.1) m
  unfolding label_state label_row
  label_rows [] h = tt
  label_rows ((name, st) ∷ m) h = (
    ap (λ l. record st { latency = l }) (merge_counts-nil eqb eqb_iff st.latency h.0),
    label_rows m h.1,
  )

  -- A run's working state, written down and restored, holds the same of every label, of every second
  -- and of every failure, where its maps are Go maps and the counts of its histograms `int64`s.
  pub restore-snapshot :
      (a : Accumulator F) (label : String) (second : ℤ) (failure : Signature)
      → IsValid fl a
      → (lookup str_eq label (restore fl (snapshot a)).labels ≡ lookup str_eq label a.labels)
        × (lookup eqb_ℤ second (restore fl (snapshot a)).seconds ≡ lookup eqb_ℤ second a.seconds)
        × (lookup same_signature failure (restore fl (snapshot a)).signatures
            ≡ lookup same_signature failure a.signatures)
  unfolding restore snapshot label_row second_row
  restore-snapshot a label second failure h = (
    rebuilt str_eq (λ l. l.label) (label_state fl) label_row (λ e. refl) str_eq_iff label
        earlier_label a.labels h.labels (label_rows a.labels h.histograms),
    rebuilt eqb_ℤ (λ s. s.second) second_state second_row (λ e. refl) eqb_ℤ_iff second
        earlier_second a.seconds h.seconds (second_rows a.seconds),
    rebuilt same_signature (λ e. e.signature) (λ e. e.failures) failure_row (λ e. refl)
        same_signature_iff failure earlier_failure a.signatures h.signatures
        (failure_rows a.signatures),
  )
