-- ===== src/Report/Snapshots/Valid.antt =====
-- What is kept of an accumulator by every interval that it adds: its maps have one entry for each key,
-- and the counts of its histograms are `int64`s.
use honryu.Base.{
  ◌≡◌, ◌↔◌, Bool, true, List, [], ◌∷◌, String, str_eq, str_eq_iff, arith, inl, inr, Bool-cases,
}
use honryu.Base.Ints.{ℤ, pos, ◌+ℤ◌, wrap64, eqb_ℤ, eqb_ℤ_iff}
use honryu.Base.Wrap.{wrap64-wrap64}
use honryu.Base.Floats.{Float64}
use honryu.Base.Text.{same_text_iff}
use honryu.Base.Maps.{store, lookup_or}
use honryu.Base.Rebuilt.{IsMap, Holds, store-IsMap, store-Holds, lookup_or-Holds}
use honryu.Metrics.{Interval, ErrorGroup, add_at, merge_counts}
use honryu.Report.{total_label}
use honryu.Report.Failures.{Side, Signature, same_side, same_signature, ErrorCount}
use honryu.Report.Accumulator.{
  LabelState, Accumulator, new_accumulator, add_error, add_errors, add_label, add_interval,
  no_label,
}

same_side_iff : (s t : Side) → (same_side s t ≡ true) ↔ (s ≡ t)
same_side_iff s t = ground arith

pub same_signature_iff : (s t : Signature) → (same_signature s t ≡ true) ↔ (s ≡ t)
same_signature_iff s t = ground (
  arith,
  str_eq_iff s.label t.label,
  same_text_iff s.response_code t.response_code,
  same_side_iff s.side t.side,
)

abbrev pub IsInt64 : ℤ → Type 0
IsInt64 n = wrap64 n ≡ n

-- Counts by a key, as a Go map of `int64`s holds them.
abbrev pub IsTallied : {K : Type 0} → (K → K → Bool) → List (K × ℤ) → Type 0
IsTallied eq m = IsMap eq m × Holds eq IsInt64 m

module _ {K : Type 0} (eq : K → K → Bool) (eq_iff : (a b : K) → (eq a b ≡ true) ↔ (a ≡ b)) where
  merge_counts-IsTallied :
      (m other : List (K × ℤ)) → IsTallied eq m → IsTallied eq (merge_counts eq m other)
  unfolding merge_counts add_at
  merge_counts-IsTallied m [] h = h
  merge_counts-IsTallied m ((k, n) ∷ other) h =
      let count = wrap64 (lookup_or eq (pos 0) k m +ℤ n) in
      merge_counts-IsTallied (store eq k count m) other (
        store-IsMap eq eq_iff k count m h.0,
        store-Holds eq IsInt64 k count m (wrap64-wrap64 (lookup_or eq (pos 0) k m +ℤ n)) h.1,
      )

add_errors-IsMap :
    (label : String) (es : List ErrorGroup) (m : List (Signature × ErrorCount))
    → IsMap same_signature m
    → IsMap same_signature (add_errors label es m)
unfolding add_errors add_error
add_errors-IsMap label [] m h = h
add_errors-IsMap label (e ∷ es) m h =
    add_errors-IsMap label es (add_error label e m)
      (store-IsMap same_signature same_signature_iff _ _ m h)

module _ (fl : Float64) where
  open fl use {F, eqb, eqb_iff}

  abbrev pub IsLabelState : LabelState F → Type 0
  IsLabelState st = IsTallied eqb st.latency

  pub record IsValid (a : Accumulator F) : Type 0 where
    pub labels : IsMap str_eq a.labels
    pub histograms : Holds str_eq IsLabelState a.labels
    pub seconds : IsMap eqb_ℤ a.seconds
    pub signatures : IsMap same_signature a.signatures

  pub new-IsValid : IsValid new_accumulator
  new-IsValid = record { labels = tt; histograms = tt; seconds = tt; signatures = tt }

  add_label-IsLabelState :
      (iv : Interval F) (st : LabelState F) → IsLabelState st → IsLabelState (add_label fl iv st)
  unfolding add_label
  add_label-IsLabelState iv st h = merge_counts-IsTallied eqb eqb_iff st.latency iv.latency h

  -- Adding an interval keeps one entry for each label, second and failure, and every count of a
  -- response time an `int64`.
  pub add_interval-IsValid :
      (iv : Interval F) (a : Accumulator F) → IsValid a → IsValid (add_interval fl iv a)
  unfolding add_interval
  add_interval-IsValid iv a h = elim (Bool-cases (str_eq iv.label total_label)) [
    | inl whole ↦ rw whole (record {
      labels = h.labels;
      histograms = h.histograms;
      seconds = store-IsMap eqb_ℤ eqb_ℤ_iff _ _ a.seconds h.seconds;
      signatures = h.signatures;
    })
    | inr request ↦ rw request (record {
      labels = store-IsMap str_eq str_eq_iff _ _ a.labels h.labels;
      histograms =
          store-Holds str_eq IsLabelState _ _ a.labels
            (add_label-IsLabelState iv (lookup_or str_eq no_label iv.label a.labels) (
              lookup_or-Holds str_eq IsLabelState no_label iv.label a.labels (tt, tt) h.histograms))
            h.histograms;
      seconds = store-IsMap eqb_ℤ eqb_ℤ_iff _ _ a.seconds h.seconds;
      signatures = add_errors-IsMap iv.label iv.errors a.signatures h.signatures;
    })
  ]
