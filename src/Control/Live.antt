-- ===== src/Control/Live.antt =====
-- The live view and the tally by cluster, when a batch arrives again.
use honryu.Base.{
  ◌≡◌, refl, ap, sym, ◌∙◌, subst, inl, inr, true, false, List, [], ◌∷◌, All, Bool-cases, arith,
}
use honryu.Base.Ints.{ℤ, eqb_ℤ, eqb_ℤ_iff}
use honryu.Base.Floats.{Float64}
use honryu.Base.Maps.{lookup_or, lookup_or-same}
use honryu.Base.Text.{Text, same_text_iff}
use honryu.Metrics.{Batch, Interval}
use honryu.Control.{Control, seen_key, mark, interval_key, show, show_all}

seen_key-here : (key : Text) (keys : List Text) → seen_key key (key ∷ keys) ≡ true
unfolding seen_key
seen_key-here key keys = ground (arith, same_text_iff key key)

seen_key-later :
    (key k : Text) (keys : List Text) → seen_key key keys ≡ true → seen_key key (k ∷ keys) ≡ true
unfolding seen_key
seen_key-later key k keys h = ground arith

module _ (fl : Float64) (b : Batch fl.F) (run : ℤ) where
  open fl use {F}

  abbrev keys_of : Control F → List Text
  keys_of s = lookup_or eqb_ℤ [] b.execution_id s.seen

  abbrev IsSeen : Control F → Interval F → Type 0
  IsSeen s iv = seen_key (interval_key b iv) (keys_of s) ≡ true

  show-seen : (iv : Interval F) (s : Control F) → IsSeen s iv → show fl b run iv s ≡ s
  unfolding show mark
  show-seen iv s h = rw h refl

  -- The keys after a turn of the loop.
  keys_of-show :
      (iv : Interval F) (s : Control F)
      → seen_key (interval_key b iv) (keys_of s) ≡ false
      → keys_of (show fl b run iv s) ≡ interval_key b iv ∷ keys_of s
  unfolding show mark
  keys_of-show iv s h =
      rw h (lookup_or-same eqb_ℤ eqb_ℤ_iff [] b.execution_id (interval_key b iv ∷ keys_of s) s.seen)

  show-IsSeen : (iv : Interval F) (s : Control F) → IsSeen (show fl b run iv s) iv
  show-IsSeen iv s = elim (Bool-cases (seen_key (interval_key b iv) (keys_of s))) [
    | inl seen ↦ subst (λ t. IsSeen t iv) (sym (show-seen iv s seen)) seen
    | inr new ↦
        subst (λ keys. seen_key (interval_key b iv) keys ≡ true) (sym (keys_of-show iv s new))
          (seen_key-here (interval_key b iv) (keys_of s))
  ]

  show-keeps : (iv jv : Interval F) (s : Control F) → IsSeen s jv → IsSeen (show fl b run iv s) jv
  show-keeps iv jv s h = elim (Bool-cases (seen_key (interval_key b iv) (keys_of s))) [
    | inl seen ↦ subst (λ t. IsSeen t jv) (sym (show-seen iv s seen)) h
    | inr new ↦
        subst (λ keys. seen_key (interval_key b jv) keys ≡ true) (sym (keys_of-show iv s new))
          (seen_key-later (interval_key b jv) (interval_key b iv) (keys_of s) h)
  ]

  show_all-keeps :
      (ivs : List (Interval F)) (jv : Interval F) (s : Control F)
      → IsSeen s jv
      → IsSeen (show_all fl b run ivs s) jv
  unfolding show_all
  show_all-keeps [] jv s h = h
  show_all-keeps (iv ∷ ivs) jv s h =
      show_all-keeps ivs jv (show fl b run iv s) (show-keeps iv jv s h)

  show_all-IsSeen :
      (ivs : List (Interval F)) (s : Control F) → All (IsSeen (show_all fl b run ivs s)) ivs
  unfolding show_all
  show_all-IsSeen [] s = tt
  show_all-IsSeen (iv ∷ ivs) s = (
    show_all-keeps ivs iv (show fl b run iv s) (show-IsSeen iv s),
    show_all-IsSeen ivs (show fl b run iv s),
  )

  show_all-seen :
      (ivs : List (Interval F)) (s : Control F) → All (IsSeen s) ivs → show_all fl b run ivs s ≡ s
  unfolding show_all
  show_all-seen [] s h = refl
  show_all-seen (iv ∷ ivs) s h =
      ap (show_all fl b run ivs) (show-seen iv s h.0) ∙ show_all-seen ivs s h.1

  -- A batch that arrives again is neither shown nor tallied again: it leaves the state as it is.
  pub show_all-twice :
      (ivs : List (Interval F)) (s : Control F)
      → show_all fl b run ivs (show_all fl b run ivs s) ≡ show_all fl b run ivs s
  show_all-twice ivs s = show_all-seen ivs (show_all fl b run ivs s) (show_all-IsSeen ivs s)
