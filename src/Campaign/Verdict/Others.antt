-- ===== src/Campaign/Verdict/Others.antt =====
-- The load beside a campaign's own.
use honryu.Base.{
  ◌≡◌, refl, subst, inl, inr, Bool, true, false, List, [], ◌∷◌, map, Option, none, some, Bool-cases,
  if◌then◌else◌, Result, ok, err, and_then, failed_not_ok, same_ok, All, arith,
}
use honryu.Base.Ints.{ℤ, eqb_ℤ}
use honryu.Base.Maps.{lookup, store}
use honryu.Base.Sorting.{sort_by, All-sort_by, IsSorted, sort_by-IsSorted}
use honryu.Base.Times.{Time}
use honryu.Campaign.{Campaign, Service}
use honryu.Reservation.{Reservation}
use honryu.Campaign.Verdict.{
  Repository, LaunchRecord, OtherLoad, is_designated, widen, merge_known, merge, merge_reservations,
  of_tenant, merge_launch, merge_launches, load_of_launch, load_at, earlier_load, other_load,
}

earlier_load_trans :
    (x y z : OtherLoad)
    → earlier_load y x ≡ false
    → earlier_load z y ≡ false
    → earlier_load z x ≡ false
unfolding earlier_load
earlier_load_trans x y z h k = ground arith

earlier_load_asym : (x y : OtherLoad) → earlier_load y x ≡ true → earlier_load x y ≡ false
unfolding earlier_load
earlier_load_asym x y h = ground arith

module _ (services : List Service) where
  -- The load is of an execution that no service designates.
  abbrev pub IsOther : OtherLoad → Type 0
  IsOther ol = is_designated ol.execution_id services ≡ false

  abbrev Held : List (ℤ × OtherLoad) → Type 0
  Held loads = All (λ e. IsOther e.1) loads

  store-Held :
      (k : ℤ) (ol : OtherLoad) (loads : List (ℤ × OtherLoad))
      → IsOther ol
      → Held loads
      → Held (store eqb_ℤ k ol loads)
  unfolding store
  store-Held k ol [] h all = (h, tt)
  store-Held k ol ((j, v) ∷ loads) h (first, all) = elim (Bool-cases (eqb_ℤ j k)) [
    | inl same ↦ rw (same, store) (h, all)
    | inr other ↦ rw (other, store) (first, store-Held k ol loads h all)
  ]

  merge_known-Held :
      (ol : OtherLoad) (o : Option OtherLoad) (loads : List (ℤ × OtherLoad))
      → IsOther ol
      → ((existing : OtherLoad) → o ≡ some existing → IsOther existing)
      → Held loads
      → Held (merge_known ol o loads)
  unfolding merge_known widen
  merge_known-Held ol none loads h known all = store-Held ol.execution_id ol loads h all
  merge_known-Held ol (some existing) loads h known all =
      store-Held ol.execution_id (widen ol existing) loads (known existing refl) all

  lookup-Held :
      (k : ℤ) (ol : OtherLoad) (loads : List (ℤ × OtherLoad))
      → Held loads
      → lookup eqb_ℤ k loads ≡ some ol
      → IsOther ol
  unfolding lookup
  lookup-Held k ol [] all e = absurd (nothing e)
    where
      nothing : none ≡ some ol → ⊥
      nothing h = cc
  lookup-Held k ol ((j, v) ∷ loads) (first, all) e =
      by_key (eqb_ℤ j k) e (lookup-Held k ol loads all)
    where
      by_key :
          (b : Bool)
          → (if b then some v else lookup eqb_ℤ k loads) ≡ some ol
          → (lookup eqb_ℤ k loads ≡ some ol → IsOther ol)
          → IsOther ol
      by_key true h rest = subst IsOther (same h) first
        where
          same : some v ≡ some ol → v ≡ ol
          same g = cc
      by_key false h rest = rest h

  merge-Held :
      (ol : OtherLoad) (loads : List (ℤ × OtherLoad))
      → IsOther ol
      → Held loads
      → Held (merge ol loads)
  unfolding merge
  merge-Held ol loads h all =
      merge_known-Held ol (lookup eqb_ℤ ol.execution_id loads) loads h
        (λ existing e. lookup-Held ol.execution_id existing loads all e) all

  -- Merging under a test that the execution is not designated.
  guarded-Held :
      (b : Bool) (ol : OtherLoad) (loads : List (ℤ × OtherLoad))
      → is_designated ol.execution_id services ≡ b
      → Held loads
      → Held (if b then loads else merge ol loads)
  guarded-Held true ol loads e all = all
  guarded-Held false ol loads e all = merge-Held ol loads e all

  merge_reservations-Held :
      (reservations : List Reservation) (loads : List (ℤ × OtherLoad))
      → Held loads
      → Held (merge_reservations services reservations loads)
  unfolding merge_reservations
  merge_reservations-Held [] loads all = all
  merge_reservations-Held (r ∷ reservations) loads all =
      let ol : OtherLoad = record {
        execution_id = r.execution_id;
        start = r.start;
        end = r.end;
        engine_count = r.engine_count;
      } in
      merge_reservations-Held reservations
        (if is_designated r.execution_id services then loads else merge ol loads)
        (guarded-Held (is_designated r.execution_id services) ol loads refl all)

  loads-Other : (loads : List (ℤ × OtherLoad)) → Held loads → All IsOther (map load_at loads)
  loads-Other [] all = tt
  loads-Other ((j, ol) ∷ loads) (first, all) = (first, loads-Other loads all)

module _ {E F : Type 0} (repo : Repository E F) (c : Campaign) where
  merge_launch-Held :
      (l : LaunchRecord) (end : Option Time) (loads : List (ℤ × OtherLoad))
      → Held c.services loads
      → Held c.services (merge_launch repo c l end loads)
  unfolding merge_launch
  merge_launch-Held l none loads all = all
  merge_launch-Held l (some end) loads all =
      tested (is_designated l.execution_id c.services) refl
        (of_tenant repo c.tenant_id (repo.get_execution l.execution_id))
    where
      tested :
          (b : Bool)
          → is_designated l.execution_id c.services ≡ b
          → (t : Bool)
          → Held c.services
              (if b then loads else if t then merge (load_of_launch l end) loads else loads)
      tested true e t = all
      tested false e true = merge-Held c.services (load_of_launch l end) loads e all
      tested false e false = all

  merge_launches-Held :
      (launches : List LaunchRecord) (loads : List (ℤ × OtherLoad))
      → Held c.services loads
      → Held c.services (merge_launches repo c launches loads)
  unfolding merge_launches
  merge_launches-Held [] loads all = all
  merge_launches-Held (l ∷ launches) loads all =
      merge_launches-Held launches (merge_launch repo c l l.end_time loads)
        (merge_launch-Held l l.end_time loads all)

  -- The other load of a campaign is of executions that it does not designate, in the order of their
  -- ids.
  pub other_load-Others :
      (loads : List OtherLoad)
      → other_load repo c ≡ ok loads
      → All (IsOther c.services) loads × IsSorted earlier_load loads
  unfolding other_load
  other_load-Others loads h =
      with_reservations (repo.reservations_in_window c.tenant_id "" c.window.start c.window.end) h
    where
      sorted_of : List Reservation → List LaunchRecord → List OtherLoad
      sorted_of reservations launches = sort_by earlier_load (
          map load_at
            (merge_launches repo c launches (merge_reservations c.services reservations [])))

      others :
          (rs : List Reservation) (ls : List LaunchRecord)
          → All (IsOther c.services) (sorted_of rs ls)
      others rs ls =
          All-sort_by (IsOther c.services) earlier_load
            (map load_at (merge_launches repo c ls (merge_reservations c.services rs [])))
            (loads-Other c.services (merge_launches repo c ls (merge_reservations c.services rs []))
              (merge_launches-Held ls (merge_reservations c.services rs [])
                (merge_reservations-Held c.services rs [] tt)))

      sorted :
          (rs : List Reservation) (ls : List LaunchRecord) → IsSorted earlier_load (sorted_of rs ls)
      sorted rs ls =
          sort_by-IsSorted earlier_load earlier_load_trans earlier_load_asym
            (map load_at (merge_launches repo c ls (merge_reservations c.services rs [])))

      with_launches :
          (rs : List Reservation) (res : Result E (List LaunchRecord))
          → and_then res (λ launches. ok (sorted_of rs launches)) ≡ ok loads
          → All (IsOther c.services) loads × IsSorted earlier_load loads
      with_launches rs (err e) g = absurd (failed_not_ok g)
      with_launches rs (ok ls) g =
          subst (λ x. All (IsOther c.services) x × IsSorted earlier_load x) (same_ok g)
            (others rs ls, sorted rs ls)

      with_reservations :
          (res : Result E (List Reservation))
          → and_then res (λ rs.
            and_then
              (repo.launch_history c.window.start c.window.end)
              (λ launches. ok (sorted_of rs launches)))
            ≡ ok loads
          → All (IsOther c.services) loads × IsSorted earlier_load loads
      with_reservations (err e) g = absurd (failed_not_ok g)
      with_reservations (ok rs) g =
          with_launches rs (repo.launch_history c.window.start c.window.end) g
