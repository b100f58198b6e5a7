-- ===== src/Lifecycle/Deploy/Plateaus.antt =====
-- What the pods of a staircase carry.
use honryu.Base.{zero, suc, ℕ, ◌+◌, ◌≡◌, ◌⊎◌, List, some, get_elem?}
use honryu.Base.Ints.{ℤ, pos, ◌≤ℤ◌, ◌<ℤ◌, pos_part}
use honryu.LoadMode.Staircase.{StaircaseStep}
use honryu.LoadProfile.{Entry}
use honryu.Shard.{Shard, split}
use honryu.Lifecycle.Deploy.{at_least_one}

abbrev pub sum_to : (ℕ → ℤ) → ℕ → ℕ
sum_to f zero = 0
sum_to f (suc n) = sum_to f n + pos_part (f n)

-- The pods carry a total between them, or where there are fewer than one for each pod, one each.
abbrev pub Carries : ℤ → ℕ → (ℕ → ℤ) → Type 0
Carries total pods f =
    ((pos pods ≤ℤ total) × (pos (sum_to f pods) ≡ total))
    ⊎ ((total <ℤ pos pods) × ((i : ℕ) → f i ≡ pos 1))

share : ℤ → ℕ → ℕ → ℤ
share total pods i = at_least_one (split total pods i)

-- A pod sends users at a rate of at least one, with no ramp-up of its own.
abbrev pub HasFloor : Entry → Type 0
HasFloor t = (pos 1 ≤ℤ t.concurrency) × (pos 1 ≤ℤ t.throughput) × (t.rampup ≡ pos 0)

-- The pods' runs of the plateau at k.
abbrev pub IsPlateau : (ℕ → List Entry) → ℕ → ℕ → StaircaseStep → Type 0
IsPlateau runs pods k st =
    (t : ℕ → Entry) × ((i : ℕ) → (get_elem? (runs i) k ≡ some (t i)) × HasFloor (t i))
    × Carries st.concurrency pods (λ i. (t i).concurrency)
    × Carries st.throughput pods (λ i. (t i).throughput)
