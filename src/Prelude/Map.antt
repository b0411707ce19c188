-- ===== src/Prelude/Map.antt =====
-- `std::map<std::uint64_t, V>`: its entries in the order of the keys. `std::unordered_set` as a list.
use Prim.Native.Nat.{ℕ, suc, ◌≤◌}
use mathlib.Core.Path.{◌≡◌, refl, subst₂}
use mathlib.Core.Bool.{Bool, false, ◌||◌}
use mathlib.Core.Option.{Option, none, some}
use mathlib.Core.List.{List, [], ◌∷◌}
use native.Mathlib.Omega.{arith}
use native.Mathlib.Decide.{ℕ_discrete}
use noleax.Prelude.Tests.{ltb, ◌==◌, if◌then◌else◌}
use noleax.Prelude.Lists.{length}

abbrev pub contains : List ℕ → ℕ → Bool
contains [] k = false
contains (j ∷ js) k = j == k || contains js k

module _ {ℓ} {V : Type ℓ} where
  unfoldable pub find : ℕ → List (ℕ × V) → Option V
  find k [] = none
  find k ((j, v) ∷ m) = if j == k then some v else find k m

  -- Nothing is changed where the key is present.
  unfoldable pub emplace : ℕ → V → List (ℕ × V) → List (ℕ × V)
  emplace k v [] = (k, v) ∷ []
  emplace k v ((j, w) ∷ m) =
      if ltb k j then (k, v) ∷ (j, w) ∷ m else if k == j then (j, w) ∷ m else (j, w) ∷ emplace k v m

  unfoldable pub erase : ℕ → List (ℕ × V) → List (ℕ × V)
  erase k [] = []
  erase k ((j, v) ∷ m) = if j == k then m else (j, v) ∷ erase k m

  -- An assignment to the value at a key.
  unfoldable pub assign : ℕ → V → List (ℕ × V) → List (ℕ × V)
  assign k v [] = []
  assign k v ((j, w) ∷ m) = if j == k then (k, v) ∷ m else (j, w) ∷ assign k v m

  -- The keys rise strictly, from `low` on.
  abbrev pub IsSorted : ℕ → List (ℕ × V) → Type 0
  IsSorted low [] = Unit {0}
  IsSorted low ((k, v) ∷ m) = (low ≤ k) × IsSorted (suc k) m

abbrev pub map_values {ℓ κ} : {V : Type ℓ} {W : Type κ} → (V → W) → List (ℕ × V) → List (ℕ × W)
map_values f [] = []
map_values f ((k, v) ∷ m) = (k, f v) ∷ map_values f m

module _ {V : Type 0} where
  pub IsSorted-weaken :
      (low low' : ℕ) (m : List (ℕ × V)) → low' ≤ low → IsSorted low m → IsSorted low' m
  IsSorted-weaken low low' [] h s = tt
  IsSorted-weaken low low' ((k, v) ∷ m) h s = (omega arith, s.1)

  pub find-below : (j low : ℕ) (m : List (ℕ × V)) → IsSorted low m → suc j ≤ low → find j m ≡ none
  unfolding find
  find-below j low [] s h = refl
  find-below j low ((k, v) ∷ m) s h = ground (arith, find-below j (suc k) m s.1)

  pub find-emplace :
      (k j : ℕ) (v : V) (m : List (ℕ × V))
      → find k m ≡ none
      → find j (emplace k v m) ≡ (if k == j then some v else find j m)
  unfolding find emplace
  find-emplace k j v [] h = refl
  find-emplace k j v ((i, w) ∷ m) h = ground (arith, find-emplace k j v m)

  pub find-erase :
      (k j low : ℕ) (m : List (ℕ × V))
      → IsSorted low m
      → find j (erase k m) ≡ (if k == j then none else find j m)
  unfolding find erase
  find-erase k j low [] s = ground arith
  find-erase k j low ((i, w) ∷ m) s =
      ground (arith, find-erase k j (suc i) m s.1, find-below j (suc i) m s.1)

  pub find-assign :
      (k j : ℕ) (v w : V) (m : List (ℕ × V))
      → find k m ≡ some w
      → find j (assign k v m) ≡ (if k == j then some v else find j m)
  unfolding find assign
  find-assign k j v w [] h = cc
  find-assign k j v w ((i, u) ∷ m) h = ground (arith, find-assign k j v w m)

  pub assign_same : (k : ℕ) (v : V) (m : List (ℕ × V)) → find k m ≡ some v → assign k v m ≡ m
  unfolding find assign
  assign_same k v [] h = refl
  assign_same k v ((i, w) ∷ m) h = ground (arith, assign_same k v m)

  pub length-emplace :
      (k : ℕ) (v : V) (m : List (ℕ × V)) → find k m ≡ none → length (emplace k v m) ≡ suc (length m)
  unfolding find emplace
  length-emplace k v [] h = refl
  length-emplace k v ((i, w) ∷ m) h = ground (arith, length-emplace k v m)

  pub length-erase :
      (k : ℕ) (v : V) (m : List (ℕ × V)) → find k m ≡ some v → suc (length (erase k m)) ≡ length m
  unfolding find erase
  length-erase k v [] h = cc
  length-erase k v ((i, w) ∷ m) h = ground (arith, length-erase k v m)

  pub length-assign : (k : ℕ) (v : V) (m : List (ℕ × V)) → length (assign k v m) ≡ length m
  unfolding assign
  length-assign k v [] = refl
  length-assign k v ((i, w) ∷ m) = ground (arith, length-assign k v m)

  pub IsSorted-emplace :
      (k low : ℕ) (v : V) (m : List (ℕ × V))
      → low ≤ k
      → IsSorted low m
      → IsSorted low (emplace k v m)
  unfolding emplace
  IsSorted-emplace k low v [] h s = (h, tt)
  IsSorted-emplace k low v ((i, w) ∷ m) h s =
      ground (arith, λ (lt : suc i ≤ k). IsSorted-emplace k (suc i) v m lt s.1)

  pub IsSorted-erase : (k low : ℕ) (m : List (ℕ × V)) → IsSorted low m → IsSorted low (erase k m)
  unfolding erase
  IsSorted-erase k low [] s = tt
  IsSorted-erase k low ((i, w) ∷ m) s =
      ground (arith, IsSorted-erase k (suc i) m s.1, IsSorted-weaken (suc i) low m)

  pub IsSorted-assign :
      (k low : ℕ) (v : V) (m : List (ℕ × V)) → IsSorted low m → IsSorted low (assign k v m)
  unfolding assign
  IsSorted-assign k low v [] s = tt
  IsSorted-assign k low v ((i, w) ∷ m) s = ground (arith, IsSorted-assign k (suc i) v m s.1)

  module _ (P : ℕ → V → Type 0) where
    -- Every entry satisfies `P`.
    abbrev pub Entries : List (ℕ × V) → Type 0
    Entries [] = Unit {0}
    Entries ((k, v) ∷ m) = P k v × Entries m

    pub Entries-find : (k : ℕ) (v : V) (m : List (ℕ × V)) → Entries m → find k m ≡ some v → P k v
    unfolding find
    Entries-find k v [] h e = cc
    Entries-find k v ((i, w) ∷ m) h e = elim (ℕ_discrete i k) [
      | yes p ↦ subst₂ P p (ground arith) h.0
      | no p ↦ Entries-find k v m h.1 (ground arith)
    ]

    pub Entries-emplace :
        (k : ℕ) (v : V) (m : List (ℕ × V)) → P k v → Entries m → Entries (emplace k v m)
    unfolding emplace
    Entries-emplace k v [] p h = (p, tt)
    Entries-emplace k v ((i, w) ∷ m) p h = ground (arith, Entries-emplace k v m p h.1)

    pub Entries-erase : (k : ℕ) (m : List (ℕ × V)) → Entries m → Entries (erase k m)
    unfolding erase
    Entries-erase k [] h = tt
    Entries-erase k ((i, w) ∷ m) h = ground (arith, Entries-erase k m h.1)

    pub Entries-assign :
        (k : ℕ) (v : V) (m : List (ℕ × V)) → P k v → Entries m → Entries (assign k v m)
    unfolding assign
    Entries-assign k v [] p h = tt
    Entries-assign k v ((i, w) ∷ m) p h = ground (arith, Entries-assign k v m p h.1)

module _ {V W : Type 0} (f : V → W) where
  pub map_values-find :
      (k : ℕ) (v : V) (m : List (ℕ × V)) → find k m ≡ some v → find k (map_values f m) ≡ some (f v)
  unfolding find
  map_values-find k v [] h = cc
  map_values-find k v ((i, w) ∷ m) h = ground (arith, map_values-find k v m)

  pub map_values-emplace :
      (k : ℕ) (v : V) (m : List (ℕ × V))
      → map_values f (emplace k v m) ≡ emplace k (f v) (map_values f m)
  unfolding emplace
  map_values-emplace k v [] = refl
  map_values-emplace k v ((i, w) ∷ m) = ground (arith, map_values-emplace k v m)

  pub map_values-erase :
      (k : ℕ) (m : List (ℕ × V)) → map_values f (erase k m) ≡ erase k (map_values f m)
  unfolding erase
  map_values-erase k [] = refl
  map_values-erase k ((i, w) ∷ m) = ground (arith, map_values-erase k m)

  pub map_values-assign :
      (k : ℕ) (v : V) (m : List (ℕ × V))
      → map_values f (assign k v m) ≡ assign k (f v) (map_values f m)
  unfolding assign
  map_values-assign k v [] = refl
  map_values-assign k v ((i, w) ∷ m) = ground (arith, map_values-assign k v m)

pub Entries-mono :
    {V : Type 0} (P Q : ℕ → V → Type 0) (m : List (ℕ × V))
    → ((k : ℕ) (v : V) → P k v → Q k v)
    → Entries P m
    → Entries Q m
Entries-mono P Q [] f h = tt
Entries-mono P Q ((k, v) ∷ m) f h = (f k v h.0, Entries-mono P Q m f h.1)
