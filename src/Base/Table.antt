-- ===== src/Base/Table.antt =====
-- A Go map keyed by texts, as an association list in insertion order. A write of a key that is
-- there replaces its value, as `m[k] = v` does.
use Prim.Native.Nat.{ℕ, ◌+◌}
use Prim.Native.String.{String}
use mathlib.Core.Path.{◌≡◌}
use mathlib.Core.Logic.{◌≢◌, inl, inr}
use mathlib.Core.Option.{Option, none, some}
use mathlib.Core.List.{List, [], ◌∷◌}
use native.Mathlib.Omega.{arith}
use text.Mathlib.Text.{◌==◌ as str_eq}
use text.Mathlib.TextEquality.{eq_iff}
use gopherharness.Base.Tests.{if◌then◌else◌, Bool-cases}
use gopherharness.Base.Lists.{All}

abbrev pub Table {ℓ} : Type ℓ → Type ℓ
Table V = List (String × V)

module _ {ℓ} {V : Type ℓ} where
  unfoldable pub lookup : String → Table V → Option V
  lookup k [] = none
  lookup k ((j, v) ∷ m) = if str_eq j k then some v else lookup k m

  unfoldable pub insert : String → V → Table V → Table V
  insert k v [] = (k, v) ∷ []
  insert k v ((j, w) ∷ m) = if str_eq j k then (k, v) ∷ m else (j, w) ∷ insert k v m

  pub lookup-insert_self : (k : String) (v : V) (m : Table V) → lookup k (insert k v m) ≡ some v
  unfolding lookup insert
  lookup-insert_self k v [] = ground (arith, eq_iff k k)
  lookup-insert_self k v ((j, w) ∷ m) =
      ground (arith, eq_iff k k, eq_iff j k, lookup-insert_self k v m)

  pub lookup-insert_ne :
      (k j : String) (v : V) (m : Table V) → k ≢ j → lookup j (insert k v m) ≡ lookup j m
  unfolding lookup insert
  lookup-insert_ne k j v [] h = ground (arith, eq_iff k j)
  lookup-insert_ne k j v ((i, w) ∷ m) h =
      ground (arith, eq_iff k j, eq_iff i k, eq_iff i j, lookup-insert_ne k j v m h)

  -- A property of every entry.
  abbrev pub Entries {κ} : (String → V → Type κ) → Table V → Type κ
  Entries P m = All (λ e. P e.0 e.1) m

  pub Entries-insert {κ} :
      (P : String → V → Type κ) (k : String) (v : V) (m : Table V)
      → P k v
      → Entries P m
      → Entries P (insert k v m)
  unfolding insert
  Entries-insert P k v [] p h = (p, tt)
  Entries-insert P k v ((j, w) ∷ m) p h = elim (Bool-cases (str_eq j k)) [
    | inl e ↦ rw e (p, h.1)
    | inr e ↦ rw e (h.0, Entries-insert P k v m p h.1)
  ]

  pub Entries-lookup {κ} :
      (P : String → V → Type κ) (k : String) {v : V} (m : Table V)
      → Entries P m
      → lookup k m ≡ some v
      → P k v
  unfolding lookup
  Entries-lookup P k [] h e = cc
  Entries-lookup P k ((j, w) ∷ m) h e = elim (Bool-cases (str_eq j k)) [
    | inl q ↦ ground (arith, eq_iff j k)
    | inr q ↦ Entries-lookup P k m h.1 (rw q at e)
  ]

  -- The sum of a weight over the entries, and how a write moves it.
  unfoldable pub sum_by : (V → ℕ) → Table V → ℕ
  sum_by w [] = 0
  sum_by w ((k, v) ∷ m) = w v + sum_by w m

  abbrev pub weight_at : (V → ℕ) → Option V → ℕ
  weight_at w none = 0
  weight_at w (some v) = w v

  pub sum_by-insert :
      (w : V → ℕ) (k : String) (v : V) (m : Table V)
      → sum_by w (insert k v m) + weight_at w (lookup k m) ≡ sum_by w m + w v
  unfolding sum_by insert lookup
  sum_by-insert w k v [] = omega arith
  sum_by-insert w k v ((j, u) ∷ m) = ground (arith, sum_by-insert w k v m)

  -- `delete(m, k)`
  unfoldable pub erase : String → Table V → Table V
  erase k [] = []
  erase k ((j, v) ∷ m) = if str_eq j k then m else (j, v) ∷ erase k m

  pub sum_by-erase :
      (w : V → ℕ) (k : String) (m : Table V)
      → sum_by w (erase k m) + weight_at w (lookup k m) ≡ sum_by w m
  unfolding sum_by erase lookup
  sum_by-erase w k [] = omega arith
  sum_by-erase w k ((j, u) ∷ m) = ground (arith, sum_by-erase w k m)

  pub Entries-erase {κ} :
      (P : String → V → Type κ) (k : String) (m : Table V) → Entries P m → Entries P (erase k m)
  unfolding erase
  Entries-erase P k [] h = tt
  Entries-erase P k ((j, w) ∷ m) h = elim (Bool-cases (str_eq j k)) [
    | inl e ↦ rw e h.1
    | inr e ↦ rw e (h.0, Entries-erase P k m h.1)
  ]
