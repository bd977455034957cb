-- ===== src/Base/Dict.antt =====
-- Python's `dict` as an association list in insertion order: writing a key that is there keeps its
-- place, and a new key goes to the end.
use Prim.Native.Nat.{ℕ}
use mathlib.Core.Path.{◌≡◌, refl}
use mathlib.Core.Logic.{◌↔◌}
use mathlib.Core.Bool.{Bool, true, false, ◌&&◌}
use mathlib.Core.Option.{Option, none, some}
use mathlib.Core.List.{List, [], ◌∷◌, map}
use native.Mathlib.Omega.{arith}
use tinydb.Base.Tests.{◌==◌ as nat_eq, if◌then◌else◌}

-- Keys that can be compared.
pub record Eq {ℓ} (A : Type ℓ) : Type ℓ where
  pub beq : A → A → Bool
  pub beq_iff : (a b : A) → (beq a b ≡ true) ↔ (a ≡ b)

pub nat_eq_iff : (a b : ℕ) → (nat_eq a b ≡ true) ↔ (a ≡ b)
nat_eq_iff a b = ground arith

instance abbrev pub eq_nat : Eq ℕ
eq_nat = record { beq = nat_eq; beq_iff = nat_eq_iff }

pub pair_eq_iff : (a b : ℕ × ℕ) → ((nat_eq a.0 b.0 && nat_eq a.1 b.1) ≡ true) ↔ (a ≡ b)
pair_eq_iff a b = ground arith

instance abbrev pub eq_pair : Eq (ℕ × ℕ)
eq_pair = record { beq = λ a b. nat_eq a.0 b.0 && nat_eq a.1 b.1; beq_iff = pair_eq_iff }

abbrev pub Dict {ℓ} : Type ℓ → Type ℓ → Type ℓ
Dict K V = List (K × V)

abbrev pub keys {ℓ} : {K V : Type ℓ} → Dict K V → List K
keys = map (λ e. e.0)

module _ {ℓ} {K V : Type ℓ} ⦃e : Eq K⦄ where
  -- `d.get(k)`
  unfoldable pub lookup : K → Dict K V → Option V
  lookup k [] = none
  lookup k ((j, v) ∷ d) = if e.beq j k then some v else lookup k d

  -- `k in d`
  unfoldable pub contains : K → Dict K V → Bool
  unfolding lookup
  contains k d = elim (lookup k d) [ none ↦ false | some _ ↦ true ]

  -- `d[k] = v`
  unfoldable pub insert : K → V → Dict K V → Dict K V
  insert k v [] = (k, v) ∷ []
  insert k v ((j, w) ∷ d) = if e.beq j k then (j, v) ∷ d else (j, w) ∷ insert k v d

  -- `d.pop(k, None)`
  unfoldable pub pop : K → Dict K V → Dict K V
  pop k [] = []
  pop k ((j, w) ∷ d) = let rest = pop k d in if e.beq j k then rest else (j, w) ∷ rest

  -- `d.setdefault(k, v)`
  unfoldable pub setdefault : K → V → Dict K V → Dict K V
  unfolding contains insert
  setdefault k v d = if contains k d then d else insert k v d

  pub lookup-insert :
      (k j : K) (v : V) (d : Dict K V)
      → lookup j (insert k v d) ≡ (if e.beq k j then some v else lookup j d)
  unfolding lookup insert
  lookup-insert k j v [] = refl
  lookup-insert k j v ((i, w) ∷ d) =
      ground (arith, e.beq_iff k j, e.beq_iff i k, e.beq_iff i j, lookup-insert k j v d)

  pub lookup-pop :
      (k j : K) (d : Dict K V) → lookup j (pop k d) ≡ (if e.beq k j then none else lookup j d)
  unfolding lookup pop
  lookup-pop k j [] = ground arith
  lookup-pop k j ((i, w) ∷ d) =
      ground (arith, e.beq_iff k j, e.beq_iff i k, e.beq_iff i j, lookup-pop k j d)

  pub lookup-setdefault :
      (k j : K) (v : V) (d : Dict K V)
      → lookup j (setdefault k v d)
        ≡ (if contains k d then lookup j d else if e.beq k j then some v else lookup j d)
  unfolding setdefault
  lookup-setdefault k j v d = ground (arith, lookup-insert k j v d)
