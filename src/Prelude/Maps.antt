-- ===== src/Prelude/Maps.antt =====
-- `std::map<int, V>` as an association list kept in the order of the keys.
use Prim.Native.Nat.{ℕ}
use mathlib.Core.Path.{◌≡◌, refl}
use mathlib.Core.Bool.{Bool, true, false}
use mathlib.Core.List.{List, [], ◌∷◌}
use mathlib.Core.Option.{Option, none, some}
use native.Mathlib.Omega.{arith}
use native.Mathlib.Decide.{ℕ_discrete}
use edgevision_rv1126b.Prelude.Tests.{ltb, ◌==◌, if◌then◌else◌, if-intro}
use edgevision_rv1126b.Prelude.Lists.{All}

abbrev pub Map {ℓ} : Type ℓ → Type ℓ
Map V = List (ℕ × V)

module _ {ℓ} {V : Type ℓ} where
  unfoldable pub lookup : ℕ → Map V → Option V
  lookup k [] = none
  lookup k ((n, x) ∷ es) = if n == k then some x else lookup k es

  -- `es[k] = x`.
  unfoldable pub insert : ℕ → V → Map V → Map V
  insert k x [] = (k, x) ∷ []
  insert k x ((n, y) ∷ es) =
      if k == n
      then (k, x) ∷ es
      else if ltb k n
      then (k, x) ∷ (n, y) ∷ es
      else (n, y) ∷ insert k x es

  -- `es.erase(k)`: a key stands in a map once at most, so the scan goes on after a hit.
  unfoldable pub erase : ℕ → Map V → Map V
  erase k [] = []
  erase k ((n, y) ∷ es) = let rest = erase k es in if n == k then rest else (n, y) ∷ rest

  -- `es.find(k) != es.end()`.
  unfoldable pub contains : ℕ → Map V → Bool
  contains k [] = false
  contains k ((n, y) ∷ es) = if n == k then true else contains k es

  pub lookup-insert :
      (k n : ℕ) (x : V) (es : Map V)
      → lookup n (insert k x es) ≡ (if k == n then some x else lookup n es)
  unfolding lookup insert
  lookup-insert k n x [] = refl
  lookup-insert k n x ((i, y) ∷ es) = ground (arith, lookup-insert k n x es)

  pub lookup-erase :
      (k n : ℕ) (es : Map V) → lookup n (erase k es) ≡ (if k == n then none else lookup n es)
  unfolding lookup erase
  lookup-erase k n [] = ground arith
  lookup-erase k n ((i, y) ∷ es) = ground (arith, lookup-erase k n es)

  pub contains-lookup :
      (k : ℕ) (es : Map V) → contains k es ≡ elim (lookup k es) [ none ↦ false | some _ ↦ true ]
  unfolding lookup contains
  contains-lookup k [] = refl
  contains-lookup k ((i, y) ∷ es) = ground (arith, contains-lookup k es)

  pub contains-insert :
      (k n : ℕ) (x : V) (es : Map V)
      → contains n (insert k x es) ≡ (if k == n then true else contains n es)
  unfolding contains insert
  contains-insert k n x [] = refl
  contains-insert k n x ((i, y) ∷ es) = ground (arith, contains-insert k n x es)

  pub contains-erase :
      (k n : ℕ) (es : Map V) → contains n (erase k es) ≡ (if k == n then false else contains n es)
  unfolding contains erase
  contains-erase k n [] = ground arith
  contains-erase k n ((i, y) ∷ es) = ground (arith, contains-erase k n es)

  -- A second write to a key replaces the first.
  pub insert-insert : (k : ℕ) (x y : V) (es : Map V) → insert k x (insert k y es) ≡ insert k x es
  unfolding insert
  insert-insert k x y [] = ground arith
  insert-insert k x y ((i, u) ∷ es) = ground (arith, insert-insert k x y es)

  pub erase-insert : (k : ℕ) (x : V) (es : Map V) → erase k (insert k x es) ≡ erase k es
  unfolding insert erase
  erase-insert k x [] = ground arith
  erase-insert k x ((i, u) ∷ es) = ground (arith, erase-insert k x es)

  pub erase_absent : (k : ℕ) (es : Map V) → contains k es ≡ false → erase k es ≡ es
  unfolding contains erase
  erase_absent k [] h = refl
  erase_absent k ((i, u) ∷ es) h = ground (arith, erase_absent k es)

  -- A predicate on every entry.
  pub All-insert {κ} :
      (P : ℕ × V → Type κ) (k : ℕ) (x : V) (es : Map V)
      → All P es
      → P (k, x)
      → All P (insert k x es)
  unfolding insert
  All-insert P k x [] h p = (p, tt)
  All-insert P k x ((i, u) ∷ es) (q, h) p =
      let rest = All-insert P k x es h p in
      if-intro (All P) (k == i) (λ e. (p, h))
        (λ ne. if-intro (All P) (ltb k i) (λ lt. (p, (q, h))) (λ ge. (q, rest)))

  pub All-erase {κ} : (P : ℕ × V → Type κ) (k : ℕ) (es : Map V) → All P es → All P (erase k es)
  unfolding erase
  All-erase P k [] h = h
  All-erase P k ((i, u) ∷ es) (q, h) =
      let rest = All-erase P k es h in if-intro (All P) (i == k) (λ e. rest) (λ ne. (q, rest))

  pub All-lookup {κ} :
      (P : ℕ × V → Type κ) (k : ℕ) (x : V) (es : Map V) → All P es → lookup k es ≡ some x → P (k, x)
  unfolding lookup
  All-lookup P k x [] h e = cc
  All-lookup P k x ((i, u) ∷ es) (q, h) e = elim (ℕ_discrete i k) [
    | yes same ↦ rw (← same, ← got same) q
    | no ne ↦ All-lookup P k x es h (ground arith)
  ]
    where
      got : i ≡ k → u ≡ x
      got same = ground arith

pub ruleset map_laws = (lookup-insert, lookup-erase, contains-insert, contains-erase)
