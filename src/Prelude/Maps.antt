-- ===== src/Prelude/Maps.antt =====
-- `BTreeMap` and `BTreeSet`: association lists in the order of their keys.
use Prim.Native.Nat.{ℕ}
use mathlib.Core.Path.{◌≡◌, refl, ap}
use mathlib.Core.Logic.{inl, inr}
use mathlib.Core.Bool.{Bool, true}
use mathlib.Core.Option.{Option, none, some}
use mathlib.Core.List.{List, [], ◌∷◌}
use native.Mathlib.Omega.{arith}
use minip2p.Prelude.Tests.{ltb, ◌==◌, if◌then◌else◌, Bool-cases}
use minip2p.Prelude.Lists.{All, length}
use Prim.Native.Nat.{◌≤◌, suc}

-- `Eq` and `Ord` of a key.
pub record Order (K : Type 0) : Type 0 where
  pub same : K → K → Bool
  pub before : K → K → Bool
  pub same_refl : (k : K) → same k k ≡ true
  pub same→eq : (a b : K) → same a b ≡ true → a ≡ b

pub ==_refl : (k : ℕ) → (k == k) ≡ true
==_refl k = ground arith

pub ==→eq : (a b : ℕ) → (a == b) ≡ true → a ≡ b
==→eq a b h = ground arith

instance abbrev pub nat_order : Order ℕ
nat_order = record { same = ◌==◌; before = ltb; same_refl = ==_refl; same→eq = ==→eq }

abbrev pub Map : Type 0 → Type 0 → Type 0
Map K V = List (K × V)

module _ {K V : Type 0} ⦃o : Order K⦄ where
  unfoldable pub get : Map K V → K → Option V
  get [] k = none
  get ((k', v) ∷ m) k = if o.same k k' then some v else get m k

  unfoldable pub insert : Map K V → K → V → Map K V
  insert [] k v = (k, v) ∷ []
  insert ((k', v') ∷ m) k v =
      let later = insert m k v in
      if o.same k k'
      then (k, v) ∷ m
      else if o.before k k'
      then (k, v) ∷ (k', v') ∷ m
      else (k', v') ∷ later

  unfoldable pub remove : Map K V → K → Map K V
  remove [] k = []
  remove ((k', v) ∷ m) k = let later = remove m k in if o.same k k' then later else (k', v) ∷ later

  pub get-insert : (m : Map K V) (k : K) (v : V) → get (insert m k v) k ≡ some v
  unfolding get insert
  get-insert [] k v = rw (o.same_refl k) refl
  get-insert ((k', v') ∷ m) k v = elim (Bool-cases (o.same k k')) [
    | inl s ↦ rw (s, o.same_refl k) refl
    | inr s ↦ elim (Bool-cases (o.before k k')) [
      | inl b ↦ rw (s, b, o.same_refl k) refl
      | inr b ↦ rw (s, b, s) (get-insert m k v)
    ]
  ]

  pub get-remove : (m : Map K V) (k : K) → get (remove m k) k ≡ none
  unfolding get remove
  get-remove [] k = refl
  get-remove ((k', v) ∷ m) k = elim (Bool-cases (o.same k k')) [
    | inl s ↦ rw s (get-remove m k)
    | inr s ↦ rw (s, s) (get-remove m k)
  ]

  pub insert-insert : (m : Map K V) (k : K) (v w : V) → insert (insert m k v) k w ≡ insert m k w
  unfolding insert
  insert-insert [] k v w = rw (o.same_refl k) refl
  insert-insert ((k', v') ∷ m) k v w = elim (Bool-cases (o.same k k')) [
    | inl s ↦ rw (s, o.same_refl k) refl
    | inr s ↦ elim (Bool-cases (o.before k k')) [
      | inl b ↦ rw (s, b, o.same_refl k) refl
      | inr b ↦ rw (s, b, s, b) (ap (◌∷◌ (k', v')) (insert-insert m k v w))
    ]
  ]

  pub remove-insert : (m : Map K V) (k : K) (v : V) → remove (insert m k v) k ≡ remove m k
  unfolding insert remove
  remove-insert [] k v = rw (o.same_refl k) refl
  remove-insert ((k', v') ∷ m) k v = elim (Bool-cases (o.same k k')) [
    | inl s ↦ rw (s, o.same_refl k) refl
    | inr s ↦ elim (Bool-cases (o.before k k')) [
      | inl b ↦ rw (s, b, o.same_refl k, s) refl
      | inr b ↦ rw (s, b, s) (ap (◌∷◌ (k', v')) (remove-insert m k v))
    ]
  ]

  pub All-insert :
      (P : K × V → Type 0) (m : Map K V) (k : K) (v : V) → All P m → P (k, v) → All P (insert m k v)
  unfolding insert
  All-insert P [] k v h p = (p, tt)
  All-insert P ((k', v') ∷ m) k v h p = elim (Bool-cases (o.same k k')) [
    | inl s ↦ rw s (p, h.1)
    | inr s ↦ elim (Bool-cases (o.before k k')) [
      | inl b ↦ rw (s, b) (p, (h.0, h.1))
      | inr b ↦ rw (s, b) (h.0, All-insert P m k v h.1 p)
    ]
  ]

  pub All-remove : (P : K × V → Type 0) (m : Map K V) (k : K) → All P m → All P (remove m k)
  unfolding remove
  All-remove P [] k h = tt
  All-remove P ((k', v) ∷ m) k h = elim (Bool-cases (o.same k k')) [
    | inl s ↦ rw s (All-remove P m k h.1)
    | inr s ↦ rw s (h.0, All-remove P m k h.1)
  ]

  -- What is looked up was there, under a key that is the same.
  pub All-get :
      (P : V → Type 0) (m : Map K V) (k : K) (v : V)
      → All (λ (e : K × V). P (e.1)) m
      → get m k ≡ some v
      → P v
  unfolding get
  All-get P [] k v h e = cc
  All-get P ((k', v') ∷ m) k v h e = elim (Bool-cases (o.same k k')) [
    | inl s ↦ let same : v' ≡ v = cc (rw s at e) in rw same at (h.0)
    | inr s ↦ All-get P m k v h.1 (rw s at e)
  ]

  pub length-insert : (m : Map K V) (k : K) (v : V) → length (insert m k v) ≤ suc (length m)
  unfolding insert
  length-insert [] k v = omega arith
  length-insert ((k', v') ∷ m) k v = ground (arith, length-insert m k v)

  pub length-remove : (m : Map K V) (k : K) → length (remove m k) ≤ length m
  unfolding remove
  length-remove [] k = omega arith
  length-remove ((k', v') ∷ m) k = ground (arith, length-remove m k)
