-- ===== src/Prelude/Dict.antt =====
-- A Go map with string keys, as an association list in which each key stands once. An entry that
-- is written anew keeps its place, a new key goes to the end. Go leaves the order of an iteration
-- open; the models that iterate take the order of the list.
use Prim.Native.Nat.{ℕ, ◌+◌, ◌≤◌}
use Prim.Native.String.{String}
use mathlib.Core.Path.{◌≡◌, refl}
use mathlib.Core.Logic.{◌⊎◌}
use mathlib.Core.Bool.{Bool, true, false, ◌||◌}
use mathlib.Core.Option.{Option, none, some}
use mathlib.Core.List.{List, [], ◌∷◌}
use native.Mathlib.Omega.{arith}
use text.Mathlib.Text.{◌==◌}
use text.Mathlib.TextEquality.{eq_iff}
use text.Mathlib.TextPositions.{eq_refl}
use combox_backend.Prelude.Tests.{if◌then◌else◌, bit}
use combox_backend.Prelude.Lists.{length}

abbrev pub Dict {ℓ} : Type ℓ → Type ℓ
Dict V = List (String × V)

module _ {ℓ} {V : Type ℓ} where
  unfoldable pub insert : String → V → Dict V → Dict V
  insert key new [] = (key, new) ∷ []
  insert key new ((held, old) ∷ rest) =
      if held == key then (held, new) ∷ rest else (held, old) ∷ insert key new rest

  unfoldable pub has : String → Dict V → Bool
  has k [] = false
  has k ((j, v) ∷ m) = (j == k) || has k m

  unfoldable pub lookup : String → Dict V → Option V
  lookup key [] = none
  lookup key ((held, value) ∷ rest) =
      let found = some value in if held == key then found else lookup key rest

  unfoldable pub erase : String → Dict V → Dict V
  erase k [] = []
  erase k ((j, v) ∷ m) = let rest = erase k m in if j == k then rest else (j, v) ∷ rest

  unfoldable pub values : Dict V → List V
  values [] = []
  values ((j, v) ∷ m) = v ∷ values m

  -- No key stands twice.
  abbrev pub Distinct : Dict V → Type 0
  Distinct [] = Unit
  Distinct ((j, v) ∷ m) = (has j m ≡ false) × Distinct m

  -- How many values pass a test.
  unfoldable pub count : (V → Bool) → Dict V → ℕ
  count p [] = 0
  count p ((j, v) ∷ m) = bit (p v) + count p m

  pub lookup-erase :
      (k j : String) (m : Dict V) → lookup j (erase k m) ≡ (if k == j then none else lookup j m)
  unfolding lookup erase
  lookup-erase k j [] = ground arith
  lookup-erase k j ((i, w) ∷ m) =
      ground (arith, eq_iff k j, eq_iff i k, eq_iff i j, lookup-erase k j m)

  pub has-insert :
      (k j : String) (v : V) (m : Dict V) → has j (insert k v m) ≡ ((k == j) || has j m)
  unfolding has insert
  has-insert k j v [] = refl
  has-insert k j v ((i, w) ∷ m) =
      ground (arith, eq_iff k j, eq_iff i k, eq_iff i j, has-insert k j v m)

  -- Reading a key after a write to a key.
  pub lookup-insert :
      (written read : String) (value : V) (m : Dict V)
      → lookup read (insert written value m)
        ≡ (if written == read then some value else lookup read m)
  unfolding insert lookup
  lookup-insert written read value [] = refl
  lookup-insert written read value ((held, old) ∷ rest) = ground (
    arith,
    lookup-insert written read value rest,
    eq_iff held written,
    eq_iff held read,
    eq_iff written read,
  )

  pub lookup-insert_same :
      (key : String) (value : V) (m : Dict V) → lookup key (insert key value m) ≡ some value
  lookup-insert_same key value m = ground (arith, lookup-insert key key value m, eq_refl key)

  pub lookup-insert_other :
      (written read : String) (value : V) (m : Dict V)
      → (written == read) ≡ false
      → lookup read (insert written value m) ≡ lookup read m
  lookup-insert_other written read value m h = ground (arith, lookup-insert written read value m)

  pub lookup-erase_same : (k : String) (m : Dict V) → lookup k (erase k m) ≡ none
  lookup-erase_same k m = ground (arith, lookup-erase k k m, eq_refl k)

  pub lookup-erase_other :
      (k j : String) (m : Dict V) → (k == j) ≡ false → lookup j (erase k m) ≡ lookup j m
  lookup-erase_other k j m h = ground (arith, lookup-erase k j m)

  -- A value that is found after a write is the written one, at its key, or was there before.
  pub lookup-insert-cases :
      (written read : String) (new old : V) (m : Dict V)
      → lookup read (insert written new m) ≡ some old
      → ((written ≡ read) × (new ≡ old)) ⊎ (lookup read m ≡ some old)
  lookup-insert-cases written read new old m found =
      ground (arith, lookup-insert written read new m, eq_iff written read)

  pub has-erase : (k j : String) (m : Dict V) → has j m ≡ false → has j (erase k m) ≡ false
  unfolding has erase
  has-erase k j [] h = refl
  has-erase k j ((i, w) ∷ m) h = ground (arith, has-erase k j m)

  pub has-lookup-none : (k : String) (m : Dict V) → lookup k m ≡ none → has k m ≡ false
  unfolding has lookup
  has-lookup-none k [] h = refl
  has-lookup-none k ((i, w) ∷ m) h = ground (arith, has-lookup-none k m)

  pub has-lookup-some : (k : String) (v : V) (m : Dict V) → lookup k m ≡ some v → has k m ≡ true
  unfolding has lookup
  has-lookup-some k v [] h = cc
  has-lookup-some k v ((i, w) ∷ m) h = ground (arith, has-lookup-some k v m)

  pub insert-Distinct : (k : String) (v : V) (m : Dict V) → Distinct m → Distinct (insert k v m)
  unfolding insert has
  insert-Distinct k v [] h = (refl, tt)
  insert-Distinct k v ((i, w) ∷ m) h =
      ground (arith, has-insert k i v m, insert-Distinct k v m h.1, eq_iff i k, eq_iff k i)

  pub erase-Distinct : (k : String) (m : Dict V) → Distinct m → Distinct (erase k m)
  unfolding erase
  erase-Distinct k [] h = tt
  erase-Distinct k ((i, w) ∷ m) h = ground (arith, has-erase k i m h.0, erase-Distinct k m h.1)

  pub length-insert :
      (k : String) (v : V) (m : Dict V)
      → length (insert k v m) ≡ length m + (if has k m then 0 else 1)
  unfolding insert has
  length-insert k v [] = omega arith
  length-insert k v ((i, w) ∷ m) = ground (arith, length-insert k v m)

  pub length-erase-le : (k : String) (m : Dict V) → length (erase k m) ≤ length m
  unfolding erase
  length-erase-le k [] = omega arith
  length-erase-le k ((i, w) ∷ m) = ground (arith, length-erase-le k m)

  erase_absent : (k : String) (m : Dict V) → has k m ≡ false → erase k m ≡ m
  unfolding erase has
  erase_absent k [] h = refl
  erase_absent k ((i, w) ∷ m) h = ground (arith, erase_absent k m)

  -- A key that is there takes exactly one entry with it.
  pub length-erase_present :
      (k : String) (m : Dict V) → Distinct m → has k m ≡ true → length (erase k m) + 1 ≡ length m
  unfolding erase has
  length-erase_present k [] d h = cc
  length-erase_present k ((i, w) ∷ m) d h =
      ground (arith, eq_iff i k, erase_absent i m d.0, length-erase_present k m d.1)

  pub count-insert_absent :
      (p : V → Bool) (k : String) (v : V) (m : Dict V)
      → has k m ≡ false
      → count p (insert k v m) ≡ count p m + bit (p v)
  unfolding insert has count
  count-insert_absent p k v [] h = omega arith
  count-insert_absent p k v ((i, w) ∷ m) h = ground (arith, count-insert_absent p k v m)

  pub count-insert_same :
      (p : V → Bool) (k : String) (v w : V) (m : Dict V)
      → lookup k m ≡ some w
      → p v ≡ p w
      → count p (insert k v m) ≡ count p m
  unfolding insert lookup count
  count-insert_same p k v w [] h e = cc
  count-insert_same p k v w ((i, u) ∷ m) h e = ground (arith, count-insert_same p k v w m)

  pub count-erase-le : (p : V → Bool) (k : String) (m : Dict V) → count p (erase k m) ≤ count p m
  unfolding erase count
  count-erase-le p k [] = omega arith
  count-erase-le p k ((i, u) ∷ m) = ground (arith, count-erase-le p k m)
