-- ===== src/Store/Table.antt =====
-- A table as its rows under their primary keys, with the statements that the repositories send.
use opercerta.Common.{
  ℕ, ◌≡◌, refl, Bool, Option, none, some, List, [], ◌∷◌, ◌==◌, if◌then◌else◌, arith,
}

abbrev pub Table {ℓ} : Type ℓ → Type ℓ
Table V = List (ℕ × V)

module _ {ℓ} {V : Type ℓ} where
  -- `SELECT … WHERE id = k`
  unfoldable pub get : ℕ → Table V → Option V
  get k [] = none
  get k ((j, v) ∷ t) = if j == k then some v else get k t

  -- `INSERT`, of a key that is not there
  unfoldable pub insert : ℕ → V → Table V → Table V
  insert k v t = (k, v) ∷ t

  -- `UPDATE … WHERE id = k`
  unfoldable pub update : ℕ → (V → V) → Table V → Table V
  update k f [] = []
  update k f ((j, v) ∷ t) = (if j == k then (j, f v) else (j, v)) ∷ update k f t

  -- `UPDATE … WHERE p`
  unfoldable pub update_where : (V → Bool) → (V → V) → Table V → Table V
  update_where p f [] = []
  update_where p f ((j, v) ∷ t) = (j, if p v then f v else v) ∷ update_where p f t

  abbrev pub map_option : (V → V) → Option V → Option V
  map_option f none = none
  map_option f (some v) = some (f v)

  pub get-insert :
      (j k : ℕ) (v : V) (t : Table V) → get j (insert k v t) ≡ (if k == j then some v else get j t)
  unfolding get insert
  get-insert j k v t = refl

  pub get-update :
      (j k : ℕ) (f : V → V) (t : Table V)
      → get j (update k f t) ≡ (if k == j then map_option f (get j t) else get j t)
  unfolding get update
  get-update j k f [] = ground arith
  get-update j k f ((i, v) ∷ t) = ground (arith, get-update j k f t)

  pub get-update_where :
      (j : ℕ) (p : V → Bool) (f : V → V) (t : Table V)
      → get j (update_where p f t) ≡ map_option (λ v. if p v then f v else v) (get j t)
  unfolding get update_where
  get-update_where j p f [] = refl
  get-update_where j p f ((i, v) ∷ t) = ground (arith, get-update_where j p f t)

-- the first row that passes a test on its columns, with its key
module _ {ℓ} {V : Type ℓ} where
  unfoldable pub find_row : (V → Bool) → Table V → Option (ℕ × V)
  find_row p [] = none
  find_row p ((j, v) ∷ t) = if p v then some (j, v) else find_row p t
