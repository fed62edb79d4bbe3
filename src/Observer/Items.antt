-- ===== src/Observer/Items.antt =====
-- The part that the methods of prime/observer/set.go share: a slice of pointers to values with an ID,
-- searched by ID, extended at its end, and shortened by moving its last entry into the hole.
pub mod Laws
use cliffhanger.Prelude.{
  ℕ, zero, suc, ◌+◌, ◌-◌, Option, none, some, List, [], ◌∷◌, ◌++◌, if◌then◌else◌, Eq, nat_eq,
  string_eq, length, get_elem?, set,
}
use cliffhanger.Prelude.Int.{int_eq}

abbrev pub take {ℓ} : {A : Type ℓ} → ℕ → List A → List A
take zero xs = []
take (suc n) [] = []
take (suc n) (x ∷ xs) = x ∷ take n xs

abbrev pub index_suc : Option ℕ → Option ℕ
index_suc none = none
index_suc (some k) = some (suc k)

module _ {ℓ} {A : Type ℓ} where
  -- `s[i] = s[len(s)-1]; s = s[:len(s)-1]`
  unfoldable pub move_last : ℕ → List A → List A
  move_last i xs = elim (get_elem? xs (length xs - 1)) [
    | none ↦ xs
    | some l ↦ take (length xs - 1) (set xs i l)
  ]

module _ {ℓ κ} {K : Type ℓ} ⦃e : Eq K⦄ {A : Type κ} (key : A → K) where
  -- the loop of `findDevice`; `none` stands for -1
  unfoldable pub find_index : K → List A → Option ℕ
  find_index id [] = none
  find_index id (v ∷ rest) = if e.same id (key v) then some 0 else index_suc (find_index id rest)

  unfoldable pub add_item : A → List A → List A
  add_item a xs = elim (find_index (key a) xs) [ none ↦ xs ++ a ∷ [] | some i ↦ xs ]

  unfoldable pub update_item : A → List A → List A
  update_item a xs = elim (find_index (key a) xs) [ none ↦ xs ++ a ∷ [] | some i ↦ set xs i a ]

  unfoldable pub delete_item : K → List A → List A
  unfolding move_last
  delete_item id xs = elim (find_index id xs) [ none ↦ xs | some i ↦ move_last i xs ]
