-- ===== src/Observer/Items/Laws.antt =====
-- The slices of prime/observer/set.go implement finite maps from IDs to values.
use cliffhanger.Prelude.{
  ℕ, suc, ◌-◌, ◌≡◌, refl, ap, inl, inr, Option, none, some, List, [], ◌∷◌, ◌++◌, arith,
  if◌then◌else◌, Bool-cases, Eq, nat_eq, string_eq, length, get_elem?, set,
}
use cliffhanger.Prelude.Int.{int_eq}
use cliffhanger.Observer.Items.{take, find_index, add_item, update_item, move_last, delete_item}

module _ {ℓ κ} {K : Type ℓ} ⦃e : Eq K⦄ {A : Type κ} (key : A → K) where
  -- The abstract map: the value under an ID.
  unfoldable pub at : K → List A → Option A
  at id [] = none
  at id (v ∷ rest) = if e.same id (key v) then some v else at id rest

  -- No two entries have the same ID.
  abbrev pub IsDistinct : List A → Type κ
  IsDistinct [] = Unit
  IsDistinct (v ∷ rest) = (at (key v) rest ≡ none) × IsDistinct rest

  at-append :
      (id : K) (xs : List A) (a : A)
      → at id (xs ++ a ∷ [])
        ≡ elim (at id xs) [ none ↦ (if e.same id (key a) then some a else none) | some v ↦ some v ]
  unfolding at
  at-append id [] a = refl
  at-append id (v ∷ rest) a = elim (Bool-cases (e.same id (key v))) [
    | inl h ↦ rw h
    | inr h ↦ rw h (at-append id rest a)
  ]

pred_suc : (n : ℕ) → suc n - 1 ≡ n
pred_suc n = omega arith

module _ {ℓ} {A : Type ℓ} where
  last_of : A → List A → A
  last_of x [] = x
  last_of x (y ∷ ys) = last_of y ys

  init_of : A → List A → List A
  init_of x [] = []
  init_of x (y ∷ ys) = x ∷ init_of y ys

  get_elem?-last : (x : A) (xs : List A) → get_elem? (x ∷ xs) (length xs) ≡ some (last_of x xs)
  unfolding last_of
  get_elem?-last x [] = refl
  get_elem?-last x (y ∷ ys) = get_elem?-last y ys

  take-init : (x : A) (xs : List A) → take (length xs) (x ∷ xs) ≡ init_of x xs
  unfolding init_of
  take-init x [] = refl
  take-init x (y ∷ ys) = ap (λ l. x ∷ l) (take-init y ys)

  -- `move_last` with the place of the last entry given
  move_from : ℕ → ℕ → List A → List A
  move_from n i xs = elim (get_elem? xs n) [ none ↦ xs | some l ↦ take n (set xs i l) ]

  move_last-cons :
      (i : ℕ) (x : A) (xs : List A) → move_last i (x ∷ xs) ≡ move_from (length xs) i (x ∷ xs)
  unfolding move_last move_from
  move_last-cons i x xs = ap (λ n. move_from n i (x ∷ xs)) (pred_suc (length xs))

  move_last-zero : (v x : A) (xs : List A) → move_last 0 (v ∷ x ∷ xs) ≡ last_of x xs ∷ init_of x xs
  unfolding move_from
  move_last-zero v x xs =
      rw (move_last-cons, move_from, get_elem?-last x xs)
        (ap (λ l. last_of x xs ∷ l) (take-init x xs))

  move_last-suc :
      (k : ℕ) (v x : A) (xs : List A) → move_last (suc k) (v ∷ x ∷ xs) ≡ v ∷ move_last k (x ∷ xs)
  unfolding move_from
  move_last-suc k v x xs =
      ground (arith, move_last-cons (suc k) v (x ∷ xs), move_last-cons k x xs, get_elem?-last x xs)

module _ {ℓ κ} {K : Type ℓ} ⦃e : Eq K⦄ {A : Type κ} (key : A → K) where
  -- Each operation takes the rest of the slice apart as the search does.
  add_item-cons :
      (a v : A) (r : List A)
      → add_item key a (v ∷ r) ≡ (if e.same (key a) (key v) then v ∷ r else v ∷ add_item key a r)
  unfolding add_item find_index
  add_item-cons a v r = ground arith

  update_item-cons :
      (a v : A) (r : List A)
      → update_item key a (v ∷ r)
        ≡ (if e.same (key a) (key v) then a ∷ r else v ∷ update_item key a r)
  unfolding update_item find_index
  update_item-cons a v r = ground arith

  delete_item-cons :
      (id : K) (v : A) (r : List A)
      → delete_item key id (v ∷ r)
        ≡ (if e.same id (key v) then move_last 0 (v ∷ r) else v ∷ delete_item key id r)
  unfolding delete_item find_index
  delete_item-cons id v [] = ground arith
  delete_item-cons id v (x ∷ xs) =
      ground (arith, move_last-suc 0 v x xs, λ (k : ℕ). move_last-suc k v x xs)

  at-last-init :
      (x : A) (xs : List A)
      → IsDistinct key (x ∷ xs)
      → (id : K) → at key id (last_of x xs ∷ init_of x xs) ≡ at key id (x ∷ xs)
  unfolding at last_of init_of
  at-last-init x [] d id = refl
  at-last-init x (y ∷ ys) d id = ground (
    arith,
    at-last-init y ys d.1 id,
    at-last-init y ys d.1 (key x),
    d.0,
    e.same_iff id (key x),
    e.same_iff id (key (last_of y ys)),
    e.same_iff (key x) (key (last_of y ys)),
  )

  -- Adding is refused by an entry with the ID, and else puts the value under its ID alone.
  pub at-add_item :
      (id : K) (a : A) (xs : List A)
      → at key id (add_item key a xs) ≡ elim (at key (key a) xs) [
        | none ↦ (if e.same id (key a) then some a else at key id xs)
        | some _ ↦ at key id xs
      ]
  unfolding at
  at-add_item id a [] = unfold add_item find_index in refl
  at-add_item id a (v ∷ r) = rw (add_item-cons a v r) (
      ground (
        arith,
        at-add_item id a r,
        e.same_iff id (key v),
        e.same_iff id (key a),
        e.same_iff (key a) (key v),
      ))

  -- Updating puts the value under its ID, and changes nothing under the others.
  pub at-update_item :
      (id : K) (a : A) (xs : List A)
      → at key id (update_item key a xs) ≡ (if e.same id (key a) then some a else at key id xs)
  unfolding at
  at-update_item id a [] = unfold update_item find_index in refl
  at-update_item id a (v ∷ r) = rw (update_item-cons a v r) (
      ground (
        arith,
        at-update_item id a r,
        e.same_iff id (key v),
        e.same_iff id (key a),
        e.same_iff (key a) (key v),
      ))

  -- Deleting takes the ID's value away and changes nothing under the others, although it reorders.
  pub at-delete_item :
      (id k : K) (xs : List A)
      → IsDistinct key xs
      → at key id (delete_item key k xs) ≡ (if e.same id k then none else at key id xs)
  unfolding at
  at-delete_item id k [] d = unfold delete_item find_index in ground arith
  at-delete_item id k (v ∷ r) d =
      rw (delete_item-cons k v r) (elim (Bool-cases (e.same k (key v))) [
        | inl h ↦ rw h (gone v r d ((e.same_iff k (key v)).0 h))
        | inr h ↦ rw h (
            ground (
              arith,
              at-delete_item id k r d.1,
              e.same_iff id (key v),
              e.same_iff id k,
              e.same_iff k (key v),
            ))
      ])
    where
      gone :
          (x : A) (s : List A)
          → IsDistinct key (x ∷ s)
          → k ≡ key x
          → at key id (move_last 0 (x ∷ s)) ≡ (if e.same id k then none else at key id (x ∷ s))
      gone x [] c q = unfold move_last in ground (arith, e.same_iff id k, e.same_iff id (key x))
      gone x (y ∷ ys) c q =
          rw (move_last-zero x y ys, at-last-init y ys c.1 id)
            (ground (arith, e.same_iff id k, e.same_iff id (key x), c.0))

  last-init-IsDistinct :
      (x : A) (xs : List A) → IsDistinct key (x ∷ xs) → IsDistinct key (last_of x xs ∷ init_of x xs)
  unfolding at last_of init_of
  last-init-IsDistinct x [] d = d
  last-init-IsDistinct x (y ∷ ys) d =
      let ih = last-init-IsDistinct y ys d.1 in
      let moved = at-last-init y ys d.1 (key x) in
      (
        ground (
          arith,
          ih.0,
          moved,
          d.0,
          e.same_iff (key x) (key (last_of y ys)),
          e.same_iff (key (last_of y ys)) (key x),
        ),
        (ground (arith, moved, d.0, e.same_iff (key x) (key (last_of y ys))), ih.1),
      )

  pub add_item-IsDistinct :
      (a : A) (xs : List A) → IsDistinct key xs → IsDistinct key (add_item key a xs)
  add_item-IsDistinct a [] d = unfold add_item find_index at in (refl, tt)
  add_item-IsDistinct a (v ∷ r) d =
      rw (add_item-cons a v r) (elim (Bool-cases (e.same (key a) (key v))) [
        | inl h ↦ rw h d
        | inr h ↦ rw h (
          ground (
            arith,
            at-add_item (key v) a r,
            d.0,
            e.same_iff (key v) (key a),
            e.same_iff (key a) (key v),
          ),
          add_item-IsDistinct a r d.1,
        )
      ])

  pub update_item-IsDistinct :
      (a : A) (xs : List A) → IsDistinct key xs → IsDistinct key (update_item key a xs)
  update_item-IsDistinct a [] d = unfold update_item find_index at in (refl, tt)
  update_item-IsDistinct a (v ∷ r) d =
      rw (update_item-cons a v r) (elim (Bool-cases (e.same (key a) (key v))) [
        | inl h ↦ rw h (rw ((e.same_iff (key a) (key v)).0 h) d.0, d.1)
        | inr h ↦ rw h (
          ground (
            arith,
            at-update_item (key v) a r,
            d.0,
            e.same_iff (key v) (key a),
            e.same_iff (key a) (key v),
          ),
          update_item-IsDistinct a r d.1,
        )
      ])

  pub delete_item-IsDistinct :
      (k : K) (xs : List A) → IsDistinct key xs → IsDistinct key (delete_item key k xs)
  delete_item-IsDistinct k [] d = unfold delete_item find_index in d
  delete_item-IsDistinct k (v ∷ r) d =
      rw (delete_item-cons k v r) (elim (Bool-cases (e.same k (key v))) [
        | inl h ↦ rw h (moved v r d)
        | inr h ↦
            rw h
              (ground (arith, at-delete_item (key v) k r d.1, d.0), delete_item-IsDistinct k r d.1)
      ])
    where
      moved : (x : A) (s : List A) → IsDistinct key (x ∷ s) → IsDistinct key (move_last 0 (x ∷ s))
      moved x [] c = unfold move_last in tt
      moved x (y ∷ ys) c = rw (move_last-zero x y ys) (last-init-IsDistinct y ys c.1)
