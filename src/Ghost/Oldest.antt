-- ===== src/Ghost/Oldest.antt =====
-- The clean-up of src/qdap/session/ghost_session.py, _cleanup_window, makes a window smaller.
use qdap_protocol.Base.{
  ℕ, zero, suc, ◌≤◌, ◌<◌, ◌≡◌, ◌≢◌, refl, ap, ◌∙◌, List, [], ◌∷◌, length, take, map, none, leb,
  ◌==◌, nat_eq, Bool-cases, inl, inr, arith,
}
use qdap_protocol.Base.Dict.{Dict, get, remove}
use qdap_protocol.Base.Dict.Unique.{IsUnique, remove-IsUnique}
use qdap_protocol.Ghost.{GhostEntry, insert_by_age, by_age, delete_all}

module _ {S : Type 0} where
  length-remove-le : (k : ℕ) (d : Dict ℕ (GhostEntry S)) → length (remove k d) ≤ length d
  unfolding remove
  length-remove-le k [] = omega arith
  length-remove-le k ((j, v) ∷ d) = ground (arith, length-remove-le k d)

  pub length-remove-lt :
      (k : ℕ) (d : Dict ℕ (GhostEntry S)) → get k d ≢ none → length (remove k d) < length d
  unfolding get remove
  length-remove-lt k [] h = absurd (h refl)
  length-remove-lt k ((j, v) ∷ d) h = elim (Bool-cases (j == k)) [
    | inl e ↦ rw e (omega (arith, length-remove-le k d))
    | inr e ↦
        let there : get k d ≢ none = λ f. h (rw e f) in
        rw e (omega (arith, length-remove-lt k d there))
  ]

  length-delete_all-le :
      (ks : List ℕ) (d : Dict ℕ (GhostEntry S)) → length (delete_all ks d) ≤ length d
  length-delete_all-le [] d = omega arith
  length-delete_all-le (k ∷ ks) d =
      omega (arith, length-delete_all-le ks (remove k d), length-remove-le k d)

  pub delete_all-IsUnique :
      (ks : List ℕ) (d : Dict ℕ (GhostEntry S)) → IsUnique d → IsUnique (delete_all ks d)
  delete_all-IsUnique [] d u = u
  delete_all-IsUnique (k ∷ ks) d u = delete_all-IsUnique ks (remove k d) (remove-IsUnique k d u)

  -- The first key of a sorted window stands in the window.
  abbrev pub FirstIn : List (ℕ × GhostEntry S) → Dict ℕ (GhostEntry S) → Type 0
  FirstIn [] d = Unit
  FirstIn ((k, x) ∷ xs) d = get k d ≢ none

  insert_by_age-FirstIn :
      (k : ℕ) (x : GhostEntry S) (ys : List (ℕ × GhostEntry S)) (d : Dict ℕ (GhostEntry S))
      → FirstIn ys d
      → FirstIn (insert_by_age k x ys) ((k, x) ∷ d)
  unfolding insert_by_age get
  insert_by_age-FirstIn k x [] d v = λ e. ground (arith, e)
  insert_by_age-FirstIn k x ((j, y) ∷ ys) d v = elim (Bool-cases (leb x.sent_at y.sent_at)) [
    | inl e ↦ rw e (λ f. ground (arith, f))
    | inr e ↦ rw e (λ f. elim (Bool-cases (k == j)) [
      | inl same ↦ absurd (cc (rw same at f))
      | inr other ↦ v (rw other at f)
    ])
  ]

  pub by_age-FirstIn : (d : Dict ℕ (GhostEntry S)) → FirstIn (by_age d) d
  unfolding by_age
  by_age-FirstIn [] = tt
  by_age-FirstIn ((k, x) ∷ d) = insert_by_age-FirstIn k x (by_age d) d (by_age-FirstIn d)

  length-insert_by_age :
      (k : ℕ) (x : GhostEntry S) (ys : List (ℕ × GhostEntry S))
      → length (insert_by_age k x ys) ≡ suc (length ys)
  unfolding insert_by_age
  length-insert_by_age k x [] = refl
  length-insert_by_age k x ((j, y) ∷ ys) = ground (arith, length-insert_by_age k x ys)

  pub length-by_age : (d : Dict ℕ (GhostEntry S)) → length (by_age d) ≡ length d
  unfolding by_age
  length-by_age [] = refl
  length-by_age ((k, x) ∷ d) = length-insert_by_age k x (by_age d) ∙ ap suc (length-by_age d)

  -- Deleting some of the oldest entries makes the window smaller.
  pub delete_oldest :
      (n : ℕ) (xs : List (ℕ × GhostEntry S)) (d : Dict ℕ (GhostEntry S))
      → FirstIn xs d
      → 0 < n
      → 0 < length xs
      → length (delete_all (map (λ p. p.0) (take n xs)) d) < length d
  delete_oldest zero xs d v pos some_entry = absurd (omega arith)
  delete_oldest (suc n) [] d v pos some_entry = absurd (omega arith)
  delete_oldest (suc n) ((k, x) ∷ xs) d v pos some_entry = omega (
    arith,
    length-delete_all-le (map (λ p. p.0) (take n xs)) (remove k d),
    length-remove-lt k d v,
  )
