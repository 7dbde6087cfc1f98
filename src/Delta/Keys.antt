-- ===== src/Delta/Keys.antt =====
-- Keys of the dictionaries that the encoder of src/qdap/compression/delta_encoder.py compares.
use mathlib.Core.Path.{subst}
use native.Mathlib.Nat.{pow-suc}
use qdap_protocol.Base.{
  ℕ, zero, suc, ◌+◌, ◌*◌, ◌^◌, ◌≤◌, ◌<◌, ◌≡◌, refl, ap, ◌∙◌, Bool, true, false, ◌&&◌, ◌||◌, List,
  [], ◌∷◌, length, Option, none, some, if◌then◌else◌, list_eq, list_eq_instance, list_eq_iff, arith,
}
use qdap_protocol.Base.Dict.{Dict, get, put, remove, contains, keys}
use qdap_protocol.Base.Dict.Laws.{get-put, get-remove}
use qdap_protocol.Base.Dict.Unique.{IsUnique, remove-IsUnique}
use qdap_protocol.Broker.Utf8.{Text}
use qdap_protocol.Delta.{member, keys_in, update, select, bits_of}

pow_pos : (n : ℕ) → 0 < 2 ^ n
pow_pos zero = omega arith
pow_pos (suc n) = omega (arith, pow-suc 2 n, pow_pos n)

and_left : (a b : Bool) → a && b ≡ true → a ≡ true
and_left a b h = ground arith

and_right : (a b : Bool) → a && b ≡ true → b ≡ true
and_right a b h = ground arith

module _ {V : Type 0} where
  abbrev pub Sub : Dict Text V → Dict Text V → Type 0
  Sub a b = (k : Text) → contains k a ≡ true → contains k b ≡ true

  remove_absent : (k : Text) (b : Dict Text V) → get k b ≡ none → remove k b ≡ b
  unfolding get remove
  remove_absent k [] h = refl
  remove_absent k ((j, w) ∷ b) h = ground (arith, remove_absent k b)

  length-remove :
      (k : Text) (b : Dict Text V)
      → IsUnique b
      → contains k b ≡ true
      → length b ≡ length (remove k b) + 1
  unfolding get remove
  length-remove k [] u h = absurd (cc)
  length-remove k ((j, w) ∷ b) u h = by_key (list_eq j k) refl h (length-remove k b u.1)
    where
      by_key :
          (t : Bool)
          → list_eq j k ≡ t
          → elim (if t then some w else get k b) [ none ↦ false | some v ↦ true ] ≡ true
          → (contains k b ≡ true → length b ≡ length (remove k b) + 1)
          → suc (length b) ≡ length (if t then remove k b else (j, w) ∷ remove k b) + 1
      by_key true p h later = omega (
        arith,
        ap length (remove_absent k b (subst (λ x. get x b ≡ none) ((list_eq_iff j k).0 p) u.0)),
      )
      by_key false p h later = omega (arith, later h)

  -- A dictionary with fewer keys has fewer entries.
  pub length-Sub : (a b : Dict Text V) → IsUnique a → IsUnique b → Sub a b → length a ≤ length b
  unfolding get
  length-Sub [] b ua ub s = omega arith
  length-Sub ((k, v) ∷ a) b ua ub s = omega (
    arith,
    length-remove k b ub (s k (ground (arith, (list_eq_iff k k).1 refl))),
    length-Sub a (remove k b) ua.1 (remove-IsUnique k b ub) rest,
  )
    where
      rest : Sub a (remove k b)
      rest x p = by_key (list_eq k x) refl
        where
          by_key : (t : Bool) → list_eq k x ≡ t → contains x (remove k b) ≡ true
          by_key true q = absurd (no_key (subst (λ y. get y a ≡ none) ((list_eq_iff k x).0 q) ua.0))
            where
              no_key : get x a ≡ none → ⊥
              no_key n = ground (arith, p, n)
          by_key false q = ground (arith, get-remove k x b, q, s x, p)

  pub keys_in-Sub : (a b : Dict Text V) → keys_in a b ≡ true → Sub a b
  unfolding keys_in get
  keys_in-Sub [] b h k p = absurd (cc)
  keys_in-Sub ((j, v) ∷ a) b h k p =
      by_key (list_eq j k) refl p (keys_in-Sub a b (and_right (contains j b) (keys_in a b) h) k)
    where
      by_key :
          (t : Bool)
          → list_eq j k ≡ t
          → elim (if t then some v else get k a) [ none ↦ false | some w ↦ true ] ≡ true
          → (contains k a ≡ true → contains k b ≡ true)
          → contains k b ≡ true
      by_key true q p later =
          subst (λ x. contains x b ≡ true) ((list_eq_iff j k).0 q)
            (and_left (contains j b) (keys_in a b) h)
      by_key false q p later = later p

  pub member-keys : (k : Text) (d : Dict Text V) → member k (keys d) ≡ contains k d
  unfolding get
  member-keys k [] = refl
  member-keys k ((j, v) ∷ d) = ground (arith, member-keys k d)

  pub bits_of_bound :
      (n : ℕ) (order : List Text) (changed : Dict Text V)
      → length order ≤ n
      → bits_of order changed < 2 ^ n
  unfolding bits_of
  bits_of_bound n [] changed h = omega (arith, pow_pos n)
  bits_of_bound zero (j ∷ order) changed h = absurd (omega arith)
  bits_of_bound (suc n) (j ∷ order) changed h =
      bit (contains j changed) (bits_of order changed) (bits_of_bound n order changed (omega arith))
    where
      bit : (b : Bool) (r : ℕ) → r < 2 ^ n → (if b then 1 else 0) + 2 * r < 2 ^ suc n
      bit true r k = omega (arith, pow-suc 2 n)
      bit false r k = omega (arith, pow-suc 2 n)

  pub bits_of_pos :
      (order : List Text) (changed : Dict Text V) (k : Text)
      → member k order ≡ true
      → contains k changed ≡ true
      → 0 < bits_of order changed
  unfolding bits_of
  bits_of_pos [] changed k h g = absurd (cc)
  bits_of_pos (j ∷ order) changed k h g =
      ground (arith, list_eq_iff j k, bits_of_pos order changed k, h, g)

  -- The first of two values that is there.
  abbrev pub or_else : Option V → Option V → Option V
  or_else none other = other
  or_else (some v) other = some v

  abbrev pub only_if : Bool → Option V → Option V
  only_if true o = o
  only_if false o = none

  pub get-update :
      (d changes : Dict Text V) (k : Text)
      → IsUnique changes
      → get k (update d changes) ≡ or_else (get k changes) (get k d)
  unfolding update get
  get-update d [] k u = refl
  get-update d ((j, v) ∷ changes) k u =
      get-update (put j v d) changes k u.1
      ∙ ap (or_else (get k changes)) (get-put j k v d)
      ∙ by_key (list_eq j k) refl
    where
      by_key :
          (t : Bool)
          → list_eq j k ≡ t
          → or_else (get k changes) (if t then some v else get k d)
            ≡ or_else (if t then some v else get k changes) (get k d)
      by_key true p =
          ap (λ o. or_else o (some v))
            (subst (λ x. get x changes ≡ none) ((list_eq_iff j k).0 p) u.0)
      by_key false p = refl

  pub get-select :
      (order : List Text) (changed values : Dict Text V) (k : Text)
      → get k (select order changed values)
        ≡ or_else (only_if (member k order) (get k changed)) (get k values)
  unfolding select
  get-select [] changed values k = refl
  get-select (j ∷ order) changed values k =
      by_value (get j changed) refl (λ w. get-select order changed w k)
    where
      Goal : Dict Text V → Bool → Type 0
      Goal w t =
          get k (select order changed w)
          ≡ or_else (only_if (t || member k order) (get k changed)) (get k values)

      same_key :
          (t : Bool)
          → list_eq j k ≡ t
          → (o : Option V) → get j changed ≡ o
          → t ≡ true
          → get k changed ≡ o
      same_key t p o eq q = subst (λ x. get x changed ≡ o) ((list_eq_iff j k).0 (p ∙ q)) eq

      found :
          (m : Bool) (v : V) (o : Option V)
          → o ≡ some v
          → or_else (only_if m o) (some v) ≡ or_else o (get k values)
      found true v o p = rw p
      found false v o p = rw p

      absent :
          (m : Bool) (o : Option V)
          → o ≡ none
          → or_else (only_if m o) (get k values) ≡ or_else o (get k values)
      absent true o p = refl
      absent false o p = rw p

      by_value :
          (o : Option V)
          → get j changed ≡ o
          → ((w : Dict Text V)
              → get k (select order changed w)
                ≡ or_else (only_if (member k order) (get k changed)) (get k w))
          → Goal (elim o [ none ↦ values | some v ↦ put j v values ]) (list_eq j k)
      by_value none eq rest = by_key (list_eq j k) refl
        where
          by_key : (t : Bool) → list_eq j k ≡ t → Goal values t
          by_key true p =
              rest values ∙ absent (member k order) (get k changed) (same_key true p none eq refl)
          by_key false p = rest values
      by_value (some v) eq rest = by_key (list_eq j k) refl
        where
          by_key : (t : Bool) → list_eq j k ≡ t → Goal (put j v values) t
          by_key true p =
              rest (put j v values)
              ∙ ap (or_else (only_if (member k order) (get k changed)))
                  (get-put j k v values ∙ ap (λ (t : Bool). if t then some v else get k values) p)
              ∙ found (member k order) v (get k changed) (same_key true p (some v) eq refl)
          by_key false p =
              rest (put j v values)
              ∙ ap (or_else (only_if (member k order) (get k changed)))
                  (get-put j k v values ∙ ap (λ (t : Bool). if t then some v else get k values) p)
