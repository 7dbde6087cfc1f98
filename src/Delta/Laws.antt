-- ===== src/Delta/Laws.antt =====
-- Sender and receiver of src/qdap/compression/delta_encoder.py stay in step: each frame restores
-- the dictionary that was sent.
use mathlib.Core.Path.{subst}
use qdap_protocol.Base.{
  ◌≡◌, refl, sym, ap, ◌∙◌, Bool, true, false, List, [], ◌∷◌, Option, none, some, if◌then◌else◌, Eq,
  list_eq, list_eq_instance, list_eq_iff, arith,
}
use qdap_protocol.Base.Dict.{Dict, get, put}
use qdap_protocol.Base.Dict.Unique.{IsUnique, put-IsUnique}
use qdap_protocol.Broker.Utf8.{Text}
use qdap_protocol.Delta.{select, changes, differs}
use qdap_protocol.Delta.Keys.{Sub, or_else}

-- The same entries, in any order.
abbrev pub Same : {V : Type 0} → Dict Text V → Dict Text V → Type 0
Same a b = (k : Text) → get k a ≡ get k b

module _ {V : Type 0} where
  pub select-IsUnique :
      (order : List Text) (changed values : Dict Text V)
      → IsUnique values
      → IsUnique (select order changed values)
  unfolding select
  select-IsUnique [] changed values u = u
  select-IsUnique (k ∷ order) changed values u =
      select-IsUnique order changed _ (by_value (get k changed))
    where
      by_value : (o : Option V) → IsUnique (elim o [ none ↦ values | some v ↦ put k v values ])
      by_value none = u
      by_value (some v) = put-IsUnique k v values u

module _ {V : Type 0} ⦃e : Eq V⦄ where
  pub changes_absent :
      (fields b : Dict Text V) (k : Text) → get k fields ≡ none → get k (changes fields b) ≡ none
  unfolding changes get
  changes_absent [] b k h = refl
  changes_absent ((j, v) ∷ fields) b k h = ground (arith, changes_absent fields b k, h)

  pub changes-IsUnique : (fields b : Dict Text V) → IsUnique fields → IsUnique (changes fields b)
  unfolding changes
  changes-IsUnique [] b u = tt
  changes-IsUnique ((j, v) ∷ fields) b u =
      by_test (differs v (get j b)) (changes-IsUnique fields b u.1)
    where
      by_test :
          (d : Bool)
          → IsUnique (changes fields b)
          → IsUnique (if d then (j, v) ∷ changes fields b else changes fields b)
      by_test true rest = (changes_absent fields b j u.0, rest)
      by_test false rest = rest

  differs_same : (v : V) (o : Option V) → differs v o ≡ false → o ≡ some v
  differs_same v none h = absurd (cc)
  differs_same v (some w) h = ap some (sym ((e.beq_iff v w).0 (ground (arith, h))))

  -- What has changed, over what was there, is what is there now.
  pub get-changes :
      (fields b : Dict Text V) (k : Text)
      → IsUnique fields
      → or_else (get k (changes fields b)) (get k b) ≡ or_else (get k fields) (get k b)
  unfolding changes get
  get-changes [] b k u = refl
  get-changes ((j, v) ∷ fields) b k u =
      by_test (differs v (get j b)) refl (list_eq j k) refl (get-changes fields b k u.1)
    where
      by_test :
          (d : Bool)
          → differs v (get j b) ≡ d
          → (t : Bool) → list_eq j k ≡ t
          → or_else (get k (changes fields b)) (get k b) ≡ or_else (get k fields) (get k b)
          → or_else (get k (if d then (j, v) ∷ changes fields b else changes fields b)) (get k b)
            ≡ or_else (if t then some v else get k fields) (get k b)
      by_test true p true q ih =
          ap (λ (t : Bool). or_else (if t then some v else get k (changes fields b)) (get k b)) q
      by_test true p false q ih =
          ap (λ (t : Bool). or_else (if t then some v else get k (changes fields b)) (get k b)) q
          ∙ ih
      by_test false p true q ih =
          ih
          ∙ ap (λ o. or_else o (get k b))
              (subst (λ x. get x fields ≡ none) ((list_eq_iff j k).0 q) u.0)
          ∙ subst (λ x. get x b ≡ some v) ((list_eq_iff j k).0 q) (differs_same v (get j b) p)
      by_test false p false q ih = ih

module _ {V : Type 0} where
  -- All that was there is still there, so that nothing shows through.
  pub or_else-get :
      (fields b : Dict Text V) (k : Text)
      → Sub b fields
      → or_else (get k fields) (get k b) ≡ get k fields
  or_else-get fields b k s = by_values (get k fields) (get k b) (s k)
    where
      by_values :
          (o p : Option V)
          → (elim p [ none ↦ false | some v ↦ true ] ≡ true
              → elim o [ none ↦ false | some v ↦ true ] ≡ true)
          → or_else o p ≡ o
      by_values (some v) p h = refl
      by_values none none h = refl
      by_values none (some v) h = absurd (false-true (h refl))
        where
          false-true : false ≡ true → ⊥
          false-true q = cc
