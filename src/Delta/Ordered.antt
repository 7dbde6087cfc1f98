-- ===== src/Delta/Ordered.antt =====
-- The fields of the last full frame, in their order: _field_order of
-- src/qdap/compression/delta_encoder.py.
use qdap_protocol.Base.{suc, ◌≡◌, refl, ap, ◌∙◌, true, List, [], ◌∷◌, length, list_eq_instance}
use qdap_protocol.Base.Dict.{Dict, contains, keys}
use qdap_protocol.Base.Dict.Unique.{IsUnique}
use qdap_protocol.Broker.Utf8.{Text}
use qdap_protocol.Delta.{member}
use qdap_protocol.Delta.Keys.{Sub, member-keys}

module _ {V : Type 0} where
  -- The fields of the last full frame, in their order.
  pub record Ordered (order : List Text) (b : Dict Text V) : Type 0 where
    pub first : Dict Text V
    pub named : order ≡ keys first
    pub unique : IsUnique first
    pub lower : Sub first b
    pub upper : Sub b first

  pub Ordered-keys : (fields : Dict Text V) → IsUnique fields → Ordered (keys fields) fields
  Ordered-keys fields u = record {
    first = fields;
    named = refl;
    unique = u;
    lower = λ k h. h;
    upper = λ k h. h;
  }

  pub Ordered-member :
      (order : List Text) (b : Dict Text V) (k : Text)
      → Ordered order b
      → contains k b ≡ true
      → member k order ≡ true
  Ordered-member order b k o h = ap (member k) o.named ∙ member-keys k o.first ∙ o.upper k h

  pub length-keys : (d : Dict Text V) → length (keys d) ≡ length d
  length-keys [] = refl
  length-keys ((k, v) ∷ d) = ap suc (length-keys d)

  pub Ordered-Same :
      (order : List Text) (a b : Dict Text V)
      → Ordered order a
      → Sub a b
      → Sub b a
      → Ordered order b
  Ordered-Same order a b o s t = record {
    first = o.first;
    named = o.named;
    unique = o.unique;
    lower = λ k h. s k (o.lower k h);
    upper = λ k h. o.upper k (t k h);
  }
