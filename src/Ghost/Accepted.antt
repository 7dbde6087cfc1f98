-- ===== src/Ghost/Accepted.antt =====
-- What a receiver with a set of known sequence numbers takes of the numbers that come in: the set
-- received_seqs of src/qdap/session/ghost_session.py.
use qdap_protocol.Base.{
  ℕ, ◌+◌, ◌≤◌, ◌≡◌, refl, ap, true, false, ◌||◌, List, [], ◌∷◌, ◌++◌, length, length-append, elem,
  arith,
}
use qdap_protocol.Base.Distinct.{IsDistinct, elem-append, IsDistinct-append}

-- From the set `seen`, the numbers `all` come in: `out` are those of them that are new, each once,
-- and `after` is the set with them.
pub record IsAccepted (seen after out all : List ℕ) : Type 0 where
  pub distinct : IsDistinct out
  pub covers : (x : ℕ) → elem x all ≡ true → elem x seen || elem x out ≡ true
  pub within : (x : ℕ) → elem x out ≡ true → (elem x all ≡ true) × (elem x seen ≡ false)
  pub union : (x : ℕ) → elem x after ≡ elem x seen || elem x out
  pub size : length after ≡ length seen + length out
  pub fewer : length out ≤ length all

pub nothing_new : (seen : List ℕ) → IsAccepted seen seen [] []
nothing_new seen = record {
  distinct = tt;
  covers = λ x h. absurd (cc);
  within = λ x h. absurd (cc);
  union = λ x. ground arith;
  size = omega arith;
  fewer = omega arith;
}

pub already : (seen : List ℕ) (x : ℕ) → elem x seen ≡ true → IsAccepted seen seen [] (x ∷ [])
already seen x h = record {
  distinct = tt;
  covers = λ y m. by y (ground arith);
  within = λ y m. absurd (cc);
  union = λ y. ground arith;
  size = omega arith;
  fewer = omega arith;
}
  where
    by : (y : ℕ) → x ≡ y → elem y seen || false ≡ true
    by y e = ground (arith, ap (λ (t : ℕ). elem t seen) e, h)

pub new_one :
    (seen : List ℕ) (x : ℕ) → elem x seen ≡ false → IsAccepted seen (x ∷ seen) (x ∷ []) (x ∷ [])
new_one seen x h = record {
  distinct = (refl, tt);
  covers = λ y m. ground (arith, m);
  within = λ y m. (m, by y (ground arith));
  union = λ y. ground arith;
  size = omega arith;
  fewer = omega arith;
}
  where
    by : (y : ℕ) → x ≡ y → elem y seen ≡ false
    by y e = ground (arith, ap (λ (t : ℕ). elem t seen) e, h)

-- One run after another.
pub compose :
    (s0 s1 s2 o1 o2 a1 a2 : List ℕ)
    → IsAccepted s0 s1 o1 a1
    → IsAccepted s1 s2 o2 a2
    → IsAccepted s0 s2 (o1 ++ o2) (a1 ++ a2)
compose s0 s1 s2 o1 o2 a1 a2 p q = record {
  distinct =
      IsDistinct-append o1 o2 p.distinct q.distinct
        (λ x m. ground (arith, q.within x m, p.union x));
  covers = λ x m.
      ground
        (arith, elem-append x a1 a2, elem-append x o1 o2, p.covers x, q.covers x, p.union x, m);
  within = λ x m.
      ground
        (arith, elem-append x a1 a2, elem-append x o1 o2, p.within x, q.within x, p.union x, m);
  union = λ x. ground (arith, elem-append x o1 o2, p.union x, q.union x);
  size = omega (arith, p.size, q.size, length-append o1 o2);
  fewer = omega (arith, p.fewer, q.fewer, length-append o1 o2, length-append a1 a2);
}
