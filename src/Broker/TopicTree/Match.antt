-- ===== src/Broker/TopicTree/Match.antt =====
-- What match of src/qdap/broker/topic_tree.py finds: for each client the highest QoS among its
-- filters that match the topic.
pub mod Best
use mathlib.Core.Path.{subst}
use qdap_protocol.Base.{
  ℕ, ◌≤◌, ◌≡◌, refl, sym, ap, ◌∙◌, ◌⊎◌, inl, inr, Bool, true, false, ◌&&◌, ◌||◌, List, [], ◌∷◌,
  Option, none, some, leb, leb→le, is_empty, if◌then◌else◌, Eq, list_eq, list_eq_iff, arith,
  Bool-cases,
}
use qdap_protocol.Base.Dict.{Dict, get, put}
use qdap_protocol.Base.Dict.Laws.{get-put, get-put_self}
use qdap_protocol.Base.Dict.Unique.{IsUnique}
use qdap_protocol.Broker.Utf8.{Text}
use qdap_protocol.Broker.TopicTree.{
  TopicNode, topic_node, find_child, plus, hash_sign, raised, add_subscribers, add_node, match_node,
  match_topic, split_slash,
}
use qdap_protocol.Broker.TopicTree.Laws.{qos_at}
use qdap_protocol.Broker.TopicTree.Valid.{
  IsValid, IsValidIfAny, find_child-IsValid, IsReachable, IsReachable-IsValid,
}

-- Which filters match a topic, by their parts. "#" stands for one part or more.
abbrev pub matches : List Text → List Text → Bool
matches [] [] = true
matches [] (t ∷ ts) = false
matches (p ∷ ps) [] = false
matches (p ∷ ps) (t ∷ ts) =
    ((list_eq t p || list_eq plus p) && matches ps ts) || (list_eq hash_sign p && is_empty ps)

-- A QoS of q at least is there.
abbrev pub AtLeast : ℕ → Option ℕ → Type 0
AtLeast q none = ⊥
AtLeast q (some r) = q ≤ r

pub matches_exact :
    (t : Text) (ps ts : List Text) → matches ps ts ≡ true → matches (t ∷ ps) (t ∷ ts) ≡ true
matches_exact t ps ts h = rw ((list_eq_iff t t).1 refl, h)

pub matches_hash : (t : Text) (ts : List Text) → matches (hash_sign ∷ []) (t ∷ ts) ≡ true
matches_hash t ts = ground arith

pub matches-plus :
    (t : Text) (ps ts : List Text) → matches ps ts ≡ true → matches (plus ∷ ps) (t ∷ ts) ≡ true
matches-plus t ps ts h = ground (arith, h)

pub matches_cases :
    (p : Text) (ps : List Text) (t : Text) (ts : List Text)
    → matches (p ∷ ps) (t ∷ ts) ≡ true
    → ((t ≡ p) × (matches ps ts ≡ true))
      ⊎ (((plus ≡ p) × (matches ps ts ≡ true)) ⊎ ((hash_sign ≡ p) × (ps ≡ [])))
matches_cases p ps t ts h =
    ground (arith, list_eq_iff t p, list_eq_iff plus p, list_eq_iff hash_sign p)

raised_cases : (v q : ℕ) (before : Option ℕ) → raised v before ≡ q → (before ≡ some q) ⊎ (v ≡ q)
raised_cases v q none h = inr (omega arith)
raised_cases v q (some w) h = elim (Bool-cases (leb w v)) [
  | inl p ↦ inr (omega (arith, leb→le w v p))
  | inr p ↦ inl (ap some (omega (arith, h, lt_of w v p)))
]
  where
    lt_of : (w v : ℕ) → leb w v ≡ false → v ≤ w
    lt_of w v p = ground arith

raised_ge : (v q : ℕ) (before : Option ℕ) → AtLeast q before → q ≤ raised v before
raised_ge v q none h = absurd h
raised_ge v q (some w) h = omega arith

raised_has : (v : ℕ) (before : Option ℕ) → v ≤ raised v before
raised_has v none = omega arith
raised_has v (some w) = omega arith

module _ {K : Type 0} ⦃e : Eq K⦄ where
  raise_cases :
      (c k : K) (v q : ℕ) (results : Dict K ℕ)
      → get k (put c (raised v (get c results)) results) ≡ some q
      → (get k results ≡ some q) ⊎ ((c ≡ k) × (v ≡ q))
  raise_cases c k v q results h =
      by_key (e.beq c k) refl (sym (get-put c k (raised v (get c results)) results) ∙ h)
    where
      by_value :
          c ≡ k
          → (get c results ≡ some q) ⊎ (v ≡ q)
          → (get k results ≡ some q) ⊎ ((c ≡ k) × (v ≡ q))
      by_value same (inl old) = inl (subst (λ j. get j results ≡ some q) same old)
      by_value same (inr new) = inr (same, new)

      by_key :
          (b : Bool)
          → e.beq c k ≡ b
          → (if b then some (raised v (get c results)) else get k results) ≡ some q
          → (get k results ≡ some q) ⊎ ((c ≡ k) × (v ≡ q))
      by_key true eq h = by_value ((e.beq_iff c k).0 eq) (raised_cases v q (get c results) (cc))
      by_key false eq h = inl h

  raise_keeps :
      (c k : K) (v q : ℕ) (results : Dict K ℕ)
      → AtLeast q (get k results)
      → AtLeast q (get k (put c (raised v (get c results)) results))
  raise_keeps c k v q results h =
      rw (get-put c k (raised v (get c results)) results) (by_key (e.beq c k) refl)
    where
      by_key :
          (b : Bool)
          → e.beq c k ≡ b
          → AtLeast q (if b then some (raised v (get c results)) else get k results)
      by_key true eq =
          raised_ge v q (get c results)
            (subst (λ j. AtLeast q (get j results)) (sym ((e.beq_iff c k).0 eq)) h)
      by_key false eq = h

  raise_has :
      (c : K) (v : ℕ) (results : Dict K ℕ)
      → AtLeast v (get c (put c (raised v (get c results)) results))
  raise_has c v results =
      rw (get-put_self c (raised v (get c results)) results) (raised_has v (get c results))

  get_later :
      (c k : K) (v q : ℕ) (subscribers : Dict K ℕ)
      → get c subscribers ≡ none
      → get k subscribers ≡ some q
      → get k ((c, v) ∷ subscribers) ≡ some q
  unfolding get
  get_later c k v q subscribers absent present = by_key (e.beq c k) refl
    where
      by_key : (b : Bool) → e.beq c k ≡ b → (if b then some v else get k subscribers) ≡ some q
      by_key true eq = absurd (
          none-some
            (sym (subst (λ j. get j subscribers ≡ none) ((e.beq_iff c k).0 eq) absent) ∙ present))
        where
          none-some : (none ≡ some q) → ⊥
          none-some p = cc
      by_key false eq = present

  pub add_subscribers_sound :
      (subscribers results : Dict K ℕ) (k : K) (q : ℕ)
      → IsUnique subscribers
      → get k (add_subscribers subscribers results) ≡ some q
      → (get k results ≡ some q) ⊎ (get k subscribers ≡ some q)
  unfolding add_subscribers get
  add_subscribers_sound [] results k q u h = inl h
  add_subscribers_sound ((c, v) ∷ subscribers) results k q u h =
      elim (add_subscribers_sound subscribers _ k q u.1 h) [
        | inl old ↦ elim (raise_cases c k v q results old) [
          | inl before ↦ inl before
          | inr new ↦ inr (ground (arith, e.beq_iff c k, new.0, new.1))
        ]
        | inr later ↦ inr (get_later c k v q subscribers u.0 later)
      ]

  pub add_subscribers_keeps :
      (subscribers results : Dict K ℕ) (k : K) (q : ℕ)
      → AtLeast q (get k results)
      → AtLeast q (get k (add_subscribers subscribers results))
  unfolding add_subscribers
  add_subscribers_keeps [] results k q h = h
  add_subscribers_keeps ((c, v) ∷ subscribers) results k q h =
      add_subscribers_keeps subscribers _ k q (raise_keeps c k v q results h)

  pub add_subscribers_has :
      (subscribers results : Dict K ℕ) (k : K) (q : ℕ)
      → get k subscribers ≡ some q
      → AtLeast q (get k (add_subscribers subscribers results))
  unfolding add_subscribers get
  add_subscribers_has [] results k q h = absurd (cc)
  add_subscribers_has ((c, v) ∷ subscribers) results k q h =
      by_key (e.beq c k) refl h (add_subscribers_has subscribers raised_results k q)
    where
      raised_results : Dict K ℕ
      raised_results = put c (raised v (get c results)) results

      by_key :
          (b : Bool)
          → e.beq c k ≡ b
          → (if b then some v else get k subscribers) ≡ some q
          → (get k subscribers ≡ some q
              → AtLeast q (get k (add_subscribers subscribers raised_results)))
          → AtLeast q (get k (add_subscribers subscribers raised_results))
      by_key true eq h later =
          let same : v ≡ q = cc in
          add_subscribers_keeps subscribers raised_results k q (
            subst (λ j. AtLeast q (get j raised_results)) ((e.beq_iff c k).0 eq)
              (subst (λ w. AtLeast w (get c raised_results)) same (raise_has c v results)))
      by_key false eq h later = later h
