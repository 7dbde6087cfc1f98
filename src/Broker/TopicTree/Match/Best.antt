-- ===== src/Broker/TopicTree/Match/Best.antt =====
-- Matching in src/qdap/broker/topic_tree.py: nothing is found that no filter gives, and the highest
-- QoS is found.
use mathlib.Core.Path.{subst}
use qdap_protocol.Base.{
  ℕ, ◌≡◌, refl, sym, ◌⊎◌, inl, inr, true, List, [], ◌∷◌, Option, none, some, Eq,
}
use qdap_protocol.Base.Dict.{Dict, get}
use qdap_protocol.Broker.Utf8.{Text}
use qdap_protocol.Broker.TopicTree.{
  TopicNode, topic_node, find_child, plus, hash_sign, add_node, match_node, match_topic,
  split_slash,
}
use qdap_protocol.Broker.TopicTree.Laws.{qos_at}
use qdap_protocol.Broker.TopicTree.Valid.{
  IsValid, IsValidIfAny, find_child-IsValid, IsReachable, IsReachable-IsValid,
}
use qdap_protocol.Broker.TopicTree.Match.{
  matches, AtLeast, matches_exact, matches_hash, matches-plus, matches_cases, add_subscribers_sound,
  add_subscribers_keeps, add_subscribers_has,
}

module _ {K : Type 0} ⦃e : Eq K⦄ where
  -- A filter that matches, with the QoS of the client there.
  abbrev pub Origin : TopicNode K → List Text → K → ℕ → Type 0
  Origin node topic k q = (f : List Text) × (matches f topic ≡ true) × (qos_at node f k ≡ some q)

  -- The QoS below a child, if there is one.
  abbrev qos_in : Option (TopicNode K) → List Text → K → Option ℕ
  qos_in found f k = elim found [ none ↦ none | some node ↦ qos_at node f k ]

  abbrev match_in : Option (TopicNode K) → List Text → Dict K ℕ → Dict K ℕ
  match_in found topic results = elim found [
    | none ↦ results
    | some node ↦ match_node node topic results
  ]

  abbrev OriginIn : Option (TopicNode K) → List Text → K → ℕ → Type 0
  OriginIn found topic k q =
      (f : List Text) × (matches f topic ≡ true) × (qos_in found f k ≡ some q)

  add_node_sound :
      (found : Option (TopicNode K)) (results : Dict K ℕ) (k : K) (q : ℕ)
      → IsValidIfAny found
      → get k (add_node found results) ≡ some q
      → (get k results ≡ some q) ⊎ (qos_in found [] k ≡ some q)
  unfolding add_node qos_at IsValid
  add_node_sound none results k q v h = inl h
  add_node_sound (some (topic_node children subscribers)) results k q v h =
      add_subscribers_sound subscribers results k q v.0 h

  match_in_sound :
      (found : Option (TopicNode K)) (topic : List Text) (results : Dict K ℕ) (k : K) (q : ℕ)
      → IsValidIfAny found
      → ((node : TopicNode K) (results : Dict K ℕ)
          → IsValid node
          → get k (match_node node topic results) ≡ some q
          → (get k results ≡ some q) ⊎ Origin node topic k q)
      → get k (match_in found topic results) ≡ some q
      → (get k results ≡ some q) ⊎ OriginIn found topic k q
  match_in_sound none topic results k q v ih h = inl h
  match_in_sound (some node) topic results k q v ih h = ih node results v h

  -- Every QoS found was found before, or is the QoS of the client at a filter that matches.
  pub match_node_sound :
      (node : TopicNode K) (topic : List Text) (results : Dict K ℕ) (k : K) (q : ℕ)
      → IsValid node
      → get k (match_node node topic results) ≡ some q
      → (get k results ≡ some q) ⊎ Origin node topic k q
  unfolding match_node qos_at IsValid
  match_node_sound (topic_node children subscribers) [] results k q v h =
      elim (add_subscribers_sound subscribers results k q v.0 h) [
        | inl old ↦ inl old
        | inr new ↦ inr ([], refl, new)
      ]
  match_node_sound (topic_node children subscribers) (t ∷ ts) results k q v h =
      let exact : Dict K ℕ = match_in (find_child t children) ts results in
      let single : Dict K ℕ = match_in (find_child plus children) ts exact in
      elim (add_node_sound (find_child hash_sign children) single k q
        (find_child-IsValid hash_sign children v.1) h) [
          | inr new ↦ inr (hash_sign ∷ [], matches_hash t ts, new)
          | inl h1 ↦
              elim (match_in_sound (find_child plus children) ts exact k q
                (find_child-IsValid plus children v.1) (λ n r w g. match_node_sound n ts r k q w g)
                h1) [
                  | inr o ↦ inr (plus ∷ o.0, matches-plus t o.0 ts o.1, o.2)
                  | inl h2 ↦
                      elim (match_in_sound (find_child t children) ts results k q
                        (find_child-IsValid t children v.1)
                        (λ n r w g. match_node_sound n ts r k q w g) h2) [
                          | inr o ↦ inr (t ∷ o.0, matches_exact t o.0 ts o.1, o.2)
                          | inl h3 ↦ inl h3
                        ]
                ]
        ]

  add_node_keeps :
      (found : Option (TopicNode K)) (results : Dict K ℕ) (k : K) (q : ℕ)
      → AtLeast q (get k results)
      → AtLeast q (get k (add_node found results))
  unfolding add_node
  add_node_keeps none results k q h = h
  add_node_keeps (some (topic_node children subscribers)) results k q h =
      add_subscribers_keeps subscribers results k q h

  add_node_has :
      (found : Option (TopicNode K)) (results : Dict K ℕ) (k : K) (q : ℕ)
      → qos_in found [] k ≡ some q
      → AtLeast q (get k (add_node found results))
  unfolding add_node qos_at
  add_node_has none results k q h = absurd (cc)
  add_node_has (some (topic_node children subscribers)) results k q h =
      add_subscribers_has subscribers results k q h

  match_in_keeps :
      (found : Option (TopicNode K)) (topic : List Text) (results : Dict K ℕ) (k : K) (q : ℕ)
      → ((node : TopicNode K) → AtLeast q (get k (match_node node topic results)))
      → AtLeast q (get k results)
      → AtLeast q (get k (match_in found topic results))
  match_in_keeps none topic results k q ih h = h
  match_in_keeps (some node) topic results k q ih h = ih node

  match_in_has :
      (found : Option (TopicNode K)) (topic f : List Text) (results : Dict K ℕ) (k : K) (q : ℕ)
      → ((node : TopicNode K)
          → qos_at node f k ≡ some q
          → AtLeast q (get k (match_node node topic results)))
      → qos_in found f k ≡ some q
      → AtLeast q (get k (match_in found topic results))
  match_in_has none topic f results k q ih h = absurd (cc)
  match_in_has (some node) topic f results k q ih h = ih node h

  match_node_keeps :
      (node : TopicNode K) (topic : List Text) (results : Dict K ℕ) (k : K) (q : ℕ)
      → AtLeast q (get k results)
      → AtLeast q (get k (match_node node topic results))
  unfolding match_node
  match_node_keeps (topic_node children subscribers) [] results k q h =
      add_subscribers_keeps subscribers results k q h
  match_node_keeps (topic_node children subscribers) (t ∷ ts) results k q h =
      let exact : Dict K ℕ = match_in (find_child t children) ts results in
      let single : Dict K ℕ = match_in (find_child plus children) ts exact in
      let after_exact : AtLeast q (get k exact) =
        match_in_keeps (find_child t children) ts results k q
          (λ n. match_node_keeps n ts results k q h) h in
      let after_single : AtLeast q (get k single) =
        match_in_keeps (find_child plus children) ts exact k q
          (λ n. match_node_keeps n ts exact k q after_exact) after_exact in
      add_node_keeps (find_child hash_sign children) single k q after_single

  -- A client with a filter that matches is found, with the QoS of that filter at least.
  pub match_node_complete :
      (node : TopicNode K) (f topic : List Text) (results : Dict K ℕ) (k : K) (q : ℕ)
      → matches f topic ≡ true
      → qos_at node f k ≡ some q
      → AtLeast q (get k (match_node node topic results))
  unfolding match_node qos_at
  match_node_complete (topic_node children subscribers) [] [] results k q m h =
      add_subscribers_has subscribers results k q h
  match_node_complete node [] (t ∷ ts) results k q m h = absurd (cc)
  match_node_complete node (p ∷ ps) [] results k q m h = absurd (cc)
  match_node_complete (topic_node children subscribers) (p ∷ ps) (t ∷ ts) results k q m h =
      let exact : Dict K ℕ = match_in (find_child t children) ts results in
      let single : Dict K ℕ = match_in (find_child plus children) ts exact in
      elim (matches_cases p ps t ts m) [
        | inl c ↦
            let found : AtLeast q (get k exact) =
              match_in_has (find_child t children) ts ps results k q
                (λ n g. match_node_complete n ps ts results k q c.1 g)
                (subst (λ x. qos_in (find_child x children) ps k ≡ some q) (sym c.0) h) in
            add_node_keeps (find_child hash_sign children) single k q (
              match_in_keeps (find_child plus children) ts exact k q
                (λ n. match_node_keeps n ts exact k q found) found)
        | inr c ↦ elim c [
          | inl d ↦ add_node_keeps (find_child hash_sign children) single k q (
              match_in_has (find_child plus children) ts ps exact k q
                (λ n g. match_node_complete n ps ts exact k q d.1 g)
                (subst (λ x. qos_in (find_child x children) ps k ≡ some q) (sym d.0) h))
          | inr d ↦ add_node_has (find_child hash_sign children) single k q (
              subst (λ x. qos_in (find_child x children) [] k ≡ some q) (sym d.0)
                (subst (λ xs. qos_in (find_child p children) xs k ≡ some q) d.1 h))
        ]
      ]

  -- In a tree that subscribing, unsubscribing and removing clients can make, matching a topic finds each client that has a filter which matches, with the
  -- highest QoS of those filters: the QoS found is that of such a filter, and none has a higher one.
  pub match_topic_max :
      (root : TopicNode K) (topic : Text) (k : K)
      → IsReachable root
      → ((q : ℕ) → get k (match_topic root topic) ≡ some q → Origin root (split_slash topic) k q)
        × ((f : List Text) (r : ℕ)
            → matches f (split_slash topic) ≡ true
            → qos_at root f k ≡ some r
            → AtLeast r (get k (match_topic root topic)))
  unfolding match_topic get
  match_topic_max root topic k reached = (
    λ q h.
        or_nothing q
          (match_node_sound root (split_slash topic) [] k q (IsReachable-IsValid root reached) h),
    λ f r m g. match_node_complete root f (split_slash topic) [] k r m g,
  )
    where
      or_nothing :
          (q : ℕ)
          → (get k [] ≡ some q) ⊎ Origin root (split_slash topic) k q
          → Origin root (split_slash topic) k q
      or_nothing q (inl before) = absurd (cc)
      or_nothing q (inr origin) = origin
