-- ===== src/Broker/TopicTree/Laws.antt =====
-- The tree of topic filters as a table: the QoS of each filter and client, how each operation of
-- src/qdap/broker/topic_tree.py changes it, and the invariant that no subscriber stands twice.
use qdap_protocol.Base.{
  ℕ, ◌≡◌, refl, ap, ◌∙◌, Bool, true, false, ◌&&◌, List, [], ◌∷◌, Option, none, some, if◌then◌else◌,
  Eq, list_eq, list_eq_iff, arith,
}
use qdap_protocol.Base.Dict.{Dict, get}
use qdap_protocol.Base.Dict.Laws.{get-put, get-remove}
use qdap_protocol.Broker.Utf8.{Text}
use qdap_protocol.Broker.TopicTree.{
  TopicNode, topic_node, Children, no_child, child, new_node, find_child, put_child, or_new,
  subscribe_node, unsubscribe_node, remove_from_node, remove_from_children,
}

-- The same parts.
abbrev pub parts_eq : List Text → List Text → Bool
parts_eq [] [] = true
parts_eq [] (q ∷ qs) = false
parts_eq (p ∷ ps) [] = false
parts_eq (p ∷ ps) (q ∷ qs) = list_eq p q && parts_eq ps qs

module _ {K : Type 0} where
  pub find_child-put_child :
      (p q : Text) (node : TopicNode K) (children : Children K)
      → find_child q (put_child p node children)
        ≡ (if list_eq p q then some node else find_child q children)
  unfolding find_child put_child
  find_child-put_child p q node no_child = refl
  find_child-put_child p q node (child name old rest) = ground (
    arith,
    list_eq_iff name p,
    list_eq_iff name q,
    list_eq_iff p q,
    find_child-put_child p q node rest,
  )

module _ {K : Type 0} ⦃e : Eq K⦄ where
  -- The QoS of a client at a filter.
  unfoldable pub qos_at : TopicNode K → List Text → K → Option ℕ
  qos_at (topic_node children subscribers) [] client = get client subscribers
  qos_at (topic_node children subscribers) (part ∷ parts) client = elim (find_child part children) [
    | none ↦ none
    | some node ↦ qos_at node parts client
  ]

  qos_at-new_node : (parts : List Text) (k : K) → qos_at new_node parts k ≡ none
  unfolding qos_at get find_child
  qos_at-new_node [] k = refl
  qos_at-new_node (p ∷ ps) k = refl

  qos_at-or_new :
      (children : Children K) (subscribers : Dict K ℕ) (p : Text) (ps : List Text) (k : K)
      → qos_at (or_new (find_child p children)) ps k
        ≡ qos_at (topic_node children subscribers) (p ∷ ps) k
  unfolding qos_at
  qos_at-or_new children subscribers p ps k = by_child (find_child p children)
    where
      by_child :
          (found : Option (TopicNode K))
          → qos_at (or_new found) ps k ≡ elim found [ none ↦ none | some node ↦ qos_at node ps k ]
      by_child none = qos_at-new_node ps k
      by_child (some node) = refl

  -- A write through a child is read through it.
  qos_at-put_child :
      (node : TopicNode K) (children : Children K) (subscribers : Dict K ℕ) (p r : Text)
      (rs : List Text) (k : K)
      → qos_at (topic_node (put_child p node children) subscribers) (r ∷ rs) k ≡ (
          if list_eq p r
          then qos_at node rs k
          else qos_at (topic_node children subscribers) (r ∷ rs) k)
  unfolding qos_at
  qos_at-put_child node children subscribers p r rs k =
      ap through (find_child-put_child p r node children) ∙ by_test (list_eq p r)
    where
      through : Option (TopicNode K) → Option ℕ
      through found = elim found [ none ↦ none | some n ↦ qos_at n rs k ]

      by_test :
          (b : Bool)
          → through (if b then some node else find_child r children)
            ≡ (if b then qos_at node rs k else through (find_child r children))
      by_test true = refl
      by_test false = refl

  -- Subscribing sets the QoS of one filter and one client, and nothing else.
  pub qos_at-subscribe_node :
      (node : TopicNode K) (f g : List Text) (c k : K) (qos : ℕ)
      → qos_at (subscribe_node node f c qos) g k
        ≡ (if parts_eq f g && e.beq c k then some qos else qos_at node g k)
  unfolding qos_at subscribe_node
  qos_at-subscribe_node (topic_node children subscribers) [] [] c k qos =
      get-put c k qos subscribers
  qos_at-subscribe_node (topic_node children subscribers) [] (r ∷ rs) c k qos = refl
  qos_at-subscribe_node (topic_node children subscribers) (p ∷ ps) [] c k qos = refl
  qos_at-subscribe_node (topic_node children subscribers) (p ∷ ps) (r ∷ rs) c k qos =
      qos_at-put_child (subscribe_node (or_new (find_child p children)) ps c qos) children
        subscribers p r rs k
      ∙ ground (
        arith,
        qos_at-subscribe_node (or_new (find_child p children)) ps rs c k qos,
        list_eq_iff p r,
        qos_at-or_new children subscribers p rs k,
      )

  unsubscribe_none :
      (children : Children K) (subscribers : Dict K ℕ) (p : Text) (ps : List Text) (c : K)
      → find_child p children ≡ none
      → unsubscribe_node (topic_node children subscribers) (p ∷ ps) c
        ≡ topic_node children subscribers
  unfolding unsubscribe_node
  unsubscribe_none children subscribers p ps c eq = rw (unsubscribe_node, eq)

  unsubscribe_some :
      (children : Children K) (subscribers : Dict K ℕ) (p : Text) (ps : List Text) (c : K)
      (node : TopicNode K)
      → find_child p children ≡ some node
      → unsubscribe_node (topic_node children subscribers) (p ∷ ps) c
        ≡ topic_node (put_child p (unsubscribe_node node ps c) children) subscribers
  unfolding unsubscribe_node
  unsubscribe_some children subscribers p ps c node eq = rw (unsubscribe_node, eq)

  unsubscribe_step :
      (children : Children K) (subscribers : Dict K ℕ) (p : Text) (ps g : List Text) (c k : K)
      (found : Option (TopicNode K))
      → find_child p children ≡ found
      → ((node : TopicNode K) (rs : List Text)
          → qos_at (unsubscribe_node node ps c) rs k
            ≡ (if parts_eq ps rs && e.beq c k then none else qos_at node rs k))
      → qos_at (unsubscribe_node (topic_node children subscribers) (p ∷ ps) c) g k ≡ (
          if parts_eq (p ∷ ps) g && e.beq c k
          then none
          else qos_at (topic_node children subscribers) g k)
  unfolding qos_at
  unsubscribe_step children subscribers p ps g c k none eq ih =
      ap (λ n. qos_at n g k) (unsubscribe_none children subscribers p ps c eq) ∙ absent g
    where
      absent :
          (g : List Text)
          → qos_at (topic_node children subscribers) g k ≡ (
              if parts_eq (p ∷ ps) g && e.beq c k
              then none
              else qos_at (topic_node children subscribers) g k)
      absent [] = refl
      absent (r ∷ rs) = ground (arith, list_eq_iff p r, eq)
  unsubscribe_step children subscribers p ps g c k (some node) eq ih =
      ap (λ n. qos_at n g k) (unsubscribe_some children subscribers p ps c node eq) ∙ present g
    where
      present :
          (g : List Text)
          → qos_at (topic_node (put_child p (unsubscribe_node node ps c) children) subscribers) g k
            ≡ (if parts_eq (p ∷ ps) g && e.beq c k
                then none
                else qos_at (topic_node children subscribers) g k)
      present [] = refl
      present (r ∷ rs) =
          qos_at-put_child (unsubscribe_node node ps c) children subscribers p r rs k
          ∙ ground (arith, list_eq_iff p r, eq, ih node rs)

  -- Unsubscribing removes one client from one filter, and changes nothing else.
  pub qos_at-unsubscribe_node :
      (node : TopicNode K) (f g : List Text) (c k : K)
      → qos_at (unsubscribe_node node f c) g k
        ≡ (if parts_eq f g && e.beq c k then none else qos_at node g k)
  unfolding qos_at unsubscribe_node
  qos_at-unsubscribe_node (topic_node children subscribers) [] [] c k = get-remove c k subscribers
  qos_at-unsubscribe_node (topic_node children subscribers) [] (r ∷ rs) c k = refl
  qos_at-unsubscribe_node (topic_node children subscribers) (p ∷ ps) g c k =
      unsubscribe_step children subscribers p ps g c k (find_child p children) refl
        (λ node rs. qos_at-unsubscribe_node node ps rs c k)

  abbrev qos_below : Children K → Text → List Text → K → Option ℕ
  qos_below children p ps k = qos_at (topic_node children []) (p ∷ ps) k

  qos_below-remove :
      (children : Children K) (p : Text) (ps : List Text) (c k : K)
      → ((node : TopicNode K)
          → qos_at (remove_from_node node c) ps k ≡ (if e.beq c k then none else qos_at node ps k))
      → qos_below (remove_from_children children c) p ps k
        ≡ (if e.beq c k then none else qos_below children p ps k)
  unfolding qos_at find_child remove_from_node
  qos_below-remove no_child p ps c k ih = ground arith
  qos_below-remove (child name node rest) p ps c k ih =
      ground (arith, ih node, qos_below-remove rest p ps c k ih)

  -- Removing a client leaves no subscription of its own, and those of the others.
  pub qos_at-remove_from_node :
      (node : TopicNode K) (g : List Text) (c k : K)
      → qos_at (remove_from_node node c) g k ≡ (if e.beq c k then none else qos_at node g k)
  unfolding qos_at remove_from_node
  qos_at-remove_from_node (topic_node children subscribers) [] c k = get-remove c k subscribers
  qos_at-remove_from_node (topic_node children subscribers) (p ∷ ps) c k =
      qos_below-remove children p ps c k (λ node. qos_at-remove_from_node node ps c k)
