-- ===== src/Broker/TopicTree/Valid.antt =====
-- The invariant of the tree of src/qdap/broker/topic_tree.py: no node has a subscriber twice.
use qdap_protocol.Base.{ℕ, inl, inr, List, [], ◌∷◌, Option, none, some, Eq, list_eq, Bool-cases}
use qdap_protocol.Base.Dict.Unique.{IsUnique, put-IsUnique, remove-IsUnique}
use qdap_protocol.Broker.Utf8.{Text}
use qdap_protocol.Broker.TopicTree.{
  TopicNode, topic_node, Children, no_child, child, new_node, find_child, put_child, or_new,
  subscribe_node, unsubscribe_node, remove_from_node, remove_from_children, subscribe, unsubscribe,
  split_slash,
}

module _ {K : Type 0} ⦃e : Eq K⦄ where
  unfoldable mutual
    pub IsValid : TopicNode K → Type 0
    IsValid (topic_node children subscribers) = IsUnique subscribers × AreValid children

    pub AreValid : Children K → Type 0
    AreValid no_child = Unit
    AreValid (child name node rest) = IsValid node × AreValid rest

  abbrev pub IsValidIfAny : Option (TopicNode K) → Type 0
  IsValidIfAny none = Unit
  IsValidIfAny (some node) = IsValid node

  pub find_child-IsValid :
      (p : Text) (children : Children K) → AreValid children → IsValidIfAny (find_child p children)
  unfolding IsValid find_child
  find_child-IsValid p no_child v = tt
  find_child-IsValid p (child name node rest) v = elim (Bool-cases (list_eq name p)) [
    | inl b ↦ rw b (v.0)
    | inr b ↦ rw b (find_child-IsValid p rest v.1)
  ]

  put_child-AreValid :
      (p : Text) (node : TopicNode K) (children : Children K)
      → IsValid node
      → AreValid children
      → AreValid (put_child p node children)
  unfolding IsValid put_child
  put_child-AreValid p node no_child v w = (v, tt)
  put_child-AreValid p node (child name old rest) v w = elim (Bool-cases (list_eq name p)) [
    | inl b ↦ rw b (v, w.1)
    | inr b ↦ rw b (w.0, put_child-AreValid p node rest v w.1)
  ]

  or_new-IsValid : (found : Option (TopicNode K)) → IsValidIfAny found → IsValid (or_new found)
  unfolding IsValid
  or_new-IsValid none v = (tt, tt)
  or_new-IsValid (some node) v = v

  pub subscribe_node-IsValid :
      (node : TopicNode K) (f : List Text) (c : K) (qos : ℕ)
      → IsValid node
      → IsValid (subscribe_node node f c qos)
  unfolding IsValid subscribe_node
  subscribe_node-IsValid (topic_node children subscribers) [] c qos v =
      (put-IsUnique c qos subscribers v.0, v.1)
  subscribe_node-IsValid (topic_node children subscribers) (p ∷ ps) c qos v = (
    v.0,
    put_child-AreValid p (subscribe_node (or_new (find_child p children)) ps c qos) children
        (subscribe_node-IsValid (or_new (find_child p children)) ps c qos
          (or_new-IsValid (find_child p children) (find_child-IsValid p children v.1)))
        v.1,
  )

  pub unsubscribe_node-IsValid :
      (node : TopicNode K) (f : List Text) (c : K)
      → IsValid node
      → IsValid (unsubscribe_node node f c)
  unfolding IsValid unsubscribe_node
  unsubscribe_node-IsValid (topic_node children subscribers) [] c v =
      (remove-IsUnique c subscribers v.0, v.1)
  unsubscribe_node-IsValid (topic_node children subscribers) (p ∷ ps) c v =
      through_child (find_child p children) (find_child-IsValid p children v.1)
        (λ node. unsubscribe_node-IsValid node ps c)
    where
      through_child :
          (found : Option (TopicNode K))
          → IsValidIfAny found
          → ((node : TopicNode K) → IsValid node → IsValid (unsubscribe_node node ps c))
          → IsValid (elim found [
            | none ↦ topic_node children subscribers
            | some node ↦ topic_node (put_child p (unsubscribe_node node ps c) children) subscribers
          ])
      through_child none w ih = v
      through_child (some node) w ih =
          (v.0, put_child-AreValid p (unsubscribe_node node ps c) children (ih node w) v.1)

  mutual
    unfolding IsValid remove_from_node

    removed_node : (node : TopicNode K) (c : K) → IsValid node → IsValid (remove_from_node node c)
    removed_node (topic_node children subscribers) c v =
        (remove-IsUnique c subscribers v.0, removed_children children c v.1)

    removed_children :
        (children : Children K) (c : K)
        → AreValid children
        → AreValid (remove_from_children children c)
    removed_children no_child c v = tt
    removed_children (child name node rest) c v =
        (removed_node node c v.0, removed_children rest c v.1)

  pub remove_from_node-IsValid :
      (node : TopicNode K) (c : K) → IsValid node → IsValid (remove_from_node node c)
  remove_from_node-IsValid = removed_node

  -- The trees that the operations make of an empty one.
  pub data IsReachable : TopicNode K → Type 0 where
    empty_tree : IsReachable new_node
    subscribed :
        {root : TopicNode K}
        → IsReachable root
        → (client : K) (topic_filter : Text) (qos : ℕ)
        → IsReachable (subscribe root client topic_filter qos)
    unsubscribed :
        {root : TopicNode K}
        → IsReachable root
        → (client : K) (topic_filter : Text) → IsReachable (unsubscribe root client topic_filter)
    client_removed :
        {root : TopicNode K}
        → IsReachable root
        → (client : K) → IsReachable (remove_from_node root client)

  pub IsReachable-IsValid : (root : TopicNode K) → IsReachable root → IsValid root
  unfolding IsValid subscribe unsubscribe
  IsReachable-IsValid _ empty_tree = (tt, tt)
  IsReachable-IsValid _ (subscribed {root} r client topic_filter qos) =
      subscribe_node-IsValid root (split_slash topic_filter) client qos (IsReachable-IsValid root r)
  IsReachable-IsValid _ (unsubscribed {root} r client topic_filter) =
      unsubscribe_node-IsValid root (split_slash topic_filter) client (IsReachable-IsValid root r)
  IsReachable-IsValid _ (client_removed {root} r client) =
      remove_from_node-IsValid root client (IsReachable-IsValid root r)
