-- ===== src/Broker/TopicTree.antt =====
-- src/qdap/broker/topic_tree.py: the tree of topic filters with their subscribers.
pub mod Laws
pub mod Valid
pub mod Match
use qdap_protocol.Base.{
  ℕ, Bool, true, false, List, [], ◌∷◌, Option, none, some, max, ◌==◌, if◌then◌else◌, Eq, list_eq,
}
use qdap_protocol.Base.Dict.{Dict, get, put, remove}
use qdap_protocol.Broker.Utf8.{Text}

-- The parts of a topic: `topic.split("/")`, which is never empty.
unfoldable pub split_slash : Text → List Text
split_slash [] = [] ∷ []
split_slash (c ∷ cs) =
    let rest = split_slash cs in
    if c == 0x2f
    then [] ∷ rest
    else elim rest [ [] ↦ (c ∷ []) ∷ [] | part ∷ parts ↦ (c ∷ part) ∷ parts ]

-- "+" and "#"
abbrev pub plus : Text
plus = 0x2b ∷ []

abbrev pub hash_sign : Text
hash_sign = 0x23 ∷ []

-- max(results.get(client_id, 0), qos)
abbrev pub raised : ℕ → Option ℕ → ℕ
raised qos none = max 0 qos
raised qos (some q) = max q qos

-- The keys K of the subscribers are client ids. A dictionary of children is a list of pairs.
mutual
  pub data TopicNode (K : Type 0) : Type 0 where
    topic_node : Children K → Dict K ℕ → TopicNode K

  pub data Children (K : Type 0) : Type 0 where
    no_child : Children K
    child : Text → TopicNode K → Children K → Children K

module _ {K : Type 0} where
  -- TopicNode()
  abbrev pub new_node : TopicNode K
  new_node = topic_node no_child []

  -- node.children.get(part)
  unfoldable pub find_child : Text → Children K → Option (TopicNode K)
  find_child part no_child = none
  find_child part (child name node rest) =
      if list_eq name part then some node else find_child part rest

  -- node.children[part] = node
  unfoldable pub put_child : Text → TopicNode K → Children K → Children K
  put_child part node no_child = child part node no_child
  put_child part node (child name old rest) =
      let rest' = put_child part node rest in
      if list_eq name part then child name node rest else child name old rest'

  abbrev pub or_new : Option (TopicNode K) → TopicNode K
  or_new none = new_node
  or_new (some node) = node

module _ {K : Type 0} ⦃e : Eq K⦄ where
  -- The loop of subscribe from a node on.
  unfoldable pub subscribe_node : TopicNode K → List Text → K → ℕ → TopicNode K
  subscribe_node (topic_node children subscribers) [] client qos =
      topic_node children (put client qos subscribers)
  subscribe_node (topic_node children subscribers) (part ∷ parts) client qos =
      topic_node
        (put_child part (subscribe_node (or_new (find_child part children)) parts client qos)
          children)
        subscribers

  unfoldable pub subscribe : TopicNode K → K → Text → ℕ → TopicNode K
  subscribe root client topic_filter qos = subscribe_node root (split_slash topic_filter) client qos

  unfoldable pub unsubscribe_node : TopicNode K → List Text → K → TopicNode K
  unsubscribe_node (topic_node children subscribers) [] client =
      topic_node children (remove client subscribers)
  unsubscribe_node (topic_node children subscribers) (part ∷ parts) client =
      elim (find_child part children) [
        | none ↦ topic_node children subscribers
        | some node ↦
            topic_node (put_child part (unsubscribe_node node parts client) children) subscribers
      ]

  unfoldable pub unsubscribe : TopicNode K → K → Text → TopicNode K
  unsubscribe root client topic_filter = unsubscribe_node root (split_slash topic_filter) client

  -- `for client_id, qos in subscribers.items()` with its assignment to results[client_id].
  unfoldable pub add_subscribers : Dict K ℕ → Dict K ℕ → Dict K ℕ
  add_subscribers [] results = results
  add_subscribers ((client, qos) ∷ subscribers) results =
      add_subscribers subscribers (put client (raised qos (get client results)) results)

  unfoldable pub add_node : Option (TopicNode K) → Dict K ℕ → Dict K ℕ
  add_node none results = results
  add_node (some (topic_node children subscribers)) results = add_subscribers subscribers results

  unfoldable pub match_node : TopicNode K → List Text → Dict K ℕ → Dict K ℕ
  match_node (topic_node children subscribers) [] results = add_subscribers subscribers results
  match_node (topic_node children subscribers) (part ∷ parts) results =
      let exact : Dict K ℕ = elim (find_child part children) [
        | none ↦ results
        | some node ↦ match_node node parts results
      ] in
      let single : Dict K ℕ = elim (find_child plus children) [
        | none ↦ exact
        | some node ↦ match_node node parts exact
      ] in
      add_node (find_child hash_sign children) single

  unfoldable pub match_topic : TopicNode K → Text → Dict K ℕ
  match_topic root topic = match_node root (split_slash topic) []

  unfoldable mutual
    pub remove_from_node : TopicNode K → K → TopicNode K
    remove_from_node (topic_node children subscribers) client =
        topic_node (remove_from_children children client) (remove client subscribers)

    pub remove_from_children : Children K → K → Children K
    remove_from_children no_child client = no_child
    remove_from_children (child name node rest) client =
        child name (remove_from_node node client) (remove_from_children rest client)
