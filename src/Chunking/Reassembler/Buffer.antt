-- ===== src/Chunking/Reassembler/Buffer.antt =====
-- What a buffer of src/qdap/chunking/reassembler.py holds while a stream comes in.
use qdap_protocol.Base.{
  elem, ℕ, zero, suc, ◌+◌, ◌<◌, ◌≡◌, refl, sym, ap, ◌∙◌, Bool, true, false, List, [], ◌∷◌, length,
  get_elem?, drop, drop_of_length-le, join, none, some, ok, nat_eq, ==_iff, if◌then◌else◌, arith,
}
use qdap_protocol.Base.Dict.{Dict, get}
use qdap_protocol.Base.Dict.Laws.{get-put, length-put}
use qdap_protocol.Bytes.{Bytes}
use qdap_protocol.Chunking.Reassembler.{StreamBuffer, add_chunk, gather, reassemble}

-- The buffer has the chunks with the indices `seen`, each once, out of the list `pieces`.
pub record Holds (pieces : List Bytes) (seen : List ℕ) (b : StreamBuffer) : Type 0 where
  pub total : b.total_chunks ≡ length pieces
  pub size : length b.chunks ≡ length seen
  pub items : (j : ℕ) → get j b.chunks ≡ (if elem j seen then get_elem? pieces j else none)

module _ {pieces : List Bytes} {seen : List ℕ} {b : StreamBuffer} where
  pub Holds-add_chunk :
      (i : ℕ) (piece : Bytes)
      → Holds pieces seen b
      → elem i seen ≡ false
      → get_elem? pieces i ≡ some piece
      → Holds pieces (i ∷ seen) (add_chunk i piece b)
  unfolding add_chunk
  Holds-add_chunk i piece h fresh found = record {
    total = h.total;
    size = ground (arith, length-put i piece b.chunks, h.size, h.items i);
    items = λ j. ground (arith, get-put i j piece b.chunks, h.items j, ==_iff i j);
  }

pub get_elem?-drop :
    (i : ℕ) (xs : List Bytes)
    → i < length xs
    → (x : Bytes) × (get_elem? xs i ≡ some x) × (drop i xs ≡ x ∷ drop (suc i) xs)
get_elem?-drop i [] h = absurd (omega arith)
get_elem?-drop zero (x ∷ xs) h = (x, refl, refl)
get_elem?-drop (suc i) (x ∷ xs) h = get_elem?-drop i xs (omega arith)

gather-join :
    (n i : ℕ) (pieces : List Bytes) (chunks : Dict ℕ Bytes)
    → i + n ≡ length pieces
    → ((j : ℕ) → j < length pieces → get j chunks ≡ get_elem? pieces j)
    → gather n i chunks ≡ ok (join (drop i pieces))
unfolding gather
gather-join zero i pieces chunks e h =
    ap ok (ap join (sym (drop_of_length-le i pieces (omega arith))))
gather-join (suc n) i pieces chunks e h =
    let (x, found, next) = get_elem?-drop i pieces (omega arith) in
    rw (h i (omega arith), found, gather-join n (suc i) pieces chunks (omega arith) h, next)

-- With every index there, reassembly gives the pieces in order, and does not fail.
pub reassemble-join :
    (pieces : List Bytes) (seen : List ℕ) (b : StreamBuffer)
    → Holds pieces seen b
    → ((j : ℕ) → j < length pieces → elem j seen ≡ true)
    → reassemble b ≡ ok (join pieces)
unfolding reassemble
reassemble-join pieces seen b h every = rw h.total (
    gather-join (length pieces) 0 pieces b.chunks (omega arith)
      (λ j p. h.items j ∙ ap (λ (t : Bool). if t then get_elem? pieces j else none) (every j p)))
