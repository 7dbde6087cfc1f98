-- ===== src/Tcp/Pool.antt =====
-- src/qdap/transport/tcp/pool.py. A connection is named by a number; the lock makes each acquire and
-- each release one step; whether a connection is healthy and whether connecting succeeds is the
-- environment's.
pub mod Calls
pub mod Ownership
use qdap_protocol.Base.{
  ℕ, zero, suc, ◌+◌, ◌-◌, Bool, true, false, ◌&&◌, List, [], ◌∷◌, ◌++◌, length, Option, none, some,
  Result, ok, err, Error, ltb, leb, if◌then◌else◌,
}

pub record ConnectionPool : Type 0 where
  pub min_size : ℕ
  pub max_size : ℕ
  pub idle : List ℕ
  pub active : ℕ
  -- The connections made so far are those below it.
  pub next_connection : ℕ
  pub closed : List ℕ

unfoldable pub new_pool : ℕ → ℕ → ConnectionPool
new_pool min_size max_size = record {
  min_size = min_size;
  max_size = max_size;
  idle = [];
  active = 0;
  next_connection = 0;
  closed = [];
}

-- The next connection, or the exception of connecting.
abbrev pub create_connection : ConnectionPool → Bool → ConnectionPool × Result ℕ
create_connection p true =
    (record p { next_connection = suc p.next_connection }, ok p.next_connection)
create_connection p false = (p, err Error.connection_error)

-- initialize, where every connection succeeds.
unfoldable pub initialize_from : ℕ → ConnectionPool → ConnectionPool
initialize_from zero p = p
initialize_from (suc n) p = initialize_from n (record p {
  idle = p.idle ++ (p.next_connection ∷ []);
  next_connection = suc p.next_connection;
})

abbrev pub initialize : ConnectionPool → ConnectionPool
initialize p = initialize_from p.min_size p

-- `self._active += 1` and the result; an exception comes before it.
abbrev pub hand_out : ConnectionPool × Result ℕ → ConnectionPool × Result ℕ
hand_out (p, err e) = (p, err e)
hand_out (p, ok conn) = (record p { active = suc p.active }, ok conn)

abbrev pub take_idle :
    ConnectionPool → List ℕ → (ℕ → Bool) → Bool → Option (ConnectionPool × Result ℕ)
take_idle p [] healthy connects =
    if leb p.max_size p.active then none else some (hand_out (create_connection p connects))
take_idle p (conn ∷ rest) healthy connects =
    let popped = record p { idle = rest } in
    some (
      if healthy conn
      then hand_out (popped, ok conn)
      else hand_out (create_connection popped connects))

-- `none`: the caller waits.
unfoldable pub acquire : ConnectionPool → (ℕ → Bool) → Bool → Option (ConnectionPool × Result ℕ)
acquire p healthy connects = take_idle p p.idle healthy connects

unfoldable pub release : ConnectionPool → ℕ → Bool → ConnectionPool
release p conn healthy =
    if healthy && ltb (length p.idle) p.min_size
    then record p { idle = p.idle ++ (conn ∷ []); active = p.active - 1 }
    else record p { closed = p.closed ++ (conn ∷ []); active = p.active - 1 }
