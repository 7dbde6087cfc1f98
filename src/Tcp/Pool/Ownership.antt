-- ===== src/Tcp/Pool/Ownership.antt =====
-- Who holds a connection of src/qdap/transport/tcp/pool.py.
use mathlib.Core.Path.{subst}
use qdap_protocol.Base.{
  ℕ, zero, suc, ◌+◌, ◌≤◌, ◌≡◌, refl, sym, ap, ◌∙◌, Bool, true, false, List, [], ◌∷◌, length,
  length-append, elem, some, ok, err, Error, ℕ-eq_or, inl, inr, arith,
}
use qdap_protocol.Base.Distinct.{elem-append, IsDistinct-append, erase}
use qdap_protocol.Tcp.Pool.{ConnectionPool, new_pool, initialize_from, initialize, acquire, release}
use qdap_protocol.Tcp.Pool.Calls.{Inv, next_unused, LeavesIf, take_idle-Leaves, release-Inv}

-- The pool and the connections in use, under the calls of any number of users.
pub data PoolStep (p : ConnectionPool) (out : List ℕ) (p' : ConnectionPool) (out' : List ℕ)
    : Type 0 where
  acquires :
      (healthy : ℕ → Bool) (connects : Bool) (conn : ℕ)
      → acquire p healthy connects ≡ some (p', ok conn)
      → out' ≡ conn ∷ out
      → PoolStep p out p' out'
  fails :
      (healthy : ℕ → Bool) (connects : Bool) (e : Error)
      → acquire p healthy connects ≡ some (p', err e)
      → out' ≡ out
      → PoolStep p out p' out'
  releases :
      (conn : ℕ) (healthy : Bool)
      → elem conn out ≡ true
      → p' ≡ release p conn healthy
      → out' ≡ erase conn out
      → PoolStep p out p' out'

pub data PoolReach (p : ConnectionPool) (out : List ℕ) : ConnectionPool → List ℕ → Type 0 where
  start : PoolReach p out p out
  next :
      {q r : ConnectionPool} {outq outr : List ℕ}
      → PoolReach p out q outq
      → PoolStep q outq r outr
      → PoolReach p out r outr

PoolStep-Inv :
    (p p' : ConnectionPool) (out out' : List ℕ) → PoolStep p out p' out' → Inv p out → Inv p' out'
unfolding acquire
PoolStep-Inv p p' out out' (acquires healthy connects conn got e) v =
    subst (Inv p') (sym e)
      (subst (LeavesIf out) got (take_idle-Leaves p out p.idle healthy connects refl v))
PoolStep-Inv p p' out out' (fails healthy connects x got e) v =
    subst (Inv p') (sym e)
      (subst (LeavesIf out) got (take_idle-Leaves p out p.idle healthy connects refl v))
PoolStep-Inv p p' out out' (releases conn healthy held e f) v =
    subst (Inv p') (sym f)
      (subst (λ q. Inv q (erase conn out)) (sym e) (release-Inv p out conn healthy held v))

-- From a pool that satisfies the invariant, such as a new one, and whatever its users acquire and give
-- back, each only what it holds: no connection is in use twice or in use and idle, as many are in
-- use as the pool counts, at most min_size are idle, and idle and in use together they are at most
-- the greater of min_size and max_size.
pub PoolReach-Inv :
    {p : ConnectionPool} {out : List ℕ} {q : ConnectionPool} {outq : List ℕ}
    → PoolReach p out q outq
    → Inv p out
    → Inv q outq
PoolReach-Inv start v = v
PoolReach-Inv (next {q} {r} {outq} {outr} reach st) v =
    PoolStep-Inv q r outq outr st (PoolReach-Inv reach v)

initialize_from-Inv :
    (n : ℕ) (p : ConnectionPool)
    → length p.idle + n ≤ p.min_size
    → Inv p []
    → Inv (initialize_from n p) []
unfolding initialize_from
initialize_from-Inv zero p room v = v
initialize_from-Inv (suc n) p room v =
    let unused : elem p.next_connection p.idle ≡ false = (next_unused p [] v).0 in
    initialize_from-Inv n _ (omega (arith, length-append p.idle (p.next_connection ∷ []))) (record {
      idle_once =
          IsDistinct-append p.idle (p.next_connection ∷ []) v.idle_once (refl, tt)
            (λ x m. elim (ℕ-eq_or p.next_connection x) [
              | inl e ↦ ap (λ (t : ℕ). elem t p.idle) (sym e) ∙ unused
              | inr k ↦ absurd (ground (arith, m))
            ]);
      out_once = tt;
      apart = λ x m. refl;
      made = λ x m. elim (ℕ-eq_or p.next_connection x) [
        | inl e ↦ omega arith
        | inr k ↦
            omega
              (arith, v.made x (ground (arith, m, elem-append x p.idle (p.next_connection ∷ []))))
      ];
      counted = v.counted;
      few_idle = omega (arith, room, length-append p.idle (p.next_connection ∷ []));
      few = omega (arith, room, v.counted, length-append p.idle (p.next_connection ∷ []));
    })

-- A pool that has been initialized.
pub initialize-Inv : (min_size max_size : ℕ) → Inv (initialize (new_pool min_size max_size)) []
unfolding new_pool
initialize-Inv min_size max_size =
    initialize_from-Inv min_size (new_pool min_size max_size) (omega arith) (record {
      idle_once = tt;
      out_once = tt;
      apart = λ x m. absurd (cc);
      made = λ x m. absurd (cc);
      counted = refl;
      few_idle = omega arith;
      few = omega arith;
    })
