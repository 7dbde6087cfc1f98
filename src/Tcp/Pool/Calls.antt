-- ===== src/Tcp/Pool/Calls.antt =====
-- Each call of src/qdap/transport/tcp/pool.py keeps the connections apart.
use mathlib.Core.Path.{subst}
use qdap_protocol.Base.{
  ℕ, suc, ◌+◌, ◌≤◌, ◌<◌, ◌≡◌, refl, sym, ap, ◌∙◌, Bool, true, false, ◌||◌, ◌&&◌, List, [], ◌∷◌,
  length, length-append, elem, Option, none, some, Result, ok, err, ltb, leb, ◌==◌, max,
  if◌then◌else◌, Bool-cases, ℕ-eq_or, inl, inr, arith,
}
use qdap_protocol.Base.Distinct.{
  IsDistinct, elem-append, IsDistinct-append, erase, elem-erase, length-erase, erase-IsDistinct,
}
use qdap_protocol.Tcp.Pool.{ConnectionPool, create_connection, hand_out, take_idle, release}

pub record Inv (p : ConnectionPool) (out : List ℕ) : Type 0 where
  pub idle_once : IsDistinct p.idle
  pub out_once : IsDistinct out
  pub apart : (x : ℕ) → elem x p.idle ≡ true → elem x out ≡ false
  pub made : (x : ℕ) → elem x p.idle || elem x out ≡ true → x < p.next_connection
  pub counted : length out ≡ p.active
  pub few_idle : length p.idle ≤ p.min_size
  pub few : length p.idle + p.active ≤ max p.min_size p.max_size

-- The front of the idle connections leaves them.
drop_front :
    (p : ConnectionPool) (out : List ℕ) (c : ℕ) (rest : List ℕ)
    → p.idle ≡ c ∷ rest
    → Inv p out
    → Inv (record p { idle = rest }) out
drop_front p out c rest e v =
    let once : IsDistinct (c ∷ rest) = subst IsDistinct e v.idle_once in
    let size : length p.idle ≡ suc (length rest) = ap length e in
    let there : (x : ℕ) → elem x rest ≡ true → elem x p.idle ≡ true =
      λ x m. ap (elem x) e ∙ ground (arith, m) in
    record {
      idle_once = once.1;
      out_once = v.out_once;
      apart = λ x m. v.apart x (there x m);
      made = λ x m. v.made x (ground (arith, there x, m));
      counted = v.counted;
      few_idle = omega (arith, v.few_idle, size);
      few = omega (arith, v.few, size);
    }

-- A connection that is neither idle nor in use, given to a caller.
pub give :
    (q : ConnectionPool) (out : List ℕ) (conn : ℕ)
    → elem conn q.idle ≡ false
    → elem conn out ≡ false
    → conn < q.next_connection
    → length q.idle + suc q.active ≤ max q.min_size q.max_size
    → Inv q out
    → Inv (record q { active = suc q.active }) (conn ∷ out)
give q out conn not_idle not_out below room v = record {
  idle_once = v.idle_once;
  out_once = (not_out, v.out_once);
  apart = λ x m. elim (ℕ-eq_or conn x) [
    | inl e ↦ absurd (cc (ap (λ (t : ℕ). elem t q.idle) e, not_idle, m))
    | inr n ↦ ground (arith, v.apart x m)
  ];
  made = λ x m. elim (ℕ-eq_or conn x) [
    | inl e ↦ omega (arith, below)
    | inr n ↦ v.made x (ground (arith, m))
  ];
  counted = omega (arith, v.counted);
  few_idle = v.few_idle;
  few = room;
}

-- The next connection is neither idle nor in use.
pub next_unused :
    (q : ConnectionPool) (out : List ℕ)
    → Inv q out
    → (elem q.next_connection q.idle ≡ false) × (elem q.next_connection out ≡ false)
next_unused q out v = ground (arith, v.made q.next_connection)

more_made :
    (q : ConnectionPool) (out : List ℕ)
    → Inv q out
    → Inv (record q { next_connection = suc q.next_connection }) out
more_made q out v = record {
  idle_once = v.idle_once;
  out_once = v.out_once;
  apart = v.apart;
  made = λ x m. omega (arith, v.made x m);
  counted = v.counted;
  few_idle = v.few_idle;
  few = v.few;
}

-- What a call leaves: the pool and the connections in use after it.
abbrev pub Leaves : List ℕ → ConnectionPool × Result ℕ → Type 0
Leaves out (p, ok conn) = Inv p (conn ∷ out)
Leaves out (p, err e) = Inv p out

create-Leaves :
    (q : ConnectionPool) (out : List ℕ) (connects : Bool)
    → length q.idle + suc q.active ≤ max q.min_size q.max_size
    → Inv q out
    → Leaves out (hand_out (create_connection q connects))
create-Leaves q out true room v =
    let (not_idle, not_out) = next_unused q out v in
    give (record q { next_connection = suc q.next_connection }) out q.next_connection not_idle
      not_out (omega arith) room (more_made q out v)
create-Leaves q out false room v = v

abbrev pub LeavesIf : List ℕ → Option (ConnectionPool × Result ℕ) → Type 0
LeavesIf out none = Unit
LeavesIf out (some r) = Leaves out r

pub take_idle-Leaves :
    (p : ConnectionPool) (out idle : List ℕ) (healthy : ℕ → Bool) (connects : Bool)
    → p.idle ≡ idle
    → Inv p out
    → LeavesIf out (take_idle p idle healthy connects)
take_idle-Leaves p out [] healthy connects e v = elim (Bool-cases (leb p.max_size p.active)) [
  | inl full ↦ rw full tt
  | inr room ↦
      let less : p.active < p.max_size = ground arith in
      rw room (create-Leaves p out connects (omega (arith, less, ap length e)) v)
]
take_idle-Leaves p out (c ∷ rest) healthy connects e v =
    let dropped : Inv (record p { idle = rest }) out = drop_front p out c rest e v in
    let once : IsDistinct (c ∷ rest) = subst IsDistinct e v.idle_once in
    let was_idle : elem c p.idle ≡ true = ap (elem c) e ∙ ground arith in
    let room : length rest + suc p.active ≤ max p.min_size p.max_size =
      omega (arith, v.few, ap length e) in
    elim (Bool-cases (healthy c)) [
      | inl good ↦ rw good (
          give (record p { idle = rest }) out c once.0 (v.apart c was_idle)
            (v.made c (ground (arith, was_idle))) room dropped)
      | inr bad ↦ rw bad (create-Leaves (record p { idle = rest }) out connects room dropped)
    ]

-- A connection that its user gives back goes to the idle ones or is closed.
pub release-Inv :
    (p : ConnectionPool) (out : List ℕ) (conn : ℕ) (healthy : Bool)
    → elem conn out ≡ true
    → Inv p out
    → Inv (release p conn healthy) (erase conn out)
unfolding release
release-Inv p out conn healthy held v =
    let idle_not : elem conn p.idle ≡ false = ground (arith, v.apart conn, held) in
    let fewer : suc (length (erase conn out)) ≡ length out = length-erase conn out held in
    let out_of : (x : ℕ) → elem x (erase conn out) ≡ (if conn == x then false else elem x out) =
      λ x. elem-erase conn x out v.out_once in
    elim (Bool-cases (healthy && ltb (length p.idle) p.min_size)) [
      | inl kept ↦ rw kept (record {
        idle_once =
            IsDistinct-append p.idle (conn ∷ []) v.idle_once (refl, tt)
              (λ x m. elim (ℕ-eq_or conn x) [
                | inl e ↦ ap (λ (t : ℕ). elem t p.idle) (sym e) ∙ idle_not
                | inr n ↦ absurd (ground (arith, m))
              ]);
        out_once = erase-IsDistinct conn out v.out_once;
        apart = λ x m. ground (arith, m, elem-append x p.idle (conn ∷ []), v.apart x, out_of x);
        made = λ x m. elim (ℕ-eq_or conn x) [
          | inl e ↦ omega (arith, v.made conn (ground (arith, held)), e)
          | inr n ↦ v.made x (ground (arith, m, elem-append x p.idle (conn ∷ []), out_of x))
        ];
        counted = omega (arith, fewer, v.counted);
        few_idle = ground (arith, kept, length-append p.idle (conn ∷ []));
        few = omega (arith, v.few, length-append p.idle (conn ∷ []), fewer, v.counted);
      })
      | inr not_kept ↦ rw not_kept (record {
        idle_once = v.idle_once;
        out_once = erase-IsDistinct conn out v.out_once;
        apart = λ x m. ground (arith, v.apart x, m, out_of x);
        made = λ x m. v.made x (ground (arith, m, out_of x));
        counted = omega (arith, fewer, v.counted);
        few_idle = v.few_idle;
        few = omega (arith, v.few);
      })
    ]
