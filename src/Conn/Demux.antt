-- ===== src/Conn/Demux.antt =====
-- Which connection a packet belongs to: the ports of the clients and of the servers never meet.
use mathlib.Core.Path.{subst}
use damat_tutorial.Prelude.{
  ℕ, zero, suc, ◌+◌, ◌<◌, ◌≤◌, ◌≡◌, ◌≢◌, ◌∙◌, refl, ap, sym, Bool, true, false, arith, some, List,
  [], ◌∷◌, ◌==◌, Bool-cases, inl, inr, length, get_or-set_self, get_or-set_other, length-set, set,
}
use damat_tutorial.Packet.{PacketId}
use damat_tutorial.Conn.{
  ConnState, conn_closed, conn_open, ConnType, conn_client, conn_server, Conn, Conns, conn_at,
  blank_conn, first_conn, belongs_to, find_existing,
}

-- The destination port of what an open connection receives
abbrev pub OwnPort : ℕ → ConnState → ConnType → ℕ → ℕ → Type 0
OwnPort bound conn_closed conn_type sport dport = Unit
OwnPort bound conn_open conn_client sport dport = dport ≡ sport
OwnPort bound conn_open conn_server sport dport = dport ≤ bound

abbrev pub Own : ℕ → Conn → Type 0
Own bound c = OwnPort bound c.state c.conn_type c.sport_outgoing c.idin.dport

-- Each connection has the source port of its number, and open ones keep to their ports.
pub record IsPool (bound : ℕ) (arr : List Conn) : Type 0 where
  pub ports : (i : ℕ) → i < length arr → (conn_at arr i).sport_outgoing ≡ bound + 1 + i
  pub own : (i : ℕ) → i < length arr → Own bound (conn_at arr i)

pub first_conn_lem :
    (test : Conn → Bool) (i : ℕ) (arr : List Conn) (j : ℕ)
    → j < length arr
    → test (conn_at arr j) ≡ true
    → ((k : ℕ) → k < j → test (conn_at arr k) ≡ false)
    → first_conn test i arr ≡ some (i + j)
unfolding first_conn
first_conn_lem test i [] j inside hit others = absurd (omega arith)
first_conn_lem test i (c ∷ rest) zero inside hit others = rw hit (ap some (omega arith))
first_conn_lem test i (c ∷ rest) (suc j) inside hit others = rw (others 0 (omega arith)) (
    first_conn_lem test (i + 1) rest j (omega arith) hit (λ k h. others (suc k) (omega arith))
    ∙ ap some {x = i + 1 + j} {y = i + suc j} (omega arith))

-- A packet for the port of client j does not belong to another connection.
not_to_other :
    (bound k : ℕ) (s : ConnState) (t : ConnType) (c : Conn) (id : PacketId)
    → c.state ≡ s
    → c.conn_type ≡ t
    → c.sport_outgoing ≡ bound + 1 + k
    → OwnPort bound s t c.sport_outgoing c.idin.dport
    → bound < id.dport
    → id.dport ≢ bound + 1 + k
    → belongs_to id c ≡ false
not_to_other bound k conn_closed t c id state type port own above other = rw state refl
not_to_other bound k conn_open conn_client c id state type port own above other =
    let no : (c.idin.dport == id.dport) ≡ false = ground arith in rw (state, type, no) refl
not_to_other bound k conn_open conn_server c id state type port own above other =
    let no : (c.idin.dport == id.dport) ≡ false = ground arith in rw (state, type, no) refl

-- In a pool where connections keep to their ports, csp_conn_find_existing gives a packet for the
-- port of an open client connection to that connection, whatever its source and source port.
pub find_existing-client :
    (bound j : ℕ) (id : PacketId) (t : Conns)
    → IsPool bound t.arr
    → j < length t.arr
    → (conn_at t.arr j).state ≡ conn_open
    → (conn_at t.arr j).conn_type ≡ conn_client
    → id.dport ≡ bound + 1 + j
    → find_existing id t ≡ some j
unfolding find_existing
find_existing-client bound j id t v inside state type port =
    first_conn_lem (belongs_to id) 0 t.arr j inside (rw (state, type) own_port) (λ k h.
      not_to_other bound k (conn_at t.arr k).state (conn_at t.arr k).conn_type (conn_at t.arr k) id
        refl refl (v.ports k (omega arith)) (v.own k (omega arith)) (omega arith) (omega arith))
    ∙ ap some {x = 0 + j} {y = j} (omega arith)
  where
    own_port : ((conn_at t.arr j).idin.dport == id.dport) ≡ true
    own_port =
        let own : (conn_at t.arr j).idin.dport ≡ (conn_at t.arr j).sport_outgoing =
          rw (state, type) at (v.own j inside) in
        let number = v.ports j inside in ground arith

-- The two arrays differ at i alone, and not in its source port.
pub record SameBut (i : ℕ) (arr arr' : List Conn) : Type 0 where
  pub inside : i < length arr
  pub len : length arr' ≡ length arr
  pub port : (conn_at arr' i).sport_outgoing ≡ (conn_at arr i).sport_outgoing
  pub rest : (j : ℕ) → j ≢ i → conn_at arr' j ≡ conn_at arr j

pub set-SameBut :
    (i : ℕ) (arr : List Conn) (c : Conn)
    → i < length arr
    → c.sport_outgoing ≡ (conn_at arr i).sport_outgoing
    → SameBut i arr (set arr i c)
set-SameBut i arr c inside port = record {
  inside = inside;
  len = length-set arr i c;
  port = ap (λ d. d.sport_outgoing) (get_or-set_self arr i c blank_conn inside) ∙ port;
  rest = λ j ne. get_or-set_other arr i j c blank_conn ne;
}

pub SameBut-trans : (i : ℕ) (a b c : List Conn) → SameBut i a b → SameBut i b c → SameBut i a c
SameBut-trans i a b c f g = record {
  inside = f.inside;
  len = g.len ∙ f.len;
  port = g.port ∙ f.port;
  rest = λ j ne. g.rest j ne ∙ f.rest j ne;
}

pub IsPool-SameBut :
    (bound i : ℕ) (arr arr' : List Conn)
    → IsPool bound arr
    → SameBut i arr arr'
    → Own bound (conn_at arr' i)
    → IsPool bound arr'
IsPool-SameBut bound i arr arr' v same own = record {
  ports = λ j h. elim (Bool-cases (j == i)) [
    | inl here ↦
        let e : j ≡ i = ground arith in
        let number = v.ports i same.inside in rw e (same.port ∙ number)
    | inr other ↦
        ap (λ c. c.sport_outgoing) (same.rest j (ground arith))
        ∙ v.ports j (omega (arith, same.len))
  ];
  own = λ j h. elim (Bool-cases (j == i)) [
    | inl here ↦ let e : j ≡ i = ground arith in rw e own
    | inr other ↦
        subst (Own bound) (sym (same.rest j (ground arith))) (v.own j (omega (arith, same.len)))
  ];
}
