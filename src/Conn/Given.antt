-- ===== src/Conn/Given.antt =====
-- csp_conn_new: which connection is given, and what it holds.
use native.Mathlib.Nat.{mod-lt}
use mathlib.Core.Path.{subst}
use damat_tutorial.Prelude.{
  ℕ, ◌+◌, ◌%◌, ◌<◌, ◌^◌, ◌≡◌, ◌∙◌, ◌⊎◌, refl, ap, sym, arith, none, some, List, [], inl, inr,
  length, get_or-set_self, set,
}
use damat_tutorial.Packet.{PacketId}
use damat_tutorial.Queue.Fifo.{IsValid, contents}
use damat_tutorial.Conn.Demux.{SameBut, set-SameBut, SameBut-trans}
use damat_tutorial.Conn.Flush.{free_all, flush_rx_queue_lem}
use damat_tutorial.Conn.{
  conn_closed, conn_open, ConnType, Conn, Conns, conn_at, allocate, given, set_up, conn_new,
  blank_conn,
}
use damat_tutorial.Conn.Allocate.{ring, AllOpen, alloc_loop_lem}

-- What csp_conn_new leaves in connection i, which it gives to a caller
pub record Opened (i : ℕ) (conn_type : ConnType) (idin idout : PacketId) (ms : ℕ) (t t' : Conns)
    : Type 0 where
  pub was : (conn_at t.arr i).state ≡ conn_closed
  pub same : SameBut i t.arr t'.arr
  pub state : (conn_at t'.arr i).state ≡ conn_open
  pub type_of : (conn_at t'.arr i).conn_type ≡ conn_type
  pub idin_of : (conn_at t'.arr i).idin ≡ idin
  pub idout_of : (conn_at t'.arr i).idout ≡ idout
  pub timestamp_of : (conn_at t'.arr i).timestamp ≡ ms
  pub valid : IsValid (conn_at t'.arr i).rx_queue
  pub empty : contents none (conn_at t'.arr i).rx_queue ≡ []
  pub freed : t'.pool ≡ free_all (contents none (conn_at t.arr i).rx_queue) t.pool
  pub last_given : t'.last_given ≡ i % 2 ^ 8
  pub conn_out : t'.conn_out ≡ t.conn_out

abbrev pub AllValid : List Conn → Type 0
AllValid arr = (i : ℕ) → i < length arr → IsValid (conn_at arr i).rx_queue

module _ (idin idout : PacketId) (conn_type : ConnType) (ms : ℕ) (t : Conns) (i : ℕ)
    (inside : i < length t.arr) where
  -- The table behind csp_conn_allocate, and that with the identifiers
  after_given : Conns
  after_given = (given conn_type (some i) t).1

  named : Conns
  named = record after_given {
    arr =
        set after_given.arr i
          (record (conn_at after_given.arr i) { idin = idin; idout = idout; timestamp = ms });
  }

  given_at : conn_at after_given.arr i ≡ record (conn_at t.arr i) {
    state = conn_open;
    timestamp = 0;
    conn_type = conn_type;
    idin = record ((conn_at t.arr i).idin) { flags = 0 };
    idout = record ((conn_at t.arr i).idout) { flags = 0 };
  }
  unfolding after_given
  given_at = get_or-set_self t.arr i _ blank_conn inside

  given_SameBut : SameBut i t.arr after_given.arr
  unfolding after_given
  given_SameBut = set-SameBut i t.arr _ inside refl

  named_at : conn_at named.arr i ≡ record (conn_at t.arr i) {
    state = conn_open;
    timestamp = ms;
    conn_type = conn_type;
    idin = idin;
    idout = idout;
  }
  unfolding named
  named_at =
      get_or-set_self after_given.arr i _ blank_conn (omega (arith, given_SameBut.len))
      ∙ ap {A = Conn} {B = Conn} (λ c. record c { idin = idin; idout = idout; timestamp = ms })
          given_at

  named_SameBut : SameBut i t.arr named.arr
  unfolding named
  named_SameBut =
      SameBut-trans i t.arr after_given.arr _ given_SameBut
        (set-SameBut i after_given.arr _ (omega (arith, given_SameBut.len)) refl)

  set_up_lem :
      (conn_at t.arr i).state ≡ conn_closed
      → IsValid (conn_at t.arr i).rx_queue
      → (t' : Conns) × (set_up idin idout ms (given conn_type (some i) t) ≡ (some i, t'))
        × Opened i conn_type idin idout ms t t'
  unfolding named after_given
  set_up_lem was valid =
      let queue : (conn_at named.arr i).rx_queue ≡ (conn_at t.arr i).rx_queue =
        ap (λ c. c.rx_queue) named_at in
      let (q, fine, empty, run) = flush_rx_queue_lem i named (rw queue valid) in
      let t' : Conns = record named {
        arr = set named.arr i (record (conn_at named.arr i) { rx_queue = q });
        pool = free_all (contents none (conn_at named.arr i).rx_queue) t.pool;
      } in
      let at : conn_at t'.arr i ≡ record (conn_at named.arr i) { rx_queue = q } =
        get_or-set_self named.arr i _ blank_conn (omega (arith, named_SameBut.len)) in
      (
        t',
        ap (λ u. (some i, u)) run,
        record {
          was = was;
          same =
              SameBut-trans i t.arr named.arr t'.arr named_SameBut
                (set-SameBut i named.arr _ (omega (arith, named_SameBut.len)) refl);
          state = ap (λ c. c.state) at ∙ ap (λ c. c.state) named_at;
          type_of = ap (λ c. c.conn_type) at ∙ ap (λ c. c.conn_type) named_at;
          idin_of = ap (λ c. c.idin) at ∙ ap (λ c. c.idin) named_at;
          idout_of = ap (λ c. c.idout) at ∙ ap (λ c. c.idout) named_at;
          timestamp_of = ap (λ c. c.timestamp) at ∙ ap (λ c. c.timestamp) named_at;
          valid = subst IsValid (sym (ap (λ c. c.rx_queue) at)) fine;
          empty = ap (λ c. contents none c.rx_queue) at ∙ empty;
          freed = ap (λ w. free_all (contents none w) t.pool) queue;
          last_given = refl;
          conn_out = refl;
        },
      )

-- csp_conn_new on a pool with valid queues: with all connections open it gives none and counts that
-- in csp_dbg_conn_out; else it gives the first closed one behind the last that was given, opens it
-- with the two identifiers, the time and an empty queue, and leaves all others as they are.
pub conn_new_cases :
    (idin idout : PacketId) (conn_type : ConnType) (ms : ℕ) (t : Conns)
    → 0 < length t.arr
    → AllValid t.arr
    → (AllOpen t.arr t.last_given (length t.arr)
        × (conn_new idin idout conn_type ms t
            ≡ (none, record t { conn_out = (t.conn_out + 1) % 2 ^ 8 })))
      ⊎ ((m : ℕ) × (t' : Conns) × (m < length t.arr)
          × AllOpen t.arr t.last_given m
          × (conn_new idin idout conn_type ms t ≡ (some (ring t.arr t.last_given m), t'))
          × Opened (ring t.arr t.last_given m) conn_type idin idout ms t t')
unfolding conn_new allocate
conn_new_cases idin idout conn_type ms t some_conn valid =
    elim (alloc_loop_lem t.arr (length t.arr) t.last_given) [
      | inl (nothing, all) ↦ inl (all, ap (λ o. set_up idin idout ms (given conn_type o t)) nothing)
      | inr (m, less, gives, closed, before) ↦
          let inside : ring t.arr t.last_given m < length t.arr =
            mod-lt (t.last_given + 1 + m) {m = length t.arr} some_conn in
          let (t', run, opened) =
            set_up_lem idin idout conn_type ms t (ring t.arr t.last_given m) inside closed
              (valid (ring t.arr t.last_given m) inside) in
          inr (
            m,
            t',
            less,
            before,
            ap (λ o. set_up idin idout ms (given conn_type o t)) gives ∙ run,
            opened,
          )
    ]
