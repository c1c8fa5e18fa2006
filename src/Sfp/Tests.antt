-- ===== src/Sfp/Tests.antt =====
-- Runs of csp_sfp.c: four bytes in chunks of three.
use damat_tutorial.Prelude.{
  ℕ, ◌+◌, ◌≡◌, ◌∙◌, refl, sym, true, false, arith, Option, none, some, List, [], ◌∷◌, ◌++◌, map,
  length, length-replicate, replicate, leb, if◌then◌else◌, Bool, get_or, ap, ◌^◌, ◌≤◌,
}
use damat_tutorial.Prelude.Int.{pos, negsuc}
use damat_tutorial.Packet.{Packet}
use damat_tutorial.Packet.Bytes.{write_bytes, read_bytes}
use damat_tutorial.Sfp.{
  Sender, Received, sfp_send, send_loop, fragment, header_add, header_remove, recv_fp, recv_loop,
}
use damat_tutorial.Sfp.Receiving.{with_all}
use damat_tutorial.Sfp.RoundTrip.{arrived, recv_fp-sfp_send}
use damat_tutorial.Sfp.Safety.{IsAllocator, Accounts, recv_fp-Accounts}

abbrev blank : Packet
blank = record {
  id = record { pri = 2; flags = 0; src = 1; dst = 2; dport = 10; sport = 20 };
  len = 0;
  frame_begin = 0;
  frame_length = 0;
  buf = replicate 20 0;
}

abbrev sender : Sender
sender = record { idout = blank.id; supply = some blank ∷ some blank ∷ []; sent = [] }

abbrev text : List ℕ
text = 11 ∷ 22 ∷ 33 ∷ 44 ∷ []

-- A malloc with 100 bytes
abbrev malloc : ℕ → Option (List ℕ)
malloc n = if leb n 100 then some (replicate n 0) else none

abbrev two_fragments : List Packet
unfolding sfp_send send_loop fragment header_add write_bytes
two_fragments = (sfp_send 12 text 4 3 sender).1.sent

short_of_buffers : (sfp_send 12 text 4 3 (record sender { supply = some blank ∷ [] })).0 ≡ negsuc 0
unfolding sfp_send send_loop
short_of_buffers = refl

received_back :
    recv_fp malloc none (arrived (λ k. k + 5) 0 two_fragments) ≡ with_all text 4 (5 ∷ 6 ∷ []) []
unfolding recv_fp recv_loop header_remove two_fragments write_bytes read_bytes
received_back = refl

-- The fragments in the wrong order: the first that comes is refused and freed, the other left.
abbrev swapped : List Received
swapped = arrived (λ k. k + 5) 0 (map (λ k. get_or two_fragments k blank) (1 ∷ 0 ∷ []))

out_of_order :
    recv_fp malloc none swapped
    ≡ some (record {
      code = negsuc 102;
      return_data = none;
      return_datasize = 0;
      freed = 5 ∷ [];
      left = record { buffer = 6; packet = get_or two_fragments 0 blank } ∷ [];
    })
unfolding recv_fp recv_loop header_remove two_fragments write_bytes read_bytes
out_of_order = refl

recv_fp-sfp_send_example :
    (s' : Sender) × (sent : List Packet) × (sfp_send 12 text 4 3 sender ≡ (pos 0, s'))
    × (s'.sent ≡ [] ++ sent)
    × (recv_fp malloc none (arrived (λ k. k + 5) 0 sent ++ swapped)
        ≡ with_all text 4 (map (λ x. x.buffer) (arrived (λ k. k + 5) 0 sent)) swapped)
recv_fp-sfp_send_example =
    recv_fp-sfp_send 12 text (replicate 4 0) 3 sender (blank ∷ blank ∷ []) malloc (λ k. k + 5)
      swapped (omega arith) (omega arith) (omega arith) (omega arith) (omega arith) refl
      (omega arith, (omega arith, tt)) (omega arith) refl refl

malloc-IsAllocator : IsAllocator malloc
malloc-IsAllocator n m e = by_test (leb n 100) refl e
  where
    from_option : Option (List ℕ) → List ℕ
    from_option none = []
    from_option (some m) = m

    by_test :
        (fits : Bool)
        → leb n 100 ≡ fits
        → (if fits then some (replicate n 0) else none) ≡ some m
        → (length m ≡ n) × (n + 2 ^ 16 ≤ 2 ^ 32)
    by_test true fits e =
        (ap (λ o. length (from_option o)) (sym e) ∙ length-replicate n 0, ground arith)
    by_test false fits e = cc

recv_fp-Accounts_example : Accounts (5 ∷ 6 ∷ []) (recv_fp malloc none swapped)
unfolding two_fragments write_bytes
recv_fp-Accounts_example =
    recv_fp-Accounts malloc none swapped malloc-IsAllocator
      ((omega arith, omega arith), ((omega arith, omega arith), tt))
