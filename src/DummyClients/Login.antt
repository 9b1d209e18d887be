-- ===== src/DummyClients/Login.antt =====
-- The login packet of a client that has nothing else to send.
use gsp.Prelude.{
  ℕ, ◌+◌, ◌^◌, ◌<◌, ◌≡◌, ap, ◌∙◌, true, none, some, List, [], ◌∷◌, ◌++◌, arith, length,
}
use gsp.CircularBuffer.{
  CircularBuffer, make, get_free_space_size, get_buffer, commit, get_contiguious_bytes,
  get_buffer_start,
}
use gsp.CircularBuffer.Memory.{Bytes, window, window-copy_self}
use gsp.CircularBuffer.Queue.{store}
use gsp.DummyClients.State.{
  io_recv_zero, io_connect, IoContext, DummyClientSession, Clients, client_buf_size,
}
use gsp.DummyClients.{new_session}
use gsp.DummyClients.Packets.{Messages, IsSized, login}
use gsp.DummyClients.Framing.{IsPacket, frame, length-frame}
use gsp.DummyClients.Sending.{packet, queued, queued_lem, accepted}

-- A session as it is made, with two references: its own and that of the connect.
abbrev pub fresh : Bytes → Bytes → DummyClientSession
unfolding new_session
fresh recv_bytes send_bytes = record (new_session recv_bytes send_bytes) { ref_count = 2 }

abbrev pub connect_context : ℕ → IoContext
connect_context s = record { session = s; io_type = io_connect; len = 0; buf = none }

abbrev pub recv_zero_context : ℕ → IoContext
recv_zero_context s = record { session = s; io_type = io_recv_zero; len = 0; buf = none }

module _ (P : Messages) (sized : IsSized P) (m : P.Message) (v : IsPacket (packet P 1 m))
    (b : Bytes) where
  abbrev pub login_frame : List ℕ
  login_frame = frame (packet P 1 m)

  -- The send buffer with the login packet.
  abbrev pub greeted : CircularBuffer
  greeted = store (make b client_buf_size) login_frame

  pub frame_size : (length login_frame ≡ P.byte_size m + 4) × (length login_frame < 2 ^ 15 + 4)
  frame_size = (
    omega (arith, length-frame (packet P 1 m), sized m),
    omega (arith, length-frame (packet P 1 m), v),
  )

  pub greeted_region :
      (get_contiguious_bytes greeted ≡ length login_frame)
      × (get_buffer_start greeted ≡ some 0)
      × (window greeted.bytes 0 (length login_frame) ≡ login_frame)
  unfolding store make get_buffer commit get_contiguious_bytes get_buffer_start
  greeted_region = (
    ground (arith, frame_size, length-frame (packet P 1 m)),
    ground (arith, frame_size, length-frame (packet P 1 m)),
    window-copy_self b 0 login_frame,
  )

  pub login_result :
      (s : ℕ) (w : Clients)
      → (w.session s).connected ≡ true
      → (w.session s).send_buffer ≡ make b client_buf_size
      → (w' : Clients) × (login P s m w ≡ some (tt, w'))
        × (w'.session s ≡ record (w.session s) { send_buffer = greeted })
        × (w'.pending ≡ w.pending)
        × (w'.requests ≡ w.requests ++ (s ∷ []))
        × (w'.current_connect_count ≡ w.current_connect_count)
  unfolding login get_free_space_size make
  login_result s w on empty =
      let (w', e, now, pending, requests, count) =
        accepted P s 1 m w on (ground (arith, empty, frame_size)) in
      (
        w',
        ground (arith, e),
        now
            ∙ ap (λ q. record (w.session s) { send_buffer = q })
                (ap (λ q. queued P (get_free_space_size q).1 1 m) empty
                  ∙ queued_lem P sized (make b client_buf_size) 1 m v),
        pending,
        requests,
        count,
      )
