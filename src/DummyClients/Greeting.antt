-- ===== src/DummyClients/Greeting.antt =====
-- The first round of a client: its connection, its login packet, and the send of it.
use gsp.Prelude.{
  ℕ, suc, ◌+◌, ◌-◌, ◌%◌, ◌^◌, ◌≡◌, refl, ap, ◌∙◌, Bool, true, false, ◌&&◌, some, [], ◌∷◌, ◌++◌,
  arith, length, to_u32,
}
use gsp.CircularBuffer.{get_contiguious_bytes, get_buffer_start}
use gsp.CircularBuffer.Memory.{Bytes, window}
use gsp.DummyClients.State.{io_send, DummyClientSession, Clients, M, update}
use gsp.DummyClients.{
  new_session, add_ref, release_ref, new_context, delete_io_context, submit, pre_recv, count_send,
  flush_send, do_send_job, increase_client_session,
}
use gsp.DummyClients.Packets.{Messages, IsSized}
use gsp.DummyClients.Framing.{IsPacket}
use gsp.DummyClients.Sending.{packet}
use gsp.DummyClients.Connect.{Setup, connect_completion}
use gsp.DummyClients.Worker.{Completion, Answers, dispatch, handle, do_iocp_job, run_round}
use gsp.DummyClients.Login.{
  fresh, connect_context, recv_zero_context, login_frame, greeted, frame_size, greeted_region,
  login_result,
}

module _ (P : Messages) (sized : IsSized P) (m : P.Message) (v : IsPacket (packet P 1 m))
    (b : Bytes) where
  module _ (r : Bytes) (s : ℕ) where
    -- Connected, with the zero byte receive posted.
    abbrev connected_session : DummyClientSession
    connected_session = record (fresh r b) { connected = true; ref_count = 3 }

    pre_recv_result :
        (w : Clients)
        → w.session s ≡ fresh r b
        → let w₁ = record w {
          session = update w.session s (record (w.session s) { connected = true });
        } in
          (w' : Clients) × (pre_recv s true w₁ ≡ some (true, w'))
          × (w'.session s ≡ connected_session)
          × (w'.pending ≡ recv_zero_context s ∷ w.pending)
          × (w'.requests ≡ w.requests)
          × (w'.current_connect_count ≡ w.current_connect_count)
    unfolding pre_recv new_context add_ref submit new_session
    pre_recv_result w e =
        let w₁ : Clients = record w {
          session = update w.session s (record (w.session s) { connected = true });
        } in
        let c : DummyClientSession = w₁.session s in
        (
          record w₁ {
            session = update w₁.session s (record c { ref_count = c.ref_count + 1 });
            pending = recv_zero_context s ∷ w.pending;
          },
          ground (arith, e),
          ground (arith, e),
          refl,
          refl,
          refl,
        )

    connect_completion_result :
        (setup : Setup) (w : Clients)
        → w.session s ≡ fresh r b
        → (setup.context_updated && (setup.no_delay_set && setup.receive_buffer_set)) ≡ true
        → (w' : Clients) × (connect_completion P s setup true m w ≡ some (tt, w'))
          × (w'.session s ≡ record connected_session { send_buffer = (greeted P sized m v b) })
          × (w'.pending ≡ recv_zero_context s ∷ w.pending)
          × (w'.requests ≡ w.requests ++ (s ∷ []))
          × (w'.current_connect_count ≡ (w.current_connect_count + 1) % 2 ^ 32)
    unfolding connect_completion increase_client_session new_session
    connect_completion_result setup w e good =
        let (w₂, posted, here, pending, requests, count) = pre_recv_result w e in
        let w₃ : Clients = record w₂ {
          current_connect_count = (w₂.current_connect_count + 1) % 2 ^ 32;
        } in
        let (w', sent, now, pending', requests', count') =
          (login_result P sized m v b) s w₃ (ground (arith, here)) (ground (arith, here)) in
        (
          w',
          ground (arith, e, good, posted, sent),
          ground (arith, now, here),
          pending' ∙ pending,
          requests' ∙ ap (λ l. l ++ (s ∷ [])) requests,
          count' ∙ ap (λ n. (n + 1) % 2 ^ 32) count,
        )

    -- The connect's context is handled and deleted.
    do_iocp_job_result :
        (on_receive : ℕ → M (Unit {0})) (q : Completion) (k : Answers) (w : Clients)
        → w.session s ≡ fresh r b
        → (k.setup.context_updated && (k.setup.no_delay_set && k.setup.receive_buffer_set)) ≡ true
        → k.recv_started ≡ true
        → q.stop_now ≡ false
        → (w' : Clients) × (do_iocp_job P m on_receive (some (connect_context s)) q k w
            ≡ some (true, w'))
          × (w'.session s
              ≡ record connected_session { ref_count = 2; send_buffer = (greeted P sized m v b) })
          × (w'.pending ≡ recv_zero_context s ∷ w.pending)
          × (w'.requests ≡ w.requests ++ (s ∷ []))
          × (w'.current_connect_count ≡ (w.current_connect_count + 1) % 2 ^ 32)
    unfolding do_iocp_job handle dispatch delete_io_context release_ref new_session
    do_iocp_job_result on_receive q k w e good recv go =
        let (w₁, done, here, pending, requests, count) =
          connect_completion_result k.setup w e good in
        let connected : connect_completion P s k.setup k.recv_started m w ≡ some (tt, w₁) =
          ap (λ started. connect_completion P s k.setup started m w) recv ∙ done in
        let c : DummyClientSession = w₁.session s in
        (
          record w₁ { session = update w₁.session s (record c { ref_count = c.ref_count - 1 }) },
          ground (arith, connected, here, go),
          ground (arith, here),
          pending,
          requests,
          count,
        )

    flush_result :
        (disconnect_started : Bool) (w : Clients)
        → w.session s
          ≡ record connected_session { ref_count = 2; send_buffer = (greeted P sized m v b) }
        → (w' : Clients) × (flush_send s true disconnect_started w ≡ some (true, w'))
          × (w'.session s ≡ record connected_session {
            ref_count = 3;
            send_buffer = (greeted P sized m v b);
            send_pending_count = 1;
          })
          × (w'.pending
              ≡ record {
                session = s;
                io_type = io_send;
                len = length (login_frame P sized m v b);
                buf = some 0;
              }
                ∷ w.pending)
          × (w'.requests ≡ w.requests)
          × (w'.current_connect_count ≡ w.current_connect_count)
    unfolding flush_send count_send new_context add_ref submit new_session
    flush_result disconnect_started w e =
        let (size, start, bytes) = (greeted_region P sized m v b) in
        let (whole, small) = (frame_size P sized m v b) in
        let c : DummyClientSession = w.session s in
        let w₁ : Clients = record w {
          session = update w.session s (record c { ref_count = c.ref_count + 1 });
          pending =
              record {
                session = s;
                io_type = io_send;
                len = length (login_frame P sized m v b);
                buf = some 0;
              }
              ∷ w.pending;
        } in
        let c₁ : DummyClientSession = w₁.session s in
        let n : get_contiguious_bytes c.send_buffer ≡ length (login_frame P sized m v b) =
          ap (λ q. get_contiguious_bytes q.send_buffer) e ∙ size in
        let long : to_u32 (get_contiguious_bytes c.send_buffer)
            ≡ length (login_frame P sized m v b) =
          omega (arith, n, small) in
        let at : get_buffer_start c.send_buffer ≡ some 0 =
          ap (λ q. get_buffer_start q.send_buffer) e ∙ start in
        (
          record w₁ {
            session =
                update w₁.session s
                  (record c₁ { send_pending_count = (c₁.send_pending_count + 1) % 2 ^ 32 });
          },
          ground (arith, e, n, long, at),
          ground (arith, e),
          refl,
          refl,
          refl,
        )

    send_job_result :
        (disconnect_started : ℕ → Bool) (fuel : ℕ) (w w' : Clients)
        → w.requests ≡ s ∷ []
        → flush_send s true (disconnect_started (suc fuel)) w ≡ some (true, w')
        → w'.requests ≡ w.requests
        → do_send_job (λ _. true) disconnect_started (suc (suc fuel)) w
          ≡ some (tt, record w' { requests = [] })
    unfolding do_send_job
    send_job_result disconnect_started fuel w w' e flushed same = ground (arith, e, flushed, same)

    -- A worker whose list of requests is empty gets the completed connect of a session that is as
    -- made, with its own and the connect's reference, and with storage of 65536 bytes for each
    -- buffer, and the calls of the socket succeed. For a login request that serializes to its
    -- stated size, below 2 ^ 15, two units of fuel or more are enough: the round returns and goes
    -- on, the session is connected, and the kernel has a zero byte receive and a send of the whole
    -- login packet.
    pub run_round-greets :
        (on_receive : ℕ → M (Unit {0})) (q : Completion) (k : Answers)
        (disconnect_started : ℕ → Bool) (fuel : ℕ) (w : Clients)
        → w.session s ≡ fresh r b
        → w.requests ≡ []
        → (k.setup.context_updated && (k.setup.no_delay_set && k.setup.receive_buffer_set)) ≡ true
        → k.recv_started ≡ true
        → q.stop_now ≡ false
        → (w' : Clients) × (run_round P m on_receive
              (some (connect_context s))
              q
              k
              (λ _. true)
              disconnect_started
              (suc (suc fuel))
              w
            ≡ some (true, w'))
          × ((w'.session s).connected ≡ true)
          × ((w'.session s).ref_count ≡ 3)
          × (w'.requests ≡ [])
          × (w'.pending
              ≡ record {
                session = s;
                io_type = io_send;
                len = length (login_frame P sized m v b);
                buf = some 0;
              }
                ∷ recv_zero_context s
                ∷ w.pending)
          × (window (w'.session s).send_buffer.bytes 0 (length (login_frame P sized m v b))
              ≡ (login_frame P sized m v b))
          × (w'.current_connect_count ≡ (w.current_connect_count + 1) % 2 ^ 32)
    unfolding run_round new_session
    run_round-greets on_receive q k disconnect_started fuel w e none_queued good recv go =
        let (w₁, done, here, pending, requests, count) =
          do_iocp_job_result on_receive q k w e good recv go in
        let (w₂, flushed, here', pending', requests', count') =
          flush_result (disconnect_started (suc fuel)) w₁ here in
        let sent : do_send_job (λ _. true) disconnect_started (suc (suc fuel)) w₁
            ≡ some (tt, record w₂ { requests = [] }) =
          send_job_result disconnect_started fuel w₁ w₂
            (requests ∙ ap (λ l. l ++ (s ∷ [])) none_queued) flushed requests' in
        (
          record w₂ { requests = [] },
          ground (arith, done, sent),
          ground (arith, here'),
          ground (arith, here'),
          refl,
          pending'
              ∙ ap
                  (λ l.
                    record {
                      session = s;
                      io_type = io_send;
                      len = length (login_frame P sized m v b);
                      buf = some 0;
                    }
                    ∷ l)
                  pending,
          ap (λ c. window c.send_buffer.bytes 0 (length (login_frame P sized m v b))) here'
              ∙ (greeted_region P sized m v b).2,
          count' ∙ count,
        )
