-- ===== src/Server/Handlers.antt =====
-- Every handler keeps the reference counts while it works on its session.
use gsp.Prelude.{
  ℕ, ◌≡◌, inl, inr, Bool, true, false, Option, none, some, arith, ◌==◌, Bool-cases, to_u32,
}
use gsp.CircularBuffer
use gsp.CircularBuffer.{CircularBuffer}
use gsp.Server.State.{
  io_send, io_recv, io_recv_zero, io_accept, io_disconnect, DisconnectReason, dr_onconnect_error,
  thread_io_worker, ClientSession, Server, Calls, update,
}
use gsp.Server.Counting.{total, cycles}
use gsp.Server.{
  disconnect_request, disconnect_completion, pre_recv, post_recv, post_send, accept_completion,
  setup_ok,
}
use gsp.Server.Invariant.{Handling, Room, with_session, Handling-put}
use gsp.Server.References.{post-Handling, release_ref-Handling}

-- What an action of a handler leaves behind, with the reference counts in order.
abbrev pub Keeps : {A : Type 0} → (ℕ → ℕ) → ℕ → Option (A × Server) → Type 0
Keeps {A} issued s o = (a : A) × (w : Server) × (o ≡ some (a, w)) × Handling w issued s 1

module _ {w : Server} {issued : ℕ → ℕ} {s : ℕ} (h : Handling w issued s 1) where
  pub disconnect_request-Keeps :
      (dr : DisconnectReason) (started : Bool) → Keeps issued s (disconnect_request s dr started w)
  unfolding disconnect_request
  disconnect_request-Keeps dr started = elim (Bool-cases (w.session s).connected) [
    | inr gone ↦ (
      tt,
      with_session w s (record (w.session s) { connected = false }),
      ground arith,
      Handling-put (record (w.session s) { connected = false }) 1 h h.here.refs
          (omega (arith, h.here.owner)),
    )
    | inl live ↦
        let c : ClientSession = record (w.session s) { connected = false } in
        let h' : Handling (with_session w s c) issued s 1 =
          Handling-put c 1 h h.here.refs (omega (arith, h.here.owner)) in
        let (w', e, h'', same) =
          post-Handling 1 io_disconnect 0 none started h' (omega arith) (omega arith)
            (omega (arith, h.here.cycle), ground (arith, h.here.owner)) in
        (tt, w', ground arith, h'')
  ]

  pub pre_recv-Keeps :
      (started : Bool) → total cycles s w.pending ≡ 0 → Keeps issued s (pre_recv s started w)
  unfolding pre_recv
  pre_recv-Keeps started none_posted = elim (Bool-cases (w.session s).connected) [
    | inr gone ↦ (false, w, ground arith, h)
    | inl live ↦
        let (w', e, h', same) =
          post-Handling 1 io_recv_zero 0 none started h (omega arith) (omega arith)
            (omega arith, ground (arith, h.here.owner)) in
        (started, w', ground arith, h')
  ]

  pub post_recv-Keeps :
      (started : Bool) → total cycles s w.pending ≡ 0 → Keeps issued s (post_recv s started w)
  unfolding post_recv
  post_recv-Keeps started none_posted = elim (Bool-cases (w.session s).connected) [
    | inr gone ↦ (false, w, ground arith, h)
    | inl live ↦
        let c : ClientSession = w.session s in
        let (n, b) = CircularBuffer.get_free_space_size c.buffer in
        let (len, b') = CircularBuffer.get_free_space_size b in
        let w' : Server = with_session w s (record c { buffer = b }) in
        let h' : Handling w' issued s 1 =
          Handling-put (record c { buffer = b }) 1 h h.here.refs h.here.owner in
        elim (Bool-cases (n == 0)) [
          | inl full ↦ (false, w', ground arith, h')
          | inr more ↦
              let c'' : ClientSession = record c { buffer = b' } in
              let h'' : Handling (with_session w' s c'') issued s 1 =
                Handling-put c'' 1 h' h.here.refs h.here.owner in
              let (w3, e, h3, same) =
                post-Handling 1 io_recv (to_u32 len) (some (CircularBuffer.get_buffer b')) started
                  h'' (omega arith) (omega arith) (omega arith, ground (arith, h.here.owner)) in
              (started, w3, ground arith, h3)
        ]
  ]

  -- A change of the buffer alone.
  pub buffer-Handling :
      (b : CircularBuffer)
      → Handling (with_session w s (record (w.session s) { buffer = b })) issued s 1
  buffer-Handling b =
      Handling-put (record (w.session s) { buffer = b }) 1 h h.here.refs h.here.owner

  pub post_send-Keeps :
      (started : Bool) → total cycles s w.pending ≡ 0 → Keeps issued s (post_send s started w)
  unfolding post_send
  post_send-Keeps started none_posted = elim (Bool-cases (w.session s).connected) [
    | inr gone ↦ (false, w, ground arith, h)
    | inl live ↦
        let b : CircularBuffer = (w.session s).buffer in
        let n : ℕ = CircularBuffer.get_contiguious_bytes b in
        elim (Bool-cases (n == 0)) [
          | inl idle ↦ (true, w, ground arith, h)
          | inr more ↦
              let (w', e, h', same) =
                post-Handling 1 io_send (to_u32 n) (CircularBuffer.get_buffer_start b) started h
                  (omega arith) (omega arith) (omega arith, ground (arith, h.here.owner)) in
              (started, w', ground arith, h')
        ]
  ]

-- The assertion that the session was not connected holds, since its accept was still pending.
module _ {w : Server} {issued : ℕ → ℕ} {s : ℕ} (h : Handling w issued s 1)
    (room : Room w issued s io_accept) where
  abbrev accepted : Server
  accepted = with_session w s (record (w.session s) { connected = true })

  accepted-Handling : Handling accepted issued s 1
  accepted-Handling =
      Handling-put (record (w.session s) { connected = true }) 1 h h.here.refs
        (omega (arith, room.1))

  fresh_session : (w.session s).connected ≡ false
  fresh_session = ground (arith, room.1, h.here.once)

  pub accept_completion-Keeps :
      (k : Calls) → Keeps issued s (accept_completion thread_io_worker s k w)
  unfolding accept_completion
  accept_completion-Keeps k = elim (Bool-cases (setup_ok k)) [
    | inl good ↦
        let (a, w', e, h') =
          pre_recv-Keeps accepted-Handling k.recv_started (omega (arith, room.0)) in
        (tt, w', ground (arith, fresh_session), h')
    | inr bad ↦
        let (a, w', e, h') =
          disconnect_request-Keeps accepted-Handling dr_onconnect_error k.disconnect_started in
        (tt, w', ground (arith, fresh_session), h')
  ]

-- The session's own reference is given up.
abbrev pub retire : (ℕ → ℕ) → ℕ → ℕ → ℕ
retire issued s = update issued s 0

module _ {w : Server} {issued : ℕ → ℕ} {s : ℕ} (h : Handling w issued s 1)
    (room : Room w issued s io_disconnect) where
  -- The same state, with the reference of the issue counted as the handler's.
  retired : Handling w (retire issued s) s 2
  retired = record {
    here = ground (arith, h.here, room.1);
    others = λ t ne. ground (arith, h.others t ne);
    free = h.free;
    out = h.out;
    bound = h.bound;
  }

  pub disconnect_completion-Keeps : Keeps (retire issued s) s (disconnect_completion s w)
  unfolding disconnect_completion
  disconnect_completion-Keeps =
      let (e, h') = release_ref-Handling 1 retired (omega arith) in (tt, _, e, h')
