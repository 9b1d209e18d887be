-- ===== src/DummyClients/References.antt =====
-- The reference counts of the clients: who holds a reference.
use gsp.Prelude.{
  ℕ, ◌+◌, ◌-◌, ◌%◌, ◌^◌, ◌≤◌, ◌≡◌, ◌≢◌, refl, sym, ◌∙◌, some, ◌∷◌, arith, ◌==◌, if◌then◌else◌,
  subst, ℕ_discrete, Bool-cases, inl, inr,
}
use gsp.DummyClients.State.{IoType, IoContext, DummyClientSession, Clients, update}
use gsp.DummyClients.{add_ref, release_ref, on_release, decrease_client_session}
use gsp.DummyClients.Counting.{
  total, holds, keeps, cycles, sends, total_self, total_other, total-holds-le,
}

-- 1 for a session that is connected.
abbrev pub linked : DummyClientSession → ℕ
linked c = if c.connected then 1 else 0

-- What holds of the session `t`. `issued t` is 1 from its connect to the completion of its
-- disconnect; `extra` counts the contexts that a handler is working on, `sending` those of a send
-- that are not counted down yet.
pub record Facts (w : Clients) (issued : ℕ → ℕ) (t extra sending : ℕ) : Type 0 where
  pub refs : (w.session t).ref_count ≡ total holds t w.pending + issued t + extra
  pub once : issued t ≤ 1
  pub owner : linked (w.session t) + total keeps t w.pending ≤ issued t
  pub cycle : total cycles t w.pending ≤ 1
  pub sent : total sends t w.pending + sending ≤ (w.session t).send_pending_count
  pub count : (w.session t).send_pending_count ≤ 1

-- Between two rounds.
abbrev pub IsValid : Clients → (ℕ → ℕ) → Type 0
IsValid w issued = (t : ℕ) → Facts w issued t 0 0

-- While a handler works on the session `s`.
pub record Handling (w : Clients) (issued : ℕ → ℕ) (s extra sending : ℕ) : Type 0 where
  pub here : Facts w issued s extra sending
  pub others : (t : ℕ) → t ≢ s → Facts w issued t 0 0

abbrev pub with_session : Clients → ℕ → DummyClientSession → Clients
with_session w s c = record w { session = update w.session s c }

module _ {w : Clients} {issued : ℕ → ℕ} {s extra sending : ℕ}
    (h : Handling w issued s extra sending) where
  pub Handling-put :
      (c : DummyClientSession) (extra' sending' : ℕ)
      → c.ref_count ≡ total holds s w.pending + issued s + extra'
      → linked c + total keeps s w.pending ≤ issued s
      → total sends s w.pending + sending' ≤ c.send_pending_count
      → c.send_pending_count ≤ 1
      → Handling (with_session w s c) issued s extra' sending'
  Handling-put c extra' sending' refs owner sent count = record {
    here = ground (arith, h.here);
    others = λ t ne. ground (arith, h.others t ne);
  }

  -- The same, with what the counts do not speak of changed.
  pub Handling-same :
      (c : DummyClientSession)
      → c.ref_count ≡ (w.session s).ref_count
      → linked c ≤ linked (w.session s)
      → c.send_pending_count ≡ (w.session s).send_pending_count
      → Handling (with_session w s c) issued s extra sending
  Handling-same c refs links count =
      Handling-put c extra sending (refs ∙ h.here.refs) (omega (arith, links, h.here.owner))
        (omega (arith, count, h.here.sent)) (omega (arith, count, h.here.count))

-- The session may have one more context of this type.
abbrev pub Room : Clients → (ℕ → ℕ) → ℕ → ℕ → IoType → Type 0
Room w issued s sending io_type =
    (cycles io_type + total cycles s w.pending ≤ 1)
    × (linked (w.session s) + keeps io_type + total keeps s w.pending ≤ issued s)
    × (sends io_type + total sends s w.pending + sending ≤ (w.session s).send_pending_count)

pub Handling-start :
    {w : Clients} {issued : ℕ → ℕ} {s : ℕ} (c : IoContext) (extra sending : ℕ)
    → c.session ≡ s
    → Room w issued s sending c.io_type
    → {before : ℕ} → Handling w issued s (extra + 1) before
    → Handling (record w { pending = c ∷ w.pending }) issued s extra sending
Handling-start {w} {issued} {s} c extra sending e room h = record {
  here = record {
    refs = omega (arith, h.here.refs, total_self holds s c w.pending e);
    once = h.here.once;
    owner = omega (arith, room.1, total_self keeps s c w.pending e);
    cycle = omega (arith, room.0, total_self cycles s c w.pending e);
    sent = omega (arith, room.2, total_self sends s c w.pending e);
    count = h.here.count;
  };
  others = λ t ne.
      let ne' : c.session ≢ t = λ q. ne (sym q ∙ e) in
      let f : Facts w issued t 0 0 = h.others t ne in
      record {
        refs = omega (arith, f.refs, total_other holds t c w.pending ne');
        once = f.once;
        owner = omega (arith, f.owner, total_other keeps t c w.pending ne');
        cycle = omega (arith, f.cycle, total_other cycles t c w.pending ne');
        sent = omega (arith, f.sent, total_other sends t c w.pending ne');
        count = f.count;
      };
}

-- A session has at most three contexts with the kernel and its own reference.
pub few_refs :
    {w : Clients} {issued : ℕ → ℕ} (t extra sending : ℕ)
    → Facts w issued t extra sending
    → (w.session t).ref_count ≤ 4 + extra
few_refs {w} t extra sending f =
    omega (arith, total-holds-le t w.pending, f.refs, f.once, f.owner, f.cycle, f.sent, f.count)

pub Handling-done :
    {w : Clients} {issued : ℕ → ℕ} {s : ℕ} → Handling w issued s 0 0 → IsValid w issued
Handling-done {w} {issued} {s} h t = elim (ℕ_discrete t s) [
  | yes e ↦ subst (λ k. Facts w issued k 0 0) (sym e) h.here
  | no ne ↦ h.others t ne
]

pub IsValid-Handling :
    {w : Clients} {issued : ℕ → ℕ} (s : ℕ) → IsValid w issued → Handling w issued s 0 0
IsValid-Handling s v = record { here = v s; others = λ t ne. v t }

abbrev with_refs : Clients → ℕ → ℕ → Clients
with_refs w s n = with_session w s (record (w.session s) { ref_count = n })

pub add_ref-Handling :
    {w : Clients} {issued : ℕ → ℕ} {s extra sending : ℕ}
    → Handling w issued s extra sending
    → extra ≤ 2
    → let w' = with_refs w s ((w.session s).ref_count + 1) in
      (add_ref s w ≡ some (tt, w')) × Handling w' issued s (extra + 1) sending
unfolding add_ref
add_ref-Handling {w} {issued} {s} {extra} {sending} h le = (
  ground (arith, few_refs s extra sending h.here),
  Handling-put h (record (w.session s) { ref_count = (w.session s).ref_count + 1 }) (extra + 1)
      sending (omega (arith, h.here.refs)) h.here.owner h.here.sent h.here.count,
)

-- A reference that is given up; with the last one the session is counted as returned.
pub release_ref-Handling :
    {w : Clients} {issued : ℕ → ℕ} {s : ℕ} (extra sending : ℕ)
    → Handling w issued s (extra + 1) sending
    → (w' : Clients) × (release_ref s w ≡ some (tt, w'))
      × Handling w' issued s extra sending
      × (w'.pending ≡ w.pending)
      × (linked (w'.session s) ≡ linked (w.session s))
unfolding release_ref on_release decrease_client_session
release_ref-Handling {w} {issued} {s} extra sending h =
    let w₁ : Clients = with_refs w s ((w.session s).ref_count - 1) in
    let h₁ : Handling w₁ issued s extra sending =
      Handling-put h (record (w.session s) { ref_count = (w.session s).ref_count - 1 }) extra
        sending (omega (arith, h.here.refs)) h.here.owner h.here.sent h.here.count in
    elim (Bool-cases ((w.session s).ref_count == 1)) [
      | inl last ↦ (
        record w₁ { current_return_count = (w₁.current_return_count + 1) % 2 ^ 32 },
        ground (arith, h.here.refs),
        record { here = ground (arith, h₁.here); others = λ t ne. ground (arith, h₁.others t ne) },
        refl,
        ground arith,
      )
      | inr more ↦ (w₁, ground (arith, h.here.refs), h₁, refl, ground arith)
    ]
