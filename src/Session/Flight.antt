-- ===== src/Session/Flight.antt =====
-- The send of a session that the kernel has, and what the send buffer keeps of it.
use gsp.Prelude.{
  ℕ, zero, suc, ◌≤◌, ◌<◌, ◌≡◌, refl, sym, ◌∙◌, ap, inl, inr, Bool, true, false, some, List, [], ◌∷◌,
  ◌++◌, arith, length, take, get_elem?, ◌==◌, ◌&&◌, if◌then◌else◌, Bool-cases, to_u32,
  take-append-drop, ap₂,
}
use mathlib.Core.List.{append-nil}
use gsp.CircularBuffer.{
  CircularBuffer, get_free_space_size, get_contiguious_bytes, get_buffer_start, remove,
}
use gsp.CircularBuffer.Memory.{take-window, window}
use gsp.CircularBuffer.Invariant.{IsValid}
use gsp.CircularBuffer.Queue.{contents, store, offset, contents-remove}
use gsp.Session.State.{IoType, io_send, IoContext}

abbrev is_send : IoType → Bool
is_send io_send = true
is_send _ = false

-- The sends that the kernel has for the session `s`.
abbrev pub sends : ℕ → List IoContext → List IoContext
sends s [] = []
sends s (c ∷ cs) = if c.session == s && is_send c.io_type then c ∷ sends s cs else sends s cs

-- The kernel gives up the context at position `i`.
abbrev pub remove_at : List IoContext → ℕ → List IoContext
remove_at [] i = []
remove_at (c ∷ cs) zero = cs
remove_at (c ∷ cs) (suc i) = c ∷ remove_at cs i

-- The first `n` of the bytes that a context says.
abbrev pub wire : CircularBuffer → IoContext → ℕ → List ℕ
wire b c n = take n (window b.bytes (offset c.buf) c.len)

-- At most one send is with the kernel, and it says where the queue starts.
pub data Flight (b : CircularBuffer) : List IoContext → ℕ → Type 0 where
  landed : Flight b [] 0
  flying : (c : IoContext) → c.buf ≡ some b.a_pointer → c.len ≤ b.a_size → Flight b (c ∷ []) 1

-- The context of a flush.
abbrev pub launched : ℕ → CircularBuffer → IoContext
launched s b = record {
  session = s;
  io_type = io_send;
  len = to_u32 (get_contiguious_bytes b);
  buf = get_buffer_start b;
}

pub few_pending : {b : CircularBuffer} {cs : List IoContext} {n : ℕ} → Flight b cs n → n ≤ 1
few_pending landed = omega arith
few_pending (flying c at fits) = omega arith

-- The region that is being sent stays where it is while bytes are added.
pub Flight-move :
    {b : CircularBuffer} {cs : List IoContext} {n : ℕ} (b' : CircularBuffer)
    → Flight b cs n
    → b'.a_pointer ≡ b.a_pointer
    → b.a_size ≤ b'.a_size
    → Flight b' cs n
Flight-move b' landed e le = landed
Flight-move b' (flying c at fits) e le = flying c (ground arith) (omega arith)

pub store_keeps_front :
    (b : CircularBuffer) (data_bytes : List ℕ)
    → IsValid b
    → length data_bytes ≤ (get_free_space_size b).0
    → ((store (get_free_space_size b).1 data_bytes).a_pointer ≡ b.a_pointer)
      × (b.a_size ≤ (store (get_free_space_size b).1 data_bytes).a_size)
unfolding store get_free_space_size
store_keeps_front b data_bytes v h = ground arith

pub scan_keeps_front :
    (b : CircularBuffer)
    → ((get_free_space_size b).1.a_pointer ≡ b.a_pointer)
      × ((get_free_space_size b).1.a_size ≡ b.a_size)
unfolding get_free_space_size
scan_keeps_front b = ground arith

pub launched-Flight :
    (s : ℕ) (b : CircularBuffer)
    → IsValid b
    → 0 < get_contiguious_bytes b
    → Flight b (launched s b ∷ []) 1
unfolding get_contiguious_bytes get_buffer_start
launched-Flight s b v some_bytes = flying (launched s b) (ground arith) (ground arith)

pub launched_alone :
    (s : ℕ) (cs : List IoContext) (b : CircularBuffer)
    → sends s cs ≡ []
    → sends s (launched s b ∷ cs) ≡ launched s b ∷ []
launched_alone s cs b e = ground arith

pub counted : {b : CircularBuffer} {cs : List IoContext} {n : ℕ} → Flight b cs n → length cs ≡ n
counted landed = refl
counted (flying c at fits) = refl

pub few_sends : {b : CircularBuffer} {cs : List IoContext} {n : ℕ} → Flight b cs n → length cs ≤ 1
few_sends landed = omega arith
few_sends (flying c at fits) = omega arith

pub flown :
    {b : CircularBuffer} {cs : List IoContext} {n : ℕ} (c : IoContext)
    → Flight b cs n
    → cs ≡ c ∷ []
    → (n ≡ 1) × (c.buf ≡ some b.a_pointer) × (c.len ≤ b.a_size)
flown c landed e = absurd (ground arith)
flown c (flying c' at fits) e = (refl, ground arith, ground arith)

pub one_send :
    (s : ℕ) (cs : List IoContext) (i : ℕ) (c : IoContext)
    → get_elem? cs i ≡ some c
    → c.session ≡ s
    → c.io_type ≡ io_send
    → length (sends s cs) ≤ 1
    → (sends s cs ≡ c ∷ []) × (sends s (remove_at cs i) ≡ [])
one_send s [] i c at own kind le = absurd (ground arith)
one_send s (d ∷ cs) zero c at own kind le = (ground arith, ground arith)
one_send s (d ∷ cs) (suc i) c at own kind le =
    elim (Bool-cases (d.session == s && is_send d.io_type)) [
      | inl also ↦ ground (arith, one_send s cs i c at own kind)
      | inr other ↦ ground (arith, one_send s cs i c at own kind)
    ]

-- What the kernel has read is what the completion removes.
pub contents-wire :
    (b : CircularBuffer) (c : IoContext) (n : ℕ)
    → IsValid b
    → c.buf ≡ some b.a_pointer
    → c.len ≤ b.a_size
    → n ≤ c.len
    → contents b ≡ wire b c n ++ contents (remove b n)
contents-wire b c n v from fits le =
    let rest : List ℕ = window b.bytes (offset b.b_pointer) b.b_size in
    let read : wire b c n ≡ window b.bytes b.a_pointer n =
      ap (λ l. take n l)
        (ap (λ p. window b.bytes (offset p) c.len) from
          ∙ sym (append-nil (window b.bytes b.a_pointer c.len)))
      ∙ take-window b.bytes b.a_pointer c.len n [] le in
    sym (take-append-drop n (contents b))
    ∙ ap₂ ◌++◌ (take-window b.bytes b.a_pointer b.a_size n rest (omega arith) ∙ sym read)
        (sym (contents-remove b n v))
