-- ===== src/CircularBuffer/Memory.antt =====
-- The bytes of a buffer as a function of the offset, and the C library's block operations on them.
use mathlib.Core.List.{append-nil}
use gsp.Prelude.{
  take, ℕ, zero, suc, ◌+◌, ◌-◌, ◌≤◌, ◌<◌, ◌≡◌, refl, ap, ap₂, List, [], ◌∷◌, ◌++◌, arith, ltb, leb,
  ◌&&◌, if◌then◌else◌, length, drop, get_or, sym, ◌⊎◌, ◌∙◌,
}

abbrev pub Bytes : Type 0
Bytes = ℕ → ℕ

-- `memset(p, v, n)` at offset 0
abbrev pub fill : Bytes → ℕ → ℕ → Bytes
fill f n v i = if ltb i n then v else f i

-- `memmove(p, p + from, n)`
abbrev pub move_down : Bytes → ℕ → ℕ → Bytes
move_down f from n i = if ltb i n then f (from + i) else f i

-- `memcpy(p + to, src, n)` for the bytes `src`
abbrev pub copy : Bytes → ℕ → List ℕ → Bytes
copy f to src i = if leb to i && ltb i (to + length src) then get_or src (i - to) 0 else f i

-- The `n` bytes from offset `o` on.
abbrev pub window : Bytes → ℕ → ℕ → List ℕ
window f o zero = []
window f o (suc n) = f o ∷ window f (o + 1) n

pub length-window : (f : Bytes) (o n : ℕ) → length (window f o n) ≡ n
length-window f o zero = refl
length-window f o (suc n) = ap suc (length-window f (o + 1) n)

-- Windows agree where the bytes do.
pub window_congr :
    (f g : Bytes) (o p n : ℕ)
    → ((i : ℕ) → i < n → f (o + i) ≡ g (p + i))
    → window f o n ≡ window g p n
window_congr f g o p zero h = refl
window_congr f g o p (suc n) h =
    ap₂ ◌∷◌ (ap f (omega arith) ∙ h 0 (omega arith) ∙ ap g (omega arith)) (
      window_congr f g (o + 1) (p + 1) n
        λ i lt. ap f (omega arith) ∙ h (suc i) (omega arith) ∙ ap g (omega arith))

pub drop-window : (f : Bytes) (o n k : ℕ) → k ≤ n → drop k (window f o n) ≡ window f (o + k) (n - k)
drop-window f o n zero h = ap₂ (window f) (omega arith) (omega arith)
drop-window f o zero (suc k) h = absurd (omega arith)
drop-window f o (suc n) (suc k) h =
    drop-window f (o + 1) n k (omega arith) ∙ ap₂ (window f) (omega arith) (omega arith)

pub window-append :
    (f : Bytes) (o m n : ℕ) → window f o (m + n) ≡ window f o m ++ window f (o + m) n
window-append f o zero n = ap₂ (window f) (omega arith) (omega arith)
window-append f o (suc m) n =
    ap (window f o) {x = suc m + n} {y = suc (m + n)} (omega arith)
    ∙ ap (◌∷◌ (f o)) (
        window-append f (o + 1) m n
        ∙ ap (λ k. window f (o + 1) m ++ window f k n) {x = o + 1 + m} {y = o + suc m}
            (omega arith))

get_or-cons : (x : ℕ) (xs : List ℕ) (j k : ℕ) → k ≡ suc j → get_or (x ∷ xs) k 0 ≡ get_or xs j 0
get_or-cons x xs j k e = rw e

copy_in :
    (f : Bytes) (o : ℕ) (src : List ℕ) (i : ℕ)
    → o ≤ i
    → i < o + length src
    → copy f o src i ≡ get_or src (i - o) 0
copy_in f o src i lo hi = ground arith

copy_tail :
    (f : Bytes) (o x : ℕ) (src : List ℕ) (i : ℕ)
    → i < length src
    → copy f o (x ∷ src) (o + 1 + i) ≡ copy f (o + 1) src (o + 1 + i)
copy_tail f o x src i lt =
    copy_in f o (x ∷ src) (o + 1 + i) (omega arith) (omega arith)
    ∙ get_or-cons x src (o + 1 + i - (o + 1)) (o + 1 + i - o) (omega arith)
    ∙ sym (copy_in f (o + 1) src (o + 1 + i) (omega arith) (omega arith))

copy_head : (f : Bytes) (o x : ℕ) (src : List ℕ) → copy f o (x ∷ src) o ≡ x
copy_head f o x src =
    copy_in f o (x ∷ src) o (omega arith) (omega arith)
    ∙ ap (λ k. get_or (x ∷ src) k 0) {x = o - o} {y = 0} (omega arith)

move_down_at : (f : Bytes) (o n j i : ℕ) → j ≡ i → i < n → move_down f o n j ≡ f (o + i)
move_down_at f o n j i e lt = rw e (ground arith)

-- A copy is read back.
pub window-copy_self :
    (f : Bytes) (o : ℕ) (src : List ℕ) → window (copy f o src) o (length src) ≡ src
window-copy_self f o [] = refl
window-copy_self f o (x ∷ src) = ap₂ ◌∷◌ (copy_head f o x src) (
    window_congr (copy f o (x ∷ src)) (copy f (o + 1) src) (o + 1) (o + 1) (length src)
      (λ i lt. copy_tail f o x src i lt)
    ∙ window-copy_self f (o + 1) src)

-- A copy changes no window beside it.
pub window-copy_apart :
    (f : Bytes) (o : ℕ) (src : List ℕ) (p n : ℕ)
    → (p + n ≤ o) ⊎ (o + length src ≤ p)
    → window (copy f o src) p n ≡ window f p n
window-copy_apart f o src p n apart = window_congr (copy f o src) f p p n λ i lt. ground arith

pub window-move_down : (f : Bytes) (o n : ℕ) → window (move_down f o n) 0 n ≡ window f o n
window-move_down f o n =
    window_congr (move_down f o n) f 0 o n λ i lt. move_down_at f o n (0 + i) i (omega arith) lt

-- The front of a window, whatever follows it.
pub take-window :
    (f : Bytes) (o len n : ℕ) (rest : List ℕ)
    → n ≤ len
    → take n (window f o len ++ rest) ≡ window f o n
take-window f o len zero rest le = refl
take-window f o zero (suc n) rest le = absurd (omega arith)
take-window f o (suc len) (suc n) rest le =
    ap (◌∷◌ (f o)) (take-window f (o + 1) len n rest (omega arith))

pub window-take :
    (f : Bytes) (o len n : ℕ) (xs : List ℕ)
    → n ≤ len
    → window f o len ≡ xs
    → window f o n ≡ take n xs
window-take f o len n xs le e =
    sym (take-window f o len n [] le) ∙ ap (λ l. take n l) (append-nil (window f o len) ∙ e)
