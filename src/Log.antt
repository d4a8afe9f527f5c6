-- ===== src/Log.antt =====
-- rust/src/log.rs: `Buf`, the fixed buffer in which a message is formatted. `emit` hands what `finish`
-- returns to the kernel's printer.
use app_elfloader.Prelude.{
  ℕ, zero, suc, ◌+◌, ◌-◌, ◌≤◌, ◌≡◌, ◌≢◌, refl, sym, ap, ◌∙◌, subst, min, Bool, true, false, ◌&&◌,
  ◌||◌, List, [], ◌∷◌, ◌++◌, length, take, drop, ltb, leb, if◌then◌else◌, arith, le→leb,
  length-append, length-take, length-drop, Bool-cases, inl, inr,
}
use mathlib.Core.List.{append_assoc}
use app_elfloader.Outcome.{
  Outcome, ok, panic, Safe, returns, Safe-ok, Safe-ne_panic, Safe-bind, Safe-bind_is, ◌>>=◌,
}
use app_elfloader.Word.{add64, sub64, Safe-add64, Safe-sub64}

abbrev pub msg_max : ℕ
msg_max = 512

pub record Buf : Type 0 where
  pub b : List ℕ
  pub n : ℕ
  pub truncated : Bool

abbrev zeros : ℕ → List ℕ
zeros zero = []
zeros (suc n) = 0 ∷ zeros n

unfoldable buf_new : Buf
buf_new = record { b = zeros msg_max; n = 0; truncated = false }

-- `b[i..i + xs.len()].copy_from_slice(xs)`, which panics out of range.
unfoldable splice {ℓ} : {E : Type ℓ} → List ℕ → ℕ → List ℕ → Outcome E (List ℕ)
splice b i xs =
    if leb (i + length xs) (length b)
    then ok (take i b ++ (xs ++ drop (i + length xs) b))
    else panic

unfoldable write_str {ℓ} : {E : Type ℓ} → Buf → List ℕ → Outcome E Buf
unfolding splice
write_str buf s = do
  room ← sub64 (msg_max - 1) buf.n
  let taken = min (length s) room
  b ← splice buf.b buf.n (take taken s)
  n ← add64 buf.n taken
  ok (record { b = b; n = n; truncated = buf.truncated || ltb taken (length s) })

-- `write_fmt` writes the pieces of the message, one after another.
unfoldable write_fmt {ℓ} : {E : Type ℓ} → Buf → List (List ℕ) → Outcome E Buf
unfolding write_str
write_fmt buf [] = ok buf
write_fmt buf (s ∷ rest) = write_str buf s >>= λ next. write_fmt next rest

unfoldable finish {ℓ} : {E : Type ℓ} → Buf → Outcome E (List ℕ)
unfolding splice
finish buf =
    if buf.truncated && leb 4 buf.n
    then (do b ← splice buf.b (buf.n - 4) (b'.' ∷ b'.' ∷ b'.' ∷ 0 ∷ []); ok (take buf.n b))
    else (do b ← splice buf.b buf.n (0 ∷ []); n ← add64 buf.n 1; ok (take n b))

-- The message that `emit` hands on.
unfoldable pub message {ℓ} : {E : Type ℓ} → List (List ℕ) → Outcome E (List ℕ)
unfolding buf_new write_fmt finish
message pieces = write_fmt buf_new pieces >>= finish

abbrev pub joined : List (List ℕ) → List ℕ
joined [] = []
joined (s ∷ rest) = s ++ joined rest

-- The buffer holds the first bytes of what was written so far.
record Holds (written : List ℕ) (buf : Buf) : Type 0 where
  size : length buf.b ≡ msg_max
  count : buf.n ≡ min (msg_max - 1) (length written)
  shown : take buf.n buf.b ≡ take buf.n written
  cut : buf.truncated ≡ ltb (msg_max - 1) (length written)

take-append : (n : ℕ) (xs ys : List ℕ) → length xs ≡ n → take n (xs ++ ys) ≡ xs
take-append zero [] ys h = refl
take-append zero (x ∷ xs) ys h = absurd (omega arith)
take-append (suc n) [] ys h = absurd (omega arith)
take-append (suc n) (x ∷ xs) ys h = ap (λ t. x ∷ t) (take-append n xs ys (omega arith))

-- A prefix of a list and what it takes from the next.
take-append_split :
    (n k : ℕ) (xs ys : List ℕ) → n ≡ length xs → take (n + k) (xs ++ ys) ≡ xs ++ take k ys
take-append_split n k [] ys h = ap (λ (m : ℕ). take m ys) (omega arith)
take-append_split zero k (x ∷ xs) ys h = absurd (omega arith)
take-append_split (suc n) k (x ∷ xs) ys h =
    ap (λ (m : ℕ). take m (x ∷ (xs ++ ys))) shift
    ∙ ap (λ t. x ∷ t) (take-append_split n k xs ys (omega arith))
  where
    shift : suc n + k ≡ suc (n + k)
    shift = omega arith

take-whole : (n : ℕ) (xs : List ℕ) → length xs ≤ n → take n xs ≡ xs
take-whole zero [] h = refl
take-whole zero (x ∷ xs) h = absurd (omega arith)
take-whole (suc n) [] h = refl
take-whole (suc n) (x ∷ xs) h = ap (λ t. x ∷ t) (take-whole n xs (omega arith))

Safe-splice {ℓ} :
    {E : Type ℓ} (b : List ℕ) (i : ℕ) (xs : List ℕ)
    → i + length xs ≤ length b
    → Safe {E = E}
        (λ c. (length c ≡ length b) × (take (i + length xs) c ≡ take i b ++ xs))
        (splice b i xs)
unfolding splice
Safe-splice b i xs h = rw (le→leb (i + length xs) (length b) h) (
    returns (
      omega (
        arith,
        length-append (take i b) (xs ++ drop (i + length xs) b),
        length-append xs (drop (i + length xs) b),
        length-take i b,
        length-drop (i + length xs) b,
      ),
      take-append_split i (length xs) (take i b) (xs ++ drop (i + length xs) b)
            (omega (arith, length-take i b))
          ∙ ap (λ t. take i b ++ t) (take-append (length xs) xs (drop (i + length xs) b) refl),
    ))

take-append_left : (n : ℕ) (xs ys : List ℕ) → n ≤ length xs → take n (xs ++ ys) ≡ take n xs
take-append_left zero xs ys h = refl
take-append_left (suc n) [] ys h = absurd (omega arith)
take-append_left (suc n) (x ∷ xs) ys h = ap (λ t. x ∷ t) (take-append_left n xs ys (omega arith))

append-nil : (xs : List ℕ) → xs ++ [] ≡ xs
append-nil [] = refl
append-nil (x ∷ xs) = ap (λ t. x ∷ t) (append-nil xs)

-- What a piece adds to the first 511 bytes.
shown_next :
    (written s : List ℕ) (n taken : ℕ)
    → n ≡ min (msg_max - 1) (length written)
    → taken ≡ min (length s) (msg_max - 1 - n)
    → take n written ++ take taken s ≡ take (n + taken) (written ++ s)
shown_next written s n taken is_n is_taken =
    elim (Bool-cases (ltb (msg_max - 1) (length written))) [
      | inl full ↦
          ap (λ (k : ℕ). take n written ++ take k s) (none_left full)
          ∙ append-nil (take n written)
          ∙ sym (take-append_left n written s (ground arith))
          ∙ ap (λ (k : ℕ). take k (written ++ s)) (same_count (none_left full))
      | inr room ↦
          ap (λ t. t ++ take taken s) (take-whole n written (ground arith))
          ∙ sym (take-append_split n taken written s (ground arith))
    ]
  where
    none_left : ltb (msg_max - 1) (length written) ≡ true → taken ≡ 0
    none_left full = ground arith

    same_count : taken ≡ 0 → n ≡ n + taken
    same_count e = omega arith

Safe-write_str {ℓ} :
    {E : Type ℓ} (written s : List ℕ) (buf : Buf)
    → Holds written buf
    → Safe {E = E} (Holds (written ++ s)) (write_str buf s)
unfolding write_str
Safe-write_str written s buf h =
    Safe-bind_is _ _ (Safe-sub64 (msg_max - 1) buf.n (omega (arith, h.count))) (
      Safe-bind _ _
        (Safe-splice buf.b buf.n (take taken s)
          (omega (arith, h.size, h.count, length-take taken s)))
        λ b (size, shown). Safe-bind_is _ _ (Safe-add64 buf.n taken (omega (arith, h.count))) (
          returns (record {
            size = size ∙ h.size;
            count = omega (arith, h.count, length-append written s);
            shown =
                ap (λ (k : ℕ). take (buf.n + k) b) (omega (arith, length-take taken s))
                ∙ shown
                ∙ ap (λ t. t ++ take taken s) h.shown
                ∙ shown_next written s buf.n taken h.count refl;
            cut = ap (λ t. t || ltb taken (length s)) h.cut ∙ over;
          })))
  where
    taken : ℕ
    taken = min (length s) (msg_max - 1 - buf.n)

    over :
        (ltb (msg_max - 1) (length written) || ltb taken (length s))
        ≡ ltb (msg_max - 1) (length (written ++ s))
    over = ground (arith, h.count, length-append written s)

Safe-write_fmt {ℓ} :
    {E : Type ℓ} (written : List ℕ) (pieces : List (List ℕ)) (buf : Buf)
    → Holds written buf
    → Safe {E = E} (Holds (written ++ joined pieces)) (write_fmt buf pieces)
unfolding write_fmt
Safe-write_fmt written [] buf h = returns (subst (λ w. Holds w buf) (sym (append-nil written)) h)
Safe-write_fmt {E = E} written (s ∷ rest) buf h =
    Safe-bind _ _ (Safe-write_str written s buf h) λ next held.
      subst (λ w. Safe {E = E} (Holds w) (write_fmt next rest))
        (append_assoc written s (joined rest)) (Safe-write_fmt (written ++ s) rest next held)

-- A message of bytes that ends in a NUL, and fits the buffer.
pub record IsMessage (text msg : List ℕ) : Type 0 where
  pub fits : length msg ≤ msg_max
  pub front : List ℕ
  pub terminated : msg ≡ front ++ 0 ∷ []
  pub whole : length text ≤ msg_max - 1 → msg ≡ text ++ 0 ∷ []

Safe-finish {ℓ} :
    {E : Type ℓ} (text : List ℕ) (buf : Buf)
    → Holds text buf
    → Safe {E = E} (IsMessage text) (finish buf)
unfolding finish
Safe-finish text buf h = elim (Bool-cases (buf.truncated && leb 4 buf.n)) [
  | inl cut ↦ rw cut (
      Safe-bind _ _
        (Safe-splice buf.b (buf.n - 4) (b'.' ∷ b'.' ∷ b'.' ∷ 0 ∷ [])
          (omega (arith, h.size, h.count)))
        λ b (size, shown). returns (record {
          fits = omega (arith, h.count, length-take buf.n b);
          front = take (buf.n - 4) buf.b ++ (b'.' ∷ b'.' ∷ b'.' ∷ []);
          terminated =
              ap (λ (k : ℕ). take k b) (long_enough cut)
              ∙ shown
              ∙ sym (append_assoc (take (buf.n - 4) buf.b) (b'.' ∷ b'.' ∷ b'.' ∷ []) (0 ∷ []));
          whole = λ short. absurd (not_cut cut short);
        }))
  | inr all ↦ rw all (
      Safe-bind _ _ (Safe-splice buf.b buf.n (0 ∷ []) (omega (arith, h.size, h.count)))
        λ b (size, shown). Safe-bind_is _ _ (Safe-add64 buf.n 1 (omega (arith, h.count))) (
          returns (record {
            fits = omega (arith, h.count, length-take (buf.n + 1) b);
            front = take buf.n buf.b;
            terminated = shown;
            whole = λ short.
                shown
                ∙ ap (λ t. t ++ 0 ∷ [])
                    (h.shown ∙ take-whole buf.n text (omega (arith, h.count, short)));
          })))
]
  where
    long_enough : (buf.truncated && leb 4 buf.n) ≡ true → buf.n ≡ buf.n - 4 + 4
    long_enough cut = ground arith

    not_cut : (buf.truncated && leb 4 buf.n) ≡ true → length text ≤ msg_max - 1 → ⊥
    not_cut cut short = ground (arith, h.cut)

-- However long its pieces are, a message is formatted without a panic, is no longer than the buffer, and
-- ends in a NUL; when its pieces have 511 bytes at most together, it is all of them and the NUL.
pub message-IsMessage {ℓ} :
    {E : Type ℓ} (pieces : List (List ℕ))
    → (message {E = E} pieces ≢ panic)
      × ((msg : List ℕ) → message {E = E} pieces ≡ ok msg → IsMessage (joined pieces) msg)
unfolding message buf_new
message-IsMessage {E = E} pieces = (Safe-ne_panic safe, λ msg e. Safe-ok safe e)
  where
    safe : Safe {E = E} (IsMessage (joined pieces)) (message pieces)
    safe =
        Safe-bind _ _
          (Safe-write_fmt [] pieces buf_new
            (record { size = refl; count = refl; shown = refl; cut = refl }))
          λ buf held. Safe-finish (joined pieces) buf held
