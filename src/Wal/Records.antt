-- ===== src/Wal/Records.antt =====
-- The records of the log, and what a replay finds in a file that ends anywhere.
use market_data_v.Common.{
  ℕ, zero, suc, ◌+◌, ◌-◌, ◌^◌, ◌≤◌, ◌<◌, ◌≡◌, refl, sym, ap, ◌∙◌, true, false, none, some, List, [],
  ◌∷◌, ◌++◌, Bytes, ltb, leb, ◌==◌, if◌then◌else◌, length, take, drop, arith, Bool-cases, inl, inr,
  All, length-append, length-take, take-append_length, drop-append_length, drop-drop, take_all,
  leb→le, ge→ltb, lt→ltb, ==_iff,
}
use mathlib.Core.List.{append_assoc, append-nil}
use market_data_v.Wal.{read_payload, read_record, replay_loop}
use market_data_v.Wal.Crc.{
  compute_crc32, compute_crc32-lt, to_le_bytes, from_le_bytes, from_le_bytes-to_le_bytes,
  length-to_le_bytes,
}

-- The bytes of one record.
unfoldable pub record_bytes : Bytes → Bytes
record_bytes p = to_le_bytes (length p) ++ (p ++ to_le_bytes (compute_crc32 (length p) p))

unfoldable pub log_bytes : List Bytes → Bytes
log_bytes [] = []
log_bytes (p ∷ ps) = record_bytes p ++ log_bytes ps

abbrev pub Fits : Bytes → Type 0
Fits p = length p < 2 ^ 32

-- The records of which the first `k` bytes of the log hold all bytes.
abbrev pub complete : ℕ → List Bytes → List Bytes
complete k [] = []
complete k (p ∷ ps) =
    let rest = complete (k - (8 + length p)) ps in if leb (8 + length p) k then p ∷ rest else []

pub length-record_bytes : (p : Bytes) → length (record_bytes p) ≡ 8 + length p
unfolding record_bytes
length-record_bytes p =
    let c = to_le_bytes (compute_crc32 (length p) p) in
    omega (
      arith,
      length-append (to_le_bytes (length p)) (p ++ c),
      length-append p c,
      length-to_le_bytes (length p),
      length-to_le_bytes (compute_crc32 (length p) p),
    )

take_nil : {A : Type 0} (k : ℕ) → take {A = A} k [] ≡ []
take_nil zero = refl
take_nil (suc k) = refl

take-append :
    {A : Type 0} (k : ℕ) (xs ys : List A) → take k (xs ++ ys) ≡ take k xs ++ take (k - length xs) ys
take-append zero [] ys = refl
take-append (suc k) [] ys = let e : suc k ≡ suc k - 0 = omega arith in ap (λ n. take n ys) e
take-append zero (x ∷ xs) ys =
    let e : 0 ≡ 0 - suc (length xs) = omega arith in ap (λ n. take n ys) e
take-append (suc k) (x ∷ xs) ys =
    let e : k - length xs ≡ suc k - suc (length xs) = omega arith in
    ap (λ t. x ∷ t) (take-append k xs ys ∙ ap (λ n. take k xs ++ take n ys) e)

read_payload_lem :
    (len : ℕ) (body p : Bytes)
    → ltb (length body) (len + 4) ≡ false
    → take len body ≡ p
    → (from_le_bytes (take 4 (drop len body)) == compute_crc32 len p) ≡ true
    → read_payload len body ≡ some (p, drop (len + 4) body)
unfolding read_payload
read_payload_lem len body p y t c = rw (y, t, c) refl

read_payload_short : (len : ℕ) (body : Bytes) → length body < len + 4 → read_payload len body ≡ none
unfolding read_payload
read_payload_short len body h = rw (lt→ltb (length body) (len + 4) h) refl

replay_loop-some :
    (fuel : ℕ) (b p rest : Bytes)
    → read_record b ≡ some (p, rest)
    → replay_loop (suc fuel) b ≡ p ∷ replay_loop fuel rest
unfolding replay_loop
replay_loop-some fuel b p rest e = rw (e, replay_loop) refl

replay_loop-none : (fuel : ℕ) (b : Bytes) → read_record b ≡ none → replay_loop fuel b ≡ []
unfolding replay_loop
replay_loop-none zero b e = refl
replay_loop-none (suc fuel) b e = rw (e, replay_loop) refl

-- A whole record is read, and the loop goes on behind it.
replay_loop-record_bytes :
    (fuel : ℕ) (p rest : Bytes)
    → Fits p
    → replay_loop (suc fuel) (record_bytes p ++ rest) ≡ p ∷ replay_loop fuel rest
unfolding read_record record_bytes to_le_bytes
replay_loop-record_bytes fuel p rest h =
    let n = length p in
    let crc = compute_crc32 n p in
    let c = to_le_bytes crc in
    let body : Bytes = (p ++ c) ++ rest in
    let whole : body ≡ p ++ (c ++ rest) = append_assoc p c rest in
    let total : length body ≡ n + (4 + length rest) =
      omega (arith, length-append (p ++ c) rest, length-append p c) in
    let behind : drop n body ≡ c ++ rest = ap (drop n) whole ∙ drop-append_length p (c ++ rest) in
    let sum : from_le_bytes (take 4 (drop n body)) ≡ crc =
      ap (λ x. from_le_bytes (take 4 x)) behind
      ∙ from_le_bytes-to_le_bytes crc [] (compute_crc32-lt n p) in
    let last : drop (n + 4) body ≡ rest = sym (drop-drop 4 n body) ∙ ap (drop 4) behind in
    let h4 : leb 4 (length (record_bytes p ++ rest)) ≡ true = ground arith in
    let q : read_record (record_bytes p ++ rest) ≡ some (p, rest) = rw (h4) (
      ap (λ l. read_payload l body) (from_le_bytes-to_le_bytes n [] h)
      ∙ read_payload_lem n body p (ge→ltb (length body) (n + 4) (omega (arith, total)))
          (ap (take n) whole ∙ take-append_length p (c ++ rest)) ((==_iff _ crc).1 sum)
      ∙ ap (λ r. some (p, r)) last) in
    replay_loop-some fuel (record_bytes p ++ rest) p rest q

-- Of a record that is not there to its end nothing is read.
read_record_short :
    (k : ℕ) (p : Bytes) → Fits p → k < 8 + length p → read_record (take k (record_bytes p)) ≡ none
unfolding read_record read_payload record_bytes to_le_bytes
read_record_short zero p h l = refl
read_record_short (suc zero) p h l = refl
read_record_short (suc (suc zero)) p h l = refl
read_record_short (suc (suc (suc zero))) p h l = refl
read_record_short (suc (suc (suc (suc k)))) p h l =
    let c = to_le_bytes (compute_crc32 (length p) p) in
    let q : from_le_bytes (to_le_bytes (length p) ++ []) ≡ length p =
      from_le_bytes-to_le_bytes (length p) [] h in
    let body = take k (p ++ c) in
    let m : length body < length p + 4 = omega (arith, length-take k (p ++ c)) in
    let h4 : leb 4 (suc (suc (suc (suc (length body))))) ≡ true = ground arith in
    rw h4 (ap (λ n. read_payload n body) q ∙ read_payload_short (length p) body m)

replay_loop_whole :
    (fuel : ℕ) (p rest : Bytes)
    → Fits p
    → length (record_bytes p ++ rest) ≤ fuel
    → replay_loop fuel (record_bytes p ++ rest) ≡ p ∷ replay_loop (fuel - 1) rest
replay_loop_whole zero p rest h l =
    absurd (omega (arith, length-append (record_bytes p) rest, length-record_bytes p))
replay_loop_whole (suc fuel) p rest h l =
    let e : fuel ≡ suc fuel - 1 = omega arith in
    replay_loop-record_bytes fuel p rest h ∙ ap (λ n. p ∷ replay_loop n rest) e

-- The first `k` bytes of a log yield the records that they hold to the end, in order, if there is a unit
-- of fuel for each byte.
pub replay_loop-take :
    (fuel k : ℕ) (ps : List Bytes)
    → All Fits ps
    → length (take k (log_bytes ps)) ≤ fuel
    → replay_loop fuel (take k (log_bytes ps)) ≡ complete k ps
unfolding log_bytes
replay_loop-take fuel k [] h l =
    ap (replay_loop fuel) (take_nil k) ∙ replay_loop-none fuel [] (unfold read_record in refl)
replay_loop-take fuel k (p ∷ ps) h l =
    let r = record_bytes p in
    let later = log_bytes ps in
    let n = length-record_bytes p in
    let split = take-append k r later in
    elim (Bool-cases (leb (8 + length p) k)) [
      | inl e ↦
          let j : length r ≤ k = omega (arith, n, leb→le (8 + length p) k e) in
          let q : take k (r ++ later) ≡ r ++ take (k - (8 + length p)) later =
            split
            ∙ ap (λ x. x ++ take (k - length r) later) (take_all k r j)
            ∙ ap (λ m. r ++ take (k - m) later) n in
          let s : length (r ++ take (k - (8 + length p)) later) ≤ fuel = rw q at l in
          let m : length r + length (take (k - (8 + length p)) later) ≤ fuel =
            rw (length-append r (take (k - (8 + length p)) later)) at s in
          rw (e, q)
            (replay_loop_whole fuel p (take (k - (8 + length p)) later) h.0 s
              ∙ ap (λ x. p ∷ x)
                  (replay_loop-take (fuel - 1) (k - (8 + length p)) ps h.1 (omega (arith, n, m))))
      | inr e ↦
          let j : k < 8 + length p = ground arith in
          let z : k - length r ≡ 0 = omega (arith, n, j) in
          let q : take k (r ++ later) ≡ take k r =
            split ∙ ap (λ m. take k r ++ take m later) z ∙ append-nil (take k r) in
          rw (e, q) (replay_loop-none fuel (take k r) (read_record_short k p h.0 j))
    ]
