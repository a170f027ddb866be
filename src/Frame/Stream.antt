-- ===== src/Frame/Stream.antt =====
-- The splitter inverts the wire format, and the frames do not depend on how the stream is cut.
use mathlib.Core.List.{append_assoc}
use market_data_v.Common.{
  ℕ, zero, suc, ◌≤◌, ◌≡◌, refl, sym, ap, ◌∙◌, true, false, List, [], ◌∷◌, ◌++◌, ◌==◌, Bytes, length,
  All, All-append, length-append, Bool-cases, inl, inr, arith,
}
use market_data_v.Memchr.{Memchr}
use market_data_v.Frame.{
  FrameKind, bang, newline, Frame, FrameSplitter, extend_from_slice, drain_loop, drain,
}
use market_data_v.Frame.Split.{
  is_terminator, IsPayload, terminator, encode, IsFrame, next_frame-encode, next_frame-payload,
}

pub encode-append : (fs gs : List Frame) → encode (fs ++ gs) ≡ encode fs ++ encode gs
encode-append [] gs = refl
encode-append ((k, p) ∷ fs) gs =
    ap (λ t. p ++ (terminator k ∷ t)) (encode-append fs gs)
    ∙ sym (append_assoc p (terminator k ∷ encode fs) (encode gs))

length-le-encode : (fs : List Frame) → length fs ≤ length (encode fs)
length-le-encode [] = omega arith
length-le-encode ((k, p) ∷ fs) =
    omega (arith, length-append p (terminator k ∷ encode fs), length-le-encode fs)

kind_of : (c : ℕ) → is_terminator c ≡ true → (k : FrameKind) × (c ≡ terminator k)
kind_of c h = elim (Bool-cases (c == b'!')) [
  | inl e ↦ (bang, ground arith)
  | inr e ↦ (newline, ground arith)
]

-- Every byte string is a row of complete frames and a tail with no terminator.
pub record Parsed (b : Bytes) : Type 0 where
  pub frames : List Frame
  pub tail : Bytes
  pub valid : All IsFrame frames
  pub clean : IsPayload tail
  pub whole : b ≡ encode frames ++ tail

parsed-cons : (c : ℕ) (b : Bytes) → is_terminator c ≡ false → Parsed b → Parsed (c ∷ b)
parsed-cons c b h p = go p.frames p.valid p.whole
  where
    go : (fs : List Frame) → All IsFrame fs → b ≡ encode fs ++ p.tail → Parsed (c ∷ b)
    go [] v w = record {
      frames = [];
      tail = c ∷ p.tail;
      valid = tt;
      clean = (h, p.clean);
      whole = ap (λ t. c ∷ t) w;
    }
    go ((k, q) ∷ fs) v w = record {
      frames = (k, c ∷ q) ∷ fs;
      tail = p.tail;
      valid = ((h, v.0), v.1);
      clean = p.clean;
      whole = ap (λ t. c ∷ t) w;
    }

pub parse_stream : (b : Bytes) → Parsed b
parse_stream [] = record { frames = []; tail = []; valid = tt; clean = tt; whole = refl }
parse_stream (c ∷ b) = elim (Bool-cases (is_terminator c)) [
  | inl e ↦
      let p = parse_stream b in
      let (k, q) = kind_of c e in
      record {
        frames = (k, []) ∷ p.frames;
        tail = p.tail;
        valid = (tt, p.valid);
        clean = p.clean;
        whole = ap (λ t. t ∷ b) q ∙ ap (λ t. terminator k ∷ t) p.whole;
      }
  | inr e ↦ parsed-cons c b e (parse_stream b)
]

module _ ⦃m : Memchr⦄ where
  drain_loop-encode :
      (fuel : ℕ) (fs : List Frame) (tail : Bytes)
      → length fs ≤ fuel
      → All IsFrame fs
      → IsPayload tail
      → drain_loop fuel (record { buf = encode fs ++ tail }) ≡ (fs, record { buf = tail })
  unfolding drain_loop
  drain_loop-encode zero [] tail h v t = refl
  drain_loop-encode zero (f ∷ fs) tail h v t = absurd (omega arith)
  drain_loop-encode (suc n) [] tail h v t = rw (next_frame-payload tail t, drain_loop)
  drain_loop-encode (suc n) ((k, p) ∷ fs) tail h v t = rw (
    append_assoc p (terminator k ∷ encode fs) tail,
    next_frame-encode k p (encode fs ++ tail) v.0,
    drain_loop,
    drain_loop-encode n fs tail (omega arith) v.1 t,
  )

  -- Draining the encoding of any frames gives back those frames, in order and with their kinds,
  -- and keeps an unfinished tail, for payloads and a tail that hold no terminator byte.
  pub drain-encode :
      (fs : List Frame) (tail : Bytes)
      → All IsFrame fs
      → IsPayload tail
      → drain (record { buf = encode fs ++ tail }) ≡ (fs, record { buf = tail })
  unfolding drain
  drain-encode fs tail v t =
      drain_loop-encode (length (encode fs ++ tail)) fs tail
        (omega (arith, length-append (encode fs) tail, length-le-encode fs)) v t

  drain-parsed :
      (b : Bytes)
      → drain (record { buf = b })
        ≡ ((parse_stream b).frames, record { buf = (parse_stream b).tail })
  drain-parsed b =
      let p = parse_stream b in
      ap (λ c. drain (record { buf = c })) p.whole ∙ drain-encode p.frames p.tail p.valid p.clean

  -- On any bytes: every frame is free of terminators, nothing is lost or reordered, and what stays
  -- in the buffer holds no complete frame.
  pub drain_lossless :
      (s : FrameSplitter)
      → (encode (drain s).0 ++ (drain s).1.buf ≡ s.buf)
        × All IsFrame (drain s).0
        × IsPayload (drain s).1.buf
  drain_lossless s =
      let p = parse_stream s.buf in rw (drain-parsed s.buf) (sym p.whole, p.valid, p.clean)

  drain-join :
      (b c : Bytes) (fs gs : List Frame) (t u : Bytes)
      → b ≡ encode fs ++ t
      → t ++ c ≡ encode gs ++ u
      → All IsFrame fs
      → All IsFrame gs
      → IsPayload u
      → drain (record { buf = b ++ c }) ≡ (fs ++ gs, record { buf = u })
  drain-join b c fs gs t u e q v w h =
      let whole : b ++ c ≡ encode (fs ++ gs) ++ u =
        ap (λ x. x ++ c) e
        ∙ append_assoc (encode fs) t c
        ∙ ap (λ x. encode fs ++ x) q
        ∙ sym (append_assoc (encode fs) (encode gs) u)
        ∙ ap (λ x. x ++ u) (sym (encode-append fs gs)) in
      rw whole (drain-encode (fs ++ gs) u (All-append IsFrame fs gs v w) h)

  -- Two reads, each drained before the next, give the frames and the buffer of one long read.
  pub drain-extend :
      (s : FrameSplitter) (a b : Bytes)
      → drain (extend_from_slice s (a ++ b)) ≡ (
          let (fs, t) = drain (extend_from_slice s a) in
          let (gs, u) = drain (extend_from_slice t b) in (fs ++ gs, u))
  unfolding extend_from_slice
  drain-extend s a b =
      let p = parse_stream (s.buf ++ a) in
      let q = parse_stream (p.tail ++ b) in
      rw (drain-parsed (s.buf ++ a), drain-parsed (p.tail ++ b), ← append_assoc s.buf a b)
        (drain-join (s.buf ++ a) b p.frames q.frames p.tail q.tail p.whole q.whole p.valid q.valid
          q.clean)
