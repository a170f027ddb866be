-- ===== src/Frame/Rounds.antt =====
-- One round of a loop on `next_frame`, and what the rounds after it give.
use mathlib.Core.List.{append_assoc}
use market_data_v.Common.{
  ◌<◌, ◌≡◌, sym, ap, ◌∙◌, ◌⊎◌, inl, inr, none, some, List, [], ◌∷◌, ◌++◌, Bytes, length,
  length-append, All, arith,
}
use market_data_v.Memchr.{Memchr}
use market_data_v.Frame.{Frame, FrameSplitter, next_frame, drain}
use market_data_v.Frame.Split.{
  IsPayload, terminator, encode, IsFrame, next_frame-encode, next_frame-payload,
}
use market_data_v.Frame.Stream.{parse_stream, drain-encode}

module _ ⦃m : Memchr⦄ where
  -- A round that finds a frame, and leaves a shorter buffer.
  pub record Found (s : FrameSplitter) : Type 0 where
    pub frame : Frame
    pub rest : FrameSplitter
    pub found : next_frame s ≡ some (frame, rest)
    pub drained : drain s ≡ (frame ∷ (drain rest).0, (drain rest).1)
    pub shorter : length rest.buf < length s.buf

  Found-first :
      (b : Bytes) (fs : List Frame) (tail : Bytes)
      → All IsFrame fs
      → IsPayload tail
      → b ≡ encode fs ++ tail
      → ((next_frame (record { buf = b }) ≡ none)
          × (drain (record { buf = b }) ≡ ([], record { buf = b })))
        ⊎ Found (record { buf = b })
  Found-first b [] tail v t e =
      inl (rw e (next_frame-payload tail t), rw e (drain-encode [] tail tt t))
  Found-first b ((k, p) ∷ fs) tail v t e =
      let behind = encode fs ++ tail in
      let e' : b ≡ p ++ (terminator k ∷ behind) =
        e ∙ append_assoc p (terminator k ∷ encode fs) tail in
      inr (record {
        frame = (k, p);
        rest = record { buf = behind };
        found = rw e' (next_frame-encode k p behind v.0);
        drained =
            ap (λ x. drain (record { buf = x })) e
            ∙ drain-encode ((k, p) ∷ fs) tail v t
            ∙ ap (λ x. ((k, p) ∷ x.0, x.1)) (sym (drain-encode fs tail v.1 t));
        shorter = rw e' (omega (arith, length-append p (terminator k ∷ behind)));
      })

  pub next_frame-cases :
      (s : FrameSplitter) → ((next_frame s ≡ none) × (drain s ≡ ([], s))) ⊎ Found s
  next_frame-cases s =
      let p = parse_stream s.buf in Found-first s.buf p.frames p.tail p.valid p.clean p.whole
