-- ===== src/Frame/Split.antt =====
-- What the splitter does to a byte stream: it inverts the wire format, and the frames do not
-- depend on how the stream is cut into reads.
use market_data_v.Common.{
  ℕ, zero, suc, ◌≡◌, refl, ap, ◌∙◌, Bool, false, ◌||◌, none, some, List, [], ◌∷◌, ◌++◌, Bytes, ◌==◌,
  get_elem?, take, drop, length, All, arith, take-append_length,
}
use market_data_v.Memchr.{Memchr, memchr2_lem, first_index}
use market_data_v.Frame.{FrameKind, bang, newline, Frame, kind_at, next_frame}

abbrev pub is_terminator : ℕ → Bool
is_terminator c = c == b'\n' || c == b'!'

-- No terminator among the bytes.
abbrev pub IsPayload : Bytes → Type 0
IsPayload = All (λ c. is_terminator c ≡ false)

abbrev pub terminator : FrameKind → ℕ
terminator bang = b'!'
terminator newline = b'\n'

-- The wire format: each payload with the terminator of its kind.
abbrev pub encode : List Frame → Bytes
encode [] = []
encode ((kind, payload) ∷ fs) = payload ++ (terminator kind ∷ encode fs)

abbrev pub IsFrame : Frame → Type 0
IsFrame (kind, payload) = IsPayload payload

-- The search stops at the first terminator.
first_index-append :
    (payload rest : Bytes) (k : FrameKind)
    → IsPayload payload
    → first_index is_terminator (payload ++ (terminator k ∷ rest)) ≡ some (length payload)
unfolding first_index
first_index-append [] rest bang h = refl
first_index-append [] rest newline h = refl
first_index-append (c ∷ cs) rest k h = ground (arith, first_index-append cs rest k h.1)

first_index-payload : (tail : Bytes) → IsPayload tail → first_index is_terminator tail ≡ none
unfolding first_index
first_index-payload [] h = refl
first_index-payload (c ∷ cs) h = ground (arith, first_index-payload cs h.1)

get_elem?-append_length : (xs ys : Bytes) (y : ℕ) → get_elem? (xs ++ (y ∷ ys)) (length xs) ≡ some y
get_elem?-append_length [] ys y = refl
get_elem?-append_length (x ∷ xs) ys y = get_elem?-append_length xs ys y

take-take-suc : (i : ℕ) (xs : Bytes) → take i (take (suc i) xs) ≡ take i xs
take-take-suc zero xs = refl
take-take-suc (suc i) [] = refl
take-take-suc (suc i) (x ∷ xs) = ap (λ t. x ∷ t) (take-take-suc i xs)

drop-append_suc : (xs ys : Bytes) (y : ℕ) → drop (suc (length xs)) (xs ++ (y ∷ ys)) ≡ ys
drop-append_suc [] ys y = refl
drop-append_suc (x ∷ xs) ys y = drop-append_suc xs ys y

kind_at-terminator :
    (payload rest : Bytes) (k : FrameKind)
    → kind_at (payload ++ (terminator k ∷ rest)) (length payload) ≡ k
unfolding kind_at
kind_at-terminator payload rest bang = rw (get_elem?-append_length payload rest b'!', kind_at)
kind_at-terminator payload rest newline = rw (get_elem?-append_length payload rest b'\n', kind_at)

module _ ⦃m : Memchr⦄ where
  -- What a found position makes of a buffer that is not empty.
  next_frame_at :
      (b : ℕ) (bs : Bytes) (i : ℕ)
      → first_index is_terminator (b ∷ bs) ≡ some i
      → next_frame (record { buf = b ∷ bs })
        ≡ some ((kind_at (b ∷ bs) i, take i (b ∷ bs)), record { buf = drop (suc i) (b ∷ bs) })
  unfolding next_frame
  next_frame_at b bs i e =
      rw (memchr2_lem b'\n' b'!' (b ∷ bs), e, take-take-suc i (b ∷ bs), next_frame)

  pub next_frame-encode :
      (k : FrameKind) (payload rest : Bytes)
      → IsPayload payload
      → next_frame (record { buf = payload ++ (terminator k ∷ rest) })
        ≡ some ((k, payload), record { buf = rest })
  next_frame-encode k payload rest h = at payload h
    where
      at :
          (p : Bytes)
          → IsPayload p
          → next_frame (record { buf = p ++ (terminator k ∷ rest) })
            ≡ some ((k, p), record { buf = rest })
      at [] q =
          next_frame_at (terminator k) rest 0 (first_index-append [] rest k q)
          ∙ ap (λ t. some ((t, []), record { buf = rest })) (kind_at-terminator [] rest k)
      at (c ∷ cs) q = rw (
        next_frame_at c (cs ++ (terminator k ∷ rest)) (length (c ∷ cs))
            (first_index-append (c ∷ cs) rest k q),
        kind_at-terminator (c ∷ cs) rest k,
        take-append_length (c ∷ cs) (terminator k ∷ rest),
        drop-append_suc (c ∷ cs) rest (terminator k),
      )

  pub next_frame-payload :
      (tail : Bytes) → IsPayload tail → next_frame (record { buf = tail }) ≡ none
  unfolding next_frame
  next_frame-payload [] h = refl
  next_frame-payload (c ∷ cs) h =
      rw (memchr2_lem b'\n' b'!' (c ∷ cs), first_index-payload (c ∷ cs) h, next_frame)
