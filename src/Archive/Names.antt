-- ===== src/Archive/Names.antt =====
-- The names of the files: the hour that a name stands for.
use market_data_v.Common.{
  bytes_eq, bytes_eq_iff, ℕ, zero, suc, ◌-◌, ◌^◌, ◌<◌, ◌≡◌, refl, sym, ap, ◌∙◌, true, false, List,
  [], ◌∷◌, ◌++◌, Bytes, codes, ◌==◌, ◌↔◌, All, All-append, if◌then◌else◌, length, replicate,
  Bool-cases, inl, inr, arith,
}
use market_data_v.Common.Text.{decimal, IsFree, pieces, pieces_free, pieces-append}
use market_data_v.Scanner.{is_ascii_digit}
use market_data_v.Scanner.Numbers.{IsDigits, value_from}
use market_data_v.Client.Commands.Decimal.{decimal-Denotes, digits-IsFree}
use market_data_v.Archive.{HourKey, same_hour, padded, file_name, Round}

-- The fields fit the types of chrono.
pub record IsHour (k : HourKey) : Type 0 where
  pub year : k.year < 2 ^ 31
  pub month : k.month < 2 ^ 32
  pub day : k.day < 2 ^ 32
  pub hour : k.hour < 2 ^ 32

zeros-IsDigits : (n : ℕ) (b : Bytes) → IsDigits b → IsDigits (replicate n b'0' ++ b)
zeros-IsDigits zero b d = d
zeros-IsDigits (suc n) b d = (refl, zeros-IsDigits n b d)

value-zeros : (n : ℕ) (b : Bytes) → value_from 0 (replicate n b'0' ++ b) ≡ value_from 0 b
value-zeros zero b = refl
value-zeros (suc n) b = value-zeros n b

padded-IsDigits : (width n : ℕ) → n < 2 ^ 32 → IsDigits (padded width n)
unfolding padded
padded-IsDigits width n h =
    zeros-IsDigits (width - length (decimal n)) (decimal n)
      (decimal-Denotes n (2 ^ 32) h (omega arith)).digits

value-padded : (width n : ℕ) → n < 2 ^ 32 → value_from 0 (padded width n) ≡ n
unfolding padded
value-padded width n h =
    value-zeros (width - length (decimal n)) (decimal n)
    ∙ (decimal-Denotes n (2 ^ 32) h (omega arith)).value

-- The piece at a position.
abbrev nth : ℕ → List Bytes → Bytes
nth i [] = []
nth zero (t ∷ ts) = t
nth (suc i) (t ∷ ts) = nth i ts

-- The hour that is read from a name.
hour_of : Bytes → HourKey
hour_of name =
    let days = pieces b'-' name in
    let hours = pieces b'T' (nth 2 days) in
    record {
      year = value_from 0 (nth 0 days);
      month = value_from 0 (nth 1 days);
      day = value_from 0 (nth 0 hours);
      hour = value_from 0 (nth 0 (pieces b'.' (nth 1 hours)));
    }

module _ (k : HourKey) (h : IsHour k) where
  abbrev free :
      (sep width n : ℕ) → is_ascii_digit sep ≡ false → n < 2 ^ 32 → IsFree sep (padded width n)
  free sep width n d l = digits-IsFree sep (padded width n) d (padded-IsDigits width n l)

  year_small : k.year < 2 ^ 32
  year_small = let l = h.year in omega arith

  time_of : Bytes
  time_of = padded 2 k.hour ++ codes ".zst"

  pieces-days :
      pieces b'-' (file_name k)
      ≡ padded 4 k.year ∷ padded 2 k.month ∷ (padded 2 k.day ++ (b'T' ∷ time_of)) ∷ []
  unfolding file_name time_of
  pieces-days =
      let day = padded 2 k.day in
      let rest = day ++ (b'T' ∷ (padded 2 k.hour ++ codes ".zst")) in
      let time_free : IsFree b'-' (padded 2 k.hour ++ codes ".zst") =
        All-append (λ c. (c == b'-') ≡ false) (padded 2 k.hour) (codes ".zst")
          (free b'-' 2 k.hour refl h.hour) (refl, (refl, (refl, (refl, tt)))) in
      let rest_free : IsFree b'-' rest =
        All-append (λ c. (c == b'-') ≡ false) day (b'T' ∷ (padded 2 k.hour ++ codes ".zst"))
          (free b'-' 2 k.day refl h.day) (refl, time_free) in
      pieces-append b'-' (padded 4 k.year) (padded 2 k.month ++ (b'-' ∷ rest))
        (free b'-' 4 k.year refl year_small)
      ∙ ap (λ ts. padded 4 k.year ∷ ts)
          (pieces-append b'-' (padded 2 k.month) rest (free b'-' 2 k.month refl h.month)
            ∙ ap (λ ts. padded 2 k.month ∷ ts) (pieces_free b'-' rest rest_free))

  pieces-times : pieces b'T' (padded 2 k.day ++ (b'T' ∷ time_of)) ≡ padded 2 k.day ∷ time_of ∷ []
  unfolding time_of
  pieces-times =
      pieces-append b'T' (padded 2 k.day) time_of (free b'T' 2 k.day refl h.day)
      ∙ ap (λ ts. padded 2 k.day ∷ ts)
          (pieces_free b'T' time_of (
            All-append (λ c. (c == b'T') ≡ false) (padded 2 k.hour) (codes ".zst")
              (free b'T' 2 k.hour refl h.hour) (refl, (refl, (refl, (refl, tt))))))

  pieces-endings : pieces b'.' time_of ≡ padded 2 k.hour ∷ codes "zst" ∷ []
  unfolding time_of
  pieces-endings =
      pieces-append b'.' (padded 2 k.hour) (codes "zst") (free b'.' 2 k.hour refl h.hour)
      ∙ ap (λ ts. padded 2 k.hour ∷ ts) (pieces_free b'.' (codes "zst") (refl, (refl, (refl, tt))))

  hour_of-file_name : hour_of (file_name k) ≡ k
  unfolding hour_of
  hour_of-file_name =
      rw
        (
          pieces-days,
          nth,
          pieces-times,
          nth,
          pieces-endings,
          nth,
          value-padded 4 k.year year_small,
          value-padded 2 k.month h.month,
          value-padded 2 k.day h.day,
          value-padded 2 k.hour h.hour,
        )
        refl

same_hour_iff : (a b : HourKey) → (same_hour a b ≡ true) ↔ (a ≡ b)
unfolding same_hour
same_hour_iff a b = ground arith

bytes_eq-file_name :
    (a b : HourKey) → IsHour a → IsHour b → bytes_eq (file_name a) (file_name b) ≡ same_hour a b
bytes_eq-file_name a b ha hb = elim (Bool-cases (same_hour a b)) [
  | inl e ↦
      let q : a ≡ b = (same_hour_iff a b).0 e in
      (bytes_eq_iff (file_name a) (file_name b)).1 (ap file_name q) ∙ sym e
  | inr e ↦ elim (Bool-cases (bytes_eq (file_name a) (file_name b))) [
    | inl q ↦
        let n : file_name a ≡ file_name b = (bytes_eq_iff (file_name a) (file_name b)).0 q in
        let same : a ≡ b = sym (hour_of-file_name a ha) ∙ ap hour_of n ∙ hour_of-file_name b hb in
        let t : same_hour a b ≡ true = (same_hour_iff a b).1 same in absurd (cc)
    | inr q ↦ q ∙ sym e
  ]
]

-- The frames that came in an hour.
abbrev pub frames_of : HourKey → List Round → List Bytes
frames_of key [] = []
frames_of key (r ∷ rs) =
    if same_hour r.now key then r.frame ∷ frames_of key rs else frames_of key rs

-- The frames whose hour has the file.
abbrev pub frames_in : Bytes → List Round → List Bytes
frames_in name [] = []
frames_in name (r ∷ rs) =
    if bytes_eq (file_name r.now) name then r.frame ∷ frames_in name rs else frames_in name rs

-- A file holds the frames of one hour.
pub frames_in-file_name :
    (key : HourKey) (rs : List Round)
    → IsHour key
    → All (λ r. IsHour r.now) rs
    → frames_in (file_name key) rs ≡ frames_of key rs
frames_in-file_name key [] h hs = refl
frames_in-file_name key (r ∷ rs) h hs =
    rw (bytes_eq-file_name r.now key hs.0 h, frames_in-file_name key rs h hs.1) refl
