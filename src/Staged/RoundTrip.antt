-- ===== src/Staged/RoundTrip.antt =====
-- crates/persistence/src/trade_writer.rs: the bytes of a staged trade, read back.
use market_data_v.Common.{
  ℕ, zero, suc, ◌+◌, ◌*◌, ◌^◌, ◌%◌, ◌/◌, ◌≤◌, ◌<◌, ◌≡◌, ◌↔◌, refl, sym, ap, ◌∙◌, Bool, true, false,
  Option, none, some, ◌++◌, Bytes, ltb, ◌==◌, length, take, drop, arith, ge→ltb, lt→ltb,
  length-append, take-append_length, drop-append_length, take_all,
}
use market_data_v.Utf8.{is_utf8}
use market_data_v.Staged.{
  Clock, StagedTrade, le, from_le, flag, is_some, flags_of, put, id_len, put_id, encode_wal, bit,
  read_flag, read_text, read_id, ◌>>=◌, decode_rest, decode_wal,
}

-- The number of values of `n` bytes.
abbrev pub words : ℕ → ℕ
words zero = 1
words (suc n) = 256 * words n

from_le-le : (n v : ℕ) → v < words n → from_le (le n v) ≡ v
from_le-le zero v h = omega arith
from_le-le (suc n) v h = omega (arith, from_le-le n (v / 256) (omega arith))

length-le : (n v : ℕ) → length (le n v) ≡ n
length-le zero v = refl
length-le (suc n) v = ap suc (length-le n (v / 256))

-- Every field fits its width, and the time and the trade id are such values.
abbrev pub Fits : ℕ → Option ℕ → Type 0
Fits n none = Unit
Fits n (some v) = v < words n

abbrev pub IsId : Option Bytes → Type 0
IsId none = Unit
IsId (some id) = (length id < 2 ^ 32) × (is_utf8 id ≡ true)

pub record IsStaged ⦃c : Clock⦄ (t : StagedTrade) : Type 0 where
  pub time_fits : t.time.timestamp_micros < words 8
  pub time : c.representable t.time.timestamp_micros ≡ true
  pub asset_id : t.asset_id < words 4
  pub price : t.price < words 8
  pub amount : t.amount < words 8
  pub buyer_id : Fits 4 t.buyer_id
  pub seller_id : Fits 4 t.seller_id
  pub aggressor_side : Fits 2 t.aggressor_side
  pub trade_id : IsId t.trade_id

-- The trade with its time cut to the microsecond.
abbrev pub cut_time : StagedTrade → StagedTrade
cut_time t = record t { time = record { timestamp_micros = t.time.timestamp_micros; nanos = 0 } }

read_flag-put :
    (n : ℕ) (o : Option ℕ) (rest : Bytes)
    → Fits n o
    → read_flag n (is_some o) (put n o ++ rest) ≡ some (o, rest)
unfolding read_flag
read_flag-put n none rest h = refl
read_flag-put n (some v) rest h =
    let m = length-le n v in
    let l : n ≤ length (le n v ++ rest) = omega (arith, m, length-append (le n v) rest) in
    let t : take n (le n v ++ rest) ≡ le n v = rw m at (take-append_length (le n v) rest) in
    let d : drop n (le n v ++ rest) ≡ rest = rw m at (drop-append_length (le n v) rest) in
    rw (ge→ltb (length (le n v ++ rest)) n l, t, d, from_le-le n v h) refl

read_id-put_id : (o : Option Bytes) → IsId o → read_id (is_some o) (put_id o) ≡ some o
unfolding read_id read_text
read_id-put_id none h = refl
read_id-put_id (some id) h =
    let n = length id in
    let len : id_len id ≡ n = rw (lt→ltb n (2 ^ 32) h.0) refl in
    let whole : take n id ≡ id = take_all n id (omega arith) in
    let back : from_le (le 4 (id_len id)) ≡ n =
      ap (λ m. from_le (le 4 m)) len ∙ from_le-le 4 n h.0 in
    let text : read_text n id ≡ some (some id) = rw (ge→ltb n n (omega arith), whole, h.1) refl in
    rw (ge→ltb (suc (suc (suc (suc n)))) 4 (omega arith)) (ap (λ m. read_text m id) back ∙ text)

flag_bound : (b : Bool) → flag b ≤ 1
flag_bound true = omega arith
flag_bound false = omega arith

flag_test : (b : Bool) → (flag b == 1) ≡ b
flag_test true = refl
flag_test false = refl

bits :
    (t : StagedTrade)
    → (bit 0 (flags_of t) ≡ is_some t.buyer_id)
      × (bit 1 (flags_of t) ≡ is_some t.seller_id)
      × (bit 2 (flags_of t) ≡ is_some t.aggressor_side)
      × (bit 3 (flags_of t) ≡ is_some t.trade_id)
      × (bit 4 (flags_of t) ≡ t.is_direct)
unfolding flags_of
bits t =
    let b = flag (is_some t.buyer_id) in
    let s = flag (is_some t.seller_id) in
    let a = flag (is_some t.aggressor_side) in
    let i = flag (is_some t.trade_id) in
    let d = flag t.is_direct in
    let f = b + 2 * s + 4 * a + 8 * i + 16 * d in
    let hb : b ≤ 1 = flag_bound (is_some t.buyer_id) in
    let hs : s ≤ 1 = flag_bound (is_some t.seller_id) in
    let ha : a ≤ 1 = flag_bound (is_some t.aggressor_side) in
    let hi : i ≤ 1 = flag_bound (is_some t.trade_id) in
    let hd : d ≤ 1 = flag_bound t.is_direct in
    let p : f / 1 % 2 ≡ b = omega (arith, hb, hs, ha, hi, hd) in
    let q : f / 2 % 2 ≡ s = omega (arith, hb, hs, ha, hi, hd) in
    let r : f / 4 % 2 ≡ a = omega (arith, hb, hs, ha, hi, hd) in
    let u : f / 8 % 2 ≡ i = omega (arith, hb, hs, ha, hi, hd) in
    let v : f / 16 % 2 ≡ d = omega (arith, hb, hs, ha, hi, hd) in
    (
      ap (λ n. n == 1) p ∙ flag_test (is_some t.buyer_id),
      ap (λ n. n == 1) q ∙ flag_test (is_some t.seller_id),
      ap (λ n. n == 1) r ∙ flag_test (is_some t.aggressor_side),
      ap (λ n. n == 1) u ∙ flag_test (is_some t.trade_id),
      ap (λ n. n == 1) v ∙ flag_test t.is_direct,
    )

module _ ⦃c : Clock⦄ where
  decode_rest_lem :
      (t : StagedTrade)
      → IsStaged t
      → decode_rest t.time.timestamp_micros t.asset_id t.price t.amount
          (flags_of t)
          (put 4 t.buyer_id ++ (put 4 t.seller_id ++ (put 2 t.aggressor_side ++ put_id t.trade_id)))
        ≡ some (cut_time t)
  unfolding decode_rest ◌>>=◌
  decode_rest_lem t h =
      let (b, s, a, i, d) = bits t in
      let rs = put_id t.trade_id in
      let r2 = put 2 t.aggressor_side ++ rs in
      let r1 = put 4 t.seller_id ++ r2 in
      rw
        (
          b,
          read_flag-put 4 t.buyer_id r1 h.buyer_id,
          s,
          read_flag-put 4 t.seller_id r2 h.seller_id,
          a,
          read_flag-put 2 t.aggressor_side rs h.aggressor_side,
          i,
          read_id-put_id t.trade_id h.trade_id,
          h.time,
          d,
        )
        refl

  pub decode_wal-cut_time :
      (t : StagedTrade) → IsStaged t → decode_wal (encode_wal t) ≡ some (cut_time t)
  unfolding decode_wal encode_wal
  decode_wal-cut_time t h =
      let rest =
        put 4 t.buyer_id ++ (put 4 t.seller_id ++ (put 2 t.aggressor_side ++ put_id t.trade_id)) in
      let et : from_le (le 8 t.time.timestamp_micros) ≡ t.time.timestamp_micros =
        from_le-le 8 t.time.timestamp_micros h.time_fits in
      let ei : from_le (le 4 t.asset_id) ≡ t.asset_id = from_le-le 4 t.asset_id h.asset_id in
      let ep : from_le (le 8 t.price) ≡ t.price = from_le-le 8 t.price h.price in
      let ea : from_le (le 8 t.amount) ≡ t.amount = from_le-le 8 t.amount h.amount in
      let ef : flags_of t + 256 * 0 ≡ flags_of t = omega arith in
      let long : ltb (length (encode_wal t)) 29 ≡ false =
        ge→ltb (length (encode_wal t)) 29 (omega arith) in
      rw long (
        ap
          (λ x.
            decode_rest x (from_le (le 4 t.asset_id)) (from_le (le 8 t.price))
              (from_le (le 8 t.amount)) (flags_of t + 256 * 0) rest)
          et
        ∙ ap
            (λ x.
              decode_rest t.time.timestamp_micros x (from_le (le 8 t.price))
                (from_le (le 8 t.amount)) (flags_of t + 256 * 0) rest)
            ei
        ∙ ap
            (λ x.
              decode_rest t.time.timestamp_micros t.asset_id x (from_le (le 8 t.amount))
                (flags_of t + 256 * 0) rest)
            ep
        ∙ ap
            (λ x.
              decode_rest t.time.timestamp_micros t.asset_id t.price x (flags_of t + 256 * 0) rest)
            ea
        ∙ ap (λ x. decode_rest t.time.timestamp_micros t.asset_id t.price t.amount x rest) ef
        ∙ decode_rest_lem t h)

  cut_time_iff : (t : StagedTrade) → (some (cut_time t) ≡ some t) ↔ (t.time.nanos ≡ 0)
  cut_time_iff t =
      (λ e. sym (ap (λ o. elim o [ none ↦ 0 | some x ↦ x.time.nanos ]) e), λ e. rw e refl)

  -- A trade whose fields fit their widths, whose time chrono represents and whose trade id is a text of
  -- less than 2^32 bytes is decoded from its own encoding with every field as it was but the time, which
  -- loses the nanoseconds behind its whole microseconds. So the trade itself is given back exactly if its
  -- time has none.
  pub decode_wal-encode_wal :
      (t : StagedTrade)
      → IsStaged t
      → (decode_wal (encode_wal t) ≡ some (cut_time t))
        × ((decode_wal (encode_wal t) ≡ some t) ↔ (t.time.nanos ≡ 0))
  decode_wal-encode_wal t h = let e = decode_wal-cut_time t h in (e, rw e (cut_time_iff t))
