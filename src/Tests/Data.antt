-- ===== src/Tests/Data.antt =====
-- The concrete data of the runs, and an instance of each interface.
use market_data_v.Common.{
  ℕ, ◌+◌, ◌^◌, ◌≡◌, Bool, true, false, none, some, [], ◌∷◌, Bytes, codes, bytes_eq, if◌then◌else◌,
  ok, All, Bool-cases, inl, inr,
}
use market_data_v.Enums.{Side}
use market_data_v.Shard.{Hasher}
use market_data_v.Types.{FloatText, BookEntry}
use market_data_v.Scanner.Numbers.{Denotes, parse_u16_iff, parse_u32_iff, parse_u64_iff}
use market_data_v.Scanner.{parse_u16, parse_u32, parse_u64}

-- The bit patterns of the decimal texts that the runs use.
instance abbrev pub float_table : FloatText
float_table = record {
  float_of_text = λ b.
      if bytes_eq b (codes "99.5")
      then some 4636737291354636288
      else if bytes_eq b (codes "0")
      then some 0
      else none;
}

abbrev byte_sum : Bytes → ℕ
byte_sum [] = 0
byte_sum (c ∷ cs) = c + byte_sum cs

instance abbrev pub sum_hasher : Hasher
sum_hasher = record { hash = byte_sum }

abbrev pub petr : Bytes
petr = codes "PETR4"

abbrev pub order : Side → ℕ → Bytes → BookEntry
order side position id = record {
  side = side;
  position = position;
  price = 4636737291354636288;
  quantity = 100;
  broker_id = 131;
  timestamp_ddmmhhmm = 11041005;
  order_id = some id;
  offer_type = some b'L';
}

-- A numeral is what its conversion accepts.
pub numeral : (b : Bytes) (n : ℕ) → parse_u32 b "" ≡ ok n → Denotes (2 ^ 32) b n
numeral b n e = (parse_u32_iff b "" n).0 e

pub count : (b : Bytes) (n : ℕ) → parse_u64 b "" ≡ ok n → Denotes (2 ^ 64) b n
count b n e = (parse_u64_iff b "" n).0 e

-- Whether no byte satisfies the test.
abbrev pub none_of : (ℕ → Bool) → Bytes → Bool
none_of p [] = true
none_of p (c ∷ cs) = if p c then false else none_of p cs

pub none_of-All : (p : ℕ → Bool) (b : Bytes) → none_of p b ≡ true → All (λ c. p c ≡ false) b
none_of-All p [] e = tt
none_of-All p (c ∷ cs) e = elim (Bool-cases (p c)) [
  | inl q ↦ absurd (let r : false ≡ true = rw q at e in cc)
  | inr q ↦ (q, none_of-All p cs (rw q at e))
]

pub index : (b : Bytes) (n : ℕ) → parse_u16 b "" ≡ ok n → Denotes (2 ^ 16) b n
index b n e = (parse_u16_iff b "" n).0 e
