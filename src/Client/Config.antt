-- ===== src/Client/Config.antt =====
-- crates/cedro-client/src/config.rs: the configuration of the connection, and its checks.
-- A duration is its milliseconds, and an `Option` of a core is left as it is. The comparisons of two f64
-- are an argument.
use market_data_v.Common.{
  ℕ, ◌*◌, Bool, ◌&&◌, Option, none, [], ◌∷◌, ◌++◌, Bytes, String, ltb, ◌==◌, length, if◌then◌else◌,
  Result, ok, err,
}
use market_data_v.Common.Text.{decimal}
use market_data_v.Types.{F64}

-- `<=` on f64, false where one is not a number.
pub record FloatOrder : Type 0 where
  pub float_le : F64 → F64 → Bool

pub record ConnectionConfig : Type 0 where
  pub host : Bytes
  pub port : ℕ
  pub software_key : Bytes
  pub username : Bytes
  pub password : Bytes
  pub so_rcvbuf : ℕ
  pub frame_channel_capacity : ℕ
  pub handshake_timeout : ℕ
  pub reader_cpu_affinity : Option ℕ
  pub watchdog_cpu_affinity : Option ℕ
  pub watchdog_interval : ℕ
  pub backpressure_warn_ratio : F64
  pub backpressure_panic_ratio : F64

-- The bit patterns of 0.20, 0.40 and 1.0.
abbrev pub one_fifth : F64
one_fifth = 0x3fc999999999999a

abbrev pub two_fifths : F64
two_fifths = 0x3fd999999999999a

abbrev pub one_f64 : F64
one_f64 = 0x3ff0000000000000

unfoldable pub new : Bytes → Bytes → Bytes → ConnectionConfig
new host username password = record {
  host = host;
  port = 81;
  software_key = [];
  username = username;
  password = password;
  so_rcvbuf = 128 * 1024 * 1024;
  frame_channel_capacity = 2 * 1024 * 1024;
  handshake_timeout = 10000;
  reader_cpu_affinity = none;
  watchdog_cpu_affinity = none;
  watchdog_interval = 100;
  backpressure_warn_ratio = one_fifth;
  backpressure_panic_ratio = two_fifths;
}

unfoldable pub addr : ConnectionConfig → Bytes
addr cfg = cfg.host ++ (b':' ∷ decimal cfg.port)

module _ ⦃o : FloatOrder⦄ where
  -- `(0.0..=1.0).contains(&x)`
  unfoldable pub in_unit : F64 → Bool
  in_unit x = o.float_le 0 x && o.float_le x one_f64

  unfoldable pub validate : ConnectionConfig → Result String (Unit {0})
  validate cfg =
      if length cfg.host == 0
      then err "host is empty"
      else if ltb cfg.so_rcvbuf 1024
      then err "so_rcvbuf is unreasonably small"
      else if cfg.frame_channel_capacity == 0
      then err "frame_channel_capacity must be > 0"
      else if in_unit cfg.backpressure_warn_ratio
      then (if in_unit cfg.backpressure_panic_ratio
          then (if o.float_le cfg.backpressure_panic_ratio cfg.backpressure_warn_ratio
              then err "panic ratio must exceed warn ratio"
              else ok tt)
          else err "backpressure_panic_ratio must be in [0,1]")
      else err "backpressure_warn_ratio must be in [0,1]"
