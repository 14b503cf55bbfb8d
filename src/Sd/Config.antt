-- ===== src/Sd/Config.antt =====
-- `to_cpp_sd_config` of src/opensomeip/_bridge.py. The extension's class `ext.sd.SdConfig` is a
-- parameter: its instances, a new one, and the assignments to its properties, which may raise. A
-- `datetime.timedelta` is its number of milliseconds.
use Prim.Native.String.{String}
use opensomeip_python.Prelude.{
  ℕ, ◌*◌, ◌<◌, ◌≤◌, ◌≡◌, refl, arith, Bool, true, false, ltb, if◌then◌else◌,
}
use opensomeip_python.Exceptions.{Result, ok, err, bind, type_error, overflow_error}
use opensomeip_python.Endpoint.{Endpoint}
use opensomeip_python.Sd.{SdConfig}

pub record ConfigClass (C : Type 0) : Type 0 where
  pub create : Result C
  pub set_multicast_address : String → C → Result C
  pub set_multicast_port : ℕ → C → Result C
  pub set_unicast_address : String → C → Result C
  pub set_unicast_port : ℕ → C → Result C
  pub set_ttl : ℕ → C → Result C
  pub set_repetition_max : ℕ → C → Result C

-- `datetime.timedelta`: fewer than 1000000000 days.
unfoldable pub timedelta : ℕ → Result ℕ
timedelta ms = if ltb ms 86400000000000000 then ok ms else err overflow_error

-- `try: cpp_cfg.field = …` with `except TypeError: pass`
unfoldable pub try_set : {C : Type 0} → C → Result C → Result C
try_set old (ok new) = ok new
try_set old (err type_error) = ok old
try_set old (err e) = err e

unfoldable pub to_cpp_sd_config : {C : Type 0} → ConfigClass C → SdConfig → Result C
unfolding timedelta try_set
to_cpp_sd_config ext config = bind ext.create λ c.
    bind (ext.set_multicast_address config.multicast_endpoint.ip c) λ c.
      bind (ext.set_multicast_port config.multicast_endpoint.port c) λ c.
        bind (ext.set_unicast_address config.unicast_endpoint.ip c) λ c.
          bind (ext.set_unicast_port config.unicast_endpoint.port c) λ c.
            bind (try_set c (bind (timedelta (config.ttl * 1000)) λ d. ext.set_ttl d c)) λ c.
              try_set c
                (bind (timedelta config.repetitions_base_delay_ms) λ d. ext.set_repetition_max d c)

-- The extension never gets the delays of the first offer, the number of repetitions nor the cyclic
-- delay: configurations that differ in these only become the same.
pub to_cpp_sd_config-ignores :
    {C : Type 0} (ext : ConfigClass C) (config : SdConfig) (lo hi repetitions cyclic : ℕ)
    → to_cpp_sd_config ext (record config {
      initial_delay_min_ms = lo;
      initial_delay_max_ms = hi;
      repetitions_max = repetitions;
      cyclic_offer_delay_ms = cyclic;
    })
      ≡ to_cpp_sd_config ext config
unfolding to_cpp_sd_config
to_cpp_sd_config-ignores ext config lo hi repetitions cyclic = refl

-- What a class that only keeps its properties has been given.
pub record Kept : Type 0 where
  pub multicast : Endpoint
  pub unicast : Endpoint
  pub ttl : ℕ
  pub repetition_max : ℕ

-- Such a class; `durations` says whether it accepts a `timedelta`.
unfoldable pub keeping : Kept → Bool → ConfigClass Kept
keeping new durations = record {
  create = ok new;
  set_multicast_address =
      λ ip c. ok (record c { multicast = record { ip = ip; port = c.multicast.port } });
  set_multicast_port =
      λ port c. ok (record c { multicast = record { ip = c.multicast.ip; port = port } });
  set_unicast_address =
      λ ip c. ok (record c { unicast = record { ip = ip; port = c.unicast.port } });
  set_unicast_port =
      λ port c. ok (record c { unicast = record { ip = c.unicast.ip; port = port } });
  set_ttl = λ d c. if durations then ok (record c { ttl = d }) else err type_error;
  set_repetition_max =
      λ d c. if durations then ok (record c { repetition_max = d }) else err type_error;
}

-- With durations that are in the range of `timedelta` such a class is given both endpoints; the time
-- to live in milliseconds and, as the largest repetition, the base delay, if it accepts durations,
-- and otherwise neither, without an exception.
pub to_cpp_sd_config-kept :
    (new : Kept) (durations : Bool) (config : SdConfig)
    → config.ttl < 86400000000000
    → config.repetitions_base_delay_ms < 86400000000000000
    → to_cpp_sd_config (keeping new durations) config
      ≡ ok (record {
        multicast = config.multicast_endpoint;
        unicast = config.unicast_endpoint;
        ttl = if durations then config.ttl * 1000 else new.ttl;
        repetition_max = if durations then config.repetitions_base_delay_ms else new.repetition_max;
      })
unfolding to_cpp_sd_config keeping timedelta try_set
to_cpp_sd_config-kept new true config short_ttl short_delay = ground arith
to_cpp_sd_config-kept new false config short_ttl short_delay = ground arith

-- A longer time to live raises OverflowError, out of the constructors of the server and the client.
pub long_ttl_raises :
    (new : Kept) (durations : Bool) (config : SdConfig)
    → 86400000000000 ≤ config.ttl
    → to_cpp_sd_config (keeping new durations) config ≡ err overflow_error
unfolding to_cpp_sd_config keeping timedelta try_set
long_ttl_raises new durations config long = ground arith
