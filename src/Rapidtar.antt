-- ===== src/Rapidtar.antt =====
-- rapidtar/src/bin/rapidtar.rs: the parameters and the results of rapidtar, and the parts of its run.
pub mod Exchange
pub mod Label
pub mod Recover
pub mod Archive
use rapidtar.Prelude.{ℕ, Bool, false, Option, none, List, [], ◌∷◌}
use rapidtar.Io.{Bytes}
use rapidtar.Tar.FileType.{TarFormat, posix}

pub data TarOperation : Type 0 where
  join create compare list append update extract : TarOperation

-- `Configuration` of librapidarchive/src/tuning.rs.
pub record Configuration : Type 0 where
  pub channel_queue_depth : ℕ
  pub parallel_io_limit : ℕ
  pub blocking_factor : ℕ
  pub serial_buffer_limit : ℕ

abbrev pub default_configuration : Configuration
default_configuration = record {
  channel_queue_depth = 1024;
  parallel_io_limit = 32;
  blocking_factor = 20;
  serial_buffer_limit = 1073741824;
}

pub record TarParameter : Type 0 where
  pub operation : Option TarOperation
  pub format : TarFormat
  pub basepath : Bytes
  pub outfile : Bytes
  pub traversal_list : List Bytes
  pub verbose : Bool
  pub totals : Bool
  pub spanning : Bool
  pub spanning_size_limit : Option ℕ
  pub perf_tuning : Configuration
  pub label_title : Option Bytes

abbrev out_tar : Bytes
out_tar = b'o' ∷ b'u' ∷ b't' ∷ b'.' ∷ b't' ∷ b'a' ∷ b'r' ∷ []

-- `TarParameter::default()` in the working directory `basepath`.
abbrev pub default_parameter : Bytes → TarParameter
default_parameter basepath = record {
  operation = none;
  format = posix;
  basepath = basepath;
  outfile = out_tar;
  traversal_list = [];
  verbose = false;
  totals = false;
  spanning = false;
  spanning_size_limit = none;
  perf_tuning = default_configuration;
  label_title = none;
}

-- The time of the start, which only the console shows, is not kept.
pub record TarResult : Type 0 where
  pub cancelled : Bool
  pub tarball_size : ℕ
  pub volume_count : ℕ

abbrev pub default_result : TarResult
default_result = record { cancelled = false; tarball_size = 0; volume_count = 1 }
