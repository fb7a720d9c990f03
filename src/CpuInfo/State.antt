-- ===== src/CpuInfo/State.antt =====
-- src/sysinfo.h: struct cpu_info_t. The two floats are only ever assigned integers, which stand
-- here unrounded.
use libsysinfo.Prelude.{Bool, false, List, [], ℤ, pos}
use libsysinfo.Text.{Bytes}

pub record CpuInfo : Type 0 where
  pub processor : ℤ
  pub vendor_id : Bytes
  pub cpu_family : ℤ
  pub model : ℤ
  pub model_name : Bytes
  pub stepping : ℤ
  pub microcode : ℤ
  pub cpu_mhz : ℤ
  pub cache_size : ℤ
  pub physical_id : ℤ
  pub siblings : ℤ
  pub core_id : ℤ
  pub cpu_cores : ℤ
  pub apicid : ℤ
  pub initial_apicid : ℤ
  pub fpu : Bool
  pub fpu_exception : Bool
  pub cpuid_level : ℤ
  pub wp : Bool
  pub flags : List Bytes
  pub bugs : Bytes
  pub bogomips : ℤ
  pub clflush_size : ℤ
  pub cache_alignement : ℤ
  pub address_sizes : Bytes
  pub power_management : Bytes

-- cpu_info_t()
abbrev pub zero_cpu_info : CpuInfo
zero_cpu_info = record {
  processor = pos 0;
  vendor_id = [];
  cpu_family = pos 0;
  model = pos 0;
  model_name = [];
  stepping = pos 0;
  microcode = pos 0;
  cpu_mhz = pos 0;
  cache_size = pos 0;
  physical_id = pos 0;
  siblings = pos 0;
  core_id = pos 0;
  cpu_cores = pos 0;
  apicid = pos 0;
  initial_apicid = pos 0;
  fpu = false;
  fpu_exception = false;
  cpuid_level = pos 0;
  wp = false;
  flags = [];
  bugs = [];
  bogomips = pos 0;
  clflush_size = pos 0;
  cache_alignement = pos 0;
  address_sizes = [];
  power_management = [];
}
