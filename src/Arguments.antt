-- ===== src/Arguments.antt =====
-- src/arguments.cpp and src/arguments.h: the options of the profiler.
-- A `char*` is a text or `none` for NULL; an `int` or `long` is an integer in its range; flags that
-- are or-ed together are 32-bit patterns. The double `_minwidth` is the text that `atof` reads.
pub mod Names
pub mod Hashes
pub mod Spelling
pub mod Values
pub mod RateLimits
pub mod Limits
pub mod Handlers
pub mod Parse
pub mod Loop
pub mod Pattern
pub mod Queries
pub mod Completion
pub mod Logging
pub mod LogFile
mod Tests
use async_profiler.Base.{ℕ, ◌*◌, Bool, true, false, List, [], Option, none}
use async_profiler.Base.Int.{ℤ, pos, negsuc}
use async_profiler.Base.Texts.{Text, codes}

abbrev pub default_interval : ℕ
default_interval = 10000000

abbrev pub default_alloc_interval : ℕ
default_alloc_interval = 524287

abbrev pub default_lock_interval : ℕ
default_lock_interval = 10000

abbrev pub default_proc_interval : ℕ
default_proc_interval = 30

abbrev pub default_jstackdepth : ℕ
default_jstackdepth = 2048

abbrev pub event_cpu : Text
event_cpu = codes "cpu"

abbrev pub event_alloc : Text
event_alloc = codes "alloc"

abbrev pub event_nativemem : Text
event_nativemem = codes "nativemem"

abbrev pub event_lock : Text
event_lock = codes "lock"

abbrev pub event_nativelock : Text
event_nativelock = codes "nativelock"

abbrev pub event_signal : Text
event_signal = codes "signal"

pub data Action : Type 0 where
  no_action start resume stop dump status metrics list version : Action

pub data Counter : Type 0 where
  samples total : Counter

pub data SignalCookieDelivery : Type 0 where
  queued coalescing : SignalCookieDelivery

pub data CStack : Type 0 where
  default_stack no_stack fp dwarf vm : CStack

pub data Clock : Type 0 where
  default_clock tsc monotonic : Clock

pub data Output : Type 0 where
  no_output text collapsed flamegraph tree jfr otlp : Output

-- enum JfrOption
abbrev pub in_memory : ℕ
in_memory = 0x100

abbrev pub jfr_sync_opts : ℕ
jfr_sync_opts = 0x1f

pub record StackWalkFeatures : Type 0 where
  pub stats : Bool
  pub jnienv : Bool
  pub agct : Bool
  pub mixed : Bool
  pub vtable_target : Bool
  pub comp_task : Bool
  pub pc_addr : Bool

abbrev pub no_features : StackWalkFeatures
no_features = record {
  stats = false;
  jnienv = false;
  agct = false;
  mixed = false;
  vtable_target = false;
  comp_task = false;
  pc_addr = false;
}

-- The fields of class Arguments, but for the buffer that its texts point into.
pub record Arguments : Type 0 where
  pub action : Action
  pub counter : Counter
  pub event : Option Text
  pub trace : List (Option Text)
  pub timeout : ℤ
  pub loop : ℤ
  pub mem_limit : ℕ
  pub interval : ℤ
  pub alloc : ℤ
  pub nativemem : ℤ
  pub lock : ℤ
  pub nativelock : ℤ
  pub wall : ℤ
  pub proc : ℤ
  pub all : Bool
  pub jstackdepth : ℤ
  pub truncated_stack_depth : ℤ
  pub signal : ℤ
  pub signal_cookie : Bool
  pub signal_cookie_delivery : SignalCookieDelivery
  pub cookie_signal : ℤ
  pub signal_id : Option Text
  pub signal_epoch : ℕ
  pub file : Option Text
  pub log : Option Text
  pub loglevel : Option Text
  pub unknown_arg : Option Text
  pub filter : Option Text
  pub include : List (Option Text)
  pub exclude : List (Option Text)
  pub mcache : ℕ
  pub preloaded : Bool
  pub quiet : Bool
  pub threads : Bool
  pub sched : Bool
  pub record_cpu : Bool
  pub tlab : Bool
  pub live : Bool
  pub nofree : Bool
  pub nobatch : Bool
  pub nostop : Bool
  pub alluser : Bool
  pub fdtransfer : Bool
  pub fdtransfer_path : Option Text
  pub target_cpu : ℤ
  pub style : ℕ
  pub features : StackWalkFeatures
  pub cstack : CStack
  pub clock : Clock
  pub output : Output
  pub rate_limit : ℕ → ℤ
  pub chunk_size : ℤ
  pub chunk_time : ℤ
  pub jfr_sync : Option Text
  pub jfr_options : ℕ
  pub dump_traces : ℤ
  pub dump_flat : ℤ
  pub file_num : ℕ
  pub begin : Option Text
  pub end : Option Text
  pub title : Option Text
  pub minwidth : Option Text
  pub reverse : Bool
  pub inverted : Bool

abbrev pub no_arguments : Arguments
no_arguments = record {
  action = no_action;
  counter = samples;
  event = none;
  trace = [];
  timeout = pos 0;
  loop = pos 0;
  mem_limit = 0;
  interval = pos 0;
  alloc = negsuc 0;
  nativemem = negsuc 0;
  lock = negsuc 0;
  nativelock = negsuc 0;
  wall = negsuc 0;
  proc = negsuc 0;
  all = false;
  jstackdepth = pos default_jstackdepth;
  truncated_stack_depth = pos default_jstackdepth;
  signal = pos 0;
  signal_cookie = false;
  signal_cookie_delivery = queued;
  cookie_signal = pos 0;
  signal_id = none;
  signal_epoch = 0;
  file = none;
  log = none;
  loglevel = none;
  unknown_arg = none;
  filter = none;
  include = [];
  exclude = [];
  mcache = 0;
  preloaded = false;
  quiet = false;
  threads = false;
  sched = false;
  record_cpu = false;
  tlab = false;
  live = false;
  nofree = false;
  nobatch = false;
  nostop = false;
  alluser = false;
  fdtransfer = false;
  fdtransfer_path = none;
  target_cpu = negsuc 0;
  style = 0;
  features = no_features;
  cstack = default_stack;
  clock = default_clock;
  output = no_output;
  rate_limit = λ _. negsuc 0;
  chunk_size = pos (100 * 1024 * 1024);
  chunk_time = pos 3600;
  jfr_sync = none;
  jfr_options = 0;
  dump_traces = pos 0;
  dump_flat = pos 0;
  file_num = 0;
  begin = none;
  end = none;
  title = none;
  minwidth = none;
  reverse = false;
  inverted = false;
}
